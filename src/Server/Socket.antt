-- ===== src/Server/Socket.antt =====
-- How `Http_Server` of src/http_server/http_server.cpp reads a request from a connection: the header
-- up to the empty line, then the content. What `read` returns is a parameter, the list of the pieces
-- it hands out before it fails, times out or ends.
pub mod Whole
pub mod Write
use dlg_service.Prelude.{
  ℕ, zero, suc, ◌+◌, ◌-◌, ◌≤◌, ◌<◌, Option, none, some, List, [], ◌∷◌, ◌++◌, leb, ◌==◌,
  if◌then◌else◌, Bytes, length, take, drop, find,
}
use dlg_service.Index.Types.{c_str}

-- "\r\n\r\n"
abbrev pub empty_line : Bytes
empty_line = 13 ∷ 10 ∷ 13 ∷ 10 ∷ []

-- What a reading step gives: its result, the buffer of the connection, and the pieces still to come.
pub record Reading {ℓ} (A : Type ℓ) : Type ℓ where
  pub result : A
  pub buffer : Bytes
  pub pieces : List Bytes

-- `read_http_header_timeout`; `none` is -1. A piece is appended as a C string.
unfoldable pub read_http_header : List Bytes → Bytes → Reading (Option Bytes)
read_http_header [] buffer = elim (find buffer empty_line) [
  | none ↦ record { result = none; buffer = buffer; pieces = [] }
  | some pos ↦ record {
    result = some (take pos buffer);
    buffer = drop (pos + 4) buffer;
    pieces = [];
  }
]
read_http_header (p ∷ pieces) buffer =
    let more = read_http_header pieces (buffer ++ c_str p) in
    elim (find buffer empty_line) [
      | none ↦ more
      | some pos ↦ record {
        result = some (take pos buffer);
        buffer = drop (pos + 4) buffer;
        pieces = p ∷ pieces;
      }
    ]

-- The loop of `readn_timeout`, with what is in `content` so far.
unfoldable pub readn_loop : ℕ → List Bytes → Bytes → Reading Bytes
readn_loop left [] content = record { result = content; buffer = []; pieces = [] }
readn_loop left (p ∷ pieces) content =
    let more = readn_loop (left - length p) pieces (content ++ p) in
    if left == 0 then record { result = content; buffer = []; pieces = p ∷ pieces } else more

-- `readn_timeout`: the content; its length is the number that is returned.
unfoldable pub readn : ℕ → List Bytes → Bytes → Reading Bytes
readn buf_len pieces buffer =
    if leb buf_len (length buffer)
    then record { result = take buf_len buffer; buffer = drop buf_len buffer; pieces = pieces }
    else readn_loop (buf_len - length buffer) pieces buffer

-- `recv_request` up to the handler: header and content of the request, or `none` where it is refused.
-- `content_len` is what `GetInfo` makes of a header.
unfoldable pub recv_request :
    (Bytes → Option ℕ) → List Bytes → Bytes → Reading (Option (Bytes × Bytes))
recv_request content_len pieces buffer =
    let head = read_http_header pieces buffer in
    elim head.result [
      | none ↦ record { result = none; buffer = head.buffer; pieces = head.pieces }
      | some header ↦ elim (content_len header) [
        | none ↦ record { result = none; buffer = head.buffer; pieces = head.pieces }
        | some len ↦
            let body = readn len head.pieces head.buffer in
            record {
              result = if length body.result == len then some (header, body.result) else none;
              buffer = body.buffer;
              pieces = body.pieces;
            }
      ]
    ]
