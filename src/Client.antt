-- ===== src/Client.antt =====
-- `HttpClient` of src/http_client/HttpClient.cpp: how a response is read. The connection is a state of
-- its own, and `read_data` a step on it that hands out no byte at its end or on an error.
pub mod Blocks
pub mod Header
pub mod Recv
pub mod Answer
pub mod Exchange
use Prim.Native.Nat.{min}
use dlg_service.Prelude.{
  ℕ, zero, suc, ◌+◌, ◌-◌, ◌%◌, ◌^◌, ◌||◌, ◌≤◌, ◌<◌, ◌≡◌, Option, none, some, List, [], ◌∷◌, ◌++◌,
  leb, ltb, ◌==◌, if◌then◌else◌, Bytes, length, take, drop, find,
}
use dlg_service.Index.Types.{c_str}
use dlg_service.Server.Socket.{empty_line}

-- `READ_BUF_SIZE`
abbrev pub read_buf_size : ℕ
read_buf_size = 64

-- "Content-Length:" and "Transfer-Encoding: chunked"
abbrev pub content_length_mark : Bytes
content_length_mark =
    b'C' ∷ b'o' ∷ b'n' ∷ b't' ∷ b'e' ∷ b'n' ∷ b't' ∷ b'-' ∷ b'L' ∷ b'e' ∷ b'n' ∷ b'g' ∷ b't' ∷ b'h'
    ∷ b':' ∷ []

abbrev pub chunked_mark : Bytes
chunked_mark =
    b'T' ∷ b'r' ∷ b'a' ∷ b'n' ∷ b's' ∷ b'f' ∷ b'e' ∷ b'r' ∷ b'-' ∷ b'E' ∷ b'n' ∷ b'c' ∷ b'o' ∷ b'd'
    ∷ b'i' ∷ b'n' ∷ b'g' ∷ b':' ∷ b' ' ∷ b'c' ∷ b'h' ∷ b'u' ∷ b'n' ∷ b'k' ∷ b'e' ∷ b'd' ∷ []

-- What `recv` comes to: header and body, -2, -3, -1, or a write outside the caller's buffer or, for chunks,
-- through NULL.
pub data Received : Type 0 where
  received : Bytes → Bytes → Received
  invalid_header : Received
  not_enough_buff : Received
  read_timeout : Received
  outside : Received

module _ {ℓ} {S : Type ℓ} (read_data : ℕ → S → Bytes × S) where
  -- The loop of `readn_timeout`, on fuel; the number of the bytes is what it returns.
  unfoldable pub readn_loop : ℕ → ℕ → S → Bytes → Bytes × S
  readn_loop zero left s buf = (buf, s)
  readn_loop (suc fuel) left s buf =
      let r = read_data (min left read_buf_size) s in
      let rest = readn_loop fuel (left - length r.0) r.1 (buf ++ r.0) in
      if left == 0 then (buf, s) else if length r.0 == 0 then (buf, r.1) else rest

  -- `readn_timeout`, for at least one byte: every read that goes on takes one.
  unfoldable pub readn : ℕ → S → Bytes × S
  readn need_to_read s = readn_loop need_to_read need_to_read s []

  -- `read_http_header_timeout`, on fuel: the header and the beginning of the body, or (none) -1.
  unfoldable pub read_header : ℕ → S → Bytes → Option (Bytes × Bytes) × S
  read_header zero s header = (none, s)
  read_header (suc fuel) s header =
      let r = readn read_buf_size s in
      let more = read_header fuel r.1 (header ++ c_str r.0) in
      if length r.0 == 0 then (none, r.1) else elim (find (c_str r.0) empty_line) [
        | none ↦ more
        | some pos ↦ (some (header ++ take (pos + 4) r.0, drop (pos + 4) r.0), r.1)
      ]

  -- `scan` is what `sscanf` stores of the text from "Content-Length:" on, an unsigned number, and what is left to
  -- read is an `int`; the fuel is for the header.
  module _ (scan : Bytes → ℕ) (fuel max_buf_len : ℕ) where
    -- `recv` behind the header.
    unfoldable pub recv_body : Bytes → Bytes → S → Received × S
    recv_body header part_body s = elim (find header content_length_mark) [
      | none ↦ elim (find header chunked_mark) [
        | none ↦ (invalid_header, s)
        | some i ↦ (outside, s)
      ]
      | some idx ↦
          let body_len = scan (drop idx header) % 2 ^ 32 in
          let need_to_read = body_len - length part_body in
          let rest = readn need_to_read s in
          if ltb max_buf_len body_len
          then (not_enough_buff, s)
          else if ltb max_buf_len (length part_body)
          then (outside, s)
          else if need_to_read == 0 || leb (2 ^ 31) need_to_read
          then (read_timeout, s)
          else if length rest.0 == need_to_read
          then (received header (part_body ++ rest.0), rest.1)
          else (read_timeout, rest.1)
    ]

    -- `recv`
    unfoldable pub recv : S → Received × S
    recv s =
        let r = read_header fuel s [] in
        elim r.0 [ none ↦ (invalid_header, r.1) | some h ↦ recv_body h.0 h.1 r.1 ]
