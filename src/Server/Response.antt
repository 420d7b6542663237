-- ===== src/Server/Response.antt =====
-- `HttpResponse` of src/http_server/HttpResponse.cpp. A response's version, code and fields are numbers
-- of their enumerations; `malloc` does not fail.
pub mod Tables
pub mod Decimal
pub mod Buffer
pub mod Head
pub mod Dump
use dlg_service.Prelude.{
  ℕ, zero, suc, ◌+◌, ◌-◌, ◌*◌, ◌/◌, ◌%◌, ◌^◌, Option, none, some, List, [], ◌∷◌, ◌++◌, leb, ltb,
  ◌==◌, ◌&&◌, if◌then◌else◌, Bytes, true, false, Bool, length, take, get_or,
}
use dlg_service.Index.Types.{c_str}
use Tables.{line_sep, http_res_version_str, http_response_field_names, status_code_str}

pub record HttpResponse : Type 0 where
  pub content_buff : Bytes
  pub field_vals : ℕ → Option Bytes
  pub code : ℕ
  pub version : ℕ

abbrev pub http_response_field_count : ℕ
http_response_field_count = 33

-- `Content_Length`
abbrev pub content_length_field : ℕ
content_length_field = 7

-- The constructor; no content is NULL.
unfoldable pub http_response : ℕ → ℕ → HttpResponse
http_response version' code' = record {
  content_buff = [];
  field_vals = λ i. none;
  code = code';
  version = version';
}

-- `setField`: 0 or (false) -1.
unfoldable pub set_field : ℕ → Bytes → HttpResponse → Bool × HttpResponse
set_field field field_value r = if field == content_length_field then (false, r) else (
  true,
  record r { field_vals = λ i. if i == field then some (c_str field_value) else r.field_vals i },
)

-- `%u`, on fuel, in front of the digits that are there.
unfoldable pub decimal_from : ℕ → ℕ → Bytes → Bytes
decimal_from zero n behind = behind
decimal_from (suc fuel) n behind =
    let rest = decimal_from fuel (n / 10) ((48 + n % 10) ∷ behind) in
    if ltb n 10 then (48 + n) ∷ behind else rest

unfoldable pub decimal : ℕ → Bytes
decimal n = decimal_from (suc n) n []

-- `atoi` of digits.
unfoldable pub atoi_from : ℕ → Bytes → ℕ
atoi_from n [] = n
atoi_from n (c ∷ s) =
    let rest = atoi_from (n * 10 + (c - 48)) s in if leb 48 c && leb c 57 then rest else n

-- `(int)atoi`, the 32 bits of the int. The field holds what `%u` printed, which a long holds.
unfoldable pub atoi : Bytes → ℕ
atoi s = atoi_from 0 s % 2 ^ 32

-- The response with its content and its length, of which at most 99 digits are kept.
unfoldable pub filled : ℕ → Bytes → HttpResponse → HttpResponse
filled content_len content r = record r {
  content_buff = take content_len content;
  field_vals = λ i.
      if i == content_length_field then some (take 99 (decimal content_len)) else r.field_vals i;
}

-- `fillContent`; `none` where the unsigned `content_len + 10` wraps, and `memcpy` writes behind the block.
unfoldable pub fill_content : ℕ → Bytes → HttpResponse → Option HttpResponse
fill_content content_len content r =
    if ltb ((content_len + 10) % 2 ^ 32) content_len
    then none
    else some (filled content_len content r)

unfoldable pub set_version : ℕ → HttpResponse → HttpResponse
set_version version' r = record r { version = version' }

unfoldable pub set_status_code : ℕ → HttpResponse → HttpResponse
set_status_code code' r = record r { code = code' }

-- What a part of `dump_to_buff` does: it writes outside `dest`, returns -1, or goes on with the bytes
-- of `dest` and the length so far.
pub data Dumped : Type 0 where
  outside : Dumped
  failed : Dumped
  dumped : (ℕ → ℕ) → ℕ → Dumped

-- `memcpy(dest + at, bytes, …)`
unfoldable pub store_bytes : ℕ → Bytes → (ℕ → ℕ) → ℕ → ℕ
store_bytes at' [] dest = dest
store_bytes at' (c ∷ s) dest = store_bytes (suc at') s (λ i. if i == at' then c else dest i)

-- What `snprintf` leaves in a buffer of `size` bytes.
unfoldable pub printed : ℕ → Bytes → Bytes
printed zero text = []
printed (suc size) text = take size text ++ 0 ∷ []

module _ (max_dest_len : ℕ) where
  -- `snprintf(dest + head_print_len, max_dest_len - head_print_len, …)`, which returns the length of the
  -- whole text, and the test of this against `to_write_count`. A negative size is a huge one.
  unfoldable pub print_at : Bytes → ℕ → (ℕ → ℕ) → ℕ → Dumped
  print_at text to_write_count dest head_print_len =
      if ltb max_dest_len head_print_len
      then outside
      else if length text == to_write_count
      then dumped (store_bytes head_print_len (printed (max_dest_len - head_print_len) text) dest)
          (head_print_len + length text)
      else failed

  -- The loop on the fields.
  unfoldable pub print_fields : ℕ → ℕ → (ℕ → Option Bytes) → (ℕ → ℕ) → ℕ → Dumped
  print_fields zero i field_vals dest head_print_len = dumped dest head_print_len
  print_fields (suc rounds) i field_vals dest head_print_len = elim (field_vals i) [
    | none ↦ print_fields rounds (suc i) field_vals dest head_print_len
    | some v ↦
        let name = get_or http_response_field_names i [] in
        elim (print_at (name ++ (v ++ line_sep)) (length name + (length v + length line_sep)) dest
          head_print_len) [
            | outside ↦ outside
            | failed ↦ failed
            | dumped dest' h ↦ print_fields rounds (suc i) field_vals dest' h
          ]
  ]

  -- The content, where there is a length: `memcpy`, and the NUL at `dest[len]`. Body and sum are ints, here
  -- their 32 bits: a negative sum passes the test, and a negative body is a huge size for `memcpy`.
  unfoldable pub dump_content : HttpResponse → (ℕ → ℕ) → ℕ → Dumped
  dump_content r dest head_print_len = elim (r.field_vals content_length_field) [
    | none ↦ dumped dest head_print_len
    | some v ↦
        let body_len = atoi v in
        let sum = (head_print_len + body_len) % 2 ^ 32 in
        if ltb sum (2 ^ 31) && ltb max_dest_len sum
        then failed
        else if ltb body_len (2 ^ 31) && ltb (head_print_len + body_len) max_dest_len
        then dumped
            (store_bytes (head_print_len + body_len) (0 ∷ [])
              (store_bytes head_print_len (take body_len r.content_buff) dest))
            (head_print_len + body_len)
        else outside
  ]

  -- The empty line and what follows.
  unfoldable pub dump_end : HttpResponse → (ℕ → ℕ) → ℕ → Dumped
  dump_end r dest head_print_len = elim (print_at line_sep (length line_sep) dest head_print_len) [
    | outside ↦ outside
    | failed ↦ failed
    | dumped dest' h ↦ dump_content r dest' h
  ]

  -- `dump_to_buff`
  unfoldable pub dump_to_buff : HttpResponse → (ℕ → ℕ) → Dumped
  dump_to_buff r dest =
      let version_str = get_or http_res_version_str r.version [] in
      let code_str = get_or status_code_str r.code [] in
      elim (print_at (version_str ++ b' ' ∷ (code_str ++ line_sep))
        (length version_str + (1 + (length code_str + length line_sep))) dest 0) [
          | outside ↦ outside
          | failed ↦ failed
          | dumped dest' h ↦ elim (print_fields http_response_field_count 0 r.field_vals dest' h) [
            | outside ↦ outside
            | failed ↦ failed
            | dumped dest'' h' ↦ dump_end r dest'' h'
          ]
        ]
