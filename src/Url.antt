-- ===== src/Url.antt =====
-- URL encoding: `HttpHandler::UrlEncode` of src/http_server/HttpHandler.cpp, and `url_encode` and
-- `url_decode` of src/include/UrlEncodeAndDecode.h. A char is its byte, below 256; the character
-- classes are those of the C locale.
pub mod RoundTrip
use dlg_service.Prelude.{
  ℕ, zero, suc, ◌+◌, ◌-◌, ◌*◌, ◌/◌, ◌%◌, List, [], ◌∷◌, ◌++◌, Bool, ◌&&◌, ◌||◌, leb, ltb, ◌==◌,
  if◌then◌else◌, Bytes,
}
use dlg_service.Index.Types.{c_str}

unfoldable pub is_digit : ℕ → Bool
is_digit c = leb 48 c && leb c 57

unfoldable pub is_alnum : ℕ → Bool
is_alnum c = is_digit c || (leb 65 c && leb c 90 || leb 97 c && leb c 122)

-- the characters that are written as they are
unfoldable pub is_plain : ℕ → Bool
is_plain c = is_alnum c || (c == b'-' || (c == b'_' || (c == b'.' || c == b'~')))

-- `ToHex`.
unfoldable pub to_hex_upper : ℕ → ℕ
to_hex_upper x = if ltb 9 x then x + 55 else x + 48

-- `to_hex`: the entry `code & 15` of "0123456789abcdef".
unfoldable pub to_hex : ℕ → ℕ
to_hex code = let x = code % 16 in if ltb 9 x then x + 87 else x + 48

unfoldable pub to_lower : ℕ → ℕ
to_lower c = if leb 65 c && leb c 90 then c + 32 else c

-- `from_hex`, whose result is a char again.
unfoldable pub from_hex : ℕ → ℕ
from_hex ch = if is_digit ch then ch - 48 else (to_lower ch + (256 - 97) + 10) % 256

-- `|` on the lowest bits of two numbers.
unfoldable pub bit_or : ℕ → ℕ → ℕ → ℕ
bit_or zero a b = 0
bit_or (suc bits) a b =
    let rest = bit_or bits (a / 2) (b / 2) in
    if a % 2 == 1 || b % 2 == 1 then 1 + 2 * rest else 2 * rest

-- What one character becomes.
unfoldable pub encode_char : (ℕ → ℕ) → ℕ → Bytes
encode_char digit c =
    if is_plain c
    then c ∷ []
    else if c == b' '
    then b'+' ∷ []
    else b'%' ∷ digit (c / 16) ∷ digit (c % 16) ∷ []

unfoldable pub encode : (ℕ → ℕ) → Bytes → Bytes
encode digit [] = []
encode digit (c ∷ s) = encode_char digit c ++ encode digit s

-- `HttpHandler::UrlEncode`.
unfoldable pub handler_url_encode : Bytes → Bytes
handler_url_encode str = encode to_hex_upper str

-- `url_encode`, of a C string.
unfoldable pub url_encode : Bytes → Bytes
url_encode str = encode to_hex (c_str str)

-- A character that starts no escape.
unfoldable pub decode_char : ℕ → ℕ
decode_char c = if c == b'+' then b' ' else c

-- The byte of an escape.
unfoldable pub unescape : ℕ → ℕ → ℕ
unescape a b = bit_or 8 (from_hex a * 16) (from_hex b)

-- The loop of `url_decode`: a `%` without two characters behind it is left out.
unfoldable pub decode : Bytes → Bytes
decode [] = []
decode (c ∷ []) = if c == b'%' then [] else decode_char c ∷ []
decode (c ∷ a ∷ []) = let rest = decode (a ∷ []) in if c == b'%' then rest else decode_char c ∷ rest
decode (c ∷ a ∷ b ∷ s) =
    let rest = decode (a ∷ b ∷ s) in
    let behind = decode s in if c == b'%' then unescape a b ∷ behind else decode_char c ∷ rest

-- `url_decode`, between C strings.
unfoldable pub url_decode : Bytes → Bytes
url_decode str = c_str (decode (c_str str))
