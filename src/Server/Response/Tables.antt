-- ===== src/Server/Response/Tables.antt =====
-- The texts of src/http_server/HttpResponse.hpp: field names, status lines and versions, by their numbers in
-- the enumerations.
use dlg_service.Prelude.{List, [], ◌∷◌, Bytes}

-- `line_sep`
abbrev pub line_sep : Bytes
line_sep = 13 ∷ 10 ∷ []

-- `http_res_version_str`
abbrev pub http_res_version_str : List Bytes
http_res_version_str =
    (b'H' ∷ b'T' ∷ b'T' ∷ b'P' ∷ b'/' ∷ b'1' ∷ b'.' ∷ b'0' ∷ [])
    ∷ (b'H' ∷ b'T' ∷ b'T' ∷ b'P' ∷ b'/' ∷ b'1' ∷ b'.' ∷ b'1' ∷ [])
    ∷ []

-- `http_response_field_names`
abbrev pub http_response_field_names : List Bytes
http_response_field_names =
    (b'A' ∷ b'c' ∷ b'c' ∷ b'e' ∷ b'p' ∷ b't' ∷ b'-' ∷ b'R' ∷ b'a' ∷ b'n' ∷ b'g' ∷ b'e' ∷ b's' ∷ b':'
      ∷ b' ' ∷ [])
    ∷ (b'A' ∷ b'g' ∷ b'e' ∷ b':' ∷ b' ' ∷ [])
    ∷ (b'A' ∷ b'l' ∷ b'l' ∷ b'o' ∷ b'w' ∷ b':' ∷ b' ' ∷ [])
    ∷ (b'C' ∷ b'a' ∷ b'c' ∷ b'h' ∷ b'e' ∷ b'-' ∷ b'C' ∷ b'o' ∷ b'n' ∷ b't' ∷ b'r' ∷ b'o' ∷ b'l'
        ∷ b':' ∷ b' ' ∷ [])
    ∷ (b'C' ∷ b'o' ∷ b'n' ∷ b'n' ∷ b'e' ∷ b'c' ∷ b't' ∷ b'i' ∷ b'o' ∷ b'n' ∷ b':' ∷ b' ' ∷ [])
    ∷ (b'C' ∷ b'o' ∷ b'n' ∷ b't' ∷ b'e' ∷ b'n' ∷ b't' ∷ b'-' ∷ b'E' ∷ b'n' ∷ b'c' ∷ b'o' ∷ b'd'
        ∷ b'i' ∷ b'n' ∷ b'g' ∷ b':' ∷ b' ' ∷ [])
    ∷ (b'C' ∷ b'o' ∷ b'n' ∷ b't' ∷ b'e' ∷ b'n' ∷ b't' ∷ b'-' ∷ b'L' ∷ b'a' ∷ b'n' ∷ b'g' ∷ b'u'
        ∷ b'a' ∷ b'g' ∷ b'e' ∷ b':' ∷ b' ' ∷ [])
    ∷ (b'C' ∷ b'o' ∷ b'n' ∷ b't' ∷ b'e' ∷ b'n' ∷ b't' ∷ b'-' ∷ b'L' ∷ b'e' ∷ b'n' ∷ b'g' ∷ b't'
        ∷ b'h' ∷ b':' ∷ b' ' ∷ [])
    ∷ (b'C' ∷ b'o' ∷ b'n' ∷ b't' ∷ b'e' ∷ b'n' ∷ b't' ∷ b'-' ∷ b'L' ∷ b'o' ∷ b'c' ∷ b'a' ∷ b't'
        ∷ b'i' ∷ b'o' ∷ b'n' ∷ b':' ∷ b' ' ∷ [])
    ∷ (b'C' ∷ b'o' ∷ b'n' ∷ b't' ∷ b'e' ∷ b'n' ∷ b't' ∷ b'-' ∷ b'M' ∷ b'D' ∷ b'5' ∷ b':' ∷ b' '
        ∷ [])
    ∷ (b'C' ∷ b'o' ∷ b'n' ∷ b't' ∷ b'e' ∷ b'n' ∷ b't' ∷ b'-' ∷ b'D' ∷ b'i' ∷ b's' ∷ b'p' ∷ b'o'
        ∷ b's' ∷ b'i' ∷ b't' ∷ b'i' ∷ b'o' ∷ b'n' ∷ b':' ∷ b' ' ∷ [])
    ∷ (b'C' ∷ b'o' ∷ b'n' ∷ b't' ∷ b'e' ∷ b'n' ∷ b't' ∷ b'-' ∷ b'R' ∷ b'a' ∷ b'n' ∷ b'g' ∷ b'e'
        ∷ b':' ∷ b' ' ∷ [])
    ∷ (b'C' ∷ b'o' ∷ b'n' ∷ b't' ∷ b'e' ∷ b'n' ∷ b't' ∷ b'-' ∷ b'T' ∷ b'y' ∷ b'p' ∷ b'e' ∷ b':'
        ∷ b' ' ∷ [])
    ∷ (b'D' ∷ b'a' ∷ b't' ∷ b'e' ∷ b':' ∷ b' ' ∷ [])
    ∷ (b'E' ∷ b'T' ∷ b'a' ∷ b'g' ∷ b':' ∷ b' ' ∷ [])
    ∷ (b'E' ∷ b'x' ∷ b'p' ∷ b'i' ∷ b'r' ∷ b'e' ∷ b's' ∷ b':' ∷ b' ' ∷ [])
    ∷ (b'L' ∷ b'a' ∷ b's' ∷ b't' ∷ b'-' ∷ b'M' ∷ b'o' ∷ b'd' ∷ b'i' ∷ b'f' ∷ b'i' ∷ b'e' ∷ b'd'
        ∷ b':' ∷ b' ' ∷ [])
    ∷ (b'L' ∷ b'i' ∷ b'n' ∷ b'k' ∷ b':' ∷ b' ' ∷ [])
    ∷ (b'L' ∷ b'o' ∷ b'c' ∷ b'a' ∷ b't' ∷ b'i' ∷ b'o' ∷ b'n' ∷ b':' ∷ b' ' ∷ [])
    ∷ (b'P' ∷ b'3' ∷ b'P' ∷ b':' ∷ b' ' ∷ [])
    ∷ (b'P' ∷ b'r' ∷ b'a' ∷ b'g' ∷ b'm' ∷ b'a' ∷ b':' ∷ b' ' ∷ [])
    ∷ (b'P' ∷ b'r' ∷ b'o' ∷ b'x' ∷ b'y' ∷ b'-' ∷ b'A' ∷ b'u' ∷ b't' ∷ b'h' ∷ b'e' ∷ b'n' ∷ b't'
        ∷ b'i' ∷ b'c' ∷ b'a' ∷ b't' ∷ b'e' ∷ b':' ∷ b' ' ∷ [])
    ∷ (b'R' ∷ b'e' ∷ b'f' ∷ b'r' ∷ b'e' ∷ b's' ∷ b'h' ∷ b':' ∷ b' ' ∷ [])
    ∷ (b'R' ∷ b'e' ∷ b't' ∷ b'r' ∷ b'y' ∷ b'-' ∷ b'A' ∷ b'f' ∷ b't' ∷ b'e' ∷ b'r' ∷ b':' ∷ b' '
        ∷ [])
    ∷ (b'S' ∷ b'e' ∷ b'r' ∷ b'v' ∷ b'e' ∷ b'r' ∷ b':' ∷ b' ' ∷ [])
    ∷ (b'S' ∷ b'e' ∷ b't' ∷ b'-' ∷ b'C' ∷ b'o' ∷ b'o' ∷ b'k' ∷ b'i' ∷ b'e' ∷ b':' ∷ b' ' ∷ [])
    ∷ (b'S' ∷ b't' ∷ b'r' ∷ b'i' ∷ b'c' ∷ b't' ∷ b'-' ∷ b'T' ∷ b'r' ∷ b'a' ∷ b'n' ∷ b's' ∷ b'p'
        ∷ b'o' ∷ b'r' ∷ b't' ∷ b'-' ∷ b'S' ∷ b'e' ∷ b'c' ∷ b'u' ∷ b'r' ∷ b'i' ∷ b't' ∷ b'y' ∷ b':'
        ∷ b' ' ∷ [])
    ∷ (b'T' ∷ b'r' ∷ b'a' ∷ b'i' ∷ b'l' ∷ b'e' ∷ b'r' ∷ b':' ∷ b' ' ∷ [])
    ∷ (b'T' ∷ b'r' ∷ b'a' ∷ b'n' ∷ b's' ∷ b'f' ∷ b'e' ∷ b'r' ∷ b'-' ∷ b'E' ∷ b'n' ∷ b'c' ∷ b'o'
        ∷ b'd' ∷ b'i' ∷ b'n' ∷ b'g' ∷ b':' ∷ b' ' ∷ [])
    ∷ (b'V' ∷ b'a' ∷ b'r' ∷ b'y' ∷ b':' ∷ b' ' ∷ [])
    ∷ (b'V' ∷ b'i' ∷ b'a' ∷ b':' ∷ b' ' ∷ [])
    ∷ (b'W' ∷ b'a' ∷ b'r' ∷ b'n' ∷ b'i' ∷ b'n' ∷ b'g' ∷ b':' ∷ b' ' ∷ [])
    ∷ (b'W' ∷ b'W' ∷ b'W' ∷ b'-' ∷ b'A' ∷ b'u' ∷ b't' ∷ b'h' ∷ b'e' ∷ b'n' ∷ b't' ∷ b'i' ∷ b'c'
        ∷ b'a' ∷ b't' ∷ b'e' ∷ b':' ∷ b' ' ∷ [])
    ∷ []

-- `status_code_str`
abbrev pub status_code_str : List Bytes
status_code_str =
    (b'1' ∷ b'0' ∷ b'0' ∷ b' ' ∷ b'C' ∷ b'o' ∷ b'n' ∷ b't' ∷ b'i' ∷ b'n' ∷ b'u' ∷ b'e' ∷ [])
    ∷ (b'1' ∷ b'0' ∷ b'1' ∷ b' ' ∷ b'S' ∷ b'w' ∷ b'i' ∷ b't' ∷ b'c' ∷ b'h' ∷ b'i' ∷ b'n' ∷ b'g'
        ∷ b' ' ∷ b'P' ∷ b'r' ∷ b'o' ∷ b't' ∷ b'o' ∷ b'c' ∷ b'o' ∷ b'l' ∷ b's' ∷ [])
    ∷ (b'2' ∷ b'0' ∷ b'0' ∷ b' ' ∷ b'O' ∷ b'K' ∷ [])
    ∷ (b'2' ∷ b'0' ∷ b'1' ∷ b' ' ∷ b'C' ∷ b'r' ∷ b'e' ∷ b'a' ∷ b't' ∷ b'e' ∷ b'd' ∷ [])
    ∷ (b'2' ∷ b'0' ∷ b'2' ∷ b' ' ∷ b'A' ∷ b'c' ∷ b'c' ∷ b'e' ∷ b'p' ∷ b't' ∷ b'e' ∷ b'd' ∷ [])
    ∷ (b'2' ∷ b'0' ∷ b'3' ∷ b' ' ∷ b'N' ∷ b'o' ∷ b'n' ∷ b'-' ∷ b'A' ∷ b'u' ∷ b't' ∷ b'h' ∷ b'o'
        ∷ b'r' ∷ b'i' ∷ b't' ∷ b'a' ∷ b't' ∷ b'i' ∷ b'v' ∷ b'e' ∷ b' ' ∷ b'I' ∷ b'n' ∷ b'f' ∷ b'o'
        ∷ b'r' ∷ b'm' ∷ b'a' ∷ b't' ∷ b'i' ∷ b'o' ∷ b'n' ∷ [])
    ∷ (b'2' ∷ b'0' ∷ b'4' ∷ b' ' ∷ b'N' ∷ b'o' ∷ b' ' ∷ b'C' ∷ b'o' ∷ b'n' ∷ b't' ∷ b'e' ∷ b'n'
        ∷ b't' ∷ [])
    ∷ (b'2' ∷ b'0' ∷ b'5' ∷ b' ' ∷ b'R' ∷ b'e' ∷ b's' ∷ b'e' ∷ b't' ∷ b' ' ∷ b'C' ∷ b'o' ∷ b'n'
        ∷ b't' ∷ b'e' ∷ b'n' ∷ b't' ∷ [])
    ∷ (b'2' ∷ b'0' ∷ b'6' ∷ b' ' ∷ b'P' ∷ b'a' ∷ b'r' ∷ b't' ∷ b'i' ∷ b'a' ∷ b'l' ∷ b' ' ∷ b'C'
        ∷ b'o' ∷ b'n' ∷ b't' ∷ b'e' ∷ b'n' ∷ b't' ∷ [])
    ∷ (b'3' ∷ b'0' ∷ b'0' ∷ b' ' ∷ b'M' ∷ b'u' ∷ b'l' ∷ b't' ∷ b'i' ∷ b'p' ∷ b'l' ∷ b'e' ∷ b' '
        ∷ b'C' ∷ b'h' ∷ b'o' ∷ b'i' ∷ b'c' ∷ b'e' ∷ b's' ∷ [])
    ∷ (b'3' ∷ b'0' ∷ b'1' ∷ b' ' ∷ b'M' ∷ b'o' ∷ b'v' ∷ b'e' ∷ b'd' ∷ b' ' ∷ b'P' ∷ b'e' ∷ b'r'
        ∷ b'm' ∷ b'a' ∷ b'n' ∷ b'e' ∷ b'n' ∷ b't' ∷ b'l' ∷ b'y' ∷ [])
    ∷ (b'3' ∷ b'0' ∷ b'2' ∷ b' ' ∷ b'F' ∷ b'o' ∷ b'u' ∷ b'n' ∷ b'd' ∷ [])
    ∷ (b'3' ∷ b'0' ∷ b'3' ∷ b' ' ∷ b'S' ∷ b'e' ∷ b'e' ∷ b' ' ∷ b'O' ∷ b't' ∷ b'h' ∷ b'e' ∷ b'r'
        ∷ [])
    ∷ (b'3' ∷ b'0' ∷ b'4' ∷ b' ' ∷ b'N' ∷ b'o' ∷ b't' ∷ b' ' ∷ b'M' ∷ b'o' ∷ b'd' ∷ b'i' ∷ b'f'
        ∷ b'i' ∷ b'e' ∷ b'd' ∷ [])
    ∷ (b'3' ∷ b'0' ∷ b'5' ∷ b' ' ∷ b'U' ∷ b's' ∷ b'e' ∷ b' ' ∷ b'P' ∷ b'r' ∷ b'o' ∷ b'x' ∷ b'y'
        ∷ [])
    ∷ (b'3' ∷ b'0' ∷ b'7' ∷ b' ' ∷ b'T' ∷ b'e' ∷ b'm' ∷ b'p' ∷ b'o' ∷ b'r' ∷ b'a' ∷ b'r' ∷ b'y'
        ∷ b' ' ∷ b'R' ∷ b'e' ∷ b'd' ∷ b'i' ∷ b'r' ∷ b'e' ∷ b'c' ∷ b't' ∷ [])
    ∷ (b'4' ∷ b'0' ∷ b'0' ∷ b' ' ∷ b'B' ∷ b'a' ∷ b'd' ∷ b' ' ∷ b'R' ∷ b'e' ∷ b'q' ∷ b'u' ∷ b'e'
        ∷ b's' ∷ b't' ∷ [])
    ∷ (b'4' ∷ b'0' ∷ b'1' ∷ b' ' ∷ b'U' ∷ b'n' ∷ b'a' ∷ b'u' ∷ b't' ∷ b'h' ∷ b'o' ∷ b'r' ∷ b'i'
        ∷ b'z' ∷ b'e' ∷ b'd' ∷ [])
    ∷ (b'4' ∷ b'0' ∷ b'2' ∷ b' ' ∷ b'P' ∷ b'a' ∷ b'y' ∷ b'm' ∷ b'e' ∷ b'n' ∷ b't' ∷ b' ' ∷ b'R'
        ∷ b'e' ∷ b'q' ∷ b'u' ∷ b'i' ∷ b'r' ∷ b'e' ∷ b'd' ∷ [])
    ∷ (b'4' ∷ b'0' ∷ b'3' ∷ b' ' ∷ b'F' ∷ b'o' ∷ b'r' ∷ b'b' ∷ b'i' ∷ b'd' ∷ b'd' ∷ b'e' ∷ b'n'
        ∷ [])
    ∷ (b'4' ∷ b'0' ∷ b'4' ∷ b' ' ∷ b'N' ∷ b'o' ∷ b't' ∷ b' ' ∷ b'F' ∷ b'o' ∷ b'u' ∷ b'n' ∷ b'd'
        ∷ [])
    ∷ (b'4' ∷ b'0' ∷ b'5' ∷ b' ' ∷ b'M' ∷ b'e' ∷ b't' ∷ b'h' ∷ b'o' ∷ b'd' ∷ b' ' ∷ b'N' ∷ b'o'
        ∷ b't' ∷ b' ' ∷ b'A' ∷ b'l' ∷ b'l' ∷ b'o' ∷ b'w' ∷ b'e' ∷ b'd' ∷ [])
    ∷ (b'4' ∷ b'0' ∷ b'6' ∷ b' ' ∷ b'N' ∷ b'o' ∷ b't' ∷ b' ' ∷ b'A' ∷ b'c' ∷ b'c' ∷ b'e' ∷ b'p'
        ∷ b't' ∷ b'a' ∷ b'b' ∷ b'l' ∷ b'e' ∷ [])
    ∷ (b'4' ∷ b'0' ∷ b'7' ∷ b' ' ∷ b'P' ∷ b'r' ∷ b'o' ∷ b'x' ∷ b'y' ∷ b' ' ∷ b'A' ∷ b'u' ∷ b't'
        ∷ b'h' ∷ b'e' ∷ b'n' ∷ b't' ∷ b'i' ∷ b'c' ∷ b'a' ∷ b't' ∷ b'i' ∷ b'o' ∷ b'n' ∷ b' ' ∷ b'R'
        ∷ b'e' ∷ b'q' ∷ b'u' ∷ b'i' ∷ b'r' ∷ b'e' ∷ b'd' ∷ [])
    ∷ (b'4' ∷ b'0' ∷ b'8' ∷ b' ' ∷ b'R' ∷ b'e' ∷ b'q' ∷ b'u' ∷ b'e' ∷ b's' ∷ b't' ∷ b' ' ∷ b'T'
        ∷ b'i' ∷ b'm' ∷ b'e' ∷ b'-' ∷ b'o' ∷ b'u' ∷ b't' ∷ [])
    ∷ (b'4' ∷ b'0' ∷ b'9' ∷ b' ' ∷ b'C' ∷ b'o' ∷ b'n' ∷ b'f' ∷ b'l' ∷ b'i' ∷ b'c' ∷ b't' ∷ [])
    ∷ (b'4' ∷ b'1' ∷ b'0' ∷ b' ' ∷ b'G' ∷ b'o' ∷ b'n' ∷ b'e' ∷ [])
    ∷ (b'4' ∷ b'1' ∷ b'1' ∷ b' ' ∷ b'L' ∷ b'e' ∷ b'n' ∷ b'g' ∷ b't' ∷ b'h' ∷ b' ' ∷ b'R' ∷ b'e'
        ∷ b'q' ∷ b'u' ∷ b'i' ∷ b'r' ∷ b'e' ∷ b'd' ∷ [])
    ∷ (b'4' ∷ b'1' ∷ b'2' ∷ b' ' ∷ b'P' ∷ b'r' ∷ b'e' ∷ b'c' ∷ b'o' ∷ b'n' ∷ b'd' ∷ b'i' ∷ b't'
        ∷ b'i' ∷ b'o' ∷ b'n' ∷ b' ' ∷ b'F' ∷ b'a' ∷ b'i' ∷ b'l' ∷ b'e' ∷ b'd' ∷ [])
    ∷ (b'4' ∷ b'1' ∷ b'3' ∷ b' ' ∷ b'R' ∷ b'e' ∷ b'q' ∷ b'u' ∷ b'e' ∷ b's' ∷ b't' ∷ b' ' ∷ b'E'
        ∷ b'n' ∷ b't' ∷ b'i' ∷ b't' ∷ b'y' ∷ b' ' ∷ b'T' ∷ b'o' ∷ b'o' ∷ b' ' ∷ b'L' ∷ b'a' ∷ b'r'
        ∷ b'g' ∷ b'e' ∷ [])
    ∷ (b'4' ∷ b'1' ∷ b'4' ∷ b' ' ∷ b'R' ∷ b'e' ∷ b'q' ∷ b'u' ∷ b'e' ∷ b's' ∷ b't' ∷ b'-' ∷ b'U'
        ∷ b'R' ∷ b'I' ∷ b' ' ∷ b'T' ∷ b'o' ∷ b'o' ∷ b' ' ∷ b'L' ∷ b'a' ∷ b'r' ∷ b'g' ∷ b'e' ∷ [])
    ∷ (b'4' ∷ b'1' ∷ b'5' ∷ b' ' ∷ b'U' ∷ b'n' ∷ b's' ∷ b'u' ∷ b'p' ∷ b'p' ∷ b'o' ∷ b'r' ∷ b't'
        ∷ b'e' ∷ b'd' ∷ b' ' ∷ b'M' ∷ b'e' ∷ b'd' ∷ b'i' ∷ b'a' ∷ b' ' ∷ b'T' ∷ b'y' ∷ b'p' ∷ b'e'
        ∷ [])
    ∷ (b'4' ∷ b'1' ∷ b'6' ∷ b' ' ∷ b'R' ∷ b'e' ∷ b'q' ∷ b'u' ∷ b'e' ∷ b's' ∷ b't' ∷ b'e' ∷ b'd'
        ∷ b' ' ∷ b'r' ∷ b'a' ∷ b'n' ∷ b'g' ∷ b'e' ∷ b' ' ∷ b'n' ∷ b'o' ∷ b't' ∷ b' ' ∷ b's' ∷ b'a'
        ∷ b't' ∷ b'i' ∷ b's' ∷ b'f' ∷ b'i' ∷ b'a' ∷ b'b' ∷ b'l' ∷ b'e' ∷ [])
    ∷ (b'4' ∷ b'1' ∷ b'7' ∷ b' ' ∷ b'E' ∷ b'x' ∷ b'p' ∷ b'e' ∷ b'c' ∷ b't' ∷ b'a' ∷ b't' ∷ b'i'
        ∷ b'o' ∷ b'n' ∷ b' ' ∷ b'F' ∷ b'a' ∷ b'i' ∷ b'l' ∷ b'e' ∷ b'd' ∷ [])
    ∷ (b'5' ∷ b'0' ∷ b'0' ∷ b' ' ∷ b'I' ∷ b'n' ∷ b't' ∷ b'e' ∷ b'r' ∷ b'n' ∷ b'a' ∷ b'l' ∷ b' '
        ∷ b'S' ∷ b'e' ∷ b'r' ∷ b'v' ∷ b'e' ∷ b'r' ∷ b' ' ∷ b'E' ∷ b'r' ∷ b'r' ∷ b'o' ∷ b'r' ∷ [])
    ∷ (b'5' ∷ b'0' ∷ b'1' ∷ b' ' ∷ b'N' ∷ b'o' ∷ b't' ∷ b' ' ∷ b'I' ∷ b'm' ∷ b'p' ∷ b'l' ∷ b'e'
        ∷ b'm' ∷ b'e' ∷ b'n' ∷ b't' ∷ b'e' ∷ b'd' ∷ [])
    ∷ (b'5' ∷ b'0' ∷ b'2' ∷ b' ' ∷ b'B' ∷ b'a' ∷ b'd' ∷ b' ' ∷ b'G' ∷ b'a' ∷ b't' ∷ b'e' ∷ b'w'
        ∷ b'a' ∷ b'y' ∷ [])
    ∷ (b'5' ∷ b'0' ∷ b'3' ∷ b' ' ∷ b'S' ∷ b'e' ∷ b'r' ∷ b'v' ∷ b'i' ∷ b'c' ∷ b'e' ∷ b' ' ∷ b'U'
        ∷ b'n' ∷ b'a' ∷ b'v' ∷ b'a' ∷ b'i' ∷ b'l' ∷ b'a' ∷ b'b' ∷ b'l' ∷ b'e' ∷ [])
    ∷ (b'5' ∷ b'0' ∷ b'4' ∷ b' ' ∷ b'G' ∷ b'a' ∷ b't' ∷ b'e' ∷ b'w' ∷ b'a' ∷ b'y' ∷ b' ' ∷ b'T'
        ∷ b'i' ∷ b'm' ∷ b'e' ∷ b'-' ∷ b'o' ∷ b'u' ∷ b't' ∷ [])
    ∷ (b'5' ∷ b'0' ∷ b'5' ∷ b' ' ∷ b'H' ∷ b'T' ∷ b'T' ∷ b'P' ∷ b' ' ∷ b'V' ∷ b'e' ∷ b'r' ∷ b's'
        ∷ b'i' ∷ b'o' ∷ b'n' ∷ b' ' ∷ b'n' ∷ b'o' ∷ b't' ∷ b' ' ∷ b's' ∷ b'u' ∷ b'p' ∷ b'p' ∷ b'o'
        ∷ b'r' ∷ b't' ∷ b'e' ∷ b'd' ∷ [])
    ∷ []
