-- ===== src/Url/RoundTrip.antt =====
-- Decoding what was encoded.
use dlg_service.Prelude.{
  ℕ, suc, ◌+◌, ◌*◌, ◌/◌, ◌%◌, ◌<◌, ◌≡◌, ◌≢◌, refl, ap, ◌∙◌, [], ◌∷◌, ◌++◌, true, ◌||◌, ◌==◌,
  if◌then◌else◌, Bytes, All, arith, Bool-cases, inl, inr,
}
use dlg_service.Index.Types.{c_str, c_str_idem}
use dlg_service.Url.{
  is_digit, is_alnum, is_plain, to_hex_upper, to_hex, to_lower, from_hex, bit_or, encode_char,
  encode, decode_char, decode, unescape, handler_url_encode, url_encode, url_decode,
}

bit_or-double : (n a b : ℕ) → bit_or (suc n) (a * 2) b ≡ b % 2 + 2 * bit_or n a (b / 2)
unfolding bit_or
bit_or-double n a b =
    let e : a * 2 / 2 ≡ a = omega arith in
    let z : a * 2 % 2 ≡ 0 = omega arith in rw (z, e) (last (b % 2) (omega arith) _)
  where
    last : (m : ℕ) → m < 2 → (r : ℕ) → (if 0 == 1 || m == 1 then 1 + 2 * r else 2 * r) ≡ m + 2 * r
    last m h r = ground arith

bit_or_zero : (n a : ℕ) → bit_or (suc n) a 0 ≡ a % 2 + 2 * bit_or n (a / 2) 0
unfolding bit_or
bit_or_zero n a = last (a % 2) (omega arith) _
  where
    last : (m : ℕ) → m < 2 → (r : ℕ) → (if m == 1 || 0 == 1 then 1 + 2 * r else 2 * r) ≡ m + 2 * r
    last m h r = ground arith

-- A high and a low half are added.
bit_or-halves : (x y : ℕ) → x < 16 → y < 16 → bit_or 8 (x * 16) y ≡ x * 16 + y
unfolding bit_or
bit_or-halves x y hx hy =
    let e3 : x * 16 ≡ x * 8 * 2 = omega arith in
    let e2 : x * 8 ≡ x * 4 * 2 = omega arith in
    let e1 : x * 4 ≡ x * 2 * 2 = omega arith in
    let y4 : y / 2 / 2 / 2 / 2 ≡ 0 = omega arith in
    omega (
      arith,
      ap (λ k. bit_or 8 k y) e3,
      bit_or-double 7 (x * 8) y,
      ap (λ k. bit_or 7 k (y / 2)) e2,
      bit_or-double 6 (x * 4) (y / 2),
      ap (λ k. bit_or 6 k (y / 2 / 2)) e1,
      bit_or-double 5 (x * 2) (y / 2 / 2),
      bit_or-double 4 x (y / 2 / 2 / 2),
      ap (bit_or 4 x) y4,
      bit_or_zero 3 x,
      bit_or_zero 2 (x / 2),
      bit_or_zero 1 (x / 2 / 2),
      bit_or_zero 0 (x / 2 / 2 / 2),
    )

-- what the round trip needs of the hexadecimal digits
record AreDigits (digit : ℕ → ℕ) : Type 0 where
  back : (x : ℕ) → x < 16 → from_hex (digit x) ≡ x
  nonzero : (x : ℕ) → digit x ≢ 0

upper-AreDigits : AreDigits to_hex_upper
unfolding to_hex_upper from_hex is_digit to_lower
upper-AreDigits = record { back = λ x h. ground arith; nonzero = λ x. ground arith }

lower-AreDigits : AreDigits to_hex
unfolding to_hex from_hex is_digit to_lower
lower-AreDigits = record { back = λ x h. ground arith; nonzero = λ x. ground arith }

decode_other : (c : ℕ) (s : Bytes) → c ≢ b'%' → decode (c ∷ s) ≡ decode_char c ∷ decode s
unfolding decode
decode_other c [] n = ground arith
decode_other c (a ∷ []) n = ground arith
decode_other c (a ∷ b ∷ s) n = ground arith

plain_lem : (c : ℕ) → is_plain c ≡ true → (c ≢ b'%') × (c ≢ b'+') × (c ≢ 0)
unfolding is_plain is_alnum is_digit
plain_lem c h = (ground arith, ground arith, ground arith)

module _ (digit : ℕ → ℕ) (digits : AreDigits digit) where
  unescape-digits : (c : ℕ) → c < 256 → unescape (digit (c / 16)) (digit (c % 16)) ≡ c
  unfolding unescape
  unescape-digits c h =
      rw (digits.back (c / 16) (omega arith), digits.back (c % 16) (omega arith))
        (omega (arith, bit_or-halves (c / 16) (c % 16) (omega arith) (omega arith)))

  decode-encode_char :
      (c : ℕ) (s : Bytes) → c < 256 → decode (encode_char digit c ++ s) ≡ c ∷ decode s
  unfolding encode_char
  decode-encode_char c s h = elim (Bool-cases (is_plain c)) [
    | inl p ↦
        let (a, b, z) = plain_lem c p in
        rw (p, encode_char)
          (decode_other c s a ∙ ap (λ k. k ∷ decode s) (unfold decode_char in ground arith))
    | inr p ↦ elim (Bool-cases (c == b' ')) [
      | inl e ↦
          rw (p, e, encode_char)
            (decode_other b'+' s (ground arith)
              ∙ ap (λ k. k ∷ decode s) (unfold decode_char in ground arith))
      | inr n ↦
          rw (p, n, encode_char) (unfold decode in ap (λ k. k ∷ decode s) (unescape-digits c h))
    ]
  ]

  decode-encode : (s : Bytes) → All (λ c. c < 256) s → decode (encode digit s) ≡ s
  unfolding encode
  decode-encode [] a = unfold decode in refl
  decode-encode (c ∷ s) a =
      decode-encode_char c (encode digit s) a.0 ∙ ap (λ t. c ∷ t) (decode-encode s a.1)

  c_str_cons : (c : ℕ) (s : Bytes) → c ≢ 0 → c_str s ≡ s → c_str (c ∷ s) ≡ c ∷ s
  unfolding c_str
  c_str_cons c s n e = ground arith

  c_str-encode : (s : Bytes) → c_str (encode digit s) ≡ encode digit s
  unfolding encode encode_char
  c_str-encode [] = unfold c_str in refl
  c_str-encode (c ∷ s) = elim (Bool-cases (is_plain c)) [
    | inl p ↦ rw (p, encode_char) (c_str_cons c _ (plain_lem c p).2 (c_str-encode s))
    | inr p ↦ elim (Bool-cases (c == b' ')) [
      | inl e ↦ rw (p, e, encode_char) (c_str_cons b'+' _ (ground arith) (c_str-encode s))
      | inr n ↦
          rw (p, n, encode_char)
            (c_str_cons b'%' _ (ground arith) (
              c_str_cons (digit (c / 16)) _ (digits.nonzero (c / 16))
                (c_str_cons (digit (c % 16)) _ (digits.nonzero (c % 16)) (c_str-encode s))))
    ]
  ]

-- Whatever the bytes of a string, `url_decode` of what `HttpHandler::UrlEncode` makes of it is the
-- string up to its first NUL.
pub url_decode-handler_url_encode :
    (s : Bytes) → All (λ c. c < 256) s → url_decode (handler_url_encode s) ≡ c_str s
unfolding url_decode handler_url_encode
url_decode-handler_url_encode s a =
    ap (λ t. c_str (decode t)) (c_str-encode to_hex_upper upper-AreDigits s)
    ∙ ap c_str (decode-encode to_hex_upper upper-AreDigits s a)

All-c_str : (s : Bytes) → All (λ c. c < 256) s → All (λ c. c < 256) (c_str s)
unfolding c_str
All-c_str [] a = tt
All-c_str (c ∷ s) a = elim (Bool-cases (c == 0)) [
  | inl z ↦ rw (z, c_str) tt
  | inr z ↦ rw (z, c_str) (a.0, All-c_str s a.1)
]

-- Whatever the bytes of a C string, `url_decode` of what `url_encode` makes of it is that C string.
pub url_decode-url_encode : (s : Bytes) → All (λ c. c < 256) s → url_decode (url_encode s) ≡ c_str s
unfolding url_decode url_encode
url_decode-url_encode s a =
    ap (λ t. c_str (decode t)) (c_str-encode to_hex lower-AreDigits (c_str s))
    ∙ ap c_str (decode-encode to_hex lower-AreDigits (c_str s) (All-c_str s a))
    ∙ c_str_idem s
