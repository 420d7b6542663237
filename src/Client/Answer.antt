-- ===== src/Client/Answer.antt =====
-- The text of a response that the server writes, as the client looks at it.
use dlg_service.Prelude.{
  ℕ, zero, suc, ◌+◌, ◌%◌, ◌/◌, ◌^◌, ◌≤◌, ◌<◌, ◌≡◌, ◌≢◌, refl, ap, subst, ◌∙◌, sym, some, none, [],
  ◌∷◌, ◌++◌, ◌==◌, ltb, ◌&&◌, Bytes, true, false, Bool, Bool-cases, inl, inr, length, length-append,
  take, All, arith, find, starts_with, dec_lt, ℕ_discrete,
}
use mathlib.Core.List.{append_assoc, append-nil}
use dlg_service.Server.Response.{
  decimal, decimal_from, http_response, fill_content, filled, HttpResponse, dump_to_buff, Dumped,
  dumped, outside, failed,
}
use dlg_service.Server.Response.Buffer.{take_all, bytes_of}
use dlg_service.Server.Response.Decimal.{length-decimal}
use dlg_service.Server.Response.Tables.{line_sep}
use dlg_service.Server.Response.Head.{response_head, field_lines}
use dlg_service.Server.Response.Dump.{dump_to_buff-filled, content_buff-filled, fill_content-filled}
use dlg_service.Server.Handler.{generate_response, worker_response}
use dlg_service.Server.Socket.{empty_line}
use dlg_service.Client.{content_length_mark}
use dlg_service.Client.Header.{IsPlain}

-- "HTTP/1.0 200 OK", a line end and "Content-Length: "
abbrev status_text : Bytes
status_text =
    b'H' ∷ b'T' ∷ b'T' ∷ b'P' ∷ b'/' ∷ b'1' ∷ b'.' ∷ b'0' ∷ b' ' ∷ b'2' ∷ b'0' ∷ b'0' ∷ b' ' ∷ b'O'
    ∷ b'K' ∷ 13 ∷ 10 ∷ []

abbrev pub head_of : Bytes → Bytes
head_of digits = status_text ++ (content_length_mark ++ b' ' ∷ (digits ++ empty_line))

-- The server's answer with a content: `HTTP10`, `SC200`, and the content with its length.
abbrev pub answer : Bytes → HttpResponse
answer content = filled (length content) content (http_response 0 2)

pub head-answer :
    (content : Bytes)
    → length content < 2 ^ 32
    → response_head (answer content) ≡ head_of (decimal (length content))
unfolding response_head field_lines filled http_response
head-answer content h =
    let digits : take 99 (decimal (length content)) ≡ decimal (length content) =
      take_all 99 (decimal (length content)) (omega (arith, length-decimal (length content) h)) in
    line_ends (take 99 (decimal (length content))) ∙ ap head_of digits
  where
    line_ends :
        (d : Bytes)
        → (status_text ++ ((content_length_mark ++ b' ' ∷ (d ++ line_sep)) ++ [])) ++ line_sep
          ≡ head_of d
    line_ends d =
        ap (λ t. status_text ++ (content_length_mark ++ b' ' ∷ t))
          (ap (λ t. t ++ line_sep) (append-nil (d ++ line_sep)) ∙ append_assoc d line_sep line_sep)

abbrev pub AreDigits : Bytes → Type 0
AreDigits = All (λ c. 48 ≤ c)

decimal_from-AreDigits :
    (fuel n : ℕ) (behind : Bytes) → AreDigits behind → AreDigits (decimal_from fuel n behind)
unfolding decimal_from
decimal_from-AreDigits zero n behind a = a
decimal_from-AreDigits (suc fuel) n behind a = elim (Bool-cases (ltb n 10)) [
  | inl small ↦ rw small (omega arith, a)
  | inr large ↦
      rw large (decimal_from-AreDigits fuel (n / 10) ((48 + n % 10) ∷ behind) (omega arith, a))
]

pub decimal-AreDigits : (n : ℕ) → AreDigits (decimal n)
unfolding decimal
decimal-AreDigits n = decimal_from-AreDigits (suc n) n [] tt

-- The empty line stands behind the digits.
find-digits :
    (ds content : Bytes)
    → AreDigits ds
    → find (ds ++ (empty_line ++ content)) empty_line ≡ some (length ds)
unfolding find starts_with
find-digits [] content a = refl
find-digits (d ∷ ds) content a =
    let other : (d == 13) ≡ false = digit_end d a.0 in rw (other, find-digits ds content a.1) refl
  where
    digit_end : (x : ℕ) → 48 ≤ x → (x == 13) ≡ false
    digit_end x h = ground arith

pub find-head_of :
    (ds content : Bytes)
    → AreDigits ds
    → find (head_of ds ++ content) empty_line ≡ some (33 + length ds)
unfolding find starts_with
find-head_of ds content a =
    rw (append_assoc ds empty_line content, find-digits ds content a) (ap some (omega arith))

pub find-mark : (ds : Bytes) → find (head_of ds) content_length_mark ≡ some 17
unfolding find starts_with
find-mark ds = refl

-- no NUL in the head
digits-IsPlain : (ds rest : Bytes) → AreDigits ds → IsPlain rest → IsPlain (ds ++ rest)
digits-IsPlain [] rest a p = p
digits-IsPlain (d ∷ ds) rest a p =
    ((λ e. absurd (omega (arith, e, a.0))), digits-IsPlain ds rest a.1 p)

no_nul : Bytes → Bool
no_nul [] = true
no_nul (c ∷ s) = ltb 0 c && no_nul s

no_nul-IsPlain : (s rest : Bytes) → no_nul s ≡ true → IsPlain rest → IsPlain (s ++ rest)
unfolding no_nul
no_nul-IsPlain [] rest h p = p
no_nul-IsPlain (c ∷ s) rest h p =
    (λ e. ground (arith, e, h), no_nul-IsPlain s rest (ground arith) p)

pub head_of-IsPlain :
    (ds content : Bytes) → AreDigits ds → IsPlain content → IsPlain (head_of ds ++ content)
unfolding no_nul
head_of-IsPlain ds content a p =
    no_nul-IsPlain (status_text ++ (content_length_mark ++ b' ' ∷ []))
      ((ds ++ empty_line) ++ content) refl
      (subst IsPlain (sym (append_assoc ds empty_line content))
        (digits-IsPlain ds (empty_line ++ content) a (no_nul-IsPlain empty_line content refl p)))

pub length-head_of : (ds : Bytes) → length (head_of ds) ≡ 33 + length ds + 4
length-head_of ds = omega (arith, length-append ds empty_line)

text_of : Dumped → Bytes
text_of (dumped d h) = bytes_of d 0 h
text_of r = []

text_of-eq :
    (d d' : ℕ → ℕ) (h h' : ℕ) → dumped d h ≡ dumped d' h' → bytes_of d 0 h ≡ bytes_of d' 0 h'
unfolding text_of
text_of-eq d d' h h' e = ap text_of e

-- It is what generate_response makes.
pub generate_response-answer :
    (content : Bytes)
    → length content < 2 ^ 31
    → generate_response (some content) none ≡ some (true, answer content)
unfolding generate_response worker_response
generate_response-answer content small =
    let size : length content % 2 ^ 32 ≡ length content = omega arith in
    let made : fill_content (length content % 2 ^ 32) content (http_response 0 2)
        ≡ some (answer content) =
      ap (λ n. fill_content n content (http_response 0 2)) size
      ∙ fill_content-filled (http_response 0 2) content (omega arith) in
    rw (made, generate_response) refl

-- A dump that succeeds wrote head and content.
pub bytes_of-dump_to_buff :
    (max_dest_len : ℕ) (content : Bytes) (dest d : ℕ → ℕ) (h : ℕ)
    → length content < 2 ^ 31
    → 64 ≤ max_dest_len
    → dump_to_buff max_dest_len (answer content) dest ≡ dumped d h
    → bytes_of d 0 h ≡ response_head (answer content) ++ content
bytes_of-dump_to_buff max_dest_len content dest d h small room e =
    let text = response_head (answer content) ++ content in
    let buff = content_buff-filled max_dest_len (http_response 0 2) content in
    let result =
      dump_to_buff-filled max_dest_len (http_response 0 2) content dest (inr small) (omega arith)
        (omega (arith, head_short)) (omega (arith, head_short)) in
    elim (dec_lt (length text) max_dest_len) [
      | yes shorter ↦
          let (d', p, t, z) = result.fits (
            subst (λ l. length (response_head (answer content) ++ l) < max_dest_len) (sym buff)
              shorter) in
          text_of-eq d d' h _ (sym e ∙ p) ∙ t ∙ ap (λ l. response_head (answer content) ++ l) buff
      | no longer ↦ elim (ℕ_discrete (length text) max_dest_len) [
        | yes same ↦ absurd (
            not_outside d h (
              sym e
              ∙ result.as_long
                  (ap (λ l. length (response_head (answer content) ++ l)) buff ∙ same)))
        | no other ↦
            let longest = above (length text) max_dest_len longer other in
            let all = ap (λ l. length (response_head (answer content) ++ l)) buff in
            elim (dec_lt (length text) (2 ^ 31)) [
              | yes int ↦ absurd (
                  not_failed d h (
                    sym e
                    ∙ result.too_long (omega (arith, all, longest)) (omega (arith, all, int))))
              | no wide ↦ absurd (
                  not_outside d h (
                    sym e
                    ∙ result.too_long_for_int (omega (arith, all, longest))
                        (omega (arith, all, wide))))
            ]
      ]
    ]
  where
    head_short : length (response_head (answer content)) ≤ 64
    head_short = omega (
      arith,
      ap length (head-answer content (omega arith)),
      length-head_of (decimal (length content)),
      length-decimal (length content) (omega arith),
    )

    not_outside : (d' : ℕ → ℕ) (h' : ℕ) → dumped d' h' ≢ outside
    not_outside d' h' q = cc

    not_failed : (d' : ℕ → ℕ) (h' : ℕ) → dumped d' h' ≢ failed
    not_failed d' h' q = cc

    above : (m n : ℕ) → ¬ (m < n) → m ≢ n → n < m
    above m n p q = omega (arith, p, q)
