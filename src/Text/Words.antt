-- ===== src/Text/Words.antt =====
-- `GetWordNum`, `GetTheWord` and `GetEngWord` of src/include/gary_common/gary_string.h, on C strings. A
-- byte from 128 on is a negative char, the first of two.
use dlg_service.Prelude.{
  ℕ, ◌+◌, ◌<◌, ◌≡◌, ◌≢◌, refl, Bool, true, false, ◌&&◌, Option, none, some, List, [], ◌∷◌, ◌++◌,
  leb, ◌==◌, if◌then◌else◌, Bytes, length, All, arith,
}
use mathlib.Core.Option

-- The nested loops of `GetWordNum`. With `skip` the outer loop is at its test, where a blank is passed
-- over; without it the inner loop is.
unfoldable pub word_num : Bool → Bytes → ℕ → ℕ
word_num skip [] num = num + 1
word_num skip (c ∷ []) num = if c == b' ' then (if skip then num + 1 else num + 2) else num + 1
word_num skip (c ∷ d ∷ s) num =
    let past = word_num false s num in
    let behind =
      word_num (if c == b' ' then (if skip then false else true) else false) (d ∷ s)
        (if c == b' ' then (if skip then num else num + 1) else num) in
    if leb 128 c then past else behind

unfoldable pub get_word_num : Bytes → ℕ
get_word_num src = word_num true src 0

-- The loop of `GetTheWord`; `none` where it goes past the end of the string.
unfoldable pub the_word : Bytes → Option Bytes
the_word [] = some []
the_word (c ∷ []) = if c == b' ' then some [] else if leb 128 c then none else some (c ∷ [])
the_word (c ∷ d ∷ s) =
    let past = Option.map (λ w. c ∷ d ∷ w) (the_word s) in
    let behind = Option.map (λ w. c ∷ w) (the_word (d ∷ s)) in
    if c == b' ' then some [] else if leb 128 c then past else behind

-- `GetTheWord`: what is left of the string.
unfoldable pub get_the_word : Bytes → Option Bytes
get_the_word [] = some []
get_the_word (c ∷ s) = if c == b' ' then Option.map (λ w. c ∷ w) (the_word s) else the_word (c ∷ s)

-- The loop of `GetEngWord`: `len_eng` and the number of words.
unfoldable pub eng_word : ℕ → Bytes → ℕ → ℕ → ℕ → ℕ × ℕ
eng_word limit [] cur_num cur_len len_eng = (len_eng, cur_num)
eng_word limit (c ∷ s) cur_num cur_len len_eng =
    let word_end = eng_word limit s (cur_num + 1) (cur_len + 1) cur_len in
    let letter = eng_word limit s cur_num (cur_len + 1) len_eng in
    if c == b' '
    then (if leb limit (cur_num + 1) then (cur_len, cur_num + 1) else word_end)
    else if leb b'a' c && leb c b'z'
    then letter
    else (len_eng, cur_num)

-- `GetEngWord`: the prefix of English words, or NULL, and the number of words.
unfoldable pub get_eng_word : Bytes → ℕ → Option ℕ × ℕ
get_eng_word query num_eng_word =
    let r = eng_word num_eng_word query 0 0 0 in (if r.0 == 0 then none else some r.0, r.1)

-- a word of one-byte characters other than the blank
abbrev pub IsAsciiWord : Bytes → Type 0
IsAsciiWord w = (w ≢ []) × All (λ c. (c < 128) × (c ≢ b' ')) w

-- Words with a blank between them.
unfoldable pub join_words : Bytes → List Bytes → Bytes
join_words w [] = w
join_words w (v ∷ vs) = w ++ b' ' ∷ join_words v vs

-- within a word no word is counted
word_num-append :
    (w : Bytes) (d : ℕ) (s : Bytes) (num : ℕ)
    → All (λ c. (c < 128) × (c ≢ b' ')) w
    → word_num false (w ++ d ∷ s) num ≡ word_num false (d ∷ s) num
unfolding word_num
word_num-append [] d s num a = refl
word_num-append (c ∷ []) d s num a = ground (arith, a.0)
word_num-append (c ∷ e ∷ w) d s num a = ground (arith, a.0, word_num-append (e ∷ w) d s num a.1)

word_num_end :
    (w : Bytes) (num : ℕ) → All (λ c. (c < 128) × (c ≢ b' ')) w → word_num false w num ≡ num + 1
unfolding word_num
word_num_end [] num a = refl
word_num_end (c ∷ []) num a = ground (arith, a.0)
word_num_end (c ∷ e ∷ w) num a = ground (arith, a.0, word_num_end (e ∷ w) num a.1)

-- at the first byte of a word the two loops do the same
word_num_skip :
    (c : ℕ) (s : Bytes) (num : ℕ)
    → c < 128
    → c ≢ b' '
    → word_num true (c ∷ s) num ≡ word_num false (c ∷ s) num
unfolding word_num
word_num_skip c [] num h n = ground arith
word_num_skip c (d ∷ s) num h n = ground arith

word_num_blank :
    (c : ℕ) (s : Bytes) (num : ℕ)
    → word_num false (b' ' ∷ c ∷ s) num ≡ word_num true (c ∷ s) (num + 1)
unfolding word_num
word_num_blank c s num = refl

word_num-join_words :
    (w : Bytes) (vs : List Bytes) (num : ℕ)
    → IsAsciiWord w
    → All IsAsciiWord vs
    → word_num true (join_words w vs) num ≡ num + 1 + length vs
unfolding join_words
word_num-join_words [] vs num a b = absurd (a.0 refl)
word_num-join_words (c ∷ w) [] num a b =
    omega (arith, word_num_skip c w num a.1.0.0 a.1.0.1, word_num_end (c ∷ w) num a.1)
word_num-join_words (c ∷ w) ([] ∷ vs) num a b = absurd (b.0.0 refl)
word_num-join_words (c ∷ w) ((d ∷ v) ∷ vs) num a b = omega (
  arith,
  word_num_skip c (w ++ b' ' ∷ join_words (d ∷ v) vs) num a.1.0.0 a.1.0.1,
  word_num-append (c ∷ w) b' ' (join_words (d ∷ v) vs) num a.1,
  head_blank vs,
  word_num-join_words (d ∷ v) vs (num + 1) b.0 b.1,
)
  where
    head_blank :
        (us : List Bytes)
        → word_num false (b' ' ∷ join_words (d ∷ v) us) num
          ≡ word_num true (join_words (d ∷ v) us) (num + 1)
    head_blank [] = word_num_blank d v num
    head_blank (u ∷ us) = word_num_blank d (v ++ b' ' ∷ join_words u us) num

-- `GetWordNum` of words of one-byte characters with one blank between them is their number.
pub get_word_num-join_words :
    (w : Bytes) (vs : List Bytes)
    → IsAsciiWord w
    → All IsAsciiWord vs
    → get_word_num (join_words w vs) ≡ length (w ∷ vs)
unfolding get_word_num
get_word_num-join_words w vs a b = omega (arith, word_num-join_words w vs 0 a b)
