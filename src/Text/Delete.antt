-- ===== src/Text/Delete.antt =====
-- `deleteSpace` and `deleteStr` of src/include/gary_common/gary_string.h. Their loops run on fuel, and
-- `none` is a loop that has not ended by then.
use dlg_service.Prelude.{
  ℕ, zero, suc, ◌+◌, ◌<◌, ◌≡◌, ◌≢◌, refl, ap, ◌∙◌, sym, Option, none, some, [], ◌∷◌, ◌++◌, ◌==◌,
  if◌then◌else◌, ltb, Bytes, find, find-le, starts_with, length, length-append, length-take,
  length-drop, take, drop, arith, Option-cases, inl, inr, false,
}

-- `line.replace(loc, n, "")`.
abbrev pub cut : ℕ → ℕ → Bytes → Bytes
cut loc n line = take loc line ++ drop (loc + n) line

unfoldable pub delete_loop : ℕ → Bytes → Bytes → Option Bytes
delete_loop zero str line = none
delete_loop (suc fuel) str line = elim (find line str) [
  | none ↦ some line
  | some loc ↦ delete_loop fuel str (cut loc (length str) line)
]

-- `deleteStr`.
unfoldable pub delete_str : ℕ → Bytes → Bytes → Option Bytes
delete_str fuel str line = if ltb (length line) 1 then some line else delete_loop fuel str line

-- `deleteSpace`.
unfoldable pub delete_space : Bytes → Option Bytes
delete_space line = delete_str (suc (length line)) (b' ' ∷ []) line

cut-lt :
    (line str : Bytes) (loc : ℕ)
    → find line str ≡ some loc
    → length (cut loc (length str) line) + length str ≡ length line
cut-lt line str loc h = omega (
  arith,
  find-le line str loc h,
  length-append (take loc line) (drop (loc + length str) line),
  length-take loc line,
  length-drop (loc + length str) line,
)

delete_loop-find :
    (str : Bytes)
    → str ≢ []
    → (fuel : ℕ) (line : Bytes) → length line < fuel
    → (t : Bytes) × (delete_loop fuel str line ≡ some t) × (find t str ≡ none)
unfolding delete_loop
delete_loop-find str n zero line h = absurd (omega arith)
delete_loop-find str n (suc fuel) line h = elim (Option-cases (find line str)) [
  | inl e ↦ (line, rw (e, delete_loop) refl, e)
  | inr (loc, e) ↦
      rw (e, delete_loop)
        (delete_loop-find str n fuel (cut loc (length str) line)
          (omega (arith, cut-lt line str loc e, positive str n)))
]
  where
    positive : (s : Bytes) → s ≢ [] → 0 < length s
    positive [] m = absurd (m refl)
    positive (c ∷ s) m = omega arith

-- With a text that is not empty `deleteStr` ends, after at most as many rounds as the line has bytes
-- and one, and the text does not stand in what is left.
pub delete_str-find :
    (str line : Bytes)
    → str ≢ []
    → (t : Bytes) × (delete_str (suc (length line)) str line ≡ some t) × (find t str ≡ none)
unfolding delete_str
delete_str-find str [] n = ([], refl, no_prefix str n)
  where
    no_prefix : (s : Bytes) → s ≢ [] → find [] s ≡ none
    no_prefix [] m = absurd (m refl)
    no_prefix (c ∷ s) m = unfold find starts_with in refl
delete_str-find str (c ∷ s) n =
    let (t, e, f) = delete_loop-find str n (suc (length (c ∷ s))) (c ∷ s) (omega arith) in
    let full : ltb (length (c ∷ s)) 1 ≡ false = ground arith in (t, rw full e, f)

delete_loop_nil : (fuel c : ℕ) (s : Bytes) → delete_loop fuel [] (c ∷ s) ≡ none
unfolding delete_loop find starts_with
delete_loop_nil zero c s = refl
delete_loop_nil (suc fuel) c s = delete_loop_nil fuel c s

-- With an empty text `deleteStr` never ends on a line that is not empty.
delete_str_nil : (fuel c : ℕ) (s : Bytes) → delete_str fuel [] (c ∷ s) ≡ none
unfolding delete_str
delete_str_nil fuel c s =
    let full : ltb (length (c ∷ s)) 1 ≡ false = ground arith in rw full (delete_loop_nil fuel c s)

-- A string without its blanks.
unfoldable pub without_blanks : Bytes → Bytes
without_blanks [] = []
without_blanks (c ∷ s) = let rest = without_blanks s in if c == b' ' then rest else c ∷ rest

without_blanks-cut :
    (s : Bytes) (loc : ℕ)
    → find s (b' ' ∷ []) ≡ some loc
    → without_blanks (cut loc 1 s) ≡ without_blanks s
unfolding without_blanks find starts_with
without_blanks-cut [] loc h = cc
without_blanks-cut (c ∷ s) zero h = ground arith
without_blanks-cut (c ∷ s) (suc loc) h = ground (arith, without_blanks-cut s loc)

without_blanks-none : (s : Bytes) → find s (b' ' ∷ []) ≡ none → without_blanks s ≡ s
unfolding without_blanks find starts_with
without_blanks-none [] h = refl
without_blanks-none (c ∷ s) h = ground (arith, without_blanks-none s)

delete_loop-blanks :
    (fuel : ℕ) (line : Bytes)
    → length line < fuel
    → delete_loop fuel (b' ' ∷ []) line ≡ some (without_blanks line)
unfolding delete_loop
delete_loop-blanks zero line h = absurd (omega arith)
delete_loop-blanks (suc fuel) line h = elim (Option-cases (find line (b' ' ∷ []))) [
  | inl e ↦ rw (e, delete_loop) (ap some (sym (without_blanks-none line e)))
  | inr (loc, e) ↦
      rw (e, delete_loop)
        (delete_loop-blanks fuel (cut loc 1 line) (omega (arith, cut-lt line (b' ' ∷ []) loc e))
          ∙ ap some (without_blanks-cut line loc e))
]

-- `deleteSpace` ends, and leaves the bytes other than blanks, in order.
pub delete_space-without_blanks : (line : Bytes) → delete_space line ≡ some (without_blanks line)
unfolding delete_space delete_str
delete_space-without_blanks [] = unfold without_blanks in refl
delete_space-without_blanks (c ∷ s) =
    let full : ltb (length (c ∷ s)) 1 ≡ false = ground arith in
    rw full (delete_loop-blanks (suc (length (c ∷ s))) (c ∷ s) (omega arith))
