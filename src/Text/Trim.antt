-- ===== src/Text/Trim.antt =====
-- `StringTrim` removes the blanks at both ends and nothing else.
use dlg_service.Prelude.{
  ℕ, zero, suc, ◌+◌, ◌-◌, ◌≤◌, ◌<◌, ◌≡◌, refl, sym, ◌∙◌, ap, ◌⊎◌, inl, inr, true, false, [], ◌∷◌,
  ◌++◌, arith, Bytes, Bool-cases, length, get_or, take, drop, leb, if◌then◌else◌, All,
  take-append-drop, drop-drop, dec_lt, length-take, length-drop, All-append, subst, leb→le,
}
use native.Mathlib.Numerals.{sub-one}
use native.Mathlib.Nat.{le_refl}
use mathlib.Core.List.{append-nil}
use dlg_service.Text.{substr, is_blank, trim_left, trim_right, string_trim}

abbrev AllBlank : Bytes → Type 0
AllBlank = All (λ c. is_blank c ≡ true)

trim_left-le : (s : Bytes) → trim_left s ≤ length s
unfolding trim_left
trim_left-le [] = omega arith
trim_left-le (c ∷ s) = ground (arith, trim_left-le s)

trim_left-AllBlank : (s : Bytes) → AllBlank (take (trim_left s) s)
unfolding trim_left
trim_left-AllBlank [] = tt
trim_left-AllBlank (c ∷ s) = ground (arith, trim_left-AllBlank s)

trim_left-stop : (s : Bytes) → trim_left s < length s → is_blank (get_or s (trim_left s) 0) ≡ false
unfolding trim_left
trim_left-stop [] h = absurd (omega arith)
trim_left-stop (c ∷ s) h = ground (arith, trim_left-stop s)

trim_right-le : (s : Bytes) (k : ℕ) → trim_right s k ≤ k
unfolding trim_right
trim_right-le s zero = omega arith
trim_right-le s (suc k) = ground (arith, trim_right-le s k)

trim_right-blank :
    (s : Bytes) (k i : ℕ) → trim_right s k ≤ i → i < k → is_blank (get_or s i 0) ≡ true
unfolding trim_right
trim_right-blank s zero i h l = absurd (omega arith)
trim_right-blank s (suc k) i h l = elim (dec_lt i k) [
  | yes p ↦ ground (arith, trim_right-blank s k i)
  | no p ↦ let e : i ≡ k = omega arith in rw e (ground arith)
]

trim_right-stop :
    (s : Bytes) (k : ℕ) → 0 < trim_right s k → is_blank (get_or s (trim_right s k - 1) 0) ≡ false
unfolding trim_right
trim_right-stop s zero h = absurd (omega arith)
trim_right-stop s (suc k) h = elim (Bool-cases (is_blank (get_or s k 0))) [
  | inl b ↦ rw b (trim_right-stop s k (rw b at h))
  | inr b ↦ rw b (rw (sub-one) b)
]

drop-AllBlank :
    (s : Bytes) (r : ℕ)
    → ((i : ℕ) → r ≤ i → i < length s → is_blank (get_or s i 0) ≡ true)
    → AllBlank (drop r s)
drop-AllBlank [] zero h = tt
drop-AllBlank [] (suc r) h = tt
drop-AllBlank (c ∷ s) zero h = (
  h zero (omega arith) (omega arith),
  drop-AllBlank s zero (λ i p q. h (suc i) (omega arith) (omega arith)),
)
drop-AllBlank (c ∷ s) (suc r) h = drop-AllBlank s r (λ i p q. h (suc i) (omega arith) (omega arith))

get_or-take : (s : Bytes) (n i : ℕ) → i < n → get_or (take n s) i 0 ≡ get_or s i 0
get_or-take s zero i h = absurd (omega arith)
get_or-take [] (suc n) i h = refl
get_or-take (c ∷ s) (suc n) zero h = refl
get_or-take (c ∷ s) (suc n) (suc i) h = get_or-take s n i (omega arith)

get_or-drop : (s : Bytes) (n i : ℕ) → get_or (drop n s) i 0 ≡ get_or s (n + i) 0
get_or-drop s zero i = ap (λ k. get_or s k 0) {x = i} (omega arith)
get_or-drop [] (suc n) i = refl
get_or-drop (c ∷ s) (suc n) i =
    get_or-drop s n i ∙ ap (λ k. get_or (c ∷ s) k 0) {x = suc (n + i)} (omega arith)

-- `t` is `s` without its outer blanks: `s` is blanks, `t` and blanks again, and no end of `t` is
-- blank.
pub record IsTrimOf (s t : Bytes) : Type 0 where
  pub before : Bytes
  pub after : Bytes
  pub cut : s ≡ before ++ (t ++ after)
  pub blank_before : AllBlank before
  pub blank_after : AllBlank after
  pub ends :
      (t ≡ [])
      ⊎ ((is_blank (get_or t 0 0) ≡ false) × (is_blank (get_or t (length t - 1) 0) ≡ false))

module _ (s : Bytes) where
  -- where the two loops stop
  abbrev left : ℕ
  left = trim_left s

  abbrev right : ℕ
  right = trim_right s (length s)

  right-le : right ≤ length s
  right-le = trim_right-le s (length s)

  tail-AllBlank : (r : ℕ) → right ≤ r → AllBlank (drop r s)
  tail-AllBlank r h = drop-AllBlank s r (λ i p q. trim_right-blank s (length s) i (omega arith) q)

  all-AllBlank : right ≤ left → AllBlank s
  all-AllBlank h =
      subst AllBlank (take-append-drop left s)
        (All-append _ (take left s) (drop left s) (trim_left-AllBlank s) (tail-AllBlank left h))

  middle : Bytes
  middle = substr s left (right - left)

  cut_lem : left ≤ right → s ≡ take left s ++ (middle ++ drop right s)
  unfolding middle
  cut_lem h =
      let e : left + (right - left) ≡ right = omega arith in
      let tail_at : drop (right - left) (drop left s) ≡ drop right s =
        drop-drop left (right - left) s ∙ ap (λ k. drop k s) e in
      sym (rw (← tail_at, take-append-drop (right - left) (drop left s)) (take-append-drop left s))

  length-middle : left ≤ right → length middle ≡ right - left
  unfolding middle
  length-middle h =
      omega (arith, length-take (right - left) (drop left s), length-drop left s, right-le)

  middle_at : (i : ℕ) → i < right - left → get_or middle i 0 ≡ get_or s (left + i) 0
  unfolding middle
  middle_at i h = get_or-take (drop left s) (right - left) i h ∙ get_or-drop s left i

  first_kept : left < right → is_blank (get_or middle 0 0) ≡ false
  first_kept h =
      let e : left + 0 ≡ left = omega arith in
      rw (middle_at 0 (omega arith), e) (trim_left-stop s (omega (arith, right-le)))

  last_kept : left < right → is_blank (get_or middle (length middle - 1) 0) ≡ false
  last_kept h =
      let e : left + (right - left - 1) ≡ right - 1 = omega arith in
      rw (length-middle (omega arith), middle_at (right - left - 1) (omega arith), e)
        (trim_right-stop s (length s) (omega arith))

  middle-IsTrimOf : left < right → IsTrimOf s middle
  middle-IsTrimOf h = record {
    before = take left s;
    after = drop right s;
    cut = cut_lem (omega arith);
    blank_before = trim_left-AllBlank s;
    blank_after = tail-AllBlank right (le_refl right);
    ends = inr (first_kept h, last_kept h);
  }

  nothing-IsTrimOf : right ≤ left → IsTrimOf s []
  nothing-IsTrimOf h = record {
    before = s;
    after = [];
    cut = sym (append-nil s);
    blank_before = all-AllBlank h;
    blank_after = tt;
    ends = inl refl;
  }

string_trim_lem : (s : Bytes) → string_trim s ≡ (if leb (right s) (left s) then [] else middle s)
unfolding string_trim middle trim_left trim_right
string_trim_lem [] = refl
string_trim_lem (c ∷ s) = ground arith

-- `StringTrim` splits every string into blanks, the result and blanks again, and the result is
-- empty or neither begins nor ends with a blank.
pub string_trim-IsTrimOf : (s : Bytes) → IsTrimOf s (string_trim s)
string_trim-IsTrimOf s = elim (Bool-cases (leb (right s) (left s))) [
  | inl shut ↦ rw (string_trim_lem s, shut) (nothing-IsTrimOf s (leb→le _ _ shut))
  | inr open_ ↦ rw (string_trim_lem s, open_) (middle-IsTrimOf s (ground arith))
]
