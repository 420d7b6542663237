-- ===== src/Text/Runs.antt =====
-- `all_substr`, in its two forms, and `all_suffix` of src/include/gary_common/gary_string.h: the texts
-- of runs of segments.
use dlg_service.Prelude.{
  ℕ, zero, suc, ◌+◌, ◌-◌, ◌≤◌, ◌<◌, ◌≡◌, refl, ap, ◌∙◌, sym, Bool, true, false, List, [], ◌∷◌, ◌++◌,
  map, leb, ltb, ◌==◌, if◌then◌else◌, Bytes, length, length-drop, get_or, take, drop, for_up, Map,
  upsert, bytes_ord, increment, arith, Bool-cases, inl, inr, ◌⊎◌,
}
use mathlib.Core.List.{append_assoc, append-nil}
use dlg_service.Index.Make.{concat}

module _ (segment : List Bytes) where
  -- The inner loop of the first `all_substr`, on `sub` and `all_sub`.
  unfoldable pub extend_sub : ℕ → Bytes × List Bytes → Bytes × List Bytes
  extend_sub j (sub, all_sub) =
      let sub' = sub ++ get_or segment j [] in (sub', all_sub ++ sub' ∷ [])

  -- `K - i`.
  abbrev pub reach : ℕ → ℕ
  reach i = if leb (length segment) (i + 5) then length segment - i else 5

  unfoldable pub all_substr_from : ℕ → List Bytes → List Bytes
  all_substr_from i all_sub = (for_up (reach i) i extend_sub ([], all_sub)).1

  -- The first `all_substr`, on the caller's vector.
  unfoldable pub all_substr : List Bytes → List Bytes
  all_substr all_sub = for_up (length segment) 0 all_substr_from all_sub

  -- The inner loop of the second `all_substr`: `false` ends it, as `break` does.
  unfoldable pub count_sub : ℕ → (Bytes × Bool) × Map Bytes ℕ → (Bytes × Bool) × Map Bytes ℕ
  count_sub j ((sub, go), m) =
      let sub' = sub ++ get_or segment j [] in
      if go
      then (if length (get_or segment j []) == 0
          then ((sub, true), m)
          else if ltb 10 (length sub')
          then ((sub', false), m)
          else ((sub', true), upsert sub' increment m))
      else ((sub, go), m)

  unfoldable pub count_substr_from : ℕ → Map Bytes ℕ → Map Bytes ℕ
  count_substr_from i m =
      if length (get_or segment i []) == 0
      then m
      else (for_up (reach i) i count_sub (([], true), m)).1

  -- The second `all_substr`, which counts the texts in the caller's map.
  unfoldable pub count_all_substr : Map Bytes ℕ → Map Bytes ℕ
  count_all_substr m = for_up (length segment) 0 count_substr_from m

  -- The inner loop of `all_suffix`.
  unfoldable pub suffix_from : ℕ → Bytes
  suffix_from i =
      for_up (length segment - (i + 1)) (i + 1) (λ j sub. sub ++ get_or segment j [])
        (get_or segment i [])

  -- `begin`.
  abbrev pub suffix_begin : ℕ
  suffix_begin = if ltb 10 (length segment) then length segment - 10 else 0

  -- `all_suffix`.
  unfoldable pub all_suffix : List Bytes
  all_suffix =
      for_up (length segment - suffix_begin) suffix_begin (λ i out. out ++ suffix_from i ∷ []) []

-- The non-empty beginnings of a list.
unfoldable pub beginnings : List Bytes → List (List Bytes)
beginnings [] = []
beginnings (s ∷ ss) = (s ∷ []) ∷ map (λ r. s ∷ r) (beginnings ss)

-- All runs of one to five neighbours, by where they begin and then by length.
unfoldable pub runs : List Bytes → List (List Bytes)
runs [] = []
runs (s ∷ ss) = beginnings (take 5 (s ∷ ss)) ++ runs ss

-- The non-empty ends of a list.
unfoldable pub ends : List Bytes → List (List Bytes)
ends [] = []
ends (s ∷ ss) = (s ∷ ss) ∷ ends ss

runs_cons : (s : Bytes) (ss : List Bytes) → beginnings (take 5 (s ∷ ss)) ++ runs ss ≡ runs (s ∷ ss)
unfolding runs
runs_cons s ss = refl

ends_cons :
    (s : Bytes) (ss : List Bytes)
    → concat (s ∷ ss) ∷ map concat (ends ss) ≡ map concat (ends (s ∷ ss))
unfolding ends
ends_cons s ss = refl

concat_cons : (s : Bytes) (ss : List Bytes) → s ++ concat ss ≡ concat (s ∷ ss)
unfolding concat
concat_cons s ss = refl

module _ {ℓ} {A : Type ℓ} where
  drop_cons :
      (xs : List A) (i : ℕ) (d : A) → i < length xs → drop i xs ≡ get_or xs i d ∷ drop (suc i) xs
  drop_cons [] i d h = absurd (omega arith)
  drop_cons (x ∷ xs) zero d h = refl
  drop_cons (x ∷ xs) (suc i) d h = drop_cons xs i d (omega arith)

map_append {ℓ κ} :
    {A : Type ℓ} {B : Type κ} (f : A → B) (xs ys : List A) → map f (xs ++ ys) ≡ map f xs ++ map f ys
map_append f [] ys = refl
map_append f (x ∷ xs) ys = ap (λ l. f x ∷ l) (map_append f xs ys)

-- the texts of the beginnings, behind a text
prefixes : Bytes → List Bytes → List Bytes
prefixes sub [] = []
prefixes sub (s ∷ ss) = (sub ++ s) ∷ prefixes (sub ++ s) ss

prefixes-beginnings :
    (sub : Bytes) (ss : List Bytes) → prefixes sub ss ≡ map (λ r. sub ++ concat r) (beginnings ss)
unfolding prefixes beginnings concat
prefixes-beginnings sub [] = refl
prefixes-beginnings sub (s ∷ ss) =
    ap (λ l. l)
      (ap (λ t. (sub ++ t) ∷ prefixes (sub ++ s) ss) (sym (append-nil s))
        ∙ ap (λ l. (sub ++ (s ++ [])) ∷ l)
            (prefixes-beginnings (sub ++ s) ss ∙ shift (beginnings ss)))
  where
    shift :
        (rs : List (List Bytes))
        → map (λ r. (sub ++ s) ++ concat r) rs ≡ map (λ r. sub ++ concat r) (map (λ r. s ∷ r) rs)
    shift [] = refl
    shift (r ∷ rs) =
        ap (λ t. t ∷ map (λ r. (sub ++ s) ++ concat r) rs) (append_assoc sub s (concat r))
        ∙ ap (λ l. (sub ++ (s ++ concat r)) ∷ l) (shift rs)

module _ (segment : List Bytes) where
  extend_sub-prefixes :
      (n i : ℕ) (sub : Bytes) (out : List Bytes)
      → i + n ≤ length segment
      → (for_up n i (extend_sub segment) (sub, out)).1
        ≡ out ++ prefixes sub (take n (drop i segment))
  unfolding for_up extend_sub prefixes
  extend_sub-prefixes zero i sub out h = sym (append-nil out)
  extend_sub-prefixes (suc n) i sub out h =
      let s = get_or segment i [] in
      extend_sub-prefixes n (suc i) (sub ++ s) (out ++ (sub ++ s) ∷ []) (omega arith)
      ∙ append_assoc out ((sub ++ s) ∷ []) (prefixes (sub ++ s) (take n (drop (suc i) segment)))
      ∙ ap (λ l. out ++ prefixes sub (take (suc n) l)) (sym (drop_cons segment i [] (omega arith)))

  take-reach :
      (i : ℕ)
      → i ≤ length segment
      → take (reach segment i) (drop i segment) ≡ take 5 (drop i segment)
  take-reach i h = elim (Bool-cases (leb (length segment) (i + 5))) [
    | inl e ↦ rw e (
        take_all (length segment - i) (drop i segment) (omega (arith, length-drop i segment))
        ∙ sym (take_all 5 (drop i segment) (ground (arith, length-drop i segment))))
    | inr e ↦ rw e refl
  ]
    where
      take_all : (n : ℕ) (xs : List Bytes) → length xs ≤ n → take n xs ≡ xs
      take_all zero [] k = refl
      take_all zero (x ∷ xs) k = absurd (omega arith)
      take_all (suc n) [] k = refl
      take_all (suc n) (x ∷ xs) k = ap (λ l. x ∷ l) (take_all n xs (omega arith))

  all_substr_from-beginnings :
      (i : ℕ) (out : List Bytes)
      → i < length segment
      → all_substr_from segment i out ≡ out ++ map concat (beginnings (take 5 (drop i segment)))
  unfolding all_substr_from
  all_substr_from-beginnings i out h =
      extend_sub-prefixes (reach segment i) i [] out
        (room (Bool-cases (leb (length segment) (i + 5))))
      ∙ ap (λ l. out ++ prefixes [] l) (take-reach i (omega arith))
      ∙ ap (λ l. out ++ l) (prefixes-beginnings [] (take 5 (drop i segment)))
    where
      room :
          (leb (length segment) (i + 5) ≡ true) ⊎ (leb (length segment) (i + 5) ≡ false)
          → i + reach segment i ≤ length segment
      room c = ground arith

  rounds-runs :
      (n i : ℕ) (out : List Bytes)
      → i + n ≡ length segment
      → for_up n i (all_substr_from segment) out ≡ out ++ map concat (runs (drop i segment))
  unfolding for_up
  rounds-runs zero i out e = sym (
      ap (λ l. out ++ map concat (runs l))
        (past (drop i segment) (omega (arith, length-drop i segment)))
      ∙ nothing)
    where
      past : (l : List Bytes) → length l ≡ 0 → l ≡ []
      past [] h = refl
      past (x ∷ l) h = absurd (omega arith)

      nothing : out ++ map concat (runs []) ≡ out
      nothing = unfold runs in append-nil out
  rounds-runs (suc n) i out e =
      let bs = beginnings (take 5 (drop i segment)) in
      rounds-runs n (suc i) (all_substr_from segment i out) (omega arith)
      ∙ ap (λ l. l ++ map concat (runs (drop (suc i) segment)))
          (all_substr_from-beginnings i out (omega arith))
      ∙ append_assoc out (map concat bs) (map concat (runs (drop (suc i) segment)))
      ∙ ap (λ l. out ++ l)
          (sym (map_append concat bs (runs (drop (suc i) segment)))
            ∙ ap (map concat) (next (drop_cons segment i [] (omega arith))))
    where
      next :
          drop i segment ≡ get_or segment i [] ∷ drop (suc i) segment
          → beginnings (take 5 (drop i segment)) ++ runs (drop (suc i) segment)
            ≡ runs (drop i segment)
      next c =
          ap (λ l. beginnings (take 5 l) ++ runs (drop (suc i) segment)) c
          ∙ runs_cons (get_or segment i []) (drop (suc i) segment)
          ∙ ap runs (sym c)

  -- The first `all_substr` appends the texts of all runs of one to five neighbouring segments, by
  -- where they begin and then by length.
  pub all_substr-runs :
      (out : List Bytes) → all_substr segment out ≡ out ++ map concat (runs segment)
  unfolding all_substr
  all_substr-runs out = rounds-runs (length segment) 0 out (omega arith)

  suffix_loop :
      (n i : ℕ) (sub : Bytes)
      → i + n ≡ length segment
      → for_up n i (λ j t. t ++ get_or segment j []) sub ≡ sub ++ concat (drop i segment)
  unfolding for_up
  suffix_loop zero i sub e = sym (
      ap (λ l. sub ++ concat l) (past (drop i segment) (omega (arith, length-drop i segment)))
      ∙ nothing)
    where
      past : (l : List Bytes) → length l ≡ 0 → l ≡ []
      past [] h = refl
      past (x ∷ l) h = absurd (omega arith)

      nothing : sub ++ concat [] ≡ sub
      nothing = unfold concat in append-nil sub
  suffix_loop (suc n) i sub e =
      suffix_loop n (suc i) (sub ++ get_or segment i []) (omega arith)
      ∙ append_assoc sub (get_or segment i []) (concat (drop (suc i) segment))
      ∙ ap (λ t. sub ++ t) (unfold concat in ap concat (sym (drop_cons segment i [] (omega arith))))

  suffix_from-concat :
      (i : ℕ) → i < length segment → suffix_from segment i ≡ concat (drop i segment)
  unfolding suffix_from
  suffix_from-concat i h =
      suffix_loop (length segment - (i + 1)) (i + 1) (get_or segment i []) (omega arith)
      ∙ ap (λ k. get_or segment i [] ++ concat (drop k segment)) next
      ∙ concat_cons (get_or segment i []) (drop (suc i) segment)
      ∙ ap concat (sym (drop_cons segment i [] h))
    where
      next : i + 1 ≡ suc i
      next = omega arith

  suffix_rounds :
      (n i : ℕ) (out : List Bytes)
      → i + n ≡ length segment
      → for_up n i (λ k o. o ++ suffix_from segment k ∷ []) out
        ≡ out ++ map concat (ends (drop i segment))
  unfolding for_up
  suffix_rounds zero i out e = sym (
      ap (λ l. out ++ map concat (ends l))
        (past (drop i segment) (omega (arith, length-drop i segment)))
      ∙ nothing)
    where
      past : (l : List Bytes) → length l ≡ 0 → l ≡ []
      past [] h = refl
      past (x ∷ l) h = absurd (omega arith)

      nothing : out ++ map concat (ends []) ≡ out
      nothing = unfold ends in append-nil out
  suffix_rounds (suc n) i out e =
      suffix_rounds n (suc i) (out ++ suffix_from segment i ∷ []) (omega arith)
      ∙ append_assoc out (suffix_from segment i ∷ []) (map concat (ends (drop (suc i) segment)))
      ∙ ap (λ t. out ++ t ∷ map concat (ends (drop (suc i) segment)))
          (suffix_from-concat i (omega arith))
      ∙ ap (λ l. out ++ l) (next (drop_cons segment i [] (omega arith)))
    where
      next :
          drop i segment ≡ get_or segment i [] ∷ drop (suc i) segment
          → concat (drop i segment) ∷ map concat (ends (drop (suc i) segment))
            ≡ map concat (ends (drop i segment))
      next c =
          ap (λ l. concat l ∷ map concat (ends (drop (suc i) segment))) c
          ∙ ends_cons (get_or segment i []) (drop (suc i) segment)
          ∙ ap (λ l. map concat (ends l)) (sym c)

  -- `all_suffix` gives the texts of the ends of the last ten segments, or of all if there are fewer,
  -- the longest first.
  pub all_suffix-ends : all_suffix segment ≡ map concat (ends (drop (length segment - 10) segment))
  unfolding all_suffix
  all_suffix-ends =
      suffix_rounds (length segment - suffix_begin segment) (suffix_begin segment) []
        (begin_le (Bool-cases (ltb 10 (length segment))))
      ∙ ap (λ k. map concat (ends (drop k segment))) begin_lem
    where
      begin_le :
          (ltb 10 (length segment) ≡ true) ⊎ (ltb 10 (length segment) ≡ false)
          → suffix_begin segment + (length segment - suffix_begin segment) ≡ length segment
      begin_le c = ground arith

      begin_lem : suffix_begin segment ≡ length segment - 10
      begin_lem = ground arith
