-- ===== src/EditDist/Groups.antt =====
-- What `EditSort` builds: for each distance the distinct candidates at that distance, in order,
-- each followed by "###", and the list of the distances in ascending order.
use dlg_service.Prelude.{
  ℕ, ◌≡◌, refl, sym, ap, ◌∙◌, Bool, true, false, ◌||◌, Bool-cases, Option-cases, inl, inr, Option,
  none, some, List, [], ◌∷◌, ◌++◌, arith, Bytes, bytes_eq, bytes_eq→eq, bytes_eq_refl,
  if◌then◌else◌, ◌==◌, Map, lookup, upsert, lookup-upsert_self, lookup-upsert_ne, has, keys,
  IsSorted, upsert-IsSorted, keys-upsert_new, keys-upsert_old, sort_from, sort_from-append, nat_ord,
  bytes_ord, strcmp-eq, compare-eq, ℕ_discrete, insert,
}
use mathlib.Core.List.{append_assoc}
use dlg_service.Text.Split.{join_each}
use dlg_service.EditDist.{
  Cells, calculate, Sorting, hashes, add_text, count_one, sort_step, sort_loop, edit_sort,
}

unfoldable pub is_in : Bytes → List Bytes → Bool
is_in c [] = false
is_in c (d ∷ ds) = bytes_eq d c || is_in c ds

-- The first occurrences in a list of candidates, past those seen before.
unfoldable pub firsts : List Bytes → List Bytes → List Bytes
firsts seen [] = []
firsts seen (c ∷ cs) =
    let fresh = c ∷ firsts (c ∷ seen) cs in
    let rest = firsts seen cs in if is_in c seen then rest else fresh

lookup-upsert_nat :
    (d e : ℕ) (f : Option Bytes → Bytes) (m : Map ℕ Bytes)
    → lookup d (upsert e f m) ≡ (if e == d then some (f (lookup d m)) else lookup d m)
lookup-upsert_nat d e f m = elim (ℕ_discrete e d) [
  | yes p ↦ rw p (lookup-upsert_self d f m ∙ ground arith)
  | no n ↦ lookup-upsert_ne d e f m (λ h. n (sym (compare-eq d e h))) ∙ ground arith
]

lookup-upsert_bytes :
    (x c : Bytes) (f : Option ℕ → ℕ) (m : Map Bytes ℕ)
    → has (lookup x (upsert c f m)) ≡ (bytes_eq c x || has (lookup x m))
lookup-upsert_bytes x c f m = elim (Bool-cases (bytes_eq c x)) [
  | inl p ↦ rw (p, bytes_eq→eq c x p, lookup-upsert_self x f m)
  | inr n ↦ rw (n, lookup-upsert_ne x c f m (λ h. ground (arith, strcmp-eq x c h, bytes_eq_refl x)))
]

-- What a group becomes when candidates are added to it.
unfoldable pub extend : Option Bytes → List Bytes → Option Bytes
extend old [] = old
extend none (c ∷ cs) = some (join_each hashes (c ∷ cs))
extend (some t) (c ∷ cs) = some (t ++ join_each hashes (c ∷ cs))

module _ (segment : Bytes → List Bytes) (raw : Cells) (str1 : Bytes) where
  -- The candidates at distance d.
  unfoldable pub group : ℕ → List Bytes → List Bytes
  group d [] = []
  group d (c ∷ cs) =
      let rest = group d cs in if calculate segment raw str1 c == d then c ∷ rest else rest

  -- what the maps tell of the candidates that the loop has passed
  record Tracks (seen : List Bytes) (s : Sorting) : Type 0 where
    counted : (c : Bytes) → has (lookup c s.uniq) ≡ is_in c seen
    grouped :
        (c : Bytes)
        → is_in c seen ≡ true
        → has (lookup (calculate segment raw str1 c) s.cadidate_sort) ≡ true

  abbrev step : Bytes → Sorting → Sorting
  step c s = sort_step segment raw str1 c s

  -- a candidate that was seen changes nothing
  step_seen :
      (c : Bytes) (seen : List Bytes) (s : Sorting)
      → Tracks seen s
      → is_in c seen ≡ true
      → step c s ≡ s
  unfolding sort_step
  step_seen c seen s t e = ground (arith, t.counted c, t.grouped c e)

  -- a new one is put at the end of its group
  step_new :
      (c : Bytes) (seen : List Bytes) (s : Sorting) (d : ℕ)
      → Tracks seen s
      → is_in c seen ≡ false
      → lookup d (step c s).cadidate_sort ≡ (
          if calculate segment raw str1 c == d
          then some (add_text c (lookup d s.cadidate_sort))
          else lookup d s.cadidate_sort)
  unfolding sort_step
  step_new c seen s d t e =
      let edis = calculate segment raw str1 c in
      ground (
        arith,
        t.counted c,
        lookup-upsert_nat d edis (add_text c) s.cadidate_sort,
        lookup-upsert_nat d edis (λ _. c ++ hashes) s.cadidate_sort,
      )

  step_uniq :
      (c : Bytes) (seen : List Bytes) (s : Sorting)
      → Tracks seen s
      → is_in c seen ≡ false
      → (step c s).uniq ≡ upsert c count_one s.uniq
  unfolding sort_step
  step_uniq c seen s t e = ground (arith, t.counted c)

  -- the maps go on telling of the candidates passed
  step-Tracks :
      (c : Bytes) (seen : List Bytes) (s : Sorting)
      → Tracks seen s
      → is_in c seen ≡ false
      → Tracks (c ∷ seen) (step c s)
  unfolding is_in
  step-Tracks c seen s t e = record {
    counted = λ x. rw (step_uniq c seen s t e, lookup-upsert_bytes, t.counted x);
    grouped = λ x h.
        ground (
          arith,
          step_new c seen s (calculate segment raw str1 x) t e,
          bytes_eq→eq c x,
          t.grouped x,
        );
  }

  extend-add_text :
      (old : Option Bytes) (c : Bytes) (g : List Bytes)
      → extend (some (add_text c old)) g ≡ extend old (c ∷ g)
  unfolding extend join_each
  extend-add_text none c [] = refl
  extend-add_text none c (x ∷ g) = ap some (append_assoc c hashes (join_each hashes (x ∷ g)))
  extend-add_text (some t) c [] = refl
  extend-add_text (some t) c (x ∷ g) = ap some (
      append_assoc t (c ++ hashes) (join_each hashes (x ∷ g))
      ∙ ap (λ u. t ++ u) (append_assoc c hashes (join_each hashes (x ∷ g))))

  extend_step :
      (old : Option Bytes) (d : ℕ) (c : Bytes) (cs : List Bytes)
      → extend
          (if calculate segment raw str1 c == d then some (add_text c old) else old)
          (group d cs)
        ≡ extend old (group d (c ∷ cs))
  unfolding group
  extend_step old d c cs = elim (Bool-cases (calculate segment raw str1 c == d)) [
    | inl e ↦ rw e (extend-add_text old c (group d cs))
    | inr e ↦ rw e
  ]

  sort_loop-group :
      (cs seen : List Bytes) (s : Sorting) (d : ℕ)
      → Tracks seen s
      → lookup d (sort_loop segment raw str1 cs s).cadidate_sort
        ≡ extend (lookup d s.cadidate_sort) (group d (firsts seen cs))
  unfolding sort_loop firsts
  sort_loop-group [] seen s d t = unfold extend group in refl
  sort_loop-group (c ∷ cs) seen s d t = elim (Bool-cases (is_in c seen)) [
    | inl e ↦ rw e (
        ap (λ u. lookup d (sort_loop segment raw str1 cs u).cadidate_sort) (step_seen c seen s t e)
        ∙ sort_loop-group cs seen s d t)
    | inr e ↦ rw e (
        sort_loop-group cs (c ∷ seen) (step c s) d (step-Tracks c seen s t e)
        ∙ ap (λ o. extend o (group d (firsts (c ∷ seen) cs))) (step_new c seen s d t e)
        ∙ extend_step (lookup d s.cadidate_sort) d c (firsts (c ∷ seen) cs))
  ]

  -- From an empty map `EditSort` files, under each distance d, the distinct candidates at that
  -- distance in the order of their first occurrence, each followed by "###"; a distance that no
  -- candidate has is not a key.
  pub edit_sort-group :
      (cs : List Bytes) (d : ℕ)
      → lookup d (edit_sort segment raw str1 cs [] []).cadidate_sort
        ≡ extend none (group d (firsts [] cs))
  unfolding edit_sort lookup is_in
  edit_sort-group cs d =
      sort_loop-group cs [] (record { cadidate_sort = []; sort_ed = []; uniq = [] }) d
        (record { counted = λ c. refl; grouped = λ c h. cc })

  -- the distances recorded so far are the keys of the map, which ascend
  record IsKeyed (s : Sorting) : Type 0 where
    listed : sort_from [] s.sort_ed ≡ keys s.cadidate_sort
    ascending : IsSorted s.cadidate_sort

  step-IsKeyed : (c : Bytes) (s : Sorting) → IsKeyed s → IsKeyed (step c s)
  unfolding sort_step
  step-IsKeyed c s k = elim (Option-cases (lookup (calculate segment raw str1 c) s.cadidate_sort)) [
    | inl new ↦
        rw (new, sort_step)
          (record {
            listed =
                sort_from-append [] s.sort_ed (calculate segment raw str1 c)
                ∙ ap (insert (calculate segment raw str1 c)) k.listed
                ∙ sym (keys-upsert_new (calculate segment raw str1 c) _ s.cadidate_sort new);
            ascending =
                upsert-IsSorted (calculate segment raw str1 c) _ s.cadidate_sort k.ascending;
          })
    | inr (t, old) ↦ elim (Option-cases (lookup c s.uniq)) [
      | inl new ↦
          rw (old, new, sort_step)
            (record {
              listed =
                  k.listed
                  ∙ sym (keys-upsert_old (calculate segment raw str1 c) _ s.cadidate_sort t old);
              ascending =
                  upsert-IsSorted (calculate segment raw str1 c) _ s.cadidate_sort k.ascending;
            })
      | inr (n, seen) ↦ rw (old, seen, sort_step) k
    ]
  ]

  sort_loop-IsKeyed :
      (cs : List Bytes) (s : Sorting) → IsKeyed s → IsKeyed (sort_loop segment raw str1 cs s)
  unfolding sort_loop
  sort_loop-IsKeyed [] s k = k
  sort_loop-IsKeyed (c ∷ cs) s k = sort_loop-IsKeyed cs (step c s) (step-IsKeyed c s k)

  -- From empty arguments `EditSort` leaves in sortED the keys of cadidate_sort, each once and in
  -- ascending order.
  pub edit_sort-sort_ed :
      (cs : List Bytes)
      → let r = edit_sort segment raw str1 cs [] [] in
        (r.sort_ed ≡ keys r.cadidate_sort) × IsSorted r.cadidate_sort
  unfolding edit_sort
  edit_sort-sort_ed cs =
      let k =
        sort_loop-IsKeyed cs (record { cadidate_sort = []; sort_ed = []; uniq = [] })
          (unfold sort_from in record { listed = refl; ascending = tt }) in
      (k.listed, k.ascending)
