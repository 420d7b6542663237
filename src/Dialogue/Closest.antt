-- ===== src/Dialogue/Closest.antt =====
-- The question that `show_results` searches, from the candidates that are sorted.
use dlg_service.Prelude.{
  ℕ, ◌≤◌, ◌<◌, ◌≡◌, refl, sym, ap, ◌∙◌, subst, Option, none, some, List, [], ◌∷◌, Bool, true, false,
  ltb, ◌&&◌, Bytes, bytes_eq, bytes_eq→eq, All, arith, Bool-cases, inl, inr, ◌⊎◌, Map, lookup, has,
  nat_ord, ◌==◌, dec_le,
}
use dlg_service.Text.Split.{IsPlain}
use dlg_service.EditDist.{Cells, calculate, edit_sort}
use dlg_service.EditDist.Groups.{is_in, firsts, extend, group, edit_sort-group}
use dlg_service.Dialogue.{distance, asked}
use dlg_service.Dialogue.Nearest.{asked-IsNearest}

is_in-here : (c d : Bytes) (cs : List Bytes) → bytes_eq d c ≡ true → is_in c (d ∷ cs) ≡ true
unfolding is_in
is_in-here c d cs h = ground arith

-- Among the first occurrences are all candidates and nothing else.
is_in-firsts :
    (c : Bytes) (seen cs : List Bytes)
    → is_in c seen ≡ false
    → is_in c (firsts seen cs) ≡ is_in c cs
unfolding is_in firsts
is_in-firsts c seen [] h = refl
is_in-firsts c seen (d ∷ cs) h = elim (Bool-cases (is_in d seen)) [
  | inl old ↦
      let other : bytes_eq d c ≡ false = ground (arith, bytes_eq→eq d c) in
      rw (old, other, is_in-firsts c seen cs h) refl
  | inr new ↦ elim (Bool-cases (bytes_eq d c)) [
    | inl same ↦ rw (new, same) refl
    | inr other ↦ rw (new, other) (is_in-firsts c (d ∷ seen) cs (ground arith))
  ]
]

All-is_in {ℓ} :
    (P : Bytes → Type ℓ) (c : Bytes) (cs : List Bytes) → All P cs → is_in c cs ≡ true → P c
unfolding is_in
All-is_in P c [] a h = absurd cc
All-is_in P c (d ∷ cs) a h = elim (Bool-cases (bytes_eq d c)) [
  | inl same ↦ subst P (bytes_eq→eq d c same) a.0
  | inr other ↦ All-is_in P c cs a.1 (ground arith)
]

nothing_found : (k : ℕ) (t : Bytes) → lookup k [] ≡ some t → 5 < k
unfolding lookup
nothing_found k t q = absurd cc

skipped : (n d : ℕ) (t : Bytes) (m : Map ℕ Bytes) → ltb 5 d ≡ true → asked n ((d, t) ∷ m) ≡ none
unfolding asked
skipped n d t m h = rw h refl

-- A key that is found is not below the first one.
first-le {ℓ} :
    {V : Type ℓ} (k j : ℕ) (v u : V) (m : Map ℕ V) → lookup k ((j, v) ∷ m) ≡ some u → j ≤ k
unfolding lookup
first-le k j v u m h = ground arith

-- A text of a list with something in it is filed.
has-extend : (c : Bytes) (g : List Bytes) → is_in c g ≡ true → has (extend none g) ≡ true
unfolding is_in extend
has-extend c [] h = absurd cc
has-extend c (d ∷ g) h = refl

found_text {ℓ} : {V : Type ℓ} (o : Option V) → has o ≡ true → (v : V) × (o ≡ some v)
found_text none h = absurd cc
found_text (some v) h = (v, refl)

and_both : (b : Bool) (x d : ℕ) → (b && (x == d)) ≡ true → (b ≡ true) × (x ≡ d)
and_both b x d h = (ground arith, ground arith)

both_and : (b : Bool) (x d : ℕ) → b ≡ true → x ≡ d → (b && (x == d)) ≡ true
both_and b x d p q = ground arith

module _ (segment : Bytes → List Bytes) (raw : Cells) (str1 : Bytes) where
  is_in-group :
      (c : Bytes) (d : ℕ) (cs : List Bytes)
      → is_in c (group segment raw str1 d cs) ≡ (is_in c cs && (calculate segment raw str1 c == d))
  unfolding is_in group
  is_in-group c d [] = refl
  is_in-group c d (b ∷ cs) = elim (Bool-cases (bytes_eq b c)) [
    | inl same ↦ elim (Bool-cases (calculate segment raw str1 b == d)) [
      | inl at ↦
          let c_at : (calculate segment raw str1 c == d) ≡ true =
            ap (λ x. calculate segment raw str1 x == d) (sym (bytes_eq→eq b c same)) ∙ at in
          rw (at, c_at, same) refl
      | inr off ↦
          let c_off : (calculate segment raw str1 c == d) ≡ false =
            ap (λ x. calculate segment raw str1 x == d) (sym (bytes_eq→eq b c same)) ∙ off in
          rw (off, is_in-group c d cs, c_off) (ground arith)
    ]
    | inr other ↦ elim (Bool-cases (calculate segment raw str1 b == d)) [
      | inl at ↦ rw (at, other) (is_in-group c d cs)
      | inr off ↦ rw (off, other) (is_in-group c d cs)
    ]
  ]

  -- A question at the least distance, and of those one whose length is nearest to n.
  pub record IsClosest (n : ℕ) (cs : List Bytes) (q : Bytes) : Type 0 where
    pub among : is_in q cs ≡ true
    pub least :
        (c : Bytes)
        → is_in c cs ≡ true
        → calculate segment raw str1 q ≤ calculate segment raw str1 c
    pub nearest :
        (c : Bytes)
        → is_in c cs ≡ true
        → calculate segment raw str1 c ≡ calculate segment raw str1 q
        → distance n q ≤ distance n c

  abbrev pub Sought : ℕ → List Bytes → Option Bytes → Type 0
  Sought n cs o =
      ((o ≡ none) × ((c : Bytes) → is_in c cs ≡ true → 5 < calculate segment raw str1 c))
      ⊎ ((q : Bytes) × (o ≡ some q) × (calculate segment raw str1 q ≤ 5) × IsClosest n cs q)

  abbrev sorted : List Bytes → Map ℕ Bytes
  sorted cs = (edit_sort segment raw str1 cs [] []).cadidate_sort

  grouped :
      (c : Bytes) (d : ℕ) (cs : List Bytes)
      → is_in c (group segment raw str1 d (firsts [] cs))
        ≡ (is_in c cs && (calculate segment raw str1 c == d))
  grouped c d cs =
      is_in-group c d (firsts [] cs)
      ∙ ap (λ b. b && (calculate segment raw str1 c == d))
          (is_in-firsts c [] cs (unfold is_in in refl))

  -- Every candidate's distance is a key.
  key_of :
      (c : Bytes) (cs : List Bytes)
      → is_in c cs ≡ true
      → (t : Bytes) × (lookup (calculate segment raw str1 c) (sorted cs) ≡ some t)
  key_of c cs h =
      let g = group segment raw str1 (calculate segment raw str1 c) (firsts [] cs) in
      let inside : is_in c g ≡ true =
        rw (grouped c (calculate segment raw str1 c) cs, h) (ground arith) in
      let (t, e) = found_text (extend none g) (has-extend c g inside) in
      (t, edit_sort-group segment raw str1 cs (calculate segment raw str1 c) ∙ e)

  -- The first key is the least distance.
  least_key :
      (c : Bytes) (cs : List Bytes) (d : ℕ) (text : Bytes) (rest : Map ℕ Bytes)
      → sorted cs ≡ (d, text) ∷ rest
      → is_in c cs ≡ true
      → d ≤ calculate segment raw str1 c
  least_key c cs d text rest e h =
      let (t, found) = key_of c cs h in
      first-le (calculate segment raw str1 c) d text t rest
        (ap (lookup (calculate segment raw str1 c)) (sym e) ∙ found)

  no_key :
      (c : Bytes) (cs : List Bytes)
      → sorted cs ≡ []
      → is_in c cs ≡ true
      → 5 < calculate segment raw str1 c
  no_key c cs e h =
      let (t, found) = key_of c cs h in
      (nothing_found (calculate segment raw str1 c) t
        (ap (lookup (calculate segment raw str1 c)) (sym e) ∙ found))

  pub asked-Sought :
      (cs : List Bytes) (n : ℕ)
      → All (IsPlain b'#' (b'#' ∷ b'#' ∷ [])) cs
      → All (λ c. distance n c < 10000) cs
      → Sought n cs (asked n (sorted cs))
  asked-Sought cs n plain close = by_first (sorted cs) refl
    where
      by_first : (m : Map ℕ Bytes) → sorted cs ≡ m → Sought n cs (asked n (sorted cs))
      by_first [] e = inl (unfold asked in ap (asked n) e, λ c h. no_key c cs e h)
      by_first ((d, text) ∷ rest) e = elim (dec_le d 5) [
        | no far ↦
            let high : ltb 5 d ≡ true = ground (arith, far) in
            inl (
              ap (asked n) e ∙ skipped n d text rest high,
              λ c h. omega (arith, far, least_key c cs d text rest e h),
            )
        | yes near ↦
            let (q, a, inside, nearest) =
              asked-IsNearest segment raw str1 cs n d text rest plain close e near in
            let (in_cs, at) =
              and_both (is_in q cs) (calculate segment raw str1 q) d
                (sym (grouped q d cs) ∙ inside) in
            inr (
              q,
              a,
              omega (arith, at),
              record {
                among = in_cs;
                least = λ c h. omega (arith, at, least_key c cs d text rest e h);
                nearest = λ c h same.
                    All-is_in (λ x. distance n q ≤ distance n x) c
                      (group segment raw str1 d (firsts [] cs)) nearest
                      (grouped c d cs
                        ∙ both_and (is_in c cs) (calculate segment raw str1 c) d h (same ∙ at));
              },
            )
      ]
