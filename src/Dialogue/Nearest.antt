-- ===== src/Dialogue/Nearest.antt =====
-- The question whose answer is looked up: among the candidates at the least distance, one whose
-- length is nearest to the query's.
use dlg_service.Prelude.{
  ℕ, ◌≤◌, ◌<◌, ◌≡◌, refl, sym, ap, ◌∙◌, subst, none, some, List, [], ◌∷◌, ◌++◌, true, false, ltb,
  ltb→lt, if◌then◌else◌, Bytes, bytes_eq_refl, length, All, arith, Bool-cases, inl, inr, ◌⊎◌, Map,
  lookup, nat_ord, ◌==◌, length-append,
}
use dlg_service.Text.{string_split}
use dlg_service.Text.Split.{join_each, IsPlain, string_split-join_each}
use dlg_service.Index.Make.{split_parts}
use dlg_service.EditDist.{Cells, hashes, calculate, edit_sort}
use dlg_service.EditDist.Groups.{is_in, firsts, extend, group, edit_sort-group}
use dlg_service.Dialogue.{distance, nearest, asked}

module _ (n : ℕ) where
  -- a text's own length is at most as far off as those of the texts of a list
  abbrev pub IsNearest : Bytes → List Bytes → Type 0
  IsNearest q cs = All (λ c. distance n q ≤ distance n c) cs

  -- Either no text is nearer than the bound and the result is the one before, or it is a nearest one.
  abbrev Outcome : Bytes → List Bytes → Bytes → ℕ → Type 0
  Outcome r vec best dis =
      ((r ≡ best) × All (λ c. dis ≤ distance n c) vec)
      ⊎ ((is_in r vec ≡ true) × (distance n r < dis) × IsNearest r vec)

  is_in_behind : (r a : Bytes) (vec : List Bytes) → is_in r vec ≡ true → is_in r (a ∷ vec) ≡ true
  unfolding is_in
  is_in_behind r a vec h = ground arith

  is_in_here : (r a : Bytes) (vec : List Bytes) → r ≡ a → is_in r (a ∷ vec) ≡ true
  unfolding is_in
  is_in_here r a vec e = rw (e, bytes_eq_refl a) refl

  All-trans :
      (x y : ℕ) (cs : List Bytes)
      → x ≤ y
      → All (λ c. y ≤ distance n c) cs
      → All (λ c. x ≤ distance n c) cs
  All-trans x y [] h k = tt
  All-trans x y (c ∷ cs) h k = (omega (arith, k.0), All-trans x y cs h k.1)

  taken :
      (r a best : Bytes) (vec : List Bytes) (dis : ℕ)
      → distance n a < dis
      → Outcome r vec a (distance n a)
      → Outcome r (a ∷ vec) best dis
  taken r a best vec dis h (inl (e, all)) =
      let same : distance n r ≡ distance n a = ap (distance n) e in
      inr (
        is_in_here r a vec e,
        omega (arith, same),
        (
          omega (arith, same),
          All-trans (distance n r) (distance n a) vec (omega (arith, same)) all,
        ),
      )
  taken r a best vec dis h (inr (i, lt, all)) =
      inr (is_in_behind r a vec i, omega (arith, lt), (omega (arith, lt), all))

  passed :
      (r a best : Bytes) (vec : List Bytes) (dis : ℕ)
      → dis ≤ distance n a
      → Outcome r vec best dis
      → Outcome r (a ∷ vec) best dis
  passed r a best vec dis h (inl (e, all)) = inl (e, (h, all))
  passed r a best vec dis h (inr (i, lt, all)) =
      inr (is_in_behind r a vec i, lt, (omega (arith, lt), all))

  nearest_lem :
      (vec : List Bytes) (best : Bytes) (dis : ℕ) → Outcome (nearest n vec best dis) vec best dis
  unfolding nearest
  nearest_lem [] best dis = inl (refl, tt)
  nearest_lem (a ∷ vec) best dis = elim (Bool-cases (ltb (distance n a) dis)) [
    | inl closer ↦
        subst (λ r. Outcome r (a ∷ vec) best dis)
          (ap (λ b. if b then nearest n vec a (distance n a) else nearest n vec best dis)
            (sym closer))
          (taken _ a best vec dis (ltb→lt (distance n a) dis closer)
            (nearest_lem vec a (distance n a)))
    | inr not_closer ↦
        subst (λ r. Outcome r (a ∷ vec) best dis)
          (ap (λ b. if b then nearest n vec a (distance n a) else nearest n vec best dis)
            (sym not_closer))
          (passed _ a best vec dis (not_ltb (distance n a) dis not_closer)
            (nearest_lem vec best dis))
  ]
    where
      not_ltb : (x y : ℕ) → ltb x y ≡ false → y ≤ x
      not_ltb x y h = ground arith

module _ (segment : Bytes → List Bytes) (raw : Cells) (str1 : Bytes) where
  group-All :
      (P : Bytes → Type 0) (d : ℕ) (cs : List Bytes)
      → All P cs
      → All P (group segment raw str1 d cs)
  unfolding group
  group-All P d [] a = tt
  group-All P d (c ∷ cs) a = elim (Bool-cases (calculate segment raw str1 c == d)) [
    | inl e ↦ rw (e, group) (a.0, group-All P d cs a.1)
    | inr e ↦ rw (e, group) (group-All P d cs a.1)
  ]

  firsts-All : (P : Bytes → Type 0) (seen cs : List Bytes) → All P cs → All P (firsts seen cs)
  unfolding firsts
  firsts-All P seen [] a = tt
  firsts-All P seen (c ∷ cs) a = elim (Bool-cases (is_in c seen)) [
    | inl e ↦ rw (e, firsts) (firsts-All P seen cs a.1)
    | inr e ↦ rw (e, firsts) (a.0, firsts-All P (c ∷ seen) cs a.1)
  ]

  -- The candidates are non-empty texts without `#`, whose lengths are less than 10000 away from the
  -- query's. Where the first entry of what `EditSort` made of them is for a distance d of at most 5,
  -- `show_results` searches a candidate at the distance d, and none of the candidates at this distance
  -- has a length that is nearer to the query's.
  pub asked-IsNearest :
      (cs : List Bytes) (n d : ℕ) (text : Bytes) (da_vec : Map ℕ Bytes)
      → All (IsPlain b'#' (b'#' ∷ b'#' ∷ [])) cs
      → All (λ c. distance n c < 10000) cs
      → (edit_sort segment raw str1 cs [] []).cadidate_sort ≡ (d, text) ∷ da_vec
      → d ≤ 5
      → (q : Bytes) × (asked n (edit_sort segment raw str1 cs [] []).cadidate_sort ≡ some q)
        × (is_in q (group segment raw str1 d (firsts [] cs)) ≡ true)
        × IsNearest n q (group segment raw str1 d (firsts [] cs))
  unfolding asked
  asked-IsNearest cs n d text da_vec plain close first small =
      let g = group segment raw str1 d (firsts [] cs) in
      let filed : some text ≡ extend none g =
        head_lookup ∙ ap (lookup d) (sym first) ∙ edit_sort-group segment raw str1 cs d in
      rw first (
        found g
          (group-All (IsPlain b'#' (b'#' ∷ b'#' ∷ [])) d (firsts [] cs) (firsts-All _ [] cs plain))
          (group-All (λ c. distance n c < 10000) d (firsts [] cs) (firsts-All _ [] cs close)) filed)
    where
      head_lookup : some text ≡ lookup d ((d, text) ∷ da_vec)
      head_lookup = unfold lookup in ground (arith, nat_ord.cmp_refl d)

      found :
          (g : List Bytes)
          → All (IsPlain b'#' (b'#' ∷ b'#' ∷ [])) g
          → All (λ c. distance n c < 10000) g
          → some text ≡ extend none g
          → (q : Bytes) × (asked n ((d, text) ∷ da_vec) ≡ some q)
            × (is_in q g ≡ true)
            × IsNearest n q g
      found [] p k e = absurd (unfold extend in cc)
      found (c ∷ g) p k e =
          let t : text ≡ join_each hashes (c ∷ g) = unfold extend in cc in
          let s : split_parts text hashes ≡ c ∷ g =
            ap (λ u. split_parts u hashes) t
            ∙ parts_some (string_split-join_each b'#' (b'#' ∷ b'#' ∷ []) (c ∷ g) p) in
          let r = nearest n (c ∷ g) text 10000 in
          let low : ltb 5 d ≡ false = ground arith in
          let full : ltb (length text) 1 ≡ false =
            ltb_false (length text) (omega (arith, ap length t, size c g)) in
          let good : (is_in r (c ∷ g) ≡ true) × IsNearest n r (c ∷ g) =
            elim (nearest_lem n (c ∷ g) text 10000) [
              | inl (same, far) ↦ absurd (omega (arith, far.0, k.0))
              | inr (i, lt, all) ↦ (i, all)
            ] in
          (r, rw (low, full, s) refl, good.0, good.1)
        where
          parts_some :
              {o : List Bytes}
              → string_split (join_each hashes (c ∷ g)) hashes ≡ some o
              → split_parts (join_each hashes (c ∷ g)) hashes ≡ o
          parts_some h = rw (h, split_parts) refl

          ltb_false : (m : ℕ) → 1 ≤ m → ltb m 1 ≡ false
          ltb_false m h = ground arith

          size : (x : Bytes) (xs : List Bytes) → 1 ≤ length (join_each hashes (x ∷ xs))
          size x xs =
              unfold join_each in
              omega (
                arith,
                length-append x (hashes ++ join_each hashes xs),
                length-append hashes (join_each hashes xs),
              )
