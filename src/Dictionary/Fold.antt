-- ===== src/Dictionary/Fold.antt =====
-- The second `LookUp` of `CDictionary` against the first: it finds the node of the word in lower case.
use dlg_service.Prelude.{
  ℕ, zero, suc, ◌≡◌, ◌≢◌, refl, Option, none, some, [], ◌∷◌, leb, if◌then◌else◌, Bytes, true, false,
  arith, Bool-cases, inl, inr, ap, sym, ◌∙◌,
}
use dlg_service.Dictionary.{
  CharNode, Dictionary, walk, walk_folded, fold_char, look_up_node, look_up, pos,
}

-- A word in lower case: the letters A to Z, except as the second byte of a two-byte character.
unfoldable pub lower : Bytes → Bytes
lower [] = []
lower (c ∷ []) = fold_char c ∷ []
lower (c ∷ d ∷ w) =
    let two = c ∷ d ∷ lower w in
    let one = fold_char c ∷ lower (d ∷ w) in if leb 128 c then two else one

elim_ext :
    (o : Option ℕ) (f g : ℕ → Option ℕ)
    → ((j : ℕ) → f j ≡ g j)
    → elim o [ none ↦ none | some j ↦ f j ] ≡ elim o [ none ↦ none | some j ↦ g j ]
elim_ext none f g h = refl
elim_ext (some j) f g h = h j

lower_two : (c d : ℕ) (w : Bytes) → leb 128 c ≡ true → lower (c ∷ d ∷ w) ≡ c ∷ d ∷ lower w
unfolding lower
lower_two c d w e = rw e refl

lower_one :
    (c d : ℕ) (w : Bytes) → leb 128 c ≡ false → lower (c ∷ d ∷ w) ≡ fold_char c ∷ lower (d ∷ w)
unfolding lower
lower_one c d w e = ground arith

walk_folded_nil : (nodes : ℕ → CharNode) (need j : ℕ) → walk_folded nodes need j [] ≡ some j
unfolding walk_folded
walk_folded_nil nodes zero j = refl
walk_folded_nil nodes (suc need) j = refl

lower-ne : (c : ℕ) (w : Bytes) → lower (c ∷ w) ≢ []
lower-ne c [] e = let one : lower (c ∷ []) ≡ fold_char c ∷ [] = unfold lower in refl in absurd cc
lower-ne c (d ∷ w) e = elim (Bool-cases (leb 128 c)) [
  | inl h ↦ let two = lower_two c d w h in absurd cc
  | inr h ↦ let one = lower_one c d w h in absurd cc
]

walk_folded-lower :
    (nodes : ℕ → CharNode) (i : ℕ) (w : Bytes) → walk_folded nodes 0 i w ≡ walk nodes i (lower w)
unfolding walk_folded walk
walk_folded-lower nodes i [] = unfold lower in refl
walk_folded-lower nodes i (c ∷ []) =
    let one : lower (c ∷ []) ≡ fold_char c ∷ [] = unfold lower in refl in
    elim_ext ((nodes i).next (fold_char c))
      (λ j. walk_folded nodes (if leb 128 c then 1 else 0) j []) some
      (λ j. walk_folded_nil nodes (if leb 128 c then 1 else 0) j)
    ∙ ap (walk nodes i) (sym one)
walk_folded-lower nodes i (c ∷ d ∷ w) = elim (Bool-cases (leb 128 c)) [
  | inl e ↦
      let same : fold_char c ≡ c = ground arith in
      let skip : (if leb 128 c then 1 else 0) ≡ 1 = ground arith in
      let rest : (j : ℕ)
          → walk_folded nodes (if leb 128 c then 1 else 0) j (d ∷ w) ≡ walk nodes j (d ∷ lower w) =
        λ j.
          ap (λ n. walk_folded nodes n j (d ∷ w)) skip
          ∙ elim_ext ((nodes j).next d) (λ k. walk_folded nodes 0 k w) (λ k. walk nodes k (lower w))
              (λ k. walk_folded-lower nodes k w) in
      elim_ext ((nodes i).next (fold_char c))
        (λ j. walk_folded nodes (if leb 128 c then 1 else 0) j (d ∷ w))
        (λ j. walk nodes j (d ∷ lower w)) rest
      ∙ ap (λ b. walk nodes i (b ∷ d ∷ lower w)) same
      ∙ ap (walk nodes i) (sym (lower_two c d w e))
  | inr e ↦
      let stay : (if leb 128 c then 1 else 0) ≡ 0 = ground arith in
      elim_ext ((nodes i).next (fold_char c))
        (λ j. walk_folded nodes (if leb 128 c then 1 else 0) j (d ∷ w))
        (λ j. walk nodes j (lower (d ∷ w)))
        (λ j. ap (λ n. walk_folded nodes n j (d ∷ w)) stay ∙ walk_folded-lower nodes j (d ∷ w))
      ∙ ap (walk nodes i) (sym (lower_one c d w e))
]

-- From the root the second `LookUp` finds a node exactly where the first finds one for the word in lower
-- case, and it is the node whose number the first returns.
pub look_up_node-look_up :
    (c : ℕ) (w : Bytes) (d : Dictionary)
    → look_up (lower (c ∷ w)) d
      ≡ elim (look_up_node (c ∷ w) none d) [ none ↦ pos 0 | some i ↦ (d.nodes i).dw_index ]
unfolding look_up_node
look_up_node-look_up c w d =
    at_lower (lower (c ∷ w)) (lower-ne c w)
    ∙ ap (λ o. elim o [ none ↦ pos 0 | some i ↦ (d.nodes i).dw_index ])
        (sym (walk_folded-lower d.nodes 0 (c ∷ w)))
  where
    at_lower :
        (v : Bytes)
        → v ≢ []
        → look_up v d ≡ elim (walk d.nodes 0 v) [ none ↦ pos 0 | some i ↦ (d.nodes i).dw_index ]
    at_lower [] n = absurd (n refl)
    at_lower (b ∷ v) n = unfold look_up in refl
