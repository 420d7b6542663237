-- ===== src/Dictionary/Tree.antt =====
-- The shape of the tree that `CDictionary` keeps in its pool, and what a new node does to it.
use dlg_service.Prelude.{
  ℕ, zero, suc, ◌+◌, ◌<◌, ◌≡◌, ◌≢◌, refl, ap, ◌∙◌, sym, subst, Option, none, some, [], ◌∷◌, ◌++◌,
  ◌==◌, ==_refl, ◌⊎◌, inl, inr, if◌then◌else◌, Bytes, true, false, arith, Option-cases, Bool-cases,
  ==→eq,
}
use mathlib.Core.List.{append_assoc, append-nil}
use dlg_service.Dictionary.{
  ℤ, pos, negsuc, neg, CharNode, reset_node, put_at, Dictionary, walk, look_up, link,
}

pub put_at_self {ℓ} : {A : Type ℓ} (k : ℕ) (v : A) (f : ℕ → A) → put_at k v f k ≡ v
unfolding put_at
put_at_self k v f = rw (==_refl k) refl

pub put_at_ne {ℓ} : {A : Type ℓ} (k : ℕ) (v : A) (f : ℕ → A) (i : ℕ) → i ≢ k → put_at k v f i ≡ f i
unfolding put_at
put_at_ne k v f i n = ground arith

-- Every node's path from the root: links follow it, and a node's number is its place in the pool, negative
-- while no word ends there.
pub record IsTree (path : ℕ → Bytes) (d : Dictionary) : Type 0 where
  pub root : path 0 ≡ []
  pub room : 0 < d.cur_node_index
  pub links :
      (i c j : ℕ)
      → i < d.cur_node_index
      → (d.nodes i).next c ≡ some j
      → (0 < j) × (j < d.cur_node_index) × (path j ≡ path i ++ c ∷ [])
  pub numbers :
      (i : ℕ)
      → 0 < i
      → i < d.cur_node_index
      → ((d.nodes i).dw_index ≡ neg i) ⊎ ((d.nodes i).dw_index ≡ pos i)

-- The number of a word, which is positive.
abbrev pub number : ℤ → Option ℕ
number (pos zero) = none
number (pos (suc n)) = some (suc n)
number (negsuc n) = none

abbrev pub entry : Bytes → Dictionary → Option ℕ
entry v d = number (look_up v d)

module _ {path : ℕ → Bytes} {d : Dictionary} (t : IsTree path d) where
  pub walk-path :
      (v : Bytes) (i m : ℕ)
      → i < d.cur_node_index
      → walk d.nodes i v ≡ some m
      → (m < d.cur_node_index) × (path m ≡ path i ++ v)
  unfolding walk
  walk-path [] i m l e = let q : m ≡ i = cc in (omega arith, ap path q ∙ sym (append-nil (path i)))
  walk-path (c ∷ v) i m l e = elim (Option-cases ((d.nodes i).next c)) [
    | inl f ↦ absurd cc
    | inr (j, f) ↦
        let (p, q, r) = t.links i c j l f in
        let (a, b) =
          walk-path v j m q
            (subst (λ o. elim o [ none ↦ none | some k ↦ walk d.nodes k v ] ≡ some m) f e) in
        (a, b ∙ ap (λ u. u ++ v) r ∙ append_assoc (path i) (c ∷ []) v)
  ]

pub walk-append :
    (nodes : ℕ → CharNode) (u v : Bytes) (i j : ℕ)
    → walk nodes i u ≡ some j
    → walk nodes i (u ++ v) ≡ walk nodes j v
unfolding walk
walk-append nodes [] v i j e = let q : i ≡ j = cc in ap (λ k. walk nodes k v) q
walk-append nodes (c ∷ u) v i j e = elim (Option-cases ((nodes i).next c)) [
  | inl f ↦ absurd cc
  | inr (k, f) ↦ rw f (
      walk-append nodes u v k j
        (subst (λ o. elim o [ none ↦ none | some k' ↦ walk nodes k' u ] ≡ some j) f e))
]

-- A new node under `i`.
abbrev pub extend : ℕ → ℕ → Dictionary → Dictionary
extend i c d = link i c d.cur_node_index (record {
  nodes = put_at d.cur_node_index (record reset_node { dw_index = neg d.cur_node_index }) d.nodes;
  cur_node_index = d.cur_node_index + 1;
})

module _ {path : ℕ → Bytes} {d : Dictionary} (t : IsTree path d) (i c : ℕ)
    (l : i < d.cur_node_index) where
  pub nodes_new :
      (extend i c d).nodes d.cur_node_index ≡ record reset_node { dw_index = neg d.cur_node_index }
  unfolding link
  nodes_new =
      put_at_ne i _ _ d.cur_node_index (omega arith) ∙ put_at_self d.cur_node_index _ d.nodes

  nodes_old : (j : ℕ) → j < d.cur_node_index → j ≢ i → (extend i c d).nodes j ≡ d.nodes j
  unfolding link
  nodes_old j h n = put_at_ne i _ _ j n ∙ put_at_ne d.cur_node_index _ d.nodes j (omega arith)

  nodes_parent :
      (extend i c d).nodes i
      ≡ record (d.nodes i) { next = put_at c (some d.cur_node_index) (d.nodes i).next }
  unfolding link
  nodes_parent =
      put_at_self i _ _
      ∙ ap {A = CharNode} (λ x. record x { next = put_at c (some d.cur_node_index) x.next })
          (put_at_ne d.cur_node_index (record reset_node { dw_index = neg d.cur_node_index })
            d.nodes i (omega arith))

  pub dw_index_old :
      (j : ℕ) → j < d.cur_node_index → ((extend i c d).nodes j).dw_index ≡ (d.nodes j).dw_index
  dw_index_old j h = elim (Bool-cases (j == i)) [
    | inl e ↦ rw (==→eq j i e) (ap (λ x. x.dw_index) nodes_parent)
    | inr e ↦ ap (λ x. x.dw_index) (nodes_old j h (ground arith))
  ]

  next_old :
      (j e m : ℕ)
      → j < d.cur_node_index
      → ((extend i c d).nodes j).next e ≡ some m
      → ((d.nodes j).next e ≡ some m) ⊎ ((m ≡ d.cur_node_index) × (j ≡ i) × (e ≡ c))
  unfolding put_at
  next_old j e m h f = elim (Bool-cases (j == i)) [
    | inr n ↦ inl (sym (ap (λ x. x.next e) (nodes_old j h (ground arith))) ∙ f)
    | inl s ↦
        let at : ((extend i c d).nodes i).next e ≡ some m =
          subst (λ k. ((extend i c d).nodes k).next e ≡ some m) (==→eq j i s) f in
        let put : put_at c (some d.cur_node_index) (d.nodes i).next e ≡ some m =
          sym (ap (λ x. x.next e) nodes_parent) ∙ at in
        rw (==→eq j i s) (elim (Bool-cases (e == c)) [
          | inl q ↦
              let g : some d.cur_node_index ≡ some m =
                subst (λ b. (if b then some d.cur_node_index else (d.nodes i).next e) ≡ some m) q
                  put in
              inr (cc, refl, ==→eq e c q)
          | inr q ↦ inl (
              subst (λ b. (if b then some d.cur_node_index else (d.nodes i).next e) ≡ some m) q put)
        ])
  ]

  next_kept :
      (d.nodes i).next c ≡ none
      → (j e m : ℕ) → j < d.cur_node_index
      → (d.nodes j).next e ≡ some m
      → ((extend i c d).nodes j).next e ≡ some m
  unfolding put_at
  next_kept free j e m h f = elim (Bool-cases (j == i)) [
    | inr n ↦ ap (λ x. x.next e) (nodes_old j h (ground arith)) ∙ f
    | inl s ↦
        let at : (d.nodes i).next e ≡ some m =
          subst (λ k. (d.nodes k).next e ≡ some m) (==→eq j i s) f in
        rw (==→eq j i s) (
          ap (λ x. x.next e) nodes_parent ∙ elim (Bool-cases (e == c)) [
            | inl q ↦
                let g : (d.nodes i).next e ≡ none = ap (d.nodes i).next (==→eq e c q) ∙ free in
                absurd cc
            | inr q ↦ rw q at
          ])
  ]

  pub next_fresh : ((extend i c d).nodes i).next c ≡ some d.cur_node_index
  next_fresh =
      ap (λ x. x.next c) nodes_parent ∙ put_at_self c (some d.cur_node_index) (d.nodes i).next

  walk_next :
      (j e : ℕ) (v : Bytes) (k : ℕ) (nodes : ℕ → CharNode)
      → (nodes j).next e ≡ some k
      → walk nodes j (e ∷ v) ≡ walk nodes k v
  unfolding walk
  walk_next j e v k nodes f = rw (f, walk) refl

  -- walks stay, and only the new node is found besides
  pub walk_kept :
      (d.nodes i).next c ≡ none
      → (v : Bytes) (j m : ℕ) → j < d.cur_node_index
      → walk d.nodes j v ≡ some m
      → walk (extend i c d).nodes j v ≡ some m
  unfolding walk
  walk_kept free [] j m h f = f
  walk_kept free (e ∷ v) j m h f = elim (Option-cases ((d.nodes j).next e)) [
    | inl g ↦ absurd cc
    | inr (k, g) ↦
        walk_next j e v k (extend i c d).nodes (next_kept free j e k h g)
        ∙ (walk_kept free v k m ((t.links j e k h g).1) (sym (walk_next j e v k d.nodes g) ∙ f))
  ]

  pub walk_old :
      (v : Bytes) (j m : ℕ)
      → j < d.cur_node_index
      → walk (extend i c d).nodes j v ≡ some m
      → (walk d.nodes j v ≡ some m) ⊎ (m ≡ d.cur_node_index)
  unfolding walk
  walk_old [] j m h f = inl f
  walk_old (e ∷ v) j m h f = elim (Option-cases (((extend i c d).nodes j).next e)) [
    | inl g ↦ absurd cc
    | inr (k, g) ↦
        let rest : walk (extend i c d).nodes k v ≡ some m =
          sym (walk_next j e v k (extend i c d).nodes g) ∙ f in
        elim (next_old j e k h g) [
          | inl o ↦ elim (walk_old v k m ((t.links j e k h o).1) rest) [
            | inl w ↦ inl (walk_next j e v k d.nodes o ∙ w)
            | inr n ↦ inr n
          ]
          | inr n ↦ inr (at_new v (subst (λ x. walk (extend i c d).nodes x v ≡ some m) (n.0) rest))
        ]
  ]
    where
      at_new :
          (u : Bytes) → walk (extend i c d).nodes d.cur_node_index u ≡ some m → m ≡ d.cur_node_index
      at_new [] g = cc
      at_new (e ∷ u) g =
          let none_new : ((extend i c d).nodes d.cur_node_index).next e ≡ none =
            ap (λ x. x.next e) nodes_new in
          absurd cc

  pub extend-IsTree : IsTree (put_at d.cur_node_index (path i ++ c ∷ []) path) (extend i c d)
  unfolding link
  extend-IsTree = record {
    root = put_at_ne d.cur_node_index (path i ++ c ∷ []) path 0 (omega (arith, t.room)) ∙ t.root;
    room = omega arith;
    links = λ j e m h f. links_new j e m (Bool-cases (j == d.cur_node_index)) h f;
    numbers = λ j p h. numbers_new j p (Bool-cases (j == d.cur_node_index)) h;
  }
    where
      grown : ℕ → Bytes
      grown = put_at d.cur_node_index (path i ++ c ∷ []) path

      stays : (j : ℕ) → j < d.cur_node_index → grown j ≡ path j
      stays j h = put_at_ne d.cur_node_index (path i ++ c ∷ []) path j (omega arith)

      links_new :
          (j e m : ℕ)
          → ((j == d.cur_node_index) ≡ true) ⊎ ((j == d.cur_node_index) ≡ false)
          → j < d.cur_node_index + 1
          → ((extend i c d).nodes j).next e ≡ some m
          → (0 < m) × (m < d.cur_node_index + 1) × (grown m ≡ grown j ++ e ∷ [])
      links_new j e m (inl q) h f =
          let none_new : ((extend i c d).nodes j).next e ≡ none =
            ap (λ k. ((extend i c d).nodes k).next e) (==→eq j d.cur_node_index q)
            ∙ ap (λ x. x.next e) nodes_new in
          absurd cc
      links_new j e m (inr q) h f =
          let lt : j < d.cur_node_index = ground arith in
          elim (next_old j e m lt f) [
            | inl o ↦
                let (a, b, r) = t.links j e m lt o in
                (a, omega arith, stays m b ∙ r ∙ ap (λ u. u ++ e ∷ []) (sym (stays j lt)))
            | inr (a, b, r) ↦
                rw (a, b, r)
                  (
                    t.room,
                    omega arith,
                    put_at_self d.cur_node_index (path i ++ c ∷ []) path
                        ∙ ap (λ u. u ++ c ∷ []) (sym (stays i l)),
                  )
          ]

      numbers_new :
          (j : ℕ)
          → 0 < j
          → ((j == d.cur_node_index) ≡ true) ⊎ ((j == d.cur_node_index) ≡ false)
          → j < d.cur_node_index + 1
          → (((extend i c d).nodes j).dw_index ≡ neg j)
            ⊎ (((extend i c d).nodes j).dw_index ≡ pos j)
      numbers_new j p (inl q) h =
          rw (==→eq j d.cur_node_index q) (inl (ap (λ x. x.dw_index) nodes_new))
      numbers_new j p (inr q) h =
          let lt : j < d.cur_node_index = ground arith in
          elim (t.numbers j p lt) [
            | inl o ↦ inl (dw_index_old j lt ∙ o)
            | inr o ↦ inr (dw_index_old j lt ∙ o)
          ]
