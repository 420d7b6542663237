-- ===== src/Dictionary/Marks.antt =====
-- What a new node and the end of `AddWord` change in what `LookUp` finds.
use dlg_service.Prelude.{
  ℕ, zero, suc, ◌<◌, ◌≡◌, ◌≢◌, refl, ap, ◌∙◌, sym, Option, none, some, [], ◌∷◌, ◌++◌, ◌==◌, ◌⊎◌,
  inl, inr, Bytes, true, false, arith, Option-cases, Bool-cases, ==→eq,
}
use dlg_service.Dictionary.{ℤ, pos, negsuc, neg, CharNode, put_at, Dictionary, walk, look_up, mark}
use dlg_service.Dictionary.Tree.{
  IsTree, put_at_self, put_at_ne, walk-path, extend, dw_index_old, nodes_new, walk_kept, walk_old,
}

-- The number of a word, which is positive.
abbrev pub number : ℤ → Option ℕ
number (pos zero) = none
number (pos (suc n)) = some (suc n)
number (negsuc n) = none

-- What `LookUp` says of a word: its number, or none for 0 and for a part of a word.
abbrev pub entry : Bytes → Dictionary → Option ℕ
entry v d = number (look_up v d)

pub look_up-some :
    (v : Bytes) (d : Dictionary) (i : ℕ)
    → v ≢ []
    → walk d.nodes 0 v ≡ some i
    → look_up v d ≡ (d.nodes i).dw_index
unfolding look_up
look_up-some [] d i n e = absurd (n refl)
look_up-some (c ∷ v) d i n e = rw (e, look_up) refl

pub look_up-none : (v : Bytes) (d : Dictionary) → walk d.nodes 0 v ≡ none → look_up v d ≡ pos 0
unfolding look_up
look_up-none [] d e = refl
look_up-none (c ∷ v) d e = rw (e, look_up) refl

pub look_up_nil : (d : Dictionary) → look_up [] d ≡ pos 0
unfolding look_up
look_up_nil d = refl

module _ {path : ℕ → Bytes} {d : Dictionary} (t : IsTree path d) where
  -- a new node is no word yet
  pub entry-extend :
      (i c : ℕ)
      → i < d.cur_node_index
      → (d.nodes i).next c ≡ none
      → (v : Bytes) → entry v (extend i c d) ≡ entry v d
  entry-extend i c l free [] = ap number (look_up_nil (extend i c d) ∙ sym (look_up_nil d))
  entry-extend i c l free (e ∷ v) = elim (Option-cases (walk (extend i c d).nodes 0 (e ∷ v))) [
    | inl f ↦ elim (Option-cases (walk d.nodes 0 (e ∷ v))) [
      | inl g ↦ ap number (look_up-none (e ∷ v) (extend i c d) f ∙ sym (look_up-none (e ∷ v) d g))
      | inr (m, g) ↦
          let k : walk (extend i c d).nodes 0 (e ∷ v) ≡ some m =
            walk_kept t i c l free (e ∷ v) 0 m t.room g in
          absurd cc
    ]
    | inr (m, f) ↦ elim (walk_old t i c l (e ∷ v) 0 m t.room f) [
      | inl g ↦ ap number (
          look_up-some (e ∷ v) (extend i c d) m (λ q. absurd cc) f
          ∙ dw_index_old t i c l m (walk-path t (e ∷ v) 0 m t.room g).0
          ∙ sym (look_up-some (e ∷ v) d m (λ q. absurd cc) g))
      | inr q ↦ elim (Option-cases (walk d.nodes 0 (e ∷ v))) [
        | inr (k, g) ↦
            let h : walk (extend i c d).nodes 0 (e ∷ v) ≡ some k =
              walk_kept t i c l free (e ∷ v) 0 k t.room g in
            let s : k ≡ d.cur_node_index = cc in
            absurd (omega (arith, (walk-path t (e ∷ v) 0 k t.room g).0))
        | inl g ↦
            ap number (
              look_up-some (e ∷ v) (extend i c d) m (λ r. absurd cc) f
              ∙ ap (λ k. ((extend i c d).nodes k).dw_index) q
              ∙ ap (λ x. x.dw_index) (nodes_new t i c l))
            ∙ unborn d.cur_node_index
            ∙ ap number (sym (look_up-none (e ∷ v) d g))
      ]
    ]
  ]
    where
      unborn : (n : ℕ) → number (neg n) ≡ none
      unborn zero = refl
      unborn (suc n) = refl

-- What the end of `AddWord` changes: the number of one node.
pub record IsMarked (n : ℕ) (d d' : Dictionary) : Type 0 where
  pub same_nodes : d'.cur_node_index ≡ d.cur_node_index
  pub same_next : (j : ℕ) → (d'.nodes j).next ≡ (d.nodes j).next
  pub same_index : (j : ℕ) → j ≢ n → (d'.nodes j).dw_index ≡ (d.nodes j).dw_index
  pub own_index : (d'.nodes n).dw_index ≡ pos n

pub mark-IsMarked :
    (n : ℕ) (d : Dictionary)
    → ((d.nodes (suc n)).dw_index ≡ neg (suc n)) ⊎ ((d.nodes (suc n)).dw_index ≡ pos (suc n))
    → ((mark (suc n) d).0 ≡ pos (suc n)) × IsMarked (suc n) d (mark (suc n) d).1
unfolding mark
mark-IsMarked n d (inr e) =
    rw (e, mark)
      (
        refl,
        record {
          same_nodes = refl;
          same_next = λ j. refl;
          same_index = λ j q. refl;
          own_index = e;
        },
      )
mark-IsMarked n d (inl e) =
    rw (e, mark)
      (
        refl,
        record {
          same_nodes = refl;
          same_next = λ j. next_at j (Bool-cases (j == suc n));
          same_index = λ j q. ap (λ x. x.dw_index) (put_at_ne (suc n) marked d.nodes j q);
          own_index = ap (λ x. x.dw_index) (put_at_self (suc n) marked d.nodes);
        },
      )
  where
    marked : CharNode
    marked = record (d.nodes (suc n)) { dw_index = pos (suc n) }

    next_at :
        (j : ℕ)
        → ((j == suc n) ≡ true) ⊎ ((j == suc n) ≡ false)
        → (put_at (suc n) marked d.nodes j).next ≡ (d.nodes j).next
    next_at j (inl q) =
        rw (==→eq j (suc n) q) (ap (λ x. x.next) (put_at_self (suc n) marked d.nodes))
    next_at j (inr q) = ap (λ x. x.next) (put_at_ne (suc n) marked d.nodes j (ground arith))

module _ {n : ℕ} {d d' : Dictionary} (s : IsMarked n d d') where
  pub walk_marked : (v : Bytes) (i : ℕ) → walk d'.nodes i v ≡ walk d.nodes i v
  unfolding walk
  walk_marked [] i = refl
  walk_marked (c ∷ v) i =
      rw (ap (λ f. f c) (s.same_next i), walk) (under (λ j. walk_marked v j) ((d.nodes i).next c))
    where
      under :
          ((j : ℕ) → walk d'.nodes j v ≡ walk d.nodes j v)
          → (o : Option ℕ)
          → elim o [ none ↦ none | some j ↦ walk d'.nodes j v ]
            ≡ elim o [ none ↦ none | some j ↦ walk d.nodes j v ]
      under same none = refl
      under same (some j) = same j

  pub marked-IsTree : {path : ℕ → Bytes} → IsTree path d → IsTree path d'
  marked-IsTree {path} t = record {
    root = t.root;
    room = omega (arith, s.same_nodes, t.room);
    links = λ i c j h f.
        let (a, b, r) =
          t.links i c j (omega (arith, s.same_nodes)) (sym (ap (λ g. g c) (s.same_next i)) ∙ f) in
        (a, omega (arith, s.same_nodes), r);
    numbers = λ i p h. number_at i p (omega (arith, s.same_nodes)) (Bool-cases (i == n));
  }
    where
      number_at :
          (i : ℕ)
          → 0 < i
          → i < d.cur_node_index
          → ((i == n) ≡ true) ⊎ ((i == n) ≡ false)
          → ((d'.nodes i).dw_index ≡ neg i) ⊎ ((d'.nodes i).dw_index ≡ pos i)
      number_at i p h (inl q) = rw (==→eq i n q) (inr s.own_index)
      number_at i p h (inr q) = rw (s.same_index i (ground arith)) (t.numbers i p h)

  pub entry_marked :
      {path : ℕ → Bytes} → IsTree path d → (v : Bytes) → v ≢ path n → entry v d' ≡ entry v d
  entry_marked {path} t [] q = ap number (look_up_nil d' ∙ sym (look_up_nil d))
  entry_marked {path} t (c ∷ v) q = elim (Option-cases (walk d.nodes 0 (c ∷ v))) [
    | inl f ↦
        ap number
          (look_up-none (c ∷ v) d' (walk_marked (c ∷ v) 0 ∙ f) ∙ sym (look_up-none (c ∷ v) d f))
    | inr (m, f) ↦
        let p : path m ≡ c ∷ v =
          (walk-path t (c ∷ v) 0 m t.room f).1 ∙ ap (λ u. u ++ c ∷ v) t.root in
        ap number (
          look_up-some (c ∷ v) d' m (λ e. absurd cc) (walk_marked (c ∷ v) 0 ∙ f)
          ∙ s.same_index m (λ e. q (sym p ∙ ap path e))
          ∙ sym (look_up-some (c ∷ v) d m (λ e. absurd cc) f))
  ]
