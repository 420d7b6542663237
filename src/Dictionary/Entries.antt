-- ===== src/Dictionary/Entries.antt =====
-- `AddWord` and `LookUp` of `CDictionary` as the insertion and the look-up of a finite map from words to
-- numbers.
use dlg_service.Prelude.{
  ℕ, zero, suc, ◌+◌, ◌≤◌, ◌<◌, ◌≡◌, ◌≢◌, refl, ap, ◌∙◌, sym, subst, none, some, [], ◌∷◌, ◌++◌, leb,
  ◌⊎◌, inl, inr, Bytes, true, false, arith, Option-cases, Bool-cases, leb→le,
}
use mathlib.Core.List.{append_assoc, append-nil}
use dlg_service.Dictionary.{
  ℤ, pos, neg, CharNode, reset_node, put_at, Dictionary, dictionary, walk, allocate_node, link,
  mark, add_from, add_word,
}
use dlg_service.Dictionary.Tree.{
  IsTree, put_at_self, walk-path, walk-append, extend, next_fresh, walk_kept, extend-IsTree,
}
use dlg_service.Dictionary.Marks.{
  number, entry, look_up-some, look_up-none, look_up_nil, entry-extend, mark-IsMarked, walk_marked,
  marked-IsTree, entry_marked,
}

-- A dictionary in a pool of `dic_size` nodes, of which none is used twice.
abbrev pub IsDictionary : ℕ → Dictionary → Type 0
IsDictionary dic_size d = ((path : ℕ → Bytes) × IsTree path d) × (d.cur_node_index ≤ dic_size)

-- What adding the word `w` does: no other word changes, and `w` gets the number that is returned,
-- unless the pool has no node left, and then 0 is returned and `w` does not change either.
pub record IsAdded (dic_size : ℕ) (w : Bytes) (d : Dictionary) (r : ℤ × Dictionary) : Type 0 where
  pub stays_dictionary : IsDictionary dic_size r.1
  pub others : (v : Bytes) → v ≢ w → entry v r.1 ≡ entry v d
  pub added :
      ((n : ℕ) × (r.0 ≡ pos (suc n)) × (entry w r.1 ≡ some (suc n)))
      ⊎ ((r.0 ≡ pos 0) × (r.1.cur_node_index ≡ dic_size) × (entry w r.1 ≡ entry w d))

module _ (dic_size : ℕ) where
  mark-IsAdded :
      {path : ℕ → Bytes} (n : ℕ) (d : Dictionary)
      → IsTree path d
      → suc n < d.cur_node_index
      → d.cur_node_index ≤ dic_size
      → path (suc n) ≢ []
      → walk d.nodes 0 (path (suc n)) ≡ some (suc n)
      → IsAdded dic_size (path (suc n)) d (mark (suc n) d)
  mark-IsAdded {path} n d t l b q e =
      let (num, s) = mark-IsMarked n d (t.numbers (suc n) (omega arith) l) in
      let d' = (mark (suc n) d).1 in
      record {
        stays_dictionary = ((path, marked-IsTree s t), omega (arith, s.same_nodes));
        others = λ v m. entry_marked s t v m;
        added = inl (
          n,
          num,
          ap number (
              look_up-some (path (suc n)) d' (suc n) q (walk_marked s (path (suc n)) 0 ∙ e)
              ∙ s.own_index),
        );
      }

  allocate_new :
      (d : Dictionary)
      → leb dic_size d.cur_node_index ≡ false
      → allocate_node dic_size d ≡ (
        some d.cur_node_index,
        record {
          nodes =
              put_at d.cur_node_index
                (record reset_node { dw_index = neg d.cur_node_index })
                d.nodes;
          cur_node_index = d.cur_node_index + 1;
        },
      )
  unfolding allocate_node
  allocate_new d f = rw f refl

  allocate_none :
      (d : Dictionary) → leb dic_size d.cur_node_index ≡ true → allocate_node dic_size d ≡ (none, d)
  unfolding allocate_node
  allocate_none d f = rw f refl

  cur_extend : (i c : ℕ) (d : Dictionary) → (extend i c d).cur_node_index ≡ d.cur_node_index + 1
  unfolding link
  cur_extend i c d = refl

  add_step :
      (i c : ℕ) (w : Bytes) (d : Dictionary)
      → (d.nodes i).next c ≡ none
      → leb dic_size d.cur_node_index ≡ false
      → add_from dic_size i (c ∷ w) d ≡ add_from dic_size d.cur_node_index w (extend i c d)
  unfolding add_from
  add_step i c w d e f =
      rw (e, add_from)
        (rw (ap (λ x. x.0) (allocate_new d f)) (
          ap (λ x. add_from dic_size d.cur_node_index w (link i c d.cur_node_index x.1))
            (allocate_new d f)))

  add_full :
      (i c : ℕ) (w : Bytes) (d : Dictionary)
      → (d.nodes i).next c ≡ none
      → leb dic_size d.cur_node_index ≡ true
      → add_from dic_size i (c ∷ w) d ≡ (pos 0, d)
  unfolding add_from
  add_full i c w d e f =
      rw (e, add_from)
        (rw (ap (λ x. x.0) (allocate_none d f)) (ap (λ x. (pos 0, x.1)) (allocate_none d f)))

  add_next :
      (i c j : ℕ) (w : Bytes) (d : Dictionary)
      → (d.nodes i).next c ≡ some j
      → add_from dic_size i (c ∷ w) d ≡ add_from dic_size j w d
  unfolding add_from
  add_next i c j w d e = rw (e, add_from) refl

  walk_one :
      (nodes : ℕ → CharNode) (i c j : ℕ)
      → (nodes i).next c ≡ some j
      → walk nodes i (c ∷ []) ≡ some j
  unfolding walk
  walk_one nodes i c j e = rw (e, walk) refl

  IsAdded-behind :
      (w : Bytes) (d d' : Dictionary) (r : ℤ × Dictionary)
      → ((v : Bytes) → entry v d' ≡ entry v d)
      → IsAdded dic_size w d' r
      → IsAdded dic_size w d r
  IsAdded-behind w d d' r same a = record {
    stays_dictionary = a.stays_dictionary;
    others = λ v n. a.others v n ∙ same v;
    added = elim a.added [ inl x ↦ inl x | inr (z, f, e) ↦ inr (z, f, e ∙ same w) ];
  }

  add_from-IsAdded :
      (w : Bytes) (i : ℕ) (d : Dictionary) (path : ℕ → Bytes)
      → IsTree path d
      → i < d.cur_node_index
      → d.cur_node_index ≤ dic_size
      → (path i ++ w) ≢ []
      → walk d.nodes 0 (path i) ≡ some i
      → IsAdded dic_size (path i ++ w) d (add_from dic_size i w d)
  unfolding add_from
  add_from-IsAdded [] zero d path t l b q e = absurd (q (append-nil (path 0) ∙ t.root))
  add_from-IsAdded [] (suc n) d path t l b q e =
      subst (λ v. IsAdded dic_size v d (mark (suc n) d)) (sym (append-nil (path (suc n))))
        (mark-IsAdded n d t l b (λ z. q (append-nil (path (suc n)) ∙ z)) e)
  add_from-IsAdded (c ∷ w) i d path t l b q e = elim (Option-cases ((d.nodes i).next c)) [
    | inr (j, f) ↦
        let (z, k, p) = t.links i c j l f in
        let at : path j ++ w ≡ path i ++ c ∷ w =
          ap (λ u. u ++ w) p ∙ append_assoc (path i) (c ∷ []) w in
        rw (add_next i c j w d f) (
          subst (λ v. IsAdded dic_size v d (add_from dic_size j w d)) at
            (add_from-IsAdded w j d path t k b (λ n. q (sym at ∙ n))
              (ap (walk d.nodes 0) p
                ∙ walk-append d.nodes (path i) (c ∷ []) 0 i e
                ∙ walk_one d.nodes i c j f)))
    | inl f ↦ elim (Bool-cases (leb dic_size d.cur_node_index)) [
      | inl s ↦ rw (add_full i c w d f s) (record {
        stays_dictionary = ((path, t), b);
        others = λ v n. refl;
        added = inr (refl, omega (arith, leb→le dic_size d.cur_node_index s), refl);
      })
      | inr s ↦
          let n = d.cur_node_index in
          let path' = put_at n (path i ++ c ∷ []) path in
          let p : path' n ≡ path i ++ c ∷ [] = put_at_self n (path i ++ c ∷ []) path in
          let at : path' n ++ w ≡ path i ++ c ∷ w =
            ap (λ u. u ++ w) p ∙ append_assoc (path i) (c ∷ []) w in
          rw (add_step i c w d f s) (
            IsAdded-behind (path i ++ c ∷ w) d (extend i c d) (add_from dic_size n w (extend i c d))
              (entry-extend t i c l f)
              (subst (λ v. IsAdded dic_size v (extend i c d) (add_from dic_size n w (extend i c d)))
                at
                (add_from-IsAdded w n (extend i c d) path' (extend-IsTree t i c l)
                  (omega (arith, cur_extend i c d)) (ground (arith, cur_extend i c d))
                  (λ z. q (sym at ∙ z))
                  (ap (walk (extend i c d).nodes 0) p
                    ∙ walk-append (extend i c d).nodes (path i) (c ∷ []) 0 i
                        (walk_kept t i c l f (path i) 0 i t.room e)
                    ∙ walk_one (extend i c d).nodes i c n (next_fresh t i c l)))))
    ]
  ]

  -- Adding a word to a dictionary whose pool has its first node: the word gets the number returned,
  -- which is positive, every other word keeps what it had, and if the pool is full 0 is returned and no
  -- word changes.
  pub add_word-IsAdded :
      (w : Bytes) (d : Dictionary)
      → w ≢ []
      → IsDictionary dic_size d
      → IsAdded dic_size w d (add_word dic_size w d)
  unfolding add_word
  add_word-IsAdded [] d n i = absurd (n refl)
  add_word-IsAdded (c ∷ w) d n ((path, t), b) =
      subst (λ v. IsAdded dic_size v d (add_from dic_size 0 (c ∷ w) d))
        (ap (λ u. u ++ c ∷ w) t.root)
        (add_from-IsAdded (c ∷ w) 0 d path t t.room b
          (λ z. n (sym (ap (λ u. u ++ c ∷ w) t.root) ∙ z))
          (ap (walk d.nodes 0) t.root ∙ (unfold walk in refl)))

entry-path :
    {path : ℕ → Bytes} {d : Dictionary}
    → IsTree path d
    → (u : Bytes) (k : ℕ) → entry u d ≡ some k
    → path k ≡ u
entry-path {path} {d} t [] k g = let h : entry [] d ≡ none = ap number (look_up_nil d) in absurd cc
entry-path {path} {d} t (c ∷ u) k g = elim (Option-cases (walk d.nodes 0 (c ∷ u))) [
  | inl f ↦ let h : entry (c ∷ u) d ≡ none = ap number (look_up-none (c ∷ u) d f) in absurd cc
  | inr (i, f) ↦
      let (l, p) = walk-path t (c ∷ u) 0 i t.room f in
      at_node i l (p ∙ ap (λ v. v ++ c ∷ u) t.root)
        (sym (ap number (look_up-some (c ∷ u) d i (λ z. absurd cc) f)) ∙ g)
]
  where
    at_node :
        (i : ℕ)
        → i < d.cur_node_index
        → path i ≡ c ∷ u
        → number (d.nodes i).dw_index ≡ some k
        → path k ≡ c ∷ u
    at_node zero l p h = let q : [] ≡ c ∷ u = sym t.root ∙ p in absurd cc
    at_node (suc m) l p h = elim (t.numbers (suc m) (omega arith) l) [
      | inl q ↦ absurd cc
      | inr q ↦
          let s : some (suc m) ≡ some k = sym (ap number q) ∙ h in
          let r : k ≡ suc m = cc in ap path r ∙ p
    ]

-- Two words with one number are one word.
pub entry-eq :
    (dic_size : ℕ) (d : Dictionary)
    → IsDictionary dic_size d
    → (v w : Bytes) (n : ℕ) → entry v d ≡ some n
    → entry w d ≡ some n
    → v ≡ w
entry-eq dic_size d ((path, t), b) v w n e f = sym (entry-path t v n e) ∙ entry-path t w n f

pub dictionary-IsDictionary : (dic_size : ℕ) → 0 < dic_size → IsDictionary dic_size dictionary
dictionary-IsDictionary dic_size h = (
  (
    λ i. [],
    record {
      root = refl;
      room = omega arith;
      links = λ i c j l e. absurd cc;
      numbers = λ i p l. absurd (omega arith);
    },
  ),
  h,
)
