-- ===== src/Server/LinkedList/Del.antt =====
-- `del` takes one node out of a list and leaves the others in their order.
use dlg_service.Prelude.{ℕ, ◌≡◌, ◌≢◌, sym, subst, List, [], ◌∷◌, ◌++◌, All, arith}
use dlg_service.Server.LinkedList.{Links, write, del, IsChain, AreDistinct, Holds}

module _ (P : ℕ → Type 0) (l : Links) (x : ℕ) (ys : List ℕ) where
  -- what is true of the nodes before `x` is true of the one that `next` leads to
  next-P : (a : ℕ) (xs : List ℕ) → IsChain l a (xs ++ x ∷ ys) → P a → All P xs → P (l.next x)
  next-P a [] c p q = subst (λ k. P k) (sym c.1) p
  next-P a (w ∷ xs) c p q = next-P w xs c.2 q.0 q.1

  -- and of those behind it and the head, of the one that `prev` leads to
  prev-P : (a : ℕ) (xs : List ℕ) → IsChain l a (xs ++ x ∷ ys) → P 0 → All P ys → P (l.prev x)
  prev-P a [] c p q = first ys c.2 q
    where
      first : (zs : List ℕ) → IsChain l x zs → All P zs → P (l.prev x)
      first [] d r = subst (λ k. P k) (sym d.0) p
      first (z ∷ zs) d r = subst (λ k. P k) (sym d.0) r.0
  prev-P a (w ∷ xs) c p q = prev-P w xs c.2 p q

All-left : (P : ℕ → Type 0) (xs ys : List ℕ) → All P (xs ++ ys) → All P xs
All-left P [] ys h = tt
All-left P (x ∷ xs) ys h = (h.0, All-left P xs ys h.1)

All-right : (P : ℕ → Type 0) (xs ys : List ℕ) → All P (xs ++ ys) → All P ys
All-right P [] ys h = h
All-right P (x ∷ xs) ys h = All-right P xs ys h.1

-- Writing `prev` of a node before a chain and `next` of its first one touches nothing else of it.
frame :
    (l : Links) (p v q w : ℕ) (a : ℕ) (xs : List ℕ)
    → p ≢ a
    → q ≢ 0
    → All (λ y. y ≢ p) xs
    → All (λ y. y ≢ q) xs
    → IsChain l a xs
    → IsChain (record { next = write q w l.next; prev = write p v l.prev }) a xs
frame l p v q w a [] np nq d e c = (ground arith, ground arith)
frame l p v q w a (x ∷ xs) np nq d e c =
    (ground arith, ground arith, frame l p v q w x xs (λ h. d.0 (sym h)) nq d.1 e.1 c.2)

del_here :
    (l : Links) (a x : ℕ) (ys : List ℕ)
    → x ≢ 0
    → x ≢ a
    → All (λ y. y ≢ a) ys
    → All (λ y. y ≢ x) ys
    → AreDistinct ys
    → IsChain l a (x ∷ ys)
    → IsChain (del x l) a ys
unfolding del
del_here l a x [] nx na da dx ds c =
    (ground (arith, c.0, c.1, c.2.0, c.2.1), ground (arith, c.0, c.1, c.2.0, c.2.1))
del_here l a x (y ∷ ys) nx na da dx ds c =
    let e : l.next x ≡ a = c.1 in
    let f : l.prev x ≡ y = c.2.0 in
    (
      ground (arith, e, f),
      ground (arith, e, f),
      subst
          (λ k.
            IsChain
              (record {
                next = write (write k (l.prev x) l.prev x) k l.next;
                prev = write k (l.prev x) l.prev;
              })
              y ys)
          (sym e)
          (subst
            (λ k.
              IsChain (record { next = write k a l.next; prev = write a (l.prev x) l.prev }) y ys)
            (target e f) (frame l a (l.prev x) y a y ys (λ h. da.0 (sym h)) ds.0 da.1 ds.1 c.2.2)),
    )
  where
    target : l.next x ≡ a → l.prev x ≡ y → y ≡ write a (l.prev x) l.prev x
    target e f = ground arith

del-IsChain :
    (l : Links) (a x : ℕ) (xs ys : List ℕ)
    → (x ≢ a) × All (λ y. y ≢ a) (xs ++ x ∷ ys)
    → AreDistinct (xs ++ x ∷ ys)
    → IsChain l a (xs ++ x ∷ ys)
    → IsChain (del x l) a (xs ++ ys)
del-IsChain l a x [] ys d ds c = del_here l a x ys ds.0 d.0 d.1.1 ds.1 ds.2 c
del-IsChain l a x (w ∷ xs) ys d ds c =
    let n : l.next x ≢ a =
      next-P (λ k. k ≢ a) l x ys w xs c.2 d.1.0 (All-left _ xs (x ∷ ys) d.1.1) in
    let rest = All-right (λ y. y ≢ w) xs (x ∷ ys) ds.1 in
    let p : l.prev x ≢ w = prev-P (λ k. k ≢ w) l x ys w xs c.2 (λ h. ds.0 (sym h)) rest.1 in
    (
      unfold del in ground arith,
      same w (l.next x) n p rest.0 c.1,
      del-IsChain l w x xs ys (rest.0, ds.1) ds.2 c.2,
    )
  where
    same : (w k : ℕ) → k ≢ a → l.prev x ≢ w → x ≢ w → l.next w ≡ a → (del x l).next w ≡ a
    same w k n p r e = unfold del in ground arith

del-AreDistinct : (x : ℕ) (xs ys : List ℕ) → AreDistinct (xs ++ x ∷ ys) → AreDistinct (xs ++ ys)
del-AreDistinct x [] ys d = d.2
del-AreDistinct x (w ∷ xs) ys d = (d.0, less xs d.1, del-AreDistinct x xs ys d.2)
  where
    less : (zs : List ℕ) → All (λ y. y ≢ w) (zs ++ x ∷ ys) → All (λ y. y ≢ w) (zs ++ ys)
    less [] a = a.1
    less (z ∷ zs) a = (a.0, less zs a.1)

-- `del` of a node of the list leaves the list without it, the others in their order.
pub del-Holds :
    (x : ℕ) (l : Links) (xs ys : List ℕ) → Holds l (xs ++ x ∷ ys) → Holds (del x l) (xs ++ ys)
del-Holds x l xs ys h = record {
  chain =
      let n = nonzero (xs ++ x ∷ ys) h.distinct in
      del-IsChain l 0 x xs ys ((All-right (λ y. y ≢ 0) xs (x ∷ ys) n).0, n) h.distinct h.chain;
  distinct = del-AreDistinct x xs ys h.distinct;
}
  where
    nonzero : (zs : List ℕ) → AreDistinct zs → All (λ y. y ≢ 0) zs
    nonzero [] a = tt
    nonzero (z ∷ zs) a = (a.0, nonzero zs a.2)
