-- ===== src/Server/LinkedList.antt =====
-- `linked_list_t` of src/http_server/linked_list.hpp: nodes linked into a ring through a head. A node
-- is its address, a number; 0 is the head `_head`.
pub mod Del
use dlg_service.Prelude.{
  ℕ, zero, suc, ◌≡◌, ◌≢◌, refl, sym, subst, List, [], ◌∷◌, ◌++◌, Bool, ◌==◌, if◌then◌else◌, All,
  arith,
}

-- All `next` and `prev` pointers.
pub record Links : Type 0 where
  pub next : ℕ → ℕ
  pub prev : ℕ → ℕ

-- `node->field = value`.
abbrev pub write : ℕ → ℕ → (ℕ → ℕ) → ℕ → ℕ
write node value field j = if j == node then value else field j

-- The constructor, and `empty`.
unfoldable pub empty : Links → Links
empty l = record { next = write 0 0 l.next; prev = write 0 0 l.prev }

unfoldable pub is_empty : Links → Bool
is_empty l = l.next 0 == 0

unfoldable pub add : ℕ → Links → Links
add node l =
    let l1 = record l { prev = write (l.next 0) node l.prev } in
    let l2 = record l1 { next = write node (l1.next 0) l1.next } in
    let l3 = record l2 { prev = write node 0 l2.prev } in record l3 { next = write 0 node l3.next }

unfoldable pub del : ℕ → Links → Links
del node l =
    let l1 = record l { prev = write (l.next node) (l.prev node) l.prev } in
    record l1 { next = write (l1.prev node) (l1.next node) l1.next }

-- From a node on, following `prev`, come these nodes and then the head; `next` leads back.
abbrev pub IsChain : Links → ℕ → List ℕ → Type 0
IsChain l a [] = (l.prev a ≡ 0) × (l.next 0 ≡ a)
IsChain l a (x ∷ xs) = (l.prev a ≡ x) × (l.next x ≡ a) × IsChain l x xs

-- no node comes twice, and the head is none of them
abbrev pub AreDistinct : List ℕ → Type 0
AreDistinct [] = Unit
AreDistinct (x ∷ xs) = (x ≢ 0) × All (λ y. y ≢ x) xs × AreDistinct xs

-- The list holds exactly these nodes, the one that was added first at the front.
pub record Holds (l : Links) (xs : List ℕ) : Type 0 where
  pub chain : IsChain l 0 xs
  pub distinct : AreDistinct xs

-- the node behind which the next one is added
last-P :
    (P : ℕ → Type 0) (l : Links) (a : ℕ) (xs : List ℕ)
    → IsChain l a xs
    → P a
    → All P xs
    → P (l.next 0)
last-P P l a [] c p q = subst (λ k. P k) (sym c.1) p
last-P P l a (x ∷ xs) c p q = last-P P l x xs c.2 q.0 q.1

add-IsChain :
    (n : ℕ) (l : Links) (a : ℕ) (xs : List ℕ)
    → IsChain l a xs
    → n ≢ 0
    → n ≢ a
    → All (λ y. y ≢ a) xs
    → All (λ y. y ≢ n) xs
    → AreDistinct xs
    → IsChain (add n l) a (xs ++ n ∷ [])
unfolding add
add-IsChain n l a [] c nz na d dn ds = (ground arith, ground arith, (ground arith, ground arith))
add-IsChain n l a (x ∷ xs) c nz na d dn ds =
    let z : l.next 0 ≢ a = last-P (λ k. k ≢ a) l x xs c.2 d.0 d.1 in
    (ground arith, ground arith, add-IsChain n l x xs c.2 nz (λ e. dn.0 (sym e)) ds.1 dn.1 ds.2)

AreDistinct-snoc :
    (n : ℕ) (xs : List ℕ)
    → n ≢ 0
    → All (λ y. y ≢ n) xs
    → AreDistinct xs
    → AreDistinct (xs ++ n ∷ [])
AreDistinct-snoc n [] nz d ds = (nz, tt, tt)
AreDistinct-snoc n (x ∷ xs) nz d ds = (ds.0, snoc xs ds.1, AreDistinct-snoc n xs nz d.1 ds.2)
  where
    snoc : (ys : List ℕ) → All (λ y. y ≢ x) ys → All (λ y. y ≢ x) (ys ++ n ∷ [])
    snoc [] a = ((λ e. d.0 (sym e)), tt)
    snoc (y ∷ ys) a = (a.0, snoc ys a.1)

-- `add` of a node that is not in the list puts it behind the others.
pub add-Holds :
    (n : ℕ) (l : Links) (xs : List ℕ)
    → n ≢ 0
    → All (λ y. y ≢ n) xs
    → Holds l xs
    → Holds (add n l) (xs ++ n ∷ [])
add-Holds n l xs nz d h = record {
  chain = add-IsChain n l 0 xs h.chain nz nz (nonzero xs h.distinct) d h.distinct;
  distinct = AreDistinct-snoc n xs nz d h.distinct;
}
  where
    nonzero : (ys : List ℕ) → AreDistinct ys → All (λ y. y ≢ 0) ys
    nonzero [] a = tt
    nonzero (y ∷ ys) a = (a.0, nonzero ys a.2)
