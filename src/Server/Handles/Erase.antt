-- ===== src/Server/Handles/Erase.antt =====
-- `erase` of the table of handles, and the sizes of tables; src/http_server/http_server.cpp.
use dlg_service.Prelude.{
  ℕ, suc, ◌≡◌, ◌≢◌, refl, ap, sym, subst, Option, none, some, List, [], ◌∷◌, Map, lookup, upsert,
  nat_ord, keys, keys-upsert_new, keys-upsert_old, insert, length, length-map, arith,
  lookup-upsert_ne, IsAbove, IsSorted,
}
use Prim.Native.Nat.{compare, Ordering}
use Prim.Native.Nat.Ordering.{lt, eq}
use dlg_service.Server.Handles.{erase}

length-insert : (k : ℕ) (ks : List ℕ) → length (insert k ks) ≡ suc (length ks)
unfolding insert
length-insert k [] = refl
length-insert k (j ∷ ks) = ground (arith, length-insert k ks)

pub length-upsert_new :
    (k : ℕ) (f : Option ℕ → ℕ) (m : Map ℕ ℕ)
    → lookup k m ≡ none
    → length (upsert k f m) ≡ suc (length m)
length-upsert_new k f m h = omega (
  arith,
  ap length (keys-upsert_new k f m h),
  length-insert k (keys m),
  length-map (λ e. e.0) m,
  length-map (λ e. e.0) (upsert k f m),
)

pub length-upsert_old :
    (k : ℕ) (f : Option ℕ → ℕ) (m : Map ℕ ℕ) (v : ℕ)
    → lookup k m ≡ some v
    → length (upsert k f m) ≡ length m
length-upsert_old k f m v h = omega (
  arith,
  ap length (keys-upsert_old k f m v h),
  length-map (λ e. e.0) m,
  length-map (λ e. e.0) (upsert k f m),
)

pub length-erase :
    (k : ℕ) (m : Map ℕ ℕ) (v : ℕ) → lookup k m ≡ some v → length m ≡ suc (length (erase k m))
unfolding lookup erase
length-erase k [] v h = cc
length-erase k ((j, r) ∷ m) v h = ground (arith, length-erase k m v)

-- What is written for a key of the table leaves the keys that are not there.
pub lookup-upsert-none :
    (j k : ℕ) (f : Option ℕ → ℕ) (m : Map ℕ ℕ) (v : ℕ)
    → lookup j m ≡ none
    → lookup k m ≡ some v
    → lookup j (upsert k f m) ≡ none
lookup-upsert-none j k f m v n h =
    let other : j ≢ k = λ e. cc in
    let apart : ¬ (compare j k ≡ eq) = λ e. ground arith in
    ground (arith, lookup-upsert_ne j k f m apart)

lookup-IsAbove : (k : ℕ) (m : Map ℕ ℕ) → IsAbove k m → lookup k m ≡ none
unfolding lookup
lookup-IsAbove k [] a = refl
lookup-IsAbove k ((j, v) ∷ m) a = rw (a.0, lookup) refl

IsAbove-trans : (i k : ℕ) (m : Map ℕ ℕ) → compare i k ≡ lt → IsAbove k m → IsAbove i m
IsAbove-trans i k [] h a = tt
IsAbove-trans i k ((j, v) ∷ m) h a = (nat_ord.cmp_trans i k j h a.0, a.1)

sorted_of : (k : ℕ) (m : Map ℕ ℕ) → IsAbove k m → IsSorted m
sorted_of k [] a = tt
sorted_of k ((j, v) ∷ m) a = a.1

-- The key that is erased is not there any more.
pub lookup-erase_self : (k : ℕ) (m : Map ℕ ℕ) → IsSorted m → lookup k (erase k m) ≡ none
unfolding lookup erase
lookup-erase_self k [] a = refl
lookup-erase_self k ((j, v) ∷ m) a = go (compare k j) refl (lookup-erase_self k m (sorted_of j m a))
  where
    go :
        (c : Ordering)
        → compare k j ≡ c
        → lookup k (erase k m) ≡ none
        → lookup k (erase k ((j, v) ∷ m)) ≡ none
    go Ordering.lt e ih = rw (e, erase) (rw (e, lookup) refl)
    go Ordering.eq e ih =
        rw (e, erase)
          (subst (λ i. lookup i m ≡ none) (sym (nat_ord.cmp_eq k j e)) (lookup-IsAbove j m a))
    go Ordering.gt e ih = rw (e, erase) (rw (e, lookup) ih)

-- A key that is not there does not come in.
pub lookup-erase-none :
    (i k : ℕ) (m : Map ℕ ℕ) → IsSorted m → lookup i m ≡ none → lookup i (erase k m) ≡ none
unfolding lookup erase
lookup-erase-none i k [] a h = refl
lookup-erase-none i k ((j, v) ∷ m) a h = ground (
  arith,
  lookup-erase-none i k m (sorted_of j m a),
  λ (e : compare i j ≡ lt). lookup-IsAbove i m (IsAbove-trans i j m e a),
)

erase-IsAbove : (i k : ℕ) (m : Map ℕ ℕ) → IsAbove i m → IsAbove i (erase k m)
unfolding erase
erase-IsAbove i k [] a = tt
erase-IsAbove i k ((j, v) ∷ m) a = go (compare k j) refl (erase-IsAbove j k m a.1)
  where
    go : (c : Ordering) → compare k j ≡ c → IsAbove j (erase k m) → IsAbove i (erase k ((j, v) ∷ m))
    go Ordering.lt e ih = rw (e, erase) a
    go Ordering.eq e ih = rw (e, erase) (IsAbove-trans i j m a.0 a.1)
    go Ordering.gt e ih = rw (e, erase) (a.0, ih)

-- Erasing keeps the keys ascending.
pub erase-IsSorted : (k : ℕ) (m : Map ℕ ℕ) → IsSorted m → IsSorted (erase k m)
unfolding erase
erase-IsSorted k [] a = tt
erase-IsSorted k ((j, v) ∷ m) a = go (compare k j) refl
  where
    go : (c : Ordering) → compare k j ≡ c → IsSorted (erase k ((j, v) ∷ m))
    go Ordering.lt e = rw (e, erase) a
    go Ordering.eq e = rw (e, erase) (sorted_of j m a)
    go Ordering.gt e = rw (e, erase) (erase-IsAbove j k m a)
