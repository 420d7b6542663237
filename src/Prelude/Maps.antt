-- ===== src/Prelude/Maps.antt =====
-- `std::map`: an association list in ascending order of its keys.
use Prim.Native.Nat.{ℕ, compare, Ordering}
use Prim.Native.Nat.Ordering.{lt, eq}
use mathlib.Core.Path.{◌≡◌, refl}
use mathlib.Core.List.{List, [], ◌∷◌, ◌++◌, map}
use mathlib.Core.Option.{Option, none, some}
use mathlib.Core.Bool.{Bool, true, false}
use native.Mathlib.Omega.{arith}
use dlg_service.Prelude.Order.{Ord, nat_ord}

abbrev pub Map {ℓ κ} : Type ℓ → Type κ → Type (ℓ ⊔ κ)
Map K V = List (K × V)

module _ {ℓ κ} {K : Type ℓ} {V : Type κ} ⦃o : Ord K⦄ where
  -- `m.find(k)`: `none` for `m.end()`. A key below the next one is not there.
  unfoldable pub lookup : K → Map K V → Option V
  lookup k [] = none
  lookup k ((j, v) ∷ m) =
      let rest = lookup k m in
      elim (o.cmp k j) [ Ordering.eq ↦ some v | Ordering.lt ↦ none | Ordering.gt ↦ rest ]

  -- Writes through `m[k]`: `f` makes the new value from the old one, `none` where the key is new.
  unfoldable pub upsert : K → (Option V → V) → Map K V → Map K V
  upsert k f [] = (k, f none) ∷ []
  upsert k f ((j, v) ∷ m) =
      let rest = upsert k f m in
      elim (o.cmp k j) [
        | Ordering.eq ↦ (j, f (some v)) ∷ m
        | Ordering.lt ↦ (k, f none) ∷ (j, v) ∷ m
        | Ordering.gt ↦ (j, v) ∷ rest
      ]

  -- The key that was written has the new value.
  pub lookup-upsert_self :
      (k : K) (f : Option V → V) (m : Map K V) → lookup k (upsert k f m) ≡ some (f (lookup k m))
  unfolding lookup upsert
  lookup-upsert_self k f [] = ground (arith, o.cmp_refl k)
  lookup-upsert_self k f ((j, v) ∷ m) = ground (arith, o.cmp_refl k, lookup-upsert_self k f m)

  -- Every other key keeps its value.
  pub lookup-upsert_ne :
      (j k : K) (f : Option V → V) (m : Map K V)
      → ¬ (o.cmp j k ≡ eq)
      → lookup j (upsert k f m) ≡ lookup j m
  unfolding lookup upsert
  lookup-upsert_ne j k f [] n = ground arith
  lookup-upsert_ne j k f ((i, v) ∷ m) n =
      ground (arith, lookup-upsert_ne j k f m n, o.cmp_trans j k i, o.cmp_eq k i, o.cmp_eq j i)

  -- keys in strictly ascending order, all above a bound
  abbrev pub IsAbove : K → Map K V → Type ℓ
  IsAbove k [] = Unit
  IsAbove k ((j, v) ∷ m) = (o.cmp k j ≡ lt) × IsAbove j m

  abbrev pub IsSorted : Map K V → Type ℓ
  IsSorted [] = Unit
  IsSorted ((j, v) ∷ m) = IsAbove j m

  upsert-IsAbove :
      (i k : K) (f : Option V → V) (m : Map K V)
      → o.cmp i k ≡ lt
      → IsAbove i m
      → IsAbove i (upsert k f m)
  unfolding upsert
  upsert-IsAbove i k f [] h a = (h, tt)
  upsert-IsAbove i k f ((j, v) ∷ m) h a =
      go (o.cmp k j) refl (λ above. upsert-IsAbove j k f m above a.1)
    where
      go :
          (c : Ordering)
          → o.cmp k j ≡ c
          → (o.cmp j k ≡ lt → IsAbove j (upsert k f m))
          → IsAbove i (upsert k f ((j, v) ∷ m))
      go Ordering.lt e ih = rw (e, upsert) (h, (e, a.1))
      go Ordering.eq e ih = rw (e, upsert) a
      go Ordering.gt e ih = rw (e, upsert) (a.0, ih (o.cmp_swap_gt k j e))

  -- Writing keeps the keys ascending.
  pub upsert-IsSorted :
      (k : K) (f : Option V → V) (m : Map K V) → IsSorted m → IsSorted (upsert k f m)
  unfolding upsert
  upsert-IsSorted k f [] a = tt
  upsert-IsSorted k f ((j, v) ∷ m) a = go (o.cmp k j) refl
    where
      go : (c : Ordering) → o.cmp k j ≡ c → IsSorted (upsert k f ((j, v) ∷ m))
      go Ordering.lt e = rw (e, upsert) (e, a)
      go Ordering.eq e = rw (e, upsert) a
      go Ordering.gt e = rw (e, upsert) (upsert-IsAbove j k f m (o.cmp_swap_gt k j e) a)

abbrev pub keys {ℓ κ} : {K : Type ℓ} {V : Type κ} → Map K V → List K
keys m = map (λ e. e.0) m

abbrev pub has {ℓ} : {A : Type ℓ} → Option A → Bool
has none = false
has (some a) = true

-- Where a new element of a sorted list goes: before the first one that is not below it.
unfoldable pub insert : ℕ → List ℕ → List ℕ
insert k [] = k ∷ []
insert k (j ∷ ks) =
    let rest = insert k ks in elim (compare k j) [ Ordering.gt ↦ j ∷ rest | _ ↦ k ∷ j ∷ ks ]

-- `std::sort` of numbers by `<`, whose result is unique.
unfoldable pub sort_from : List ℕ → List ℕ → List ℕ
sort_from acc [] = acc
sort_from acc (k ∷ ks) = sort_from (insert k acc) ks

pub sort_from-append :
    (acc ks : List ℕ) (k : ℕ) → sort_from acc (ks ++ k ∷ []) ≡ insert k (sort_from acc ks)
unfolding sort_from
sort_from-append acc [] k = refl
sort_from-append acc (j ∷ ks) k = sort_from-append (insert j acc) ks k

-- A new key goes among the keys as sorting would put it.
pub keys-upsert_new {κ} :
    {V : Type κ} (k : ℕ) (f : Option V → V) (m : Map ℕ V)
    → lookup k m ≡ none
    → keys (upsert k f m) ≡ insert k (keys m)
unfolding lookup upsert insert
keys-upsert_new k f [] h = refl
keys-upsert_new k f ((j, v) ∷ m) h = ground (arith, keys-upsert_new k f m)

-- A key that is there already keeps its place.
pub keys-upsert_old {κ} :
    {V : Type κ} (k : ℕ) (f : Option V → V) (m : Map ℕ V) (v : V)
    → lookup k m ≡ some v
    → keys (upsert k f m) ≡ keys m
unfolding lookup upsert
keys-upsert_old k f [] v h = cc
keys-upsert_old k f ((j, w) ∷ m) v h = ground (arith, keys-upsert_old k f m v)
