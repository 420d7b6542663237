-- ===== src/Prelude/Order.antt =====
-- Strict orders as comparisons, with those of `int` and of `std::string` (and strcmp).
use Prim.Native.Nat.{ℕ, compare, Ordering}
use Prim.Native.Nat.Ordering.{lt, eq, gt}
use mathlib.Core.Path.{◌≡◌, refl}
use mathlib.Core.List.{[], ◌∷◌}
use native.Mathlib.Omega.{arith}
use dlg_service.Prelude.Strings.{Bytes}

-- A comparison that orders a type; `std::map` and the binary searches use no more than this.
pub record Ord {ℓ} (K : Type ℓ) : Type ℓ where
  pub cmp : K → K → Ordering
  pub cmp_refl : (a : K) → cmp a a ≡ eq
  pub cmp_eq : (a b : K) → cmp a b ≡ eq → a ≡ b
  pub cmp_swap : (a b : K) → cmp a b ≡ lt → cmp b a ≡ gt
  pub cmp_swap_gt : (a b : K) → cmp a b ≡ gt → cmp b a ≡ lt
  pub cmp_trans : (a b c : K) → cmp a b ≡ lt → cmp b c ≡ lt → cmp a c ≡ lt

pub compare_trans : (a b c : ℕ) → compare a b ≡ lt → compare b c ≡ lt → compare a c ≡ lt
compare_trans a b c h k = ground arith

pub compare_refl : (a : ℕ) → compare a a ≡ eq
compare_refl a = ground arith

pub compare-eq : (a b : ℕ) → compare a b ≡ eq → a ≡ b
compare-eq a b h = ground arith

pub compare_swap : (a b : ℕ) → compare a b ≡ lt → compare b a ≡ gt
compare_swap a b h = ground arith

pub compare_swap_gt : (a b : ℕ) → compare a b ≡ gt → compare b a ≡ lt
compare_swap_gt a b h = ground arith

instance abbrev pub nat_ord : Ord ℕ
nat_ord = record {
  cmp = compare;
  cmp_refl = compare_refl;
  cmp_eq = compare-eq;
  cmp_swap = compare_swap;
  cmp_swap_gt = compare_swap_gt;
  cmp_trans = compare_trans;
}

-- `strcmp`, and `operator<` of std::string: by unsigned bytes, a proper prefix first.
unfoldable pub strcmp : Bytes → Bytes → Ordering
strcmp [] [] = eq
strcmp [] (y ∷ t) = lt
strcmp (x ∷ s) [] = gt
strcmp (x ∷ s) (y ∷ t) =
    let rest = strcmp s t in
    elim (compare x y) [ Ordering.lt ↦ lt | Ordering.gt ↦ gt | Ordering.eq ↦ rest ]

pub strcmp_refl : (s : Bytes) → strcmp s s ≡ eq
unfolding strcmp
strcmp_refl [] = refl
strcmp_refl (x ∷ s) = ground (arith, strcmp_refl s)

pub strcmp-eq : (s t : Bytes) → strcmp s t ≡ eq → s ≡ t
unfolding strcmp
strcmp-eq [] [] h = refl
strcmp-eq [] (y ∷ t) h = cc
strcmp-eq (x ∷ s) [] h = cc
strcmp-eq (x ∷ s) (y ∷ t) h = ground (arith, strcmp-eq s t)

pub strcmp_swap : (s t : Bytes) → strcmp s t ≡ lt → strcmp t s ≡ gt
unfolding strcmp
strcmp_swap [] [] h = cc
strcmp_swap [] (y ∷ t) h = refl
strcmp_swap (x ∷ s) [] h = cc
strcmp_swap (x ∷ s) (y ∷ t) h = ground (arith, strcmp_swap s t)

pub strcmp_swap_gt : (s t : Bytes) → strcmp s t ≡ gt → strcmp t s ≡ lt
unfolding strcmp
strcmp_swap_gt [] [] h = cc
strcmp_swap_gt [] (y ∷ t) h = cc
strcmp_swap_gt (x ∷ s) [] h = refl
strcmp_swap_gt (x ∷ s) (y ∷ t) h = ground (arith, strcmp_swap_gt s t)

pub strcmp_trans : (s t u : Bytes) → strcmp s t ≡ lt → strcmp t u ≡ lt → strcmp s u ≡ lt
unfolding strcmp
strcmp_trans [] [] u h k = cc
strcmp_trans [] (y ∷ t) [] h k = cc
strcmp_trans [] (y ∷ t) (z ∷ u) h k = refl
strcmp_trans (x ∷ s) [] u h k = cc
strcmp_trans (x ∷ s) (y ∷ t) [] h k = cc
strcmp_trans (x ∷ s) (y ∷ t) (z ∷ u) h k = ground (arith, strcmp_trans s t u)

instance abbrev pub bytes_ord : Ord Bytes
bytes_ord = record {
  cmp = strcmp;
  cmp_refl = strcmp_refl;
  cmp_eq = strcmp-eq;
  cmp_swap = strcmp_swap;
  cmp_swap_gt = strcmp_swap_gt;
  cmp_trans = strcmp_trans;
}
