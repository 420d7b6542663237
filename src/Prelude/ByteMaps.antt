-- ===== src/Prelude/ByteMaps.antt =====
-- Maps from strings, and counters in them.
use Prim.Native.Nat.{ℕ, ◌+◌}
use mathlib.Core.Path.{◌≡◌, refl}
use mathlib.Core.Logic.{inl, inr}
use mathlib.Core.List.{[], ◌∷◌}
use mathlib.Core.Option.{Option, none, some}
use native.Mathlib.Omega.{arith}
use dlg_service.Prelude.Tests.{if◌then◌else◌, Bool-cases}
use dlg_service.Prelude.Strings.{Bytes, bytes_eq, bytes_eq→eq, bytes_eq_refl}
use dlg_service.Prelude.Order.{bytes_ord, strcmp-eq}
use dlg_service.Prelude.Maps.{Map, lookup, upsert, lookup-upsert_self, lookup-upsert_ne, IsAbove}

-- A write at one key, seen from any key.
pub lookup-upsert_bytes {κ} :
    {V : Type κ} (x c : Bytes) (f : Option V → V) (m : Map Bytes V)
    → lookup x (upsert c f m) ≡ (if bytes_eq c x then some (f (lookup x m)) else lookup x m)
lookup-upsert_bytes x c f m = elim (Bool-cases (bytes_eq c x)) [
  | inl p ↦ rw (p, bytes_eq→eq c x p) (lookup-upsert_self x f m)
  | inr n ↦ rw n (lookup-upsert_ne x c f m (λ h. ground (arith, strcmp-eq x c h, bytes_eq_refl x)))
]

-- A key below all keys of a map is none of them.
pub lookup-IsAbove {κ} :
    {V : Type κ} (x : Bytes) (m : Map Bytes V) → IsAbove x m → lookup x m ≡ none
unfolding lookup
lookup-IsAbove x [] h = refl
lookup-IsAbove x ((j, v) ∷ m) h = rw (h.0, lookup) refl

-- What a counter holds: 0 where the key is new.
abbrev pub count_of : Option ℕ → ℕ
count_of none = 0
count_of (some n) = n

-- `m[k]++`.
abbrev pub increment : Option ℕ → ℕ
increment none = 1
increment (some n) = n + 1

pub count_of-increment :
    (x c : Bytes) (m : Map Bytes ℕ)
    → count_of (lookup x (upsert c increment m))
      ≡ (if bytes_eq c x then 1 else 0) + count_of (lookup x m)
count_of-increment x c m = elim (Bool-cases (bytes_eq c x)) [
  | inl p ↦ rw (lookup-upsert_bytes x c increment m, p) (plus_one (lookup x m))
  | inr n ↦ rw (lookup-upsert_bytes x c increment m, n) (omega arith)
]
  where
    plus_one : (o : Option ℕ) → increment o ≡ 1 + count_of o
    plus_one none = omega arith
    plus_one (some k) = omega arith
