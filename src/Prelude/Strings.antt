-- ===== src/Prelude/Strings.antt =====
-- Strings as lists of bytes: equality, the order of strcmp, prefixes, and searching.
use Prim.Native.Nat.{ℕ, zero, suc, ◌+◌, ◌≤◌}
use mathlib.Core.Path.{◌≡◌, refl}
use mathlib.Core.Logic.{◌↔◌, ◌≢◌}
use mathlib.Core.Bool.{Bool, true, false, ◌&&◌}
use mathlib.Core.List.{List, [], ◌∷◌, ◌++◌}
use mathlib.Core.Option
use mathlib.Core.Option.{Option, none, some}
use native.Mathlib.Omega.{arith}
use dlg_service.Prelude.Tests.{◌==◌, if◌then◌else◌}
use dlg_service.Prelude.Lists.{length, take, drop, All}

abbrev pub Bytes : Type 0
Bytes = List ℕ

-- `operator==` of std::string.
unfoldable pub bytes_eq : Bytes → Bytes → Bool
bytes_eq [] [] = true
bytes_eq [] (y ∷ ys) = false
bytes_eq (x ∷ xs) [] = false
bytes_eq (x ∷ xs) (y ∷ ys) = x == y && bytes_eq xs ys

pub bytes_eq→eq : (s t : Bytes) → bytes_eq s t ≡ true → s ≡ t
unfolding bytes_eq
bytes_eq→eq [] [] h = refl
bytes_eq→eq [] (y ∷ t) h = ground arith
bytes_eq→eq (x ∷ s) [] h = ground arith
bytes_eq→eq (x ∷ s) (y ∷ t) h = ground (arith, bytes_eq→eq s t)

pub bytes_eq_refl : (s : Bytes) → bytes_eq s s ≡ true
unfolding bytes_eq
bytes_eq_refl [] = refl
bytes_eq_refl (x ∷ s) = ground (arith, bytes_eq_refl s)

pub bytes_eq_iff : (s t : Bytes) → (bytes_eq s t ≡ true) ↔ (s ≡ t)
bytes_eq_iff s t = (bytes_eq→eq s t, λ e. rw e (bytes_eq_refl t))

-- Whether a string starts with another.
unfoldable pub starts_with : Bytes → Bytes → Bool
starts_with s [] = true
starts_with [] (p ∷ ps) = false
starts_with (x ∷ xs) (p ∷ ps) = x == p && starts_with xs ps

pub starts_with-append : (p s : Bytes) → starts_with (p ++ s) p ≡ true
unfolding starts_with
starts_with-append [] [] = refl
starts_with-append [] (x ∷ s) = refl
starts_with-append (x ∷ p) s = ground (arith, starts_with-append p s)

-- The first position at which `sub` stands in `s`: `s.find(sub)`, with `none` for npos.
unfoldable pub find : Bytes → Bytes → Option ℕ
find [] sub = if starts_with [] sub then some 0 else none
find (x ∷ xs) sub =
    let rest = Option.map suc (find xs sub) in if starts_with (x ∷ xs) sub then some 0 else rest

-- `s.find(sub, pos)`, at `pos` not past the end.
unfoldable pub find_from : Bytes → Bytes → ℕ → Option ℕ
find_from s sub pos = Option.map (λ i. pos + i) (find (drop pos s) sub)

pub starts_with-nil : (p : Bytes) → p ≢ [] → starts_with [] p ≡ false
unfolding starts_with
starts_with-nil [] h = absurd (h refl)
starts_with-nil (x ∷ p) h = refl

-- A prefix that a front part has, the whole has.
pub starts_with-take :
    (s p : Bytes) (n : ℕ) → starts_with (take n s) p ≡ true → starts_with s p ≡ true
unfolding starts_with
starts_with-take [] [] n h = refl
starts_with-take (x ∷ s) [] n h = refl
starts_with-take [] (y ∷ p) zero h = h
starts_with-take [] (y ∷ p) (suc n) h = h
starts_with-take (x ∷ s) (y ∷ p) zero h = cc
starts_with-take (x ∷ s) (y ∷ p) (suc n) h = ground (arith, starts_with-take s p n)

pub length-le_of_starts_with : (s p : Bytes) → starts_with s p ≡ true → length p ≤ length s
unfolding starts_with
length-le_of_starts_with s [] h = omega arith
length-le_of_starts_with [] (y ∷ p) h = cc
length-le_of_starts_with (x ∷ s) (y ∷ p) h = ground (arith, length-le_of_starts_with s p)

-- An occurrence lies inside the string.
pub find-le : (s sub : Bytes) (i : ℕ) → find s sub ≡ some i → i + length sub ≤ length s
unfolding find
find-le [] sub i h = ground (arith, length-le_of_starts_with [] sub)
find-le (x ∷ s) sub zero h = ground (arith, length-le_of_starts_with (x ∷ s) sub)
find-le (x ∷ s) sub (suc i) h = ground (arith, find-le s sub i)

-- What stands before the first occurrence holds no occurrence.
pub find-take :
    (s sub : Bytes) (i : ℕ) → sub ≢ [] → find s sub ≡ some i → find (take i s) sub ≡ none
unfolding find
find-take [] sub zero n h = ground (arith, starts_with-nil sub n)
find-take [] sub (suc i) n h = ground (arith, starts_with-nil sub n)
find-take (x ∷ s) sub zero n h = ground (arith, starts_with-nil sub n)
find-take (x ∷ s) sub (suc i) n h =
    ground (arith, starts_with-take (x ∷ s) sub (suc i), find-take s sub i n)

-- A separator stands first where a text without its first byte ends.
pub find-append :
    (c : Bytes) (h : ℕ) (t rest : Bytes)
    → All (λ x. x ≢ h) c
    → find (c ++ ((h ∷ t) ++ rest)) (h ∷ t) ≡ some (length c)
unfolding find starts_with
find-append [] h t rest a = ground (arith, starts_with-append t rest)
find-append (x ∷ c) h t rest a = ground (arith, find-append c h t rest a.1, a.0)

pub find-none : (c : Bytes) (h : ℕ) (t : Bytes) → All (λ x. x ≢ h) c → find c (h ∷ t) ≡ none
unfolding find starts_with
find-none [] h t a = refl
find-none (x ∷ c) h t a = ground (arith, find-none c h t a.1, a.0)
