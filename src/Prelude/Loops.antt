-- ===== src/Prelude/Loops.antt =====
-- Counting loops over a state, and their invariant rule.
use Prim.Native.Nat.{ℕ, zero, suc, ◌+◌, ◌≤◌, ◌<◌}
use mathlib.Core.Path.{◌≡◌, subst}
use native.Mathlib.Omega.{arith}

-- `for (k = from; k < from + rounds; k++) s = body k s`.
unfoldable pub for_up {ℓ} : {S : Type ℓ} → (rounds from : ℕ) → (ℕ → S → S) → S → S
for_up zero from body s = s
for_up (suc n) from body s = for_up n (suc from) body (body from s)

-- An invariant that each round hands on to the next holds at the end.
pub for_up_inv {ℓ κ} :
    {S : Type ℓ} (P : ℕ → S → Type κ) (body : ℕ → S → S) (stop rounds from : ℕ) (s : S)
    → from + rounds ≡ stop
    → ((k : ℕ) (t : S) → from ≤ k → k < stop → P k t → P (suc k) (body k t))
    → P from s
    → P stop (for_up rounds from body s)
unfolding for_up
for_up_inv P body stop zero from s e keep p = subst (λ k. P k s) (omega arith) p
for_up_inv P body stop (suc n) from s e keep p =
    for_up_inv P body stop n (suc from) (body from s) (omega arith)
      (λ k t lo hi. keep k t (omega arith) hi) (keep from s (omega arith) (omega arith) p)
