-- ===== src/EditDist/Script.antt =====
-- What an edit distance is: the least cost of a script that edits one word list into the other.
use dlg_service.Prelude.{
  ℕ, zero, suc, ◌+◌, ◌≤◌, ◌≡◌, refl, List, [], arith, Bytes, Bool-cases, inl, inr, subst, bytes_eq,
  bytes_eq→eq, bytes_eq_refl, get_or, ltb,
}
use dlg_service.EditDist.{min, word_cost}

min-le : (a b : ℕ) → (min a b ≤ a) × (min a b ≤ b)
unfolding min
min-le a b = ground arith

module _ (str1 str2 : List Bytes) where
  word_cost-le : (i j : ℕ) → word_cost str1 str2 i j ≤ 1
  unfolding word_cost
  word_cost-le i j = ground arith

  word_cost_same : (i j : ℕ) → get_or str1 i [] ≡ get_or str2 j [] → word_cost str1 str2 i j ≡ 0
  unfolding word_cost
  word_cost_same i j e = rw (e, bytes_eq_refl (get_or str2 j []))

  -- `Script i j n`: a script of cost n edits the first i words of str1 into the first j of str2.
  pub data Script : ℕ → ℕ → ℕ → Type 0 where
    start : Script 0 0 0
    delete : {i j n : ℕ} → Script i j n → Script (suc i) j (suc n)
    add : {i j n : ℕ} → Script i j n → Script i (suc j) (suc n)
    keep :
        {i j n : ℕ} → get_or str1 i [] ≡ get_or str2 j [] → Script i j n → Script (suc i) (suc j) n
    replace : {i j n : ℕ} → Script i j n → Script (suc i) (suc j) (suc n)

  -- The recurrence that the table follows.
  unfoldable pub lev : ℕ → ℕ → ℕ
  lev zero j = j
  lev (suc i) zero = suc i
  lev (suc i) (suc j) =
      let near = min (lev (suc i) j + 1) (lev i (suc j) + 1) in
      let across = lev i j + word_cost str1 str2 i j in min near across

  pub lev_zero : (i : ℕ) → lev i 0 ≡ i
  unfolding lev
  lev_zero zero = refl
  lev_zero (suc i) = refl

  -- each of the three ways into a cell bounds it
  lev_step-le :
      (i j : ℕ)
      → (lev (suc i) (suc j) ≤ lev (suc i) j + 1)
        × (lev (suc i) (suc j) ≤ lev i (suc j) + 1)
        × (lev (suc i) (suc j) ≤ lev i j + word_cost str1 str2 i j)
  unfolding lev
  lev_step-le i j = omega (arith, min-le)

  -- No script is cheaper.
  pub lev-le : {i j n : ℕ} → Script i j n → lev i j ≤ n
  unfolding lev
  lev-le start = omega arith
  lev-le (delete {i} {j = zero} s) = omega (arith, lev-le s, lev_zero i)
  lev-le (delete {i} {j = suc j} s) = omega (arith, lev-le s, lev_step-le i j)
  lev-le (add {i = zero} {j} s) = omega (arith, lev-le s)
  lev-le (add {i = suc i} {j} s) = omega (arith, lev-le s, lev_step-le i j)
  lev-le (keep {i} {j} e s) = omega (arith, lev-le s, lev_step-le i j, word_cost_same i j e)
  lev-le (replace {i} {j} s) = omega (arith, lev-le s, lev_step-le i j, word_cost-le i j)

  cheaper : {i j a b : ℕ} → Script i j a → Script i j b → Script i j (min a b)
  unfolding min
  cheaper {a} {b} s t = elim (Bool-cases (ltb b a)) [ inl h ↦ rw h t | inr h ↦ rw h s ]

  across : {i j n : ℕ} → Script i j n → Script (suc i) (suc j) (n + word_cost str1 str2 i j)
  unfolding word_cost
  across {i} {j} {n} s = elim (Bool-cases (bytes_eq (get_or str1 i []) (get_or str2 j []))) [
    | inl h ↦ rw h (subst (Script (suc i) (suc j)) (omega arith) (keep (bytes_eq→eq _ _ h) s))
    | inr h ↦ rw h (subst (Script (suc i) (suc j)) (omega arith) (replace s))
  ]

  plus_one : {i j n : ℕ} → Script i j (suc n) → Script i j (n + 1)
  plus_one {i} {j} s = subst (Script i j) (omega arith) s

  -- Some script costs just as much.
  pub lev_attained : (i j : ℕ) → Script i j (lev i j)
  unfolding lev
  lev_attained zero zero = start
  lev_attained zero (suc j) = add (lev_attained zero j)
  lev_attained (suc i) zero = delete (subst (Script i 0) (lev_zero i) (lev_attained i zero))
  lev_attained (suc i) (suc j) =
      cheaper
        (cheaper (plus_one (add (lev_attained (suc i) j)))
          (plus_one (delete (lev_attained i (suc j)))))
        (across (lev_attained i j))
