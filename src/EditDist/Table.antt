-- ===== src/EditDist/Table.antt =====
-- The table of `edit` holds the recurrence, so `edit` is the least cost of a script.
use dlg_service.Prelude.{
  ℕ, zero, suc, ◌+◌, ◌-◌, ◌≤◌, ◌<◌, ◌≡◌, refl, ◌⊎◌, inl, inr, List, arith, Bytes, length, for_up,
  for_up_inv, ℕ_discrete, ◌≢◌,
}
use dlg_service.EditDist.{Cells, store, fill_cell, init_cells, fill_cells, edit}
use dlg_service.EditDist.Script.{lev, Script, lev-le, lev_attained, lev_zero}

store_self : (ptr : Cells) (i j v : ℕ) → store ptr i j v i j ≡ v
unfolding store
store_self ptr i j v = ground arith

store_ne : (ptr : Cells) (i j v p q : ℕ) → (p ≢ i) ⊎ (q ≢ j) → store ptr i j v p q ≡ ptr p q
unfolding store
store_ne ptr i j v p q h = ground arith

module _ (str1 str2 : List Bytes) (raw : Cells) where
  abbrev n1 : ℕ
  n1 = length str1

  abbrev n2 : ℕ
  n2 = length str2

  -- the cells that are filled when the inner loop is about to write column j of row i
  abbrev IsDone : (i j p q : ℕ) → Type 0
  IsDone i j p q = (p < i) ⊎ ((q ≡ 0) ⊎ ((p ≡ i) × (q < j)))

  abbrev Holds : (i j : ℕ) → Cells → Type 0
  Holds i j ptr = (p q : ℕ) → p ≤ n1 → q ≤ n2 → IsDone i j p q → ptr p q ≡ lev str1 str2 p q

  column_filled : (p : ℕ) → p ≤ n1 → for_up (n1 + 1) 0 (λ i ptr. store ptr i 0 i) raw p 0 ≡ p
  column_filled p h =
      for_up_inv (λ k ptr. (p : ℕ) → p < k → ptr p 0 ≡ p) _ (n1 + 1) (n1 + 1) 0 raw (omega arith)
        (λ k ptr lo hi ih p l. grind (arith, store_self ptr k 0 k, store_ne ptr k 0 k p 0, ih p))
        (λ p l. absurd (omega arith)) p (omega arith)

  -- before column k of the first row is set
  abbrev IsEdge : ℕ → Cells → Type 0
  IsEdge k ptr = ((p : ℕ) → p ≤ n1 → ptr p 0 ≡ p) × ((q : ℕ) → q < k → ptr 0 q ≡ q)

  init_cells-IsEdge : IsEdge (n2 + 1) (init_cells str1 str2 raw)
  unfolding init_cells
  init_cells-IsEdge =
      for_up_inv IsEdge _ (n2 + 1) (n2 + 1) 0 _ (omega arith)
        (λ k ptr lo hi ih. (
          λ p l. grind (arith, store_self ptr 0 k k, store_ne ptr 0 k k p 0, ih.0 p),
          λ q l. grind (arith, store_self ptr 0 k k, store_ne ptr 0 k k 0 q, ih.1 q),
        ))
        (column_filled, λ q l. absurd (omega arith))

  init_cells-Holds : Holds 1 1 (init_cells str1 str2 raw)
  unfolding lev
  init_cells-Holds zero q lp lq d = init_cells-IsEdge.1 q (omega arith)
  init_cells-Holds (suc p) q lp lq d =
      let e : q ≡ 0 = omega arith in rw (e, init_cells-IsEdge.0 (suc p) lp, lev_zero)

  written :
      (i j : ℕ) (ptr : Cells)
      → suc i ≤ n1
      → suc j ≤ n2
      → Holds (suc i) (suc j) ptr
      → fill_cell str1 str2 (suc i) (suc j) ptr (suc i) (suc j) ≡ lev str1 str2 (suc i) (suc j)
  unfolding fill_cell lev
  written i j ptr hi hj h =
      let ei : suc i - 1 ≡ i = omega arith in
      let ej : suc j - 1 ≡ j = omega arith in
      rw
        (
          store_self,
          ei,
          ej,
          h (suc i) j (omega arith) (omega arith) (inr (left_done j)),
          h i (suc j) (omega arith) (omega arith) (inl (omega arith)),
          h i j (omega arith) (omega arith) (inl (omega arith)),
        )
        refl
    where
      left_done : (j : ℕ) → (j ≡ 0) ⊎ ((suc i ≡ suc i) × (j < suc j))
      left_done j = inr (refl, omega arith)

  fill_cell-Holds :
      (i j : ℕ) (ptr : Cells)
      → suc i ≤ n1
      → suc j ≤ n2
      → Holds (suc i) (suc j) ptr
      → Holds (suc i) (suc (suc j)) (fill_cell str1 str2 (suc i) (suc j) ptr)
  fill_cell-Holds i j ptr hi hj h p q lp lq d = elim (ℕ_discrete p (suc i)) [
    | no away ↦ kept (inl away)
    | yes row ↦ elim (ℕ_discrete q (suc j)) [
      | no away ↦ kept (inr away)
      | yes col ↦ rw (row, col) (written i j ptr hi hj h)
    ]
  ]
    where
      kept :
          (p ≢ suc i) ⊎ (q ≢ suc j)
          → fill_cell str1 str2 (suc i) (suc j) ptr p q ≡ lev str1 str2 p q
      kept ne =
          unfold fill_cell in
          rw (store_ne ptr (suc i) (suc j) _ p q ne) (h p q lp lq (ground arith))

  -- the loop over the columns takes a row from its first cell to its end
  fill_row-Holds :
      (i : ℕ) (ptr : Cells)
      → suc i ≤ n1
      → Holds (suc i) 1 ptr
      → Holds (suc (suc i)) 1 (for_up n2 1 (fill_cell str1 str2 (suc i)) ptr)
  fill_row-Holds i ptr hi h =
      next (for_up_inv (Holds (suc i)) _ (suc n2) n2 1 ptr (omega arith) step h)
    where
      step :
          (k : ℕ) (t : Cells)
          → 1 ≤ k
          → k < suc n2
          → Holds (suc i) k t
          → Holds (suc i) (suc k) (fill_cell str1 str2 (suc i) k t)
      step zero t lo hi' p = absurd (omega arith)
      step (suc j) t lo hi' p = fill_cell-Holds i j t hi (omega arith) p

      next : {t : Cells} → Holds (suc i) (suc n2) t → Holds (suc (suc i)) 1 t
      next p a b la lb d = p a b la lb (ground arith)

  fill_cells-Holds : Holds (suc n1) 1 (fill_cells str1 str2 (init_cells str1 str2 raw))
  unfolding fill_cells
  fill_cells-Holds =
      for_up_inv (λ k. Holds k 1) _ (suc n1) n1 1 _ (omega arith) step init_cells-Holds
    where
      step :
          (k : ℕ) (t : Cells)
          → 1 ≤ k
          → k < suc n1
          → Holds k 1 t
          → Holds (suc k) 1 (for_up n2 1 (fill_cell str1 str2 k) t)
      step zero t lo hi p = absurd (omega arith)
      step (suc i) t lo hi p = fill_row-Holds i t (omega arith) p

  edit-eq-lev : edit str1 str2 raw ≡ lev str1 str2 n1 n2
  unfolding edit
  edit-eq-lev = fill_cells-Holds n1 n2 (omega arith) (omega arith) (inl (omega arith))

-- Whatever the allocated cells hold, a script of the cost that `edit` returns edits the first word list
-- into the second.
pub edit-attained :
    (str1 str2 : List Bytes) (raw : Cells)
    → Script str1 str2 (length str1) (length str2) (edit str1 str2 raw)
edit-attained str1 str2 raw = rw (edit-eq-lev str1 str2 raw) (lev_attained str1 str2 _ _)

-- Whatever the allocated cells hold, no script that edits the first word list into the second is
-- cheaper than what `edit` returns.
pub edit-le :
    (str1 str2 : List Bytes) (raw : Cells) (n : ℕ)
    → Script str1 str2 (length str1) (length str2) n
    → edit str1 str2 raw ≤ n
edit-le str1 str2 raw n s = rw (edit-eq-lev str1 str2 raw) (lev-le str1 str2 s)
