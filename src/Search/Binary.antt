-- ===== src/Search/Binary.antt =====
-- `BinarySearch` on a posting list whose document numbers do not descend.
use dlg_service.Prelude.{
  ℕ, zero, suc, ◌+◌, ◌-◌, ◌/◌, ◌≤◌, ◌<◌, ◌≡◌, ◌≢◌, List, arith, ltb, ◌==◌, length, get_or, some,
  none, Option, dec_lt, ℕ_discrete, true, false,
}
use dlg_service.Index.Types.{Inv}
use dlg_service.Search.{no_inv, binary_search_loop, binary_search}

-- the document number at a place
abbrev pub doc_at : List Inv → ℕ → ℕ
doc_at inv i = (get_or inv i no_inv).doc_id

-- earlier postings have no larger document numbers
abbrev pub IsAscending : List Inv → Type 0
IsAscending inv = (i j : ℕ) → i ≤ j → j < length inv → doc_at inv i ≤ doc_at inv j

-- what a search between two places should say
unfoldable pub IsVerdict : ℕ → List Inv → ℕ → ℕ → Option ℕ → Type 0
IsVerdict doc_id inv lo hi none = (i : ℕ) → lo ≤ i → i < hi → doc_at inv i ≢ doc_id
IsVerdict doc_id inv lo hi (some i) = (lo ≤ i) × (i < hi) × (doc_at inv i ≡ doc_id)

module _ (doc_id : ℕ) (inv : List Inv) (ascending : IsAscending inv) where
  -- the answer for the part above a smaller place is the answer for the whole
  widen_above :
      (lo mid hi : ℕ) (o : Option ℕ)
      → hi ≤ length inv
      → lo ≤ mid
      → mid < hi
      → doc_at inv mid < doc_id
      → IsVerdict doc_id inv (mid + 1) hi o
      → IsVerdict doc_id inv lo hi o
  unfolding IsVerdict
  widen_above lo mid hi none b p q small v = λ i l h. elim (dec_lt mid i) [
    | yes y ↦ v i (omega arith) h
    | no n ↦ λ e. absurd (omega (arith, ascending i mid (omega arith) (omega arith)))
  ]
  widen_above lo mid hi (some i) b p q small v = (omega (arith, v.0), v.1, v.2)

  -- the same below a larger place
  widen_below :
      (lo mid hi : ℕ) (o : Option ℕ)
      → hi ≤ length inv
      → mid < hi
      → doc_id < doc_at inv mid
      → IsVerdict doc_id inv lo mid o
      → IsVerdict doc_id inv lo hi o
  unfolding IsVerdict
  widen_below lo mid hi none b q large v = λ i l h. elim (dec_lt i mid) [
    | yes y ↦ v i l y
    | no n ↦ λ e. absurd (omega (arith, ascending mid i (omega arith) (omega arith)))
  ]
  widen_below lo mid hi (some i) b q large v = (v.0, omega (arith, v.1), v.2)

  loop-IsVerdict :
      (fuel lo hi : ℕ)
      → hi ≤ length inv
      → hi - lo ≤ fuel
      → IsVerdict doc_id inv lo hi (binary_search_loop fuel doc_id inv lo hi)
  unfolding binary_search_loop
  loop-IsVerdict zero lo hi b f = unfold IsVerdict in λ i l h e. absurd (omega arith)
  loop-IsVerdict (suc fuel) lo hi b f =
      let mid = lo + (hi - 1 - lo) / 2 in
      elim (dec_lt lo hi) [
        | no n ↦ rw (empty lo hi n) (unfold IsVerdict in λ i l h e. absurd (omega arith))
        | yes h ↦ elim (ℕ_discrete (doc_at inv mid) doc_id) [
          | yes e ↦
              rw (nonempty lo hi h, same (doc_at inv mid) e)
                (unfold IsVerdict in (omega arith, omega arith, e))
          | no d ↦ elim (dec_lt (doc_at inv mid) doc_id) [
            | yes s ↦
                rw
                  (nonempty lo hi h, differs (doc_at inv mid) d, nonempty (doc_at inv mid) doc_id s)
                  (widen_above lo mid hi _ b (omega arith) (omega arith) s
                    (loop-IsVerdict fuel (mid + 1) hi b (omega arith)))
            | no l ↦
                rw (nonempty lo hi h, differs (doc_at inv mid) d, empty (doc_at inv mid) doc_id l)
                  (widen_below lo mid hi _ b (omega arith) (omega arith)
                    (loop-IsVerdict fuel lo mid (omega arith) (omega arith)))
          ]
        ]
      ]
    where
      empty : (a c : ℕ) → ¬ (a < c) → ltb a c ≡ false
      empty a c n = ground arith

      nonempty : (a c : ℕ) → a < c → ltb a c ≡ true
      nonempty a c n = ground arith

      same : (a : ℕ) → a ≡ doc_id → (a == doc_id) ≡ true
      same a e = ground arith

      differs : (a : ℕ) → a ≢ doc_id → (a == doc_id) ≡ false
      differs a e = ground arith

  -- `BinarySearch` of a document number in a posting list with non-descending document numbers,
  -- from an offset to a place within the list, gives a place in that range with that number, or
  -- -1 and no place of the range has it.
  pub binary_search-IsVerdict :
      (offset max_pos : ℕ)
      → max_pos ≤ length inv
      → IsVerdict doc_id inv offset max_pos (binary_search doc_id inv offset max_pos)
  unfolding binary_search
  binary_search-IsVerdict offset max_pos b =
      loop-IsVerdict (max_pos - offset) offset max_pos b (omega arith)
