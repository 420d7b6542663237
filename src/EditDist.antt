-- ===== src/EditDist.antt =====
-- src/include/common/EditDist.cpp: the distance between two segmented questions, and the grouping
-- of the candidate questions by it.
pub mod Script
pub mod Table
pub mod Groups
use dlg_service.Prelude.{
  ℕ, zero, suc, ◌+◌, ◌-◌, Bool, true, false, ◌&&◌, Option, none, some, List, [], ◌∷◌, ◌++◌, ltb,
  leb, ◌==◌, if◌then◌else◌, Bytes, bytes_eq, length, get_or, for_up, Map, sort_from, lookup, upsert,
  nat_ord, bytes_ord,
}

-- `int min(int i, int j)`.
unfoldable pub min : ℕ → ℕ → ℕ
min i j = if ltb j i then j else i

-- `ptr`: the cell in row i and column j. What `new int[]` leaves in the cells is a parameter.
abbrev pub Cells : Type 0
Cells = ℕ → ℕ → ℕ

-- `ptr[i][j] = v`.
unfoldable pub store : Cells → ℕ → ℕ → ℕ → Cells
store ptr i j v p q = if p == i && q == j then v else ptr p q

module _ (str1 str2 : List Bytes) where
  -- `d`: 0 where the two words are equal.
  unfoldable pub word_cost : ℕ → ℕ → ℕ
  word_cost i j = if bytes_eq (get_or str1 i []) (get_or str2 j []) then 0 else 1

  -- The body of the inner loop.
  unfoldable pub fill_cell : ℕ → ℕ → Cells → Cells
  fill_cell i j ptr =
      let tmp = min (ptr i (j - 1) + 1) (ptr (i - 1) j + 1) in
      store ptr i j (min tmp (ptr (i - 1) (j - 1) + word_cost (i - 1) (j - 1)))

  -- The two initial loops: the first column, then the first row.
  unfoldable pub init_cells : Cells → Cells
  init_cells raw =
      let column = for_up (length str1 + 1) 0 (λ i ptr. store ptr i 0 i) raw in
      for_up (length str2 + 1) 0 (λ j ptr. store ptr 0 j j) column

  -- The two nested loops.
  unfoldable pub fill_cells : Cells → Cells
  fill_cells = for_up (length str1) 1 (λ i. for_up (length str2) 1 (fill_cell i))

  -- `EditDist::edit`, from whatever the allocated cells hold.
  unfoldable pub edit : Cells → ℕ
  edit raw = fill_cells (init_cells raw) (length str1) (length str2)

-- What `EditSort` builds: `cadidate_sort`, `sortED` and `uniq_cadidate`.
pub record Sorting : Type 0 where
  pub cadidate_sort : Map ℕ Bytes
  pub sort_ed : List ℕ
  pub uniq : Map Bytes ℕ

abbrev pub hashes : Bytes
hashes = b'#' ∷ b'#' ∷ b'#' ∷ []

-- `uniq_cadidate[c]++`.
abbrev pub count_one : Option ℕ → ℕ
count_one none = 1
count_one (some n) = n + 1

-- `cadidate_sort[d] += c + "###"`; a fresh entry is the empty string.
abbrev pub add_text : Bytes → Option Bytes → Bytes
add_text c none = c ++ hashes
add_text c (some old) = old ++ (c ++ hashes)

-- `segment` is `SEGMENT_1::Segment_`, `raw` the content of freshly allocated cells.
module _ (segment : Bytes → List Bytes) (raw : Cells) where
  -- `EditDist::Calculate`: 0 where a text has no words.
  unfoldable pub calculate : Bytes → Bytes → ℕ
  calculate str1 str2 =
      let vec1 = segment str1 in
      let vec2 = segment str2 in
      if ltb (length vec1) 1 then 0 else if ltb (length vec2) 1 then 0 else edit vec1 vec2 raw

  -- The body of the loop of `EditSort`.
  unfoldable pub sort_step : Bytes → Bytes → Sorting → Sorting
  sort_step str1 c s =
      let edis = calculate str1 c in
      let counted = upsert c count_one s.uniq in
      elim (lookup edis s.cadidate_sort) [
        | some _ ↦ elim (lookup c s.uniq) [
          | none ↦ record s {
            cadidate_sort = upsert edis (add_text c) s.cadidate_sort;
            uniq = counted;
          }
          | some _ ↦ s
        ]
        | none ↦ record {
          cadidate_sort = upsert edis (λ _. c ++ hashes) s.cadidate_sort;
          sort_ed = s.sort_ed ++ edis ∷ [];
          uniq = counted;
        }
      ]

  unfoldable pub sort_loop : Bytes → List Bytes → Sorting → Sorting
  sort_loop str1 [] s = s
  sort_loop str1 (c ∷ cs) s = sort_loop str1 cs (sort_step str1 c s)

  -- `EditSort` on the caller's map and vector, with the sort of the last line.
  unfoldable pub edit_sort : Bytes → List Bytes → Map ℕ Bytes → List ℕ → Sorting
  edit_sort str1 cadidate groups dists =
      let r =
        sort_loop str1 cadidate (record { cadidate_sort = groups; sort_ed = dists; uniq = [] }) in
      record r { sort_ed = sort_from [] r.sort_ed }
