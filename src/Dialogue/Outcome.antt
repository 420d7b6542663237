-- ===== src/Dialogue/Outcome.antt =====
-- A query from its text to the answer shown: IndexOutcome of src/dialogue/dialogue.cpp and the search of
-- questions of src/doc_search/Doc_Search.cpp. The query is a C string without its NUL.
use dlg_service.Prelude.{
  ℕ, ◌/◌, Option, none, some, List, [], ◌∷◌, ltb, ◌==◌, if◌then◌else◌, Bytes, length, Map,
}
use dlg_service.Index.CommonIndex.{CommonIndex}
use dlg_service.Index.Make.{concat}
use dlg_service.EditDist.{Cells, edit_sort}
use dlg_service.Search.{get_dlg_result, segment_query}
use dlg_service.Dialogue.{Shown, show_results}

-- `threshold`
abbrev pub threshold : ℕ
threshold = 50

-- What is printed for a question found, or (none) that it is too long.
unfoldable pub asking : ℕ → Bytes → Option Bytes
asking query_length d = if ltb threshold (length d / query_length) then none else some d

-- The loop over `data`; `none` where it divides by zero.
unfoldable pub askings : ℕ → List Bytes → Option (List (Option Bytes))
askings query_length [] = some []
askings query_length (d ∷ found) =
    let rest = askings query_length found in
    if query_length == 0
    then none
    else elim rest [ none ↦ none | some ls ↦ some (asking query_length d ∷ ls) ]

-- What `IndexOutcome` prints: a line for each question found, and the answer.
pub record Outcome : Type 0 where
  pub texts : List Bytes
  pub lines : List (Option Bytes)
  pub shown : Shown

module _ {ℓ} {W : Type ℓ} (to_wide : Bytes → Bytes) (graph graph_index : Bytes → List Bytes)
    (ix : CommonIndex W) (black stop : List Bytes) (hash_syn : Map Bytes (List Bytes)) where
  -- `DOC_Search`: `data`, which stays empty on an error.
  unfoldable pub doc_search : Bytes → List Bytes
  doc_search dest_norm =
      elim (get_dlg_result to_wide graph graph_index ix black stop hash_syn dest_norm) [
        | none ↦ []
        | some r ↦ r.texts
      ]

  -- `DOC_SEARCH::GetIndexResults`
  unfoldable pub doc_get_index_results : Bytes → List Bytes
  doc_get_index_results query =
      let parts = segment_query graph query in
      if ltb (length parts) 1 then [] else doc_search (concat parts)

  module _ (raw : Cells) (exact_match : Bytes → Option ℕ) (search_buf : Bytes) (random : ℕ) where
    -- `IndexOutcome` behind the search.
    unfoldable pub outcome_of : Bytes → List Bytes → Option Outcome
    outcome_of query found =
        let sorted = edit_sort (segment_query graph) raw query found [] [] in
        elim (askings (length query) found) [
          | none ↦ none
          | some ls ↦ some (record {
            texts = found;
            lines = ls;
            shown =
                show_results (segment_query graph) exact_match search_buf random (length query)
                  sorted.cadidate_sort;
          })
        ]

    -- `IndexOutcome`
    unfoldable pub index_outcome : Bytes → Option Outcome
    index_outcome query = outcome_of query (doc_get_index_results query)
