-- ===== src/Dialogue.antt =====
-- The choice of an answer in src/dialogue/dialogue.cpp and the search of answers in
-- src/da_search/Da_Search.cpp. `exact_match` is `exactMatchSearch` of the trie, with `none` for a
-- negative result; `random` is `rand`.
pub mod Nearest
pub mod Closest
pub mod Outcome
pub mod Whole
use dlg_service.Prelude.{
  ℕ, zero, suc, ◌-◌, ◌%◌, Option, none, some, List, [], ◌∷◌, ltb, if◌then◌else◌, Bytes, length,
  get_or, Map,
}
use dlg_service.Index.Types.{word_at}
use dlg_service.Index.Make.{split_parts, concat}
use dlg_service.EditDist.{hashes}

-- "##-##"
abbrev pub answer_mark : Bytes
answer_mark = b'#' ∷ b'#' ∷ b'-' ∷ b'#' ∷ b'#' ∷ []

-- `dis`: how far the lengths of a question and of the query are apart.
unfoldable pub distance : ℕ → Bytes → ℕ
distance query_length a =
    if ltb (length a) query_length then query_length - length a else length a - query_length

-- The loop over `anwser_vec`, on `anwser` and `nearest_dis`.
unfoldable pub nearest : ℕ → List Bytes → Bytes → ℕ → Bytes
nearest query_length [] answer nearest_dis = answer
nearest query_length (a ∷ vec) answer nearest_dis =
    let closer = nearest query_length vec a (distance query_length a) in
    let rest = nearest query_length vec answer nearest_dis in
    if ltb (distance query_length a) nearest_dis then closer else rest

-- `show_results` up to the search: the question that is searched, if any. Only the first entry of the
-- map is looked at.
unfoldable pub asked : ℕ → Map ℕ Bytes → Option Bytes
asked query_length [] = none
asked query_length ((d, text) ∷ da_vec) =
    if ltb 5 d
    then none
    else if ltb (length text) 1
    then none
    else some (nearest query_length (split_parts text hashes) text 10000)

-- What `show_results` prints of an answer.
pub data Shown : Type 0 where
  nothing : Shown
  answer : Bytes → Shown
  excuse : Shown

module _ (segment : Bytes → List Bytes) (exact_match : Bytes → Option ℕ) (search_buf : Bytes) where
  -- `DA_Search`: the text at the place that the trie gives, if it is inside the buffer.
  unfoldable pub da_search : Bytes → Option Bytes
  da_search dest_norm = elim (exact_match dest_norm) [
    | none ↦ none
    | some ret ↦ if ltb ret (length search_buf) then some (word_at search_buf ret) else none
  ]

  -- `DA_SEARCH::GetIndexResults`: what it files under "da".
  unfoldable pub da_get_index_results : Bytes → Option Bytes
  da_get_index_results query =
      let parts = segment query in if ltb (length parts) 1 then none else da_search (concat parts)

  -- The answer of number `pos_anwser`.
  unfoldable pub pick : ℕ → List Bytes → Shown
  pick random answers =
      let pos = if ltb 1 (length answers) then random % length answers else 0 in
      if ltb pos (length answers) then answer (get_or answers pos []) else excuse

  -- What `show_results` prints for the question that it searches.
  unfoldable pub answer_to : ℕ → Bytes → Shown
  answer_to random question = elim (da_get_index_results question) [
    | none ↦ pick random []
    | some text ↦ pick random (split_parts text answer_mark)
  ]

  -- `show_results`.
  unfoldable pub show_results : ℕ → ℕ → Map ℕ Bytes → Shown
  show_results random query_length da_vec = elim (asked query_length da_vec) [
    | none ↦ nothing
    | some question ↦ answer_to random question
  ]
