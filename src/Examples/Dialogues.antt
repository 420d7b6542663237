-- ===== src/Examples/Dialogues.antt =====
-- The theorem on IndexOutcome at a concrete query.
use dlg_service.Prelude.{
  ℕ, ◌≤◌, ◌<◌, ◌≡◌, refl, none, some, List, [], ◌∷◌, map, Bytes, All, length, get_or, arith,
  find_from, find, starts_with, bytes_eq, lookup, bytes_ord,
}
use dlg_service.Text.{string_trim, string_split, trim_left, trim_right, split_loop}
use dlg_service.Text.Split.{IsPlain}
use dlg_service.EditDist.{Cells}
use dlg_service.Index.Types.{c_str}
use dlg_service.Index.CommonIndex.{CommonIndex, save, load}
use dlg_service.Index.Make.{make_index, concat, dest_string}
use dlg_service.Index.Make.Answers.{documents}
use dlg_service.Search.{
  int_max, hits, normalize, normalize_parts, segment_query, graph_segment, without_stopwords,
}
use dlg_service.Search.Query.{matching, count}
use dlg_service.Dialogue.{distance, answer_to}
use dlg_service.Dialogue.Outcome.{Outcome, asking, index_outcome}
use dlg_service.Dialogue.Whole.{IsShown, index_outcome-IsShown}

abbrev letters : Bytes → List Bytes
letters s = map (λ c. c ∷ []) s

abbrev raw : Cells
raw = λ i j. 7

-- two lines, the first with an answer behind its mark
abbrev two_lines : List Bytes
two_lines = (65 ∷ 66 ∷ 35 ∷ 35 ∷ 95 ∷ 35 ∷ 35 ∷ 67 ∷ []) ∷ (66 ∷ 66 ∷ []) ∷ []

abbrev two_words : List Bytes
two_words = (65 ∷ []) ∷ (66 ∷ []) ∷ []

abbrev query : Bytes
query = 65 ∷ 66 ∷ []

query-letters : segment_query letters query ≡ two_words
unfolding segment_query
query-letters = refl

query-words :
    graph_segment letters []
      (normalize (λ s. s) (segment_query letters) [] (concat (segment_query letters query))).0
    ≡ two_words
unfolding graph_segment normalize normalize_parts segment_query without_stopwords concat c_str
    string_trim trim_left trim_right lookup
query-words = refl

few : All (λ w. length (matching (c_str w) (documents letters two_lines)) < int_max) two_words
unfolding matching documents dest_string string_trim trim_left trim_right string_split split_loop
    find_from find starts_with c_str count bytes_eq concat
few = (omega arith, (omega arith, tt))

documents-IsPlain :
    All (λ ws. IsPlain b'#' (b'#' ∷ b'#' ∷ []) (c_str (concat ws))) (documents letters two_lines)
unfolding documents dest_string string_trim trim_left trim_right string_split split_loop find_from
    find starts_with c_str concat
documents-IsPlain = (
  ((λ e. cc), ((λ e. absurd (omega arith)), ((λ e. absurd (omega arith)), tt))),
  (((λ e. cc), ((λ e. absurd (omega arith)), ((λ e. absurd (omega arith)), tt))), tt),
)

documents_close : All (λ ws. distance 2 (c_str (concat ws)) < 10000) (documents letters two_lines)
unfolding documents dest_string string_trim trim_left trim_right string_split split_loop find_from
    find starts_with c_str concat distance
documents_close = (omega arith, (omega arith, tt))

index_outcome-IsShown_example :
    (loaded : CommonIndex ℕ) × (i : ℕ) × (o : Outcome) × (load
        (save (make_index letters 0 two_lines))
      ≡ some loaded)
    × (index_outcome (λ s. s) letters letters loaded [] [] [] raw (λ s. none) [] 3 query ≡ some o)
    × (i < 2)
    × (o.texts ≡ matching (c_str (get_or two_words i [])) (documents letters two_lines))
    × All
        (λ w.
          length (matching (c_str (get_or two_words i [])) (documents letters two_lines))
          ≤ length (matching (c_str w) (documents letters two_lines)))
        two_words
    × (o.lines ≡ map (asking 2) o.texts)
    × IsShown
        (segment_query letters)
        raw
        (answer_to (segment_query letters) (λ s. none) [] 3)
        query
        o.texts
        o.shown
index_outcome-IsShown_example =
    index_outcome-IsShown (λ s. s) letters letters letters 0 [] [] [] raw (λ s. none) [] 3 two_lines
      query (65 ∷ []) ((66 ∷ []) ∷ []) (unfold segment_query concat in omega arith)
      (unfold segment_query concat in omega arith) (unfold hits in refl) query-words few
      documents-IsPlain documents_close
