-- ===== src/Dialogue/Whole.antt =====
-- A query to an index that `MakeIndex` made, from its text to the answer.
use dlg_service.Prelude.{
  ℕ, zero, suc, Bool-cases, ◌≤◌, ◌<◌, ◌≡◌, refl, ap, ◌∙◌, Option, some, List, [], ◌∷◌, map, true,
  false, ltb, ◌==◌, arith, Bytes, length, get_or, All, All-append, replicate, Map, ◌⊎◌, inl, inr,
}
use dlg_service.Text.Split.{IsPlain}
use dlg_service.Index.Types.{c_str}
use dlg_service.Index.CommonIndex.{CommonIndex, load, save}
use dlg_service.Index.Make.{concat, make_index}
use dlg_service.Index.Make.Answers.{documents}
use dlg_service.EditDist.{Cells, calculate, edit_sort}
use dlg_service.Search.{
  int_max, hits, normalize, segment_query, graph_segment, get_union_results, get_dlg_result,
}
use dlg_service.Search.Query.{matching, count, get_union_results-matching}
use dlg_service.Dialogue.{Shown, nothing, distance, asked, answer_to, show_results}
use dlg_service.EditDist.Groups.{is_in}
use dlg_service.Dialogue.Closest.{IsClosest, Sought, asked-Sought}
use dlg_service.Dialogue.Outcome.{
  asking, askings, Outcome, doc_search, doc_get_index_results, outcome_of, index_outcome,
}

nonzero : (n : ℕ) → 0 < n → (n == 0) ≡ false
nonzero n h = ground arith

not_short : (n : ℕ) → 2 ≤ n → ltb n 2 ≡ false
not_short n h = ground arith

not_long : (n : ℕ) → n ≤ 100 → ltb 100 n ≡ false
not_long n h = ground arith

askings-map : (n : ℕ) (ds : List Bytes) → 0 < n → askings n ds ≡ some (map (asking n) ds)
unfolding askings
askings-map n [] h = refl
askings-map n (d ∷ ds) h = rw (nonzero n h, askings-map n ds h) refl

All-matching :
    (P : Bytes → Type 0) (w : Bytes) (docs : List (List Bytes))
    → All (λ ws. P (c_str (concat ws))) docs
    → All P (matching w docs)
unfolding matching
All-matching P w [] a = tt
All-matching P w (ws ∷ docs) a =
    All-append P (replicate (count w ws) (c_str (concat ws))) (matching w docs)
      (copies (count w ws)) (All-matching P w docs a.1)
  where
    copies : (n : ℕ) → All P (replicate n (c_str (concat ws)))
    copies zero = tt
    copies (suc n) = (a.0, copies n)

module _ {ℓ} {W : Type ℓ} (to_wide : Bytes → Bytes) (graph graph_index : Bytes → List Bytes)
    (ix : CommonIndex W) (black stop : List Bytes) (hash_syn : Map Bytes (List Bytes)) where
  -- `DOC_Search` hands over what `GetUnionResults` finds.
  doc_search-get_union_results :
      (dest : Bytes) (ws found : List Bytes)
      → 2 ≤ length dest
      → length dest ≤ 100
      → hits black dest ≡ false
      → graph_segment graph_index stop (normalize to_wide (segment_query graph) hash_syn dest).0
        ≡ ws
      → get_union_results ix ws ≡ some found
      → doc_search to_wide graph graph_index ix black stop hash_syn dest ≡ found
  unfolding doc_search get_dlg_result
  doc_search-get_union_results dest ws [] a b h e u =
      rw (not_short (length dest) a, not_long (length dest) b, h, e, u, doc_search, get_dlg_result)
        refl
  doc_search-get_union_results dest ws (t ∷ found) a b h e u =
      rw (not_short (length dest) a, not_long (length dest) b, h, e, u, doc_search, get_dlg_result)
        refl

-- What `IndexOutcome` shows of the questions found: nothing where all are further than 5 from the query,
-- and else the answer to a closest one.
abbrev pub IsShown :
    (segment : Bytes → List Bytes) (raw : Cells) (answer : Bytes → Shown) (query : Bytes)
    → List Bytes
    → Shown
    → Type 0
IsShown segment raw answer query found shown =
    ((shown ≡ nothing) × ((c : Bytes) → is_in c found ≡ true → 5 < calculate segment raw query c))
    ⊎ ((q : Bytes) × (shown ≡ answer q)
        × (calculate segment raw query q ≤ 5)
        × IsClosest segment raw query (length query) found q)

module _ (segment : Bytes → List Bytes) (raw : Cells) (exact_match : Bytes → Option ℕ)
    (search_buf : Bytes) (random : ℕ) where
  show_results-Sought :
      (query : Bytes) (found : List Bytes) (da_vec : Map ℕ Bytes)
      → Sought segment raw query (length query) found (asked (length query) da_vec)
      → IsShown segment raw
          (answer_to segment exact_match search_buf random)
          query
          found
          (show_results segment exact_match search_buf random (length query) da_vec)
  unfolding show_results
  show_results-Sought query found da_vec (inl (e, far)) = inl (rw (e, show_results) refl, far)
  show_results-Sought query found da_vec (inr (q, e, near, closest)) =
      inr (q, rw (e, show_results) refl, near, closest)

-- A query that has words comes from two bytes at least.
length-segment_query :
    (graph : Bytes → List Bytes) (query : Bytes)
    → 2 ≤ length (concat (segment_query graph query))
    → 2 ≤ length query
unfolding segment_query concat
length-segment_query graph query h = elim (Bool-cases (ltb (length query) 2)) [
  | inl short ↦
      let empty : segment_query graph query ≡ [] = rw (short, segment_query) refl in
      absurd (omega (arith, h, ap (λ l. length (concat l)) empty))
  | inr long ↦ ground arith
]

has_words : (ws : List Bytes) → 2 ≤ length (concat ws) → ltb (length ws) 1 ≡ false
unfolding concat
has_words [] h = absurd (omega arith)
has_words (w ∷ ws) h = some_words (length ws)
  where
    some_words : (n : ℕ) → ltb (suc n) 1 ≡ false
    some_words n = ground arith

module _ {ℓ} {W : Type ℓ} (to_wide : Bytes → Bytes) (graph graph_index segment : Bytes → List Bytes)
    (zero_weight : W) (black stop : List Bytes) (hash_syn : Map Bytes (List Bytes)) (raw : Cells)
    (exact_match : Bytes → Option ℕ) (search_buf : Bytes) (random : ℕ) (lines : List Bytes) where
  -- An index is made from lines, saved and loaded: the load succeeds. For a query whose words, put together,
  -- have 2 to 100 bytes and hit no entry of the black list, and give at least one word that is no stop
  -- word, each with fewer than INT_MAX occurrences, where the documents' texts are non-empty and without
  -- `#` and their lengths less than 10000 from the query's: `IndexOutcome` divides by no zero. The
  -- questions that it finds are the texts of the documents with one certain word of the query, one that
  -- no other word has fewer occurrences than; each is printed with its line. If all are further than 5
  -- from the query, no answer is shown, and else the answer to one of them that no other is closer to the
  -- query than, and at the same distance none is closer in length.
  pub index_outcome-IsShown :
      (query p : Bytes) (parts : List Bytes)
      → 2 ≤ length (concat (segment_query graph query))
      → length (concat (segment_query graph query)) ≤ 100
      → hits black (concat (segment_query graph query)) ≡ false
      → graph_segment graph_index stop
          (normalize to_wide (segment_query graph) hash_syn (concat (segment_query graph query))).0
        ≡ p ∷ parts
      → All (λ w. length (matching (c_str w) (documents segment lines)) < int_max) (p ∷ parts)
      → All (λ ws. IsPlain b'#' (b'#' ∷ b'#' ∷ []) (c_str (concat ws))) (documents segment lines)
      → All (λ ws. distance (length query) (c_str (concat ws)) < 10000) (documents segment lines)
      → (loaded : CommonIndex W) × (i : ℕ) × (o : Outcome) × (load
            (save (make_index segment zero_weight lines))
          ≡ some loaded)
        × (index_outcome to_wide graph graph_index loaded black stop hash_syn raw exact_match
              search_buf random query
            ≡ some o)
        × (i < length (p ∷ parts))
        × (o.texts ≡ matching (c_str (get_or (p ∷ parts) i [])) (documents segment lines))
        × All
            (λ w.
              length (matching (c_str (get_or (p ∷ parts) i [])) (documents segment lines))
              ≤ length (matching (c_str w) (documents segment lines)))
            (p ∷ parts)
        × (o.lines ≡ map (asking (length query)) o.texts)
        × IsShown
            (segment_query graph)
            raw
            (answer_to (segment_query graph) exact_match search_buf random)
            query
            o.texts
            o.shown
  unfolding index_outcome outcome_of doc_get_index_results
  index_outcome-IsShown query p parts a b h e small plain close =
      let (loaded, i, l, inside, u, fewest) =
        get_union_results-matching segment zero_weight lines p parts small in
      let dest = concat (segment_query graph query) in
      let found = matching (c_str (get_or (p ∷ parts) i [])) (documents segment lines) in
      let d =
        doc_search-get_union_results to_wide graph graph_index loaded black stop hash_syn dest
          (p ∷ parts) found a b h e u in
      let sorted = (edit_sort (segment_query graph) raw query found [] []).cadidate_sort in
      let g : doc_get_index_results to_wide graph graph_index loaded black stop hash_syn query
          ≡ found =
        rw (has_words (segment_query graph query) a, d, doc_get_index_results) refl in
      let sought =
        asked-Sought (segment_query graph) raw query found (length query)
          (All-matching (IsPlain b'#' (b'#' ∷ b'#' ∷ [])) (c_str (get_or (p ∷ parts) i []))
            (documents segment lines) plain)
          (All-matching (λ c. distance (length query) c < 10000) (c_str (get_or (p ∷ parts) i []))
            (documents segment lines) close) in
      let lines_of =
        askings-map (length query) found (omega (arith, length-segment_query graph query a)) in
      (
        loaded,
        i,
        record {
          texts = found;
          lines = map (asking (length query)) found;
          shown =
              show_results (segment_query graph) exact_match search_buf random (length query)
                sorted;
        },
        l,
        ap
              (outcome_of to_wide graph graph_index loaded black stop hash_syn raw exact_match
                search_buf random query)
              g
            ∙ rw (lines_of, outcome_of) refl,
        inside,
        refl,
        fewest,
        refl,
        show_results-Sought (segment_query graph) raw exact_match search_buf random query found
            sorted sought,
      )
