-- ===== src/Search.antt =====
-- The queries of `CDlgIndex` in src/index/inv_index/doc_index.cpp: from the words of a query to
-- their posting lists, the shortest of these, its documents and their texts. A posting list is the
-- pointer and the count of `InvResult`; NULL with its count 0 is the empty list.
pub mod Binary
pub mod Shortest
pub mod Query
use dlg_service.Prelude.{
  ℕ, zero, suc, ◌+◌, ◌-◌, ◌/◌, Option, none, some, List, [], ◌∷◌, ◌++◌, ◌==◌, ltb, if◌then◌else◌,
  Bytes, length, get_or, set, replicate, has, find, ◌||◌, Bool, true, false, bytes_eq, Map, lookup,
  bytes_ord,
}
use dlg_service.Text.{string_trim}
use dlg_service.Index.Types.{Inv, Doc, c_str}
use dlg_service.Index.CommonIndex.{CommonIndex, get_inv, get_doc, get_doc_text}
use dlg_service.Index.Make.{concat}

abbrev pub no_inv : Inv
no_inv = record { occ = 0; occ_len = 0; occ_filed = 0; doc_id = 0 }

abbrev pub int_max : ℕ
int_max = 2147483647

-- `BinarySearch`: the loop, on left and right + 1; `none` is -1.
unfoldable pub binary_search_loop : ℕ → ℕ → List Inv → ℕ → ℕ → Option ℕ
binary_search_loop zero doc_id inv left hi = none
binary_search_loop (suc fuel) doc_id inv left hi =
    let mid = left + (hi - 1 - left) / 2 in
    let above = binary_search_loop fuel doc_id inv (mid + 1) hi in
    let below = binary_search_loop fuel doc_id inv left mid in
    if ltb left hi
    then (if (get_or inv mid no_inv).doc_id == doc_id
        then some mid
        else if ltb (get_or inv mid no_inv).doc_id doc_id
        then above
        else below)
    else none

unfoldable pub binary_search : ℕ → List Inv → ℕ → ℕ → Option ℕ
binary_search doc_id inv offset max_pos =
    binary_search_loop (max_pos - offset) doc_id inv offset max_pos

-- `InvNumInfo`.
pub record InvNumInfo : Type 0 where
  pub min_inv_size : ℕ
  pub max_inv_size : ℕ
  pub min_index : ℕ
  pub max_index : ℕ

abbrev pub no_info : InvNumInfo
no_info = record { min_inv_size = int_max; max_inv_size = 0; min_index = 0; max_index = 0 }

-- What a round of `GetInvResults` does to `num_info` for the list of number `i`.
unfoldable pub measure : ℕ → List Inv → InvNumInfo → InvNumInfo
measure i inv info =
    let top =
      if ltb info.max_inv_size (length inv)
      then record info { max_inv_size = length inv; max_index = i }
      else info in
    if ltb (length inv) top.min_inv_size
    then record top { min_inv_size = length inv; min_index = i }
    else top

-- `GetInv` into an `InvResult`.
abbrev pub inv_result : Option (List Inv) → List Inv
inv_result none = []
inv_result (some l) = l

-- `SearchDoc` from the list of number `i` on: where the next searches begin, and `inv_vector`. It
-- always returns 0, since its `return -1` is commented out.
unfoldable pub search_doc :
    ℕ → List (List Inv) → ℕ → ℕ → List ℕ → List (Option Inv) → List ℕ × List (Option Inv)
search_doc doc_id [] min_index i index_begins inv_vector = (index_begins, inv_vector)
search_doc doc_id (inv ∷ results) min_index i index_begins inv_vector =
    if i == min_index
    then search_doc doc_id results min_index (suc i) index_begins inv_vector
    else elim (binary_search doc_id inv (get_or index_begins i 0) (length inv)) [
      | some doc_index ↦
          search_doc doc_id results min_index (suc i) (set index_begins i (doc_index + 1))
            (set inv_vector i (some (get_or inv doc_index no_inv)))
      | none ↦ search_doc doc_id results min_index (suc i) index_begins inv_vector
    ]

-- `docs` and `doc_inv_vector`.
pub record Found {ℓ} (W : Type ℓ) : Type ℓ where
  pub docs : List (Doc W)
  pub doc_inv_vector : List (List (Option Inv))

abbrev pub found_docs {ℓ} : {W : Type ℓ} → Option (Found W) → Option (List (Doc W))
found_docs none = none
found_docs (some f) = some f.docs

-- `DlgResult`.
pub record DlgResult : Type 0 where
  pub query : Bytes
  -- `data`
  pub texts : List Bytes

-- The loop over `m_black`: whether the query contains an entry.
unfoldable pub hits : List Bytes → Bytes → Bool
hits [] query = false
hits (b ∷ bs) query = has (find query b) || hits bs query

-- The words that are not stop words.
unfoldable pub without_stopwords : List Bytes → List Bytes → List Bytes
without_stopwords stop [] = []
without_stopwords stop (w ∷ ws) =
    let rest = without_stopwords stop ws in if is_stopword stop w then rest else w ∷ rest
  where
    is_stopword : List Bytes → Bytes → Bool
    is_stopword [] w = false
    is_stopword (s ∷ ss) w = bytes_eq s w || is_stopword ss w

module _ {ℓ} {W : Type ℓ} (ix : CommonIndex W) where
  -- `GetInvResults` from the word of number `i` on.
  unfoldable pub get_inv_results :
      ℕ → List Bytes → InvNumInfo → List (List Inv) → InvNumInfo × List (List Inv)
  get_inv_results i [] info results = (info, results)
  get_inv_results i (word ∷ parts) info results =
      let inv = inv_result (get_inv ix word) in
      get_inv_results (suc i) parts (measure i inv info) (results ++ inv ∷ [])

  -- The loop of `UnionInvResult` over the chosen list; `none` where a document number is out of
  -- range, which the code does not test.
  unfoldable pub union_loop : List (List Inv) → ℕ → List Inv → List ℕ → Found W → Option (Found W)
  union_loop results min_index [] index_begins found = some found
  union_loop results min_index (inv ∷ todo) index_begins found =
      let (begins, inv_vector) =
        search_doc inv.doc_id results min_index 0 index_begins (replicate (length results) none) in
      elim (get_doc ix inv) [
        | none ↦ none
        | some doc ↦ union_loop results min_index todo begins (record {
          docs = found.docs ++ doc ∷ [];
          doc_inv_vector = found.doc_inv_vector ++ set inv_vector min_index (some inv) ∷ [];
        })
      ]

  unfoldable pub union_inv_result : List (List Inv) → InvNumInfo → Option (Found W)
  union_inv_result results info =
      union_loop results info.min_index (get_or results info.min_index [])
        (replicate (length results) 0) (record { docs = []; doc_inv_vector = [] })

  -- `GetUnionResults` of the words: the documents; no word, no document.
  unfoldable pub union_docs : List Bytes → Option (List (Doc W))
  union_docs [] = some []
  union_docs (p ∷ parts) =
      let (info, results) = get_inv_results 0 (p ∷ parts) no_info [] in
      found_docs (union_inv_result results info)

  -- The texts of documents.
  unfoldable pub doc_texts : List (Doc W) → List Bytes
  doc_texts [] = []
  doc_texts (d ∷ ds) = get_doc_text ix d ∷ doc_texts ds

  -- `GetUnionResults`: the texts of the documents. The query's words are `parts`.
  unfoldable pub get_union_results : List Bytes → Option (List Bytes)
  get_union_results parts = elim (union_docs parts) [ none ↦ none | some ds ↦ some (doc_texts ds) ]

-- `Normalize_` of src/index/inv_index/normalize.cpp. `to_wide` is `dbc2gchar`, `segment` is
-- `SEGMENT_1::Segment_`. The synonyms of a word are a list in `hash_syn`.
unfoldable pub normalize_parts : Map Bytes (List Bytes) → List Bytes → Bytes × Bytes
normalize_parts hash_syn [] = ([], [])
normalize_parts hash_syn (w ∷ ws) =
    let rest = normalize_parts hash_syn ws in (w ++ rest.0, synonym (lookup w hash_syn) ++ rest.1)
  where
    synonym : Option (List Bytes) → Bytes
    synonym none = w
    synonym (some []) = w
    synonym (some (s ∷ ss)) = s

module _ (to_wide : Bytes → Bytes) (segment : Bytes → List Bytes) where
  unfoldable pub normalize : Map Bytes (List Bytes) → Bytes → Bytes × Bytes
  normalize hash_syn line =
      normalize_parts hash_syn (segment (c_str (to_wide (string_trim (c_str line)))))

-- `Segment_` of src/segment/Segment.cpp, from the query's length on: nothing for one byte, nothing
-- and an error for more than MAXLEN_. `graph` is `graphSegment` between the conversions.
unfoldable pub segment_query : (Bytes → List Bytes) → Bytes → List Bytes
segment_query graph query =
    if ltb (length query) 2 then [] else if ltb 20480 (length query) then [] else graph query

-- `GraphSegment`: the words of a query without the stop words.
unfoldable pub graph_segment : (Bytes → List Bytes) → List Bytes → Bytes → List Bytes
graph_segment graph stop query =
    if ltb (length query) 2 then [] else without_stopwords stop (graph query)

module _ {ℓ} {W : Type ℓ} (to_wide : Bytes → Bytes) (graph graph_index : Bytes → List Bytes) where
  -- `GetDlgResult`; `none` is -1.
  unfoldable pub get_dlg_result :
      CommonIndex W → List Bytes → List Bytes → Map Bytes (List Bytes) → Bytes → Option DlgResult
  get_dlg_result ix black stop hash_syn query =
      let seg_norm = (normalize to_wide (segment_query graph) hash_syn query).0 in
      if ltb (length query) 2
      then none
      else if ltb 100 (length query)
      then none
      else if hits black query
      then none
      else answer seg_norm (get_union_results ix (graph_segment graph_index stop seg_norm))
    where
      answer : Bytes → Option (List Bytes) → Option DlgResult
      answer seg_norm none = none
      answer seg_norm (some []) = none
      answer seg_norm (some (t ∷ ts)) = some (record { query = seg_norm; texts = t ∷ ts })
