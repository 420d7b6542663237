-- ===== src/Search/Query.antt =====
-- Queries to an index that `MakeIndex` made and that was saved and loaded.
use dlg_service.Prelude.{
  ℕ, zero, suc, ◌+◌, ◌≤◌, ◌<◌, ◌≡◌, refl, sym, ap, ◌∙◌, subst, Option, none, some, List, [], ◌∷◌,
  ◌++◌, map, arith, Bytes, if◌then◌else◌, length, length-map, get_or, All, All-append, replicate,
  get_elem?, bytes_eq, Bool-cases, inl, inr,
}
use dlg_service.Index.Types.{Inv, Doc, c_str, word_at, word_at-HoldsAt}
use dlg_service.Index.CommonIndex.{CommonIndex, get_doc, get_doc_text, load, save}
use dlg_service.Index.CommonIndex.Built.{posted, grow, Texts}
use dlg_service.Index.Make.{concat, word_inv, make_index}
use dlg_service.Index.Make.Answers.{documents, postings, make_index-answers}
use dlg_service.Search.{int_max, inv_result, doc_texts, get_union_results}
use dlg_service.Search.Shortest.{inv_of, union_docs-shortest}

-- how often a word occurs among the words of a document
unfoldable pub count : Bytes → List Bytes → ℕ
count w [] = 0
count w (k ∷ ks) = let rest = count w ks in if bytes_eq (c_str k) w then suc rest else rest

-- The texts of the documents with a word, each as often as the word occurs in it.
unfoldable pub matching : Bytes → List (List Bytes) → List Bytes
matching w [] = []
matching w (ws ∷ docs) = replicate (count w ws) (c_str (concat ws)) ++ matching w docs

module _ (f : ℕ → Bytes) where
  posted-texts :
      (w : Bytes) (ws : List Bytes) (d : ℕ)
      → map (λ v. f v.doc_id) (posted w ws (map word_inv ws) d) ≡ replicate (count w ws) (f d)
  unfolding posted count
  posted-texts w [] d = refl
  posted-texts w (k ∷ ws) d = elim (Bool-cases (bytes_eq (c_str k) w)) [
    | inl e ↦ rw (e, posted, count) (ap (λ l. f d ∷ l) (posted-texts w ws d))
    | inr n ↦ rw (n, posted, count) (posted-texts w ws d)
  ]

  postings-texts :
      (w : Bytes) (i : ℕ) (docs : List (List Bytes))
      → ((j : ℕ) → j < length docs → f (i + j) ≡ c_str (get_or (map concat docs) j []))
      → map (λ v. f v.doc_id) (postings w i docs) ≡ matching w docs
  unfolding postings matching
  postings-texts w i [] h = refl
  postings-texts w i (ws ∷ docs) h =
      map_append (posted w ws (map word_inv ws) i) (postings w (suc i) docs)
      ∙ ap (λ l. l ++ map (λ v. f v.doc_id) (postings w (suc i) docs))
          (posted-texts w ws i
            ∙ ap (replicate (count w ws)) (ap f {x = i} (omega arith) ∙ h 0 (omega arith)))
      ∙ ap (λ l. replicate (count w ws) (c_str (concat ws)) ++ l)
          (postings-texts w (suc i) docs
            (λ j k. ap f {x = suc i + j} (omega arith) ∙ h (suc j) (omega arith)))
    where
      map_append :
          (xs ys : List Inv)
          → map (λ v. f v.doc_id) (xs ++ ys) ≡ map (λ v. f v.doc_id) xs ++ map (λ v. f v.doc_id) ys
      map_append [] ys = refl
      map_append (x ∷ xs) ys = ap (λ l. f x.doc_id ∷ l) (map_append xs ys)

posted-range :
    (n : ℕ) (w : Bytes) (ws : List Bytes) (d : ℕ)
    → d < n
    → All (λ v. v.doc_id < n) (posted w ws (map word_inv ws) d)
unfolding posted
posted-range n w [] d h = tt
posted-range n w (k ∷ ws) d h = elim (Bool-cases (bytes_eq (c_str k) w)) [
  | inl e ↦ rw (e, posted) (h, posted-range n w ws d h)
  | inr m ↦ rw (m, posted) (posted-range n w ws d h)
]

postings-range :
    (n : ℕ) (w : Bytes) (i : ℕ) (docs : List (List Bytes))
    → i + length docs ≤ n
    → All (λ v. v.doc_id < n) (postings w i docs)
unfolding postings
postings-range n w i [] h = tt
postings-range n w i (ws ∷ docs) h =
    All-append (λ v. v.doc_id < n) (posted w ws (map word_inv ws) i) (postings w (suc i) docs)
      (posted-range n w ws i (omega arith)) (postings-range n w (suc i) docs (omega arith))

module _ {ℓ} {W : Type ℓ} where
  length-Texts :
      (chars : Bytes) (ds : List (Doc W)) (ts : List Bytes)
      → Texts chars ds ts
      → length ds ≡ length ts
  length-Texts chars [] [] t = refl
  length-Texts chars [] (u ∷ ts) t = absurd t
  length-Texts chars (d ∷ ds) [] t = absurd t
  length-Texts chars (d ∷ ds) (u ∷ ts) t = ap suc (length-Texts chars ds ts t.1)

  -- the text of a document of a number
  text_at :
      (chars : Bytes) (ds : List (Doc W)) (ts : List Bytes) (i : ℕ) (d : Doc W)
      → Texts chars ds ts
      → some d ≡ get_elem? ds i
      → word_at chars d.word_offset ≡ c_str (get_or ts i [])
  text_at chars [] ts i d t e = absurd (some_none e)
    where
      some_none : some d ≡ none → ⊥
      some_none h = cc
  text_at chars (c ∷ ds) [] i d t e = absurd t
  text_at chars (c ∷ ds) (u ∷ ts) zero d t e =
      ap (λ o. word_at chars (offset c.word_offset o)) e ∙ word_at-HoldsAt chars c.word_offset u t.0
    where
      offset : ℕ → Option (Doc W) → ℕ
      offset n none = n
      offset n (some x) = x.word_offset
  text_at chars (c ∷ ds) (u ∷ ts) (suc i) d t e = text_at chars ds ts i d t.1 e

  doc_texts-postings :
      (ix : CommonIndex W) (ts : List Bytes) (ds : List (Doc W)) (invs : List Inv)
      → Texts ix.char_buf ix.doc_buf ts
      → map some ds ≡ map (get_doc ix) invs
      → doc_texts ix ds ≡ map (λ v. c_str (get_or ts v.doc_id [])) invs
  unfolding doc_texts get_doc_text get_doc
  doc_texts-postings ix ts [] [] t e = refl
  doc_texts-postings ix ts [] (v ∷ invs) t e = absurd (nil_cons _ _ e)
    where
      nil_cons : (x : Option (Doc W)) (xs : List (Option (Doc W))) → ¬ ([] ≡ x ∷ xs)
      nil_cons x xs h = cc
  doc_texts-postings ix ts (d ∷ ds) [] t e = cc
  doc_texts-postings ix ts (d ∷ ds) (v ∷ invs) t e =
      let parts : (some d ≡ get_doc ix v) × (map some ds ≡ map (get_doc ix) invs) = (cc, cc) in
      ap (λ s. s ∷ doc_texts ix ds) (text_at ix.char_buf ix.doc_buf ts v.doc_id d t parts.0)
      ∙ ap (λ l. c_str (get_or ts v.doc_id []) ∷ l) (doc_texts-postings ix ts ds invs t parts.1)

inv_result-grow : (l : List Inv) → inv_result (grow none l) ≡ l
unfolding grow
inv_result-grow [] = refl
inv_result-grow (v ∷ l) = refl

module _ {ℓ} {W : Type ℓ} (segment : Bytes → List Bytes) (zero_weight : W)
    (lines : List Bytes) where
  abbrev docs : List (List Bytes)
  docs = documents segment lines

  -- An index is made from lines, saved and loaded: the load succeeds. Of a query of at least one word,
  -- each with fewer than INT_MAX occurrences in the documents, `GetUnionResults` gives the texts of the
  -- documents with one certain word of the query, in order, a document as often as it has the word;
  -- and no word of the query has fewer occurrences.
  pub get_union_results-matching :
      (p : Bytes) (parts : List Bytes)
      → All (λ w. length (matching (c_str w) (documents segment lines)) < int_max) (p ∷ parts)
      → (loaded : CommonIndex W) × (i : ℕ) × (load (save (make_index segment zero_weight lines))
          ≡ some loaded)
        × (i < length (p ∷ parts))
        × (get_union_results loaded (p ∷ parts)
            ≡ some (matching (c_str (get_or (p ∷ parts) i [])) (documents segment lines)))
        × All
            (λ w.
              length (matching (c_str (get_or (p ∷ parts) i [])) (documents segment lines))
              ≤ length (matching (c_str w) (documents segment lines)))
            (p ∷ parts)
  unfolding get_union_results
  get_union_results-matching p parts small =
      let (loaded, e, finds, texts) = make_index-answers segment zero_weight lines in
      let inv_is : (w : Bytes) → inv_of loaded w ≡ postings (c_str w) 0 docs =
        λ w. ap inv_result (finds w) ∙ inv_result-grow (postings (c_str w) 0 docs) in
      let f : ℕ → Bytes = λ k. c_str (get_or (map concat docs) k []) in
      let said : (w : Bytes)
          → map (λ v. f v.doc_id) (postings (c_str w) 0 docs) ≡ matching (c_str w) docs =
        λ w. postings-texts f (c_str w) 0 docs (λ j h. ap f {x = 0 + j} (omega arith)) in
      let size : (w : Bytes) → length (inv_of loaded w) ≡ length (matching (c_str w) docs) = λ w.
        ap length (inv_is w)
        ∙ sym (length-map (λ v. f v.doc_id) (postings (c_str w) 0 docs))
        ∙ ap length (said w) in
      let room : (w : Bytes) → All (λ v. v.doc_id < length loaded.doc_buf) (inv_of loaded w) = λ w.
        subst (All (λ v. v.doc_id < length loaded.doc_buf)) (sym (inv_is w)) (
          postings-range (length loaded.doc_buf) (c_str w) 0 docs
            (omega (arith, length-Texts _ _ _ texts, length-map concat docs))) in
      let (ds, i, inside, u, d, least) =
        union_docs-shortest loaded p parts (All_resize loaded (p ∷ parts) size small) room in
      let w = get_or (p ∷ parts) i [] in
      (
        loaded,
        i,
        e,
        inside,
        ap (some_texts loaded) u
            ∙ ap some (
                doc_texts-postings loaded (map concat docs) ds (inv_of loaded w) texts d
                ∙ ap (map (λ v. f v.doc_id)) (inv_is w)
                ∙ said w),
        All_least loaded (p ∷ parts) w size least,
      )
    where
      some_texts : CommonIndex W → Option (List (Doc W)) → Option (List Bytes)
      some_texts ix none = none
      some_texts ix (some ds) = some (doc_texts ix ds)

      All_resize :
          (ix : CommonIndex W) (ps : List Bytes)
          → ((w : Bytes) → length (inv_of ix w) ≡ length (matching (c_str w) docs))
          → All (λ w. length (matching (c_str w) docs) < int_max) ps
          → All (λ w. length (inv_of ix w) < int_max) ps
      All_resize ix [] s a = tt
      All_resize ix (q ∷ ps) s a = (omega (arith, s q, a.0), All_resize ix ps s a.1)

      All_least :
          (ix : CommonIndex W) (ps : List Bytes) (w : Bytes)
          → ((u : Bytes) → length (inv_of ix u) ≡ length (matching (c_str u) docs))
          → All (λ u. length (inv_of ix w) ≤ length (inv_of ix u)) ps
          → All (λ u. length (matching (c_str w) docs) ≤ length (matching (c_str u) docs)) ps
      All_least ix [] w s a = tt
      All_least ix (q ∷ ps) w s a = (omega (arith, s q, s w, a.0), All_least ix ps w s a.1)
