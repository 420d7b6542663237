-- ===== src/Index/Make/Answers.antt =====
-- The index made from lines, saved and loaded, answers from the words of those lines.
use dlg_service.Prelude.{
  ℕ, suc, ◌≡◌, refl, ap, ◌∙◌, none, some, List, [], ◌∷◌, ◌++◌, map, arith, Bytes, Bool-cases, inl,
  inr, ltb, if◌then◌else◌, length, length-append, lookup, bytes_ord, subst,
}
use mathlib.Core.List.{append_assoc, append-nil}
use dlg_service.Index.Types.{Inv, Doc, c_str}
use dlg_service.Index.CommonIndex.{CommonIndex, add, add_doc, clear, save, load, get_inv}
use dlg_service.Index.CommonIndex.Saved.{IsBuilt, load-save}
use dlg_service.Index.CommonIndex.Built.{
  posted, grow, grow-append, add-IsBuilt, clear-IsBuilt, lookup-add, Texts, add-Texts,
}
use dlg_service.Index.Make.{dest_string, concat, word_inv, make_line, make_lines, make_index}

module _ (segment : Bytes → List Bytes) where
  -- The words of the lines that become documents, in order: those with at least two bytes of
  -- question and at least one word.
  unfoldable pub documents : List Bytes → List (List Bytes)
  documents [] = []
  documents (line ∷ lines) =
      let rest = documents lines in
      if ltb (length (dest_string line)) 2
      then rest
      else if ltb 0 (length (segment (dest_string line)))
      then segment (dest_string line) ∷ rest
      else rest

-- The postings of a word in documents numbered from `i` on: one for each occurrence, in order.
unfoldable pub postings : Bytes → ℕ → List (List Bytes) → List Inv
postings w i [] = []
postings w i (ws ∷ docs) = posted w ws (map word_inv ws) i ++ postings w (suc i) docs

module _ {ℓ} {W : Type ℓ} (segment : Bytes → List Bytes) (zero_weight : W) where
  -- what an index says of the documents added so far
  record Says (ix ix' : CommonIndex W) (ts : List Bytes) (docs : List (List Bytes)) : Type ℓ where
    built : IsBuilt ix'
    grown :
        (w : Bytes)
        → lookup w ix'.index_map
          ≡ grow (lookup w ix.index_map) (postings w (length ix.doc_vect) docs)
    texts : Texts ix'.char_vect ix'.doc_vect (ts ++ map concat docs)

  Says-start :
      (ix : CommonIndex W) (ts : List Bytes)
      → IsBuilt ix
      → Texts ix.char_vect ix.doc_vect ts
      → Says ix ix ts []
  unfolding postings grow
  Says-start ix ts b t = record { built = b; grown = λ w. refl; texts = rw append-nil t }

  length-add :
      (ks : List Bytes) (vs : List Inv) (doc : Doc W) (t : Bytes) (ix : CommonIndex W)
      → length (add ks vs doc t ix).doc_vect ≡ suc (length ix.doc_vect)
  unfolding add add_doc
  length-add ks vs doc t ix = omega (arith, length-append ix.doc_vect (_ ∷ []))

  Says-add :
      (ix ix' : CommonIndex W) (ts : List Bytes) (ws : List Bytes) (docs : List (List Bytes))
      (doc : Doc W)
      → Says (add ws (map word_inv ws) doc (concat ws) ix) ix' (ts ++ concat ws ∷ []) docs
      → Says ix ix' ts (ws ∷ docs)
  unfolding postings
  Says-add ix ix' ts ws docs doc s = record {
    built = s.built;
    grown = λ w.
        s.grown w
        ∙ ap
            (λ n.
              grow (lookup w (add ws (map word_inv ws) doc (concat ws) ix).index_map)
                (postings w n docs))
            (length-add ws (map word_inv ws) doc (concat ws) ix)
        ∙ ap (λ o. grow o (postings w (suc (length ix.doc_vect)) docs))
            (lookup-add ix ws (map word_inv ws) doc (concat ws) w)
        ∙ grow-append _ _ _;
    texts =
        subst (Texts ix'.char_vect ix'.doc_vect)
          (append_assoc ts (concat ws ∷ []) (map concat docs)) s.texts;
  }

  make_lines-Says :
      (lines : List Bytes) (ix : CommonIndex W) (ts : List Bytes)
      → IsBuilt ix
      → Texts ix.char_vect ix.doc_vect ts
      → Says ix (make_lines segment zero_weight lines ix) ts (documents segment lines)
  unfolding make_lines make_line documents
  make_lines-Says [] ix ts b t = Says-start ix ts b t
  make_lines-Says (line ∷ lines) ix ts b t = elim (Bool-cases (ltb (length (dest_string line)) 2)) [
    | inl short ↦ rw short (make_lines-Says lines ix ts b t)
    | inr long ↦ elim (Bool-cases (ltb 0 (length (segment (dest_string line))))) [
      | inl some_words ↦
          let ws = segment (dest_string line) in
          let doc : Doc W = record { word_offset = 0; weight = zero_weight } in
          rw (long, some_words)
            (Says-add ix _ ts ws (documents segment lines) doc (
              make_lines-Says lines (add ws (map word_inv ws) doc (concat ws) ix)
                (ts ++ concat ws ∷ []) (add-IsBuilt ix ws (map word_inv ws) doc (concat ws) b)
                (add-Texts ix ws (map word_inv ws) doc (concat ws) ts t)))
      | inr no_words ↦ rw (long, no_words) (make_lines-Says lines ix ts b t)
    ]
  ]

  -- The index that `MakeIndex` makes from lines, saved and loaded again: the load succeeds; for every
  -- word `GetInv` gives one posting for each of its occurrences in the documents, in the order of the
  -- documents, and NULL for a word of no document; and the i-th document's text is the i-th
  -- document's words in one.
  pub make_index-answers :
      (lines : List Bytes)
      → (loaded : CommonIndex W) × (load (save (make_index segment zero_weight lines))
          ≡ some loaded)
        × ((w : Bytes)
            → get_inv loaded w ≡ grow none (postings (c_str w) 0 (documents segment lines)))
        × Texts loaded.char_buf loaded.doc_buf (map concat (documents segment lines))
  unfolding make_index
  make_index-answers lines =
      let says = make_lines-Says lines clear [] (clear-IsBuilt W) (unfold clear in tt) in
      let (loaded, e, chars, docs, finds) = load-save _ says.built in
      (
        loaded,
        e,
        λ w. finds w ∙ says.grown (c_str w) ∙ (unfold clear lookup in refl),
        rw (chars, docs) says.texts,
      )
