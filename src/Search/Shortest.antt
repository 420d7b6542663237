-- ===== src/Search/Shortest.antt =====
-- `GetInvResults` and `UnionInvResult`: the documents of a query are those of its shortest posting
-- list.
use dlg_service.Prelude.{
  ℕ, zero, suc, ◌≤◌, ◌<◌, ◌≡◌, refl, sym, ap, ◌∙◌, subst, Option, none, some, List, [], ◌∷◌, ◌++◌,
  map, arith, Bytes, length, length-append, length-map, get_or, get_or-append_left,
  get_or-append_right, All, replicate, get_elem?, dec_lt, inl, inr, ◌⊎◌, set,
}
use mathlib.Core.List.{append_assoc, append-nil}
use dlg_service.Index.Types.{Inv, Doc}
use dlg_service.Index.CommonIndex.{CommonIndex, get_inv, get_doc}
use dlg_service.Search.{
  InvNumInfo, no_info, int_max, measure, inv_result, get_inv_results, union_loop, union_inv_result,
  union_docs, search_doc, Found, found_docs,
}

-- what `num_info` says of the posting lists seen so far, each shorter than INT_MAX
record IsMin (info : InvNumInfo) (results : List (List Inv)) : Type 0 where
  least : (j : ℕ) → j < length results → info.min_inv_size ≤ length (get_or results j [])
  taken :
      ((results ≡ []) × (info.min_inv_size ≡ int_max))
      ⊎ ((info.min_index < length results)
          × (info.min_inv_size ≡ length (get_or results info.min_index [])))

abbrev last_of :
    (results : List (List Inv)) (inv : List Inv)
    → get_or (results ++ inv ∷ []) (length results) [] ≡ inv
last_of results inv = get_or-append_right results (inv ∷ []) (length results) 0 [] (omega arith)

measure_cases :
    (i : ℕ) (inv : List Inv) (info : InvNumInfo)
    → ((length inv < info.min_inv_size)
        × ((measure i inv info).min_inv_size ≡ length inv)
        × ((measure i inv info).min_index ≡ i))
      ⊎ ((info.min_inv_size ≤ length inv)
          × ((measure i inv info).min_inv_size ≡ info.min_inv_size)
          × ((measure i inv info).min_index ≡ info.min_index))
unfolding measure
measure_cases i inv info = elim (dec_lt (length inv) info.min_inv_size) [
  | yes y ↦ elim (dec_lt info.max_inv_size (length inv)) [
    | yes z ↦ inl (y, ground arith, ground arith)
    | no z ↦ inl (y, ground arith, ground arith)
  ]
  | no n ↦ elim (dec_lt info.max_inv_size (length inv)) [
    | yes z ↦ inr (omega arith, ground arith, ground arith)
    | no z ↦ inr (omega arith, ground arith, ground arith)
  ]
]

measure-IsMin :
    (results : List (List Inv)) (inv : List Inv) (info : InvNumInfo)
    → length inv < int_max
    → IsMin info results
    → IsMin (measure (length results) inv info) (results ++ inv ∷ [])
measure-IsMin results inv info small m = elim (measure_cases (length results) inv info) [
  | inl (shorter, size, index) ↦ record {
    least = λ j h. elim (dec_lt j (length results)) [
      | yes old ↦
          omega
            (arith, size, m.least j old, ap length (get_or-append_left results (inv ∷ []) j [] old))
      | no new ↦
          let e : j ≡ length results = omega (arith, h, length-append results (inv ∷ [])) in
          omega (
            arith,
            size,
            ap length (get_or-append_right results (inv ∷ []) j 0 [] (omega (arith, e))),
          )
    ];
    taken = inr (
      omega (arith, index, length-append results (inv ∷ [])),
      rw index (size ∙ sym (ap length (last_of results inv))),
    );
  }
  | inr (longer, size, index) ↦ record {
    least = λ j h. elim (dec_lt j (length results)) [
      | yes old ↦
          omega
            (arith, size, m.least j old, ap length (get_or-append_left results (inv ∷ []) j [] old))
      | no new ↦
          let e : j ≡ length results = omega (arith, h, length-append results (inv ∷ [])) in
          omega (
            arith,
            size,
            ap length (get_or-append_right results (inv ∷ []) j 0 [] (omega (arith, e))),
          )
    ];
    taken = elim m.taken [
      | inl (nil, top) ↦ absurd (omega (arith, top, longer, small))
      | inr (inside, at) ↦ inr (
        omega (arith, index, length-append results (inv ∷ [])),
        rw index (
            size
            ∙ at
            ∙ sym (ap length (get_or-append_left results (inv ∷ []) info.min_index [] inside))),
      )
    ];
  }
]

module _ {ℓ} {W : Type ℓ} (ix : CommonIndex W) where
  -- the posting list of a word
  abbrev pub inv_of : Bytes → List Inv
  inv_of w = inv_result (get_inv ix w)

  get_inv_results-IsMin :
      (parts : List Bytes) (info : InvNumInfo) (results : List (List Inv))
      → All (λ w. length (inv_of w) < int_max) parts
      → IsMin info results
      → IsMin
          (get_inv_results ix (length results) parts info results).0
          (results ++ map inv_of parts)
        × ((get_inv_results ix (length results) parts info results).1 ≡ results ++ map inv_of parts)
  unfolding get_inv_results
  get_inv_results-IsMin [] info results a m =
      (subst (IsMin info) (sym (append-nil results)) m, sym (append-nil results))
  get_inv_results-IsMin (w ∷ parts) info results a m =
      let next = results ++ inv_of w ∷ [] in
      let (k, e) =
        get_inv_results-IsMin parts (measure (length results) (inv_of w) info) next a.1
          (measure-IsMin results (inv_of w) info a.0 m) in
      let n : length next ≡ suc (length results) =
        omega (arith, length-append results (inv_of w ∷ [])) in
      let assoc = append_assoc results (inv_of w ∷ []) (map inv_of parts) in
      subst
        (λ i.
          IsMin (get_inv_results ix i parts (measure (length results) (inv_of w) info) next).0
            (results ++ map inv_of (w ∷ parts))
          × ((get_inv_results ix i parts (measure (length results) (inv_of w) info) next).1
              ≡ results ++ map inv_of (w ∷ parts)))
        n (subst (IsMin _) assoc k, e ∙ assoc)

  -- The loop gives the document of every posting, in order.
  union_loop-docs :
      (results : List (List Inv)) (min_index : ℕ) (todo : List Inv) (begins : List ℕ)
      (found : Found W)
      → All (λ v. v.doc_id < length ix.doc_buf) todo
      → (f : Found W) × (union_loop ix results min_index todo begins found ≡ some f)
        × (map some f.docs ≡ map some found.docs ++ map (get_doc ix) todo)
  unfolding union_loop get_doc
  union_loop-docs results min_index [] begins found a =
      (found, refl, sym (append-nil (map some found.docs)))
  union_loop-docs results min_index (inv ∷ todo) begins found a =
      let (doc, at) = in_range ix.doc_buf inv.doc_id a.0 in
      let vect =
        search_doc inv.doc_id results min_index 0 begins (replicate (length results) none) in
      let next : Found W = record {
        docs = found.docs ++ doc ∷ [];
        doc_inv_vector = found.doc_inv_vector ++ set vect.1 min_index (some inv) ∷ [];
      } in
      let (f, e, d) = union_loop-docs results min_index todo vect.0 next a.1 in
      (
        f,
        rw (at, union_loop) e,
        d
            ∙ snoc found.docs doc _
            ∙ ap (λ o. map some found.docs ++ (o ∷ map (get_doc ix) todo)) (sym at),
      )
    where
      in_range :
          (ds : List (Doc W)) (i : ℕ) → i < length ds → (d : Doc W) × (get_elem? ds i ≡ some d)
      in_range [] i h = absurd (omega arith)
      in_range (d ∷ ds) zero h = (d, refl)
      in_range (d ∷ ds) (suc i) h = in_range ds i (omega arith)

      snoc :
          (ds : List (Doc W)) (d : Doc W) (rest : List (Option (Doc W)))
          → map some (ds ++ d ∷ []) ++ rest ≡ map some ds ++ (some d ∷ rest)
      snoc [] d rest = refl
      snoc (c ∷ ds) d rest = ap (λ l. some c ∷ l) (snoc ds d rest)

  get_or-map :
      (parts : List Bytes) (i : ℕ)
      → i < length parts
      → get_or (map inv_of parts) i [] ≡ inv_of (get_or parts i [])
  get_or-map [] i h = absurd (omega arith)
  get_or-map (p ∷ parts) zero h = refl
  get_or-map (p ∷ parts) (suc i) h = get_or-map parts i (omega arith)

  -- On an index whose posting lists of the query's words are shorter than INT_MAX and number only
  -- documents that are there: the documents of a query of at least one word are those of the
  -- posting list of one of its words, whose list is a shortest, in the order of its postings.
  pub union_docs-shortest :
      (p : Bytes) (parts : List Bytes)
      → All (λ w. length (inv_of w) < int_max) (p ∷ parts)
      → ((w : Bytes) → All (λ v. v.doc_id < length ix.doc_buf) (inv_of w))
      → (docs : List (Doc W)) × (i : ℕ) × (i < length (p ∷ parts))
        × (union_docs ix (p ∷ parts) ≡ some docs)
        × (map some docs ≡ map (get_doc ix) (inv_of (get_or (p ∷ parts) i [])))
        × All (λ w. length (inv_of (get_or (p ∷ parts) i [])) ≤ length (inv_of w)) (p ∷ parts)
  unfolding union_docs union_inv_result
  union_docs-shortest p parts small there =
      let ps = p ∷ parts in
      let start : IsMin no_info [] = record {
        least = λ j h. absurd (omega arith);
        taken = inl (refl, refl);
      } in
      let (m, e) = get_inv_results-IsMin ps no_info [] small start in
      let info = (get_inv_results ix 0 ps no_info []).0 in
      let inside : info.min_index < length ps = elim m.taken [
        | inl x ↦ absurd (omega (arith, ap length x.0))
        | inr x ↦ omega (arith, x.0, length-map inv_of ps)
      ] in
      let size : info.min_inv_size ≡ length (get_or (map inv_of ps) info.min_index []) =
        elim m.taken [ inl x ↦ absurd (omega (arith, ap length x.0)) | inr x ↦ x.1 ] in
      let pick = get_or-map ps info.min_index inside in
      let results = map inv_of ps in
      let begins = replicate (length results) 0 in
      let start_found : Found W = record { docs = []; doc_inv_vector = [] } in
      let (f, u, d) =
        union_loop-docs results info.min_index (inv_of (get_or ps info.min_index [])) begins
          start_found (there _) in
      (
        f.docs,
        info.min_index,
        inside,
        ap (λ r. found_docs (union_inv_result ix r info)) e
            ∙ ap (λ l. found_docs (union_loop ix results info.min_index l begins start_found)) pick
            ∙ ap found_docs u,
        d,
        All-from _ ps (λ j h. omega (
          arith,
          size,
          m.least j (omega (arith, h, length-map inv_of ps)),
          ap length pick,
          ap length (get_or-map ps j h),
        )),
      )
    where
      All-from :
          (P : Bytes → Type 0) (ws : List Bytes)
          → ((j : ℕ) → j < length ws → P (get_or ws j []))
          → All P ws
      All-from P [] h = tt
      All-from P (w ∷ ws) h = (h 0 (omega arith), All-from P ws (λ j k. h (suc j) (omega arith)))
