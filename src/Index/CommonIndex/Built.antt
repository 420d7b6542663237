-- ===== src/Index/CommonIndex/Built.antt =====
-- What `Add` does to the map of posting lists and to the documents.
use dlg_service.Prelude.{
  ℕ, ◌≡◌, refl, sym, ap, ◌∙◌, Option, none, some, List, [], ◌∷◌, ◌++◌, arith, Bytes, Bool-cases,
  inl, inr, if◌then◌else◌, length, subst, lookup, IsSorted, bytes_ord, upsert-IsSorted,
  lookup-upsert_self, lookup-upsert_ne, bytes_eq, bytes_eq→eq, bytes_eq_refl, strcmp-eq,
}
use mathlib.Core.List.{append_assoc, append-nil}
use dlg_service.Index.Types.{Inv, Doc, c_str, c_str_idem, HoldsAt, HoldsAt-append, HoldsAt-end}
use dlg_service.Index.CommonIndex.{
  CommonIndex, Postings, push, push_inv, push_each, add, add_doc, clear,
}
use dlg_service.Index.CommonIndex.Lookup.{AreCStrings}
use dlg_service.Index.CommonIndex.Saved.{IsBuilt, upsert-AreCStrings}

-- the postings that a call of `Add` makes for a word
unfoldable pub posted : Bytes → List Bytes → List Inv → ℕ → List Inv
posted w [] vs d = []
posted w (k ∷ ks) [] d = []
posted w (k ∷ ks) (v ∷ vs) d =
    let rest = posted w ks vs d in
    if bytes_eq (c_str k) w then record v { doc_id = d } ∷ rest else rest

-- a posting list, if any, with more postings behind it
unfoldable pub grow : Option (List Inv) → List Inv → Option (List Inv)
grow old [] = old
grow none (v ∷ vs) = some (v ∷ vs)
grow (some l) (v ∷ vs) = some (l ++ (v ∷ vs))

pub grow-append :
    (old : Option (List Inv)) (us vs : List Inv) → grow (grow old us) vs ≡ grow old (us ++ vs)
unfolding grow
grow-append old [] vs = refl
grow-append none (u ∷ us) [] = ap (λ l. some (u ∷ l)) (sym (append-nil us))
grow-append none (u ∷ us) (v ∷ vs) = refl
grow-append (some l) (u ∷ us) [] = ap (λ k. some (l ++ (u ∷ k))) (sym (append-nil us))
grow-append (some l) (u ∷ us) (v ∷ vs) = ap some (append_assoc l (u ∷ us) (v ∷ vs))

push_inv-grow : (v : Inv) (old : Option (List Inv)) → some (push_inv v old) ≡ grow old (v ∷ [])
unfolding grow
push_inv-grow v none = refl
push_inv-grow v (some l) = refl

lookup-push :
    (w k : Bytes) (v : Inv) (m : Postings)
    → lookup w (push k v m) ≡ grow (lookup w m) (if bytes_eq (c_str k) w then v ∷ [] else [])
lookup-push w k v m = elim (Bool-cases (bytes_eq (c_str k) w)) [
  | inl e ↦
      rw (e, bytes_eq→eq (c_str k) w e, lookup-upsert_self w (push_inv v) m)
        (push_inv-grow v (lookup w m))
  | inr n ↦ rw n (
      unfold grow in
      lookup-upsert_ne w (c_str k) (push_inv v) m
        (λ h. ground (arith, strcmp-eq w (c_str k) h, bytes_eq_refl w)))
]

pub lookup-push_each :
    (w : Bytes) (ks : List Bytes) (vs : List Inv) (d : ℕ) (m : Postings)
    → lookup w (push_each ks vs d m) ≡ grow (lookup w m) (posted w ks vs d)
unfolding push_each posted
lookup-push_each w [] vs d m = unfold grow in refl
lookup-push_each w (k ∷ ks) [] d m = unfold grow in refl
lookup-push_each w (k ∷ ks) (v ∷ vs) d m =
    lookup-push_each w ks vs d (push k (record v { doc_id = d }) m)
    ∙ ap (λ o. grow o (posted w ks vs d)) (lookup-push w k (record v { doc_id = d }) m)
    ∙ joined
  where
    joined :
        grow
          (grow (lookup w m) (if bytes_eq (c_str k) w then record v { doc_id = d } ∷ [] else []))
          (posted w ks vs d)
        ≡ grow (lookup w m) (
            if bytes_eq (c_str k) w
            then record v { doc_id = d } ∷ posted w ks vs d
            else posted w ks vs d)
    joined = elim (Bool-cases (bytes_eq (c_str k) w)) [
      | inl e ↦ rw e (grow-append (lookup w m) (record v { doc_id = d } ∷ []) (posted w ks vs d))
      | inr n ↦ rw n (unfold grow in refl)
    ]

-- Pushing keeps the map sorted and its keys C strings.
push_each-IsSorted :
    (ks : List Bytes) (vs : List Inv) (d : ℕ) (m : Postings)
    → IsSorted m
    → IsSorted (push_each ks vs d m)
unfolding push_each
push_each-IsSorted [] vs d m a = a
push_each-IsSorted (k ∷ ks) [] d m a = a
push_each-IsSorted (k ∷ ks) (v ∷ vs) d m a =
    push_each-IsSorted ks vs d _
      (upsert-IsSorted (c_str k) (push_inv (record v { doc_id = d })) m a)

push_each-AreCStrings :
    (ks : List Bytes) (vs : List Inv) (d : ℕ) (m : Postings)
    → AreCStrings m
    → AreCStrings (push_each ks vs d m)
unfolding push_each
push_each-AreCStrings [] vs d m a = a
push_each-AreCStrings (k ∷ ks) [] d m a = a
push_each-AreCStrings (k ∷ ks) (v ∷ vs) d m a =
    push_each-AreCStrings ks vs d _
      (upsert-AreCStrings (c_str k) (push_inv (record v { doc_id = d })) m (c_str_idem k) a)

pub clear-IsBuilt {ℓ} : (W : Type ℓ) → IsBuilt (clear {W = W})
unfolding clear
clear-IsBuilt W = record { fresh_index = refl; fresh_invs = refl; sorted = tt; strings = tt }

module _ {ℓ} {W : Type ℓ} (ix : CommonIndex W) (keys : List Bytes) (vs : List Inv) (doc : Doc W)
    (text : Bytes) where
  -- `Add` keeps what the saving relies on.
  pub add-IsBuilt : IsBuilt ix → IsBuilt (add keys vs doc text ix)
  unfolding add add_doc
  add-IsBuilt b = record {
    fresh_index = b.fresh_index;
    fresh_invs = b.fresh_invs;
    sorted = push_each-IsSorted keys vs (length ix.doc_vect) ix.index_map b.sorted;
    strings = push_each-AreCStrings keys vs (length ix.doc_vect) ix.index_map b.strings;
  }

  pub lookup-add :
      (w : Bytes)
      → lookup w (add keys vs doc text ix).index_map
        ≡ grow (lookup w ix.index_map) (posted w keys vs (length ix.doc_vect))
  unfolding add add_doc
  lookup-add w = lookup-push_each w keys vs (length ix.doc_vect) ix.index_map

-- documents whose texts stand in the character buffer, in order
abbrev pub Texts {ℓ} : {W : Type ℓ} → Bytes → List (Doc W) → List Bytes → Type 0
Texts chars [] [] = Unit
Texts chars (d ∷ ds) (t ∷ ts) = HoldsAt chars d.word_offset (c_str t ++ 0 ∷ []) × Texts chars ds ts
Texts chars _ _ = ⊥

Texts-snoc {ℓ} :
    {W : Type ℓ} (chars : Bytes) (ds : List (Doc W)) (ts : List Bytes) (d : Doc W) (t : Bytes)
    → Texts chars ds ts
    → d.word_offset ≡ length chars
    → Texts (chars ++ (c_str t ++ 0 ∷ [])) (ds ++ d ∷ []) (ts ++ t ∷ [])
Texts-snoc chars [] [] d t r e = (
  subst (λ o. HoldsAt (chars ++ (c_str t ++ 0 ∷ [])) o (c_str t ++ 0 ∷ [])) (sym e)
      (HoldsAt-end chars (c_str t ++ 0 ∷ [])),
  tt,
)
Texts-snoc chars [] (u ∷ ts) d t r e = absurd r
Texts-snoc chars (c ∷ ds) [] d t r e = absurd r
Texts-snoc chars (c ∷ ds) (u ∷ ts) d t r e =
    (HoldsAt-append chars _ _ (c_str t ++ 0 ∷ []) r.0, Texts-snoc chars ds ts d t r.1 e)

pub add-Texts {ℓ} :
    {W : Type ℓ} (ix : CommonIndex W) (keys : List Bytes) (vs : List Inv) (doc : Doc W)
    (text : Bytes) (ts : List Bytes)
    → Texts ix.char_vect ix.doc_vect ts
    → let ix' = add keys vs doc text ix in Texts ix'.char_vect ix'.doc_vect (ts ++ text ∷ [])
unfolding add add_doc
add-Texts ix keys vs doc text ts r = Texts-snoc ix.char_vect ix.doc_vect ts _ text r refl
