-- ===== src/Index/CommonIndex/Lookup.antt =====
-- The search in a bucket finds what the map of posting lists holds.
use Prim.Native.Nat.{Ordering}
use Prim.Native.Nat.Ordering.{lt}
use mathlib.Core.Option
use dlg_service.Prelude.{
  ℕ, zero, suc, ◌-◌, ◌<◌, ◌≡◌, ◌≢◌, refl, sym, ap, ◌∙◌, none, some, List, [], ◌∷◌, arith, Bytes,
  Bool-cases, Option-cases, inl, inr, ◌==◌, length, get_or, take, drop, subst, lookup, IsAbove,
  IsSorted, strcmp, strcmp-eq, strcmp_refl, strcmp_trans, strcmp_swap, bytes_ord, take-append,
}
use dlg_service.Index.Types.{Key, Inv, c_str, word_at-HoldsAt, HoldsAt-drop}
use dlg_service.Index.HashVector
use dlg_service.Index.HashVector.{
  HashVector, get_hash_value, hash_from, hash_step, search, no_key, word,
}
use dlg_service.Index.HashVector.Sort.{Ascends}
use dlg_service.Index.HashVector.Find.{search_present, search_absent}
use dlg_service.Index.CommonIndex.{Postings}
use dlg_service.Index.CommonIndex.Rep.{Rep, in_bucket}

-- every key is the C string that it was pushed under
abbrev pub AreCStrings : Postings → Type 0
AreCStrings [] = Unit
AreCStrings ((key, ps) ∷ es) = (c_str key ≡ key) × AreCStrings es

abbrev key_at : Postings → ℕ → Bytes
key_at [] i = []
key_at ((key, ps) ∷ es) zero = key
key_at ((key, ps) ∷ es) (suc i) = key_at es i

abbrev list_at : Postings → ℕ → List Inv
list_at [] i = []
list_at ((key, ps) ∷ es) zero = ps
list_at ((key, ps) ∷ es) (suc i) = list_at es i

-- the key at a position above a bound
IsAbove-key_at :
    (k : Bytes) (es : Postings) (i : ℕ) → IsAbove k es → i < length es → strcmp k (key_at es i) ≡ lt
IsAbove-key_at k [] i a h = absurd (omega arith)
IsAbove-key_at k ((j, ps) ∷ es) zero a h = a.0
IsAbove-key_at k ((j, ps) ∷ es) (suc i) a h =
    strcmp_trans k j (key_at es i) a.0 (IsAbove-key_at j es i a.1 (omega arith))

IsSorted-key_at :
    (es : Postings) (i j : ℕ)
    → IsSorted es
    → i < j
    → j < length es
    → strcmp (key_at es i) (key_at es j) ≡ lt
IsSorted-key_at [] i j a h l = absurd (omega arith)
IsSorted-key_at ((k, ps) ∷ es) zero zero a h l = absurd (omega arith)
IsSorted-key_at ((k, ps) ∷ es) zero (suc j) a h l = IsAbove-key_at k es j a (omega arith)
IsSorted-key_at ((k, ps) ∷ es) (suc i) zero a h l = absurd (omega arith)
IsSorted-key_at ((k, ps) ∷ []) (suc i) (suc j) a h l = absurd (omega arith)
IsSorted-key_at ((k, ps) ∷ (k', ps') ∷ es) (suc i) (suc j) a h l =
    IsSorted-key_at ((k', ps') ∷ es) i j a.1 (omega arith) (omega arith)

IsAbove-weaken : (j k : Bytes) (es : Postings) → strcmp j k ≡ lt → IsAbove k es → IsAbove j es
IsAbove-weaken j k [] h a = tt
IsAbove-weaken j k ((i, ps) ∷ es) h a = (strcmp_trans j k i h a.0, a.1)

module _ (h : ℕ) where
  in_bucket-IsAbove : (k : Bytes) (es : Postings) → IsAbove k es → IsAbove k (in_bucket h es)
  unfolding in_bucket
  in_bucket-IsAbove k [] a = tt
  in_bucket-IsAbove k ((j, ps) ∷ es) a = elim (Bool-cases (get_hash_value j == h)) [
    | inl here ↦ rw here (a.0, in_bucket-IsAbove j es a.1)
    | inr away ↦ rw away (in_bucket-IsAbove k es (IsAbove-weaken k j es a.0 a.1))
  ]

  IsAbove-IsSorted : (k : Bytes) (es : Postings) → IsAbove k es → IsSorted es
  IsAbove-IsSorted k [] a = tt
  IsAbove-IsSorted k ((j, ps) ∷ es) a = a.1

  pub in_bucket-IsSorted : (es : Postings) → IsSorted es → IsSorted (in_bucket h es)
  unfolding in_bucket
  in_bucket-IsSorted [] a = tt
  in_bucket-IsSorted ((j, ps) ∷ es) a = elim (Bool-cases (get_hash_value j == h)) [
    | inl here ↦ rw here (in_bucket-IsAbove j es a)
    | inr away ↦ rw away (in_bucket-IsSorted es (IsAbove-IsSorted j es a))
  ]

  pub in_bucket-AreCStrings : (es : Postings) → AreCStrings es → AreCStrings (in_bucket h es)
  unfolding in_bucket
  in_bucket-AreCStrings [] a = tt
  in_bucket-AreCStrings ((j, ps) ∷ es) a = elim (Bool-cases (get_hash_value j == h)) [
    | inl here ↦ rw here (a.0, in_bucket-AreCStrings es a.1)
    | inr away ↦ rw away (in_bucket-AreCStrings es a.1)
  ]

lookup-IsAbove : (w k : Bytes) (es : Postings) → strcmp w k ≡ lt → IsAbove k es → lookup w es ≡ none
unfolding lookup
lookup-IsAbove w k [] h a = refl
lookup-IsAbove w k ((j, ps) ∷ es) h a = ground (arith, strcmp_trans w k j h a.0)

-- a key is looked up in its bucket alone
lookup-in_bucket :
    (w : Bytes) (es : Postings)
    → IsSorted es
    → lookup w (in_bucket (get_hash_value w) es) ≡ lookup w es
unfolding lookup in_bucket
lookup-in_bucket w [] a = refl
lookup-in_bucket w ((j, ps) ∷ es) a = elim (Bool-cases (get_hash_value j == get_hash_value w)) [
  | inl here ↦ rw here (ground (arith, lookup-in_bucket w es (IsAbove-IsSorted 0 j es a)))
  | inr away ↦ rw away (
      ground (
        arith,
        lookup-in_bucket w es (IsAbove-IsSorted 0 j es a),
        lookup-IsAbove w j es,
        strcmp-eq w j,
      ))
]

lookup-key_at :
    (es : Postings) (i : ℕ)
    → IsSorted es
    → i < length es
    → lookup (key_at es i) es ≡ some (list_at es i)
unfolding lookup
lookup-key_at [] i a h = absurd (omega arith)
lookup-key_at ((k, ps) ∷ es) zero a h = ground (arith, strcmp_refl k)
lookup-key_at ((k, ps) ∷ es) (suc i) a h = ground (
  arith,
  strcmp_swap k (key_at es i) (IsAbove-key_at k es i a (omega arith)),
  lookup-key_at es i (IsAbove-IsSorted 0 k es a) (omega arith),
)

-- where the found entry stands
abbrev Entry : Bytes → Postings → List Inv → Type 0
Entry w es ps = (i : ℕ) × (i < length es) × (key_at es i ≡ w) × (list_at es i ≡ ps)

lookup-some : (w : Bytes) (es : Postings) {ps : List Inv} → lookup w es ≡ some ps → Entry w es ps
unfolding lookup
lookup-some w [] e = cc
lookup-some w ((k, p) ∷ es) {ps} e = go (strcmp w k) refl (lookup-some w es {ps = ps})
  where
    go :
        (c : Ordering)
        → strcmp w k ≡ c
        → (lookup w es ≡ some ps → Entry w es ps)
        → Entry w ((k, p) ∷ es) ps
    go Ordering.eq c ih = (0, omega arith, sym (strcmp-eq w k c), ground arith)
    go Ordering.lt c ih = absurd (ground arith)
    go Ordering.gt c ih = let (i, l, a, b) = ih (ground arith) in (suc i, omega arith, a, b)

module _ (words : Bytes) (vect : List Inv) where
  Rep-length : (v : List Key) (es : Postings) → Rep words vect v es → length v ≡ length es
  Rep-length [] [] r = refl
  Rep-length [] (e ∷ es) r = absurd r
  Rep-length (n ∷ v) [] r = absurd r
  Rep-length (n ∷ v) ((k, ps) ∷ es) r = ap suc (Rep-length v es r.1)

  Rep-word :
      (v : List Key) (es : Postings) (i : ℕ)
      → Rep words vect v es
      → AreCStrings es
      → i < length es
      → word words v i ≡ key_at es i
  Rep-word [] [] i r c h = absurd (omega arith)
  Rep-word [] (e ∷ es) i r c h = absurd r
  Rep-word (n ∷ v) [] i r c h = absurd r
  Rep-word (n ∷ v) ((k, ps) ∷ es) zero r c h = word_at-HoldsAt words n.word_offset k r.0.named ∙ c.0
  Rep-word (n ∷ v) ((k, ps) ∷ es) (suc i) r c h = Rep-word v es i r.1 c.1 (omega arith)

  -- the postings in a node's range
  abbrev pub range : Key → List Inv
  range n = take (n.end - n.begin) (drop n.begin vect)

  Rep-range :
      (v : List Key) (es : Postings) (i : ℕ)
      → Rep words vect v es
      → i < length es
      → range (get_or v i no_key) ≡ list_at es i
  Rep-range [] [] i r h = absurd (omega arith)
  Rep-range [] (e ∷ es) i r h = absurd r
  Rep-range (n ∷ v) [] i r h = absurd r
  Rep-range (n ∷ v) ((k, ps) ∷ es) zero r h =
      rw (HoldsAt-drop vect n.begin ps r.0.ranged)
        (take-append ps r.0.ranged.after (n.end - n.begin) (omega (arith, r.0.ended)))
  Rep-range (n ∷ v) ((k, ps) ∷ es) (suc i) r h = Rep-range v es i r.1 (omega arith)

  module _ (v : List Key) (es : Postings) (r : Rep words vect v es) (c : AreCStrings es)
      (a : IsSorted es) where
    -- a bucket that stands for ascending entries ascends
    pub Rep-Ascends : Ascends words v
    Rep-Ascends i j h l =
        rw
          (
            Rep-word v es i r c (omega (arith, Rep-length v es r)),
            Rep-word v es j r c (omega (arith, Rep-length v es r)),
          )
          (IsSorted-key_at es i j a h (omega (arith, Rep-length v es r)))

    -- the search finds the range of the entry, and nothing where there is no entry
    search-lookup :
        (w : Bytes)
        → Option.map range (search words (suc (length v)) v w 0 (length v)) ≡ lookup w es
    search-lookup w = elim (Option-cases (lookup w es)) [
      | inl miss ↦
          rw (
            search_absent words v w (λ i h e. absent miss i h e) _ 0 (length v) (omega arith),
            miss,
          )
      | inr (ps, hit) ↦ present ps hit
    ]
      where
        absent : lookup w es ≡ none → (i : ℕ) → i < length v → word words v i ≢ w
        absent miss i h e =
            let l : i < length es = omega (arith, Rep-length v es r) in
            cc (lookup-key_at es i a l, Rep-word v es i r c l)

        present :
            (ps : List Inv)
            → lookup w es ≡ some ps
            → Option.map range (search words (suc (length v)) v w 0 (length v)) ≡ lookup w es
        present ps hit =
            let (i, l, k, p) = lookup-some w es hit in
            let w_at : word words v i ≡ w = Rep-word v es i r c l ∙ k in
            rw
              (
                hit,
                ← w_at,
                search_present words v Rep-Ascends (suc (length v)) 0 (length v) i (omega arith)
                    (omega (arith, Rep-length v es r)) (omega arith) (omega arith),
              )
              (ap some (Rep-range v es i r l ∙ p))

hash_from-c_str : (index : ℕ) (s : Bytes) → hash_from index (c_str s) ≡ hash_from index s
unfolding hash_from c_str
hash_from-c_str index [] = refl
hash_from-c_str index (c ∷ s) = ground (arith, hash_from-c_str (hash_step index c) s)

get_hash_value-c_str : (s : Bytes) → get_hash_value (c_str s) ≡ get_hash_value s
unfolding get_hash_value
get_hash_value-c_str s = rw (hash_from-c_str 0 s)

-- A table whose bucket for a word stands for the entries of a sorted map finds the map's postings
-- of that word.
pub find-lookup :
    (hv : HashVector) (vect : List Inv) (es : Postings) (w : Bytes)
    → Rep hv.words_buf vect (hv.buckets (get_hash_value w)) (in_bucket (get_hash_value w) es)
    → AreCStrings es
    → IsSorted es
    → Option.map (range hv.words_buf vect) (HashVector.find hv w) ≡ lookup (c_str w) es
unfolding HashVector.find
find-lookup hv vect es w r c a =
    search-lookup hv.words_buf vect _ _ r (in_bucket-AreCStrings _ es c) (in_bucket-IsSorted _ es a)
      (c_str w)
    ∙ subst (λ h. lookup (c_str w) (in_bucket h es) ≡ lookup (c_str w) es) (get_hash_value-c_str w)
        (lookup-in_bucket (c_str w) es a)
