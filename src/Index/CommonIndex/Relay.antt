-- ===== src/Index/CommonIndex/Relay.antt =====
-- What `WriteFile` lays out, `ReadInFile` reads back: buckets that stand for the same entries.
use dlg_service.Prelude.{
  ℕ, zero, suc, ◌+◌, ◌<◌, ◌≡◌, refl, sym, ap, ◌∙◌, some, List, [], ◌∷◌, ◌++◌, arith, Bytes,
  if◌then◌else◌, length, get_or, length-append, subst, ltb, leb, ◌&&◌, ==_refl,
}
use mathlib.Core.List.{append_assoc, append-nil}
use dlg_service.Index.Types.{
  Key, Inv, c_str, word_at, word_at-HoldsAt, HoldsAt, HoldsAt-append, HoldsAt-end,
}
use dlg_service.Index.HashVector.{get_hash_value, hash_basic, store}
use dlg_service.Index.HashVector.File.{relay_bucket, relay, bucket_items, read_bucket, read_buckets}
use dlg_service.Index.CommonIndex.{Postings}
use dlg_service.Index.CommonIndex.Rep.{Rep, Rep-append, Stands, in_bucket, words_size}

-- a relaid bucket: the buffer has grown by the bucket's words, and the nodes stand for the entries
record Relaid (vect : List Inv) (out : Bytes) (es : Postings) (r : List Key × Bytes) : Type 0 where
  grown : Bytes
  behind : r.1 ≡ out ++ grown
  sized : length grown ≡ words_size es
  stands : Rep r.1 vect r.0 es

module _ (src : Bytes) (vect : List Inv) (n : Key) (out key : Bytes) (ps : List Inv)
    (q : List Key × Bytes) where
  abbrev text : Bytes
  text = word_at src n.word_offset ++ 0 ∷ []

  text_lem : Stands src vect n key ps → text ≡ c_str key ++ 0 ∷ []
  text_lem s = ap (λ u. u ++ 0 ∷ []) (word_at-HoldsAt src n.word_offset key s.named)

  cons-Stands :
      (grown : Bytes)
      → q.1 ≡ (out ++ text) ++ grown
      → Stands src vect n key ps
      → Stands q.1 vect (record n { word_offset = length out }) key ps
  cons-Stands grown e s = record {
    named =
        subst (λ b. HoldsAt b (length out) (c_str key ++ 0 ∷ [])) (sym e)
          (HoldsAt-append (out ++ text) (length out) (c_str key ++ 0 ∷ []) grown
            (subst (HoldsAt (out ++ text) (length out)) (text_lem s) (HoldsAt-end out text)));
    ranged = s.ranged;
    ended = s.ended;
  }

  -- one node before a relaid rest
  cons-Relaid :
      (es : Postings)
      → Stands src vect n key ps
      → Relaid vect (out ++ text) es q
      → Relaid vect out ((key, ps) ∷ es) (record n { word_offset = length out } ∷ q.0, q.1)
  unfolding words_size
  cons-Relaid es s r = record {
    grown = text ++ r.grown;
    behind = r.behind ∙ append_assoc out text r.grown;
    sized = omega (
      arith,
      length-append text r.grown,
      length-append (c_str key) (0 ∷ []),
      ap length (text_lem s),
      r.sized,
    );
    stands = (cons-Stands r.grown r.behind s, r.stands);
  }

relay_bucket-Relaid :
    (src : Bytes) (vect : List Inv) (v : List Key) (es : Postings) (out : Bytes)
    → Rep src vect v es
    → Relaid vect out es (relay_bucket src out v)
unfolding relay_bucket words_size
relay_bucket-Relaid src vect [] [] out r = record {
  grown = [];
  behind = sym (append-nil out);
  sized = refl;
  stands = tt;
}
relay_bucket-Relaid src vect [] (e ∷ es) out r = absurd r
relay_bucket-Relaid src vect (n ∷ v) [] out r = absurd r
relay_bucket-Relaid src vect (n ∷ v) ((key, ps) ∷ es) out r =
    cons-Relaid src vect n out key ps _ es r.0 (relay_bucket-Relaid src vect v es _ r.1)

-- the bytes of the words in `n` buckets from bucket i on
unfoldable pub range_size : (n i : ℕ) → Postings → ℕ
range_size zero i es = 0
range_size (suc n) i es = words_size (in_bucket i es) + range_size n (suc i) es

range_size_nil : (n i : ℕ) → range_size n i [] ≡ 0
unfolding range_size words_size in_bucket
range_size_nil zero i = refl
range_size_nil (suc n) i = omega (arith, range_size_nil n (suc i))

range_size_cons :
    (n i : ℕ) (key : Bytes) (ps : List Inv) (es : Postings)
    → range_size n i ((key, ps) ∷ es) ≡ (
        if leb i (get_hash_value key) && ltb (get_hash_value key) (i + n)
        then length (c_str key) + 1 + range_size n i es
        else range_size n i es)
unfolding range_size words_size in_bucket
range_size_cons zero i key ps es = ground arith
range_size_cons (suc n) i key ps es = ground (arith, range_size_cons n (suc i) key ps es)

pub get_hash_value-lt : (w : Bytes) → get_hash_value w < hash_basic
unfolding get_hash_value
get_hash_value-lt w = omega arith

-- all buckets together hold every word once
pub range_size-words_size :
    (n : ℕ) (es : Postings) → n ≡ hash_basic → range_size n 0 es ≡ words_size es
unfolding words_size
range_size-words_size n [] e = range_size_nil n 0
range_size-words_size n ((key, ps) ∷ es) e =
    ground (arith, range_size_cons n 0 key ps es, get_hash_value-lt key, range_size-words_size n es)

-- relaid buckets: each stands for its entries in the whole of the final buffer
pub record AllRelaid (vect : List Inv) (out : Bytes) (n i : ℕ) (es : Postings)
    (r : List (List Key) × Bytes) : Type 0 where
  pub grown : Bytes
  pub behind : r.1 ≡ out ++ grown
  pub sized : length grown ≡ range_size n i es
  pub counted : length r.0 ≡ n
  pub stands : (j : ℕ) → j < n → Rep r.1 vect (get_or r.0 j []) (in_bucket (i + j) es)

module _ (vect : List Inv) (out : Bytes) (n i : ℕ) (es : Postings) (b : List Key × Bytes)
    (q : List (List Key) × Bytes) where
  cons-AllRelaid :
      Relaid vect out (in_bucket i es) b
      → AllRelaid vect b.1 n (suc i) es q
      → AllRelaid vect out (suc n) i es (b.0 ∷ q.0, q.1)
  unfolding range_size
  cons-AllRelaid r rs = record {
    grown = r.grown ++ rs.grown;
    behind = rs.behind ∙ ap (λ u. u ++ rs.grown) r.behind ∙ append_assoc out r.grown rs.grown;
    sized = omega (arith, length-append r.grown rs.grown, r.sized, rs.sized);
    counted = ap suc rs.counted;
    stands = at;
  }
    where
      here : Rep q.1 vect b.0 (in_bucket i es)
      here =
          subst (λ u. Rep u vect b.0 (in_bucket i es)) (sym rs.behind)
            (subst (λ w. Rep (b.1 ++ rs.grown) w b.0 (in_bucket i es)) (append-nil vect)
              (Rep-append b.1 rs.grown vect [] b.0 (in_bucket i es) r.stands))

      at : (j : ℕ) → j < suc n → Rep q.1 vect (get_or (b.0 ∷ q.0) j []) (in_bucket (i + j) es)
      at zero h = subst (λ k. Rep q.1 vect b.0 (in_bucket k es)) (omega arith) here
      at (suc j) h =
          subst (λ k. Rep q.1 vect (get_or q.0 j []) (in_bucket k es)) (omega arith)
            (rs.stands j (omega arith))

pub relay-AllRelaid :
    (src : Bytes) (vect : List Inv) (bk : ℕ → List Key) (es : Postings)
    → ((h : ℕ) → Rep src vect (bk h) (in_bucket h es))
    → (n i : ℕ) (out : Bytes) → AllRelaid vect out n i es (relay src bk n i out)
unfolding relay range_size
relay-AllRelaid src vect bk es reps zero i out = record {
  grown = [];
  behind = sym (append-nil out);
  sized = refl;
  counted = refl;
  stands = λ j h. absurd (omega arith);
}
relay-AllRelaid src vect bk es reps (suc n) i out =
    cons-AllRelaid vect out n i es _ _
      (relay_bucket-Relaid src vect (bk i) (in_bucket i es) out (reps i))
      (relay-AllRelaid src vect bk es reps n (suc i) _)

module _ {ℓ} (W : Type ℓ) where
  -- the buckets read are those written, from bucket i on; those before keep what they held
  abbrev Reads : ℕ → (ℕ → List Key) → List (List Key) → Type 0
  Reads i bk vs =
      (bk' : ℕ → List Key) × ((j : ℕ) → j < i → bk' j ≡ bk j)
      × ((j : ℕ) → j < length vs → bk' (i + j) ≡ get_or vs j [])

  -- the first bucket, and what the rest of the file gives
  cons-Reads :
      (i : ℕ) (bk : ℕ → List Key) (v : List Key) (vs : List (List Key)) (bk' : ℕ → List Key)
      → ((j : ℕ) → j < suc i → bk' j ≡ store bk i v j)
      → ((j : ℕ) → j < length vs → bk' (suc i + j) ≡ get_or vs j [])
      → ((j : ℕ) → j < i → bk' j ≡ bk j)
        × ((j : ℕ) → j < length (v ∷ vs) → bk' (i + j) ≡ get_or (v ∷ vs) j [])
  unfolding store
  cons-Reads i bk v vs bk' before behind = (λ j h. before j (omega arith) ∙ ground arith, at)
    where
      at : (j : ℕ) → j < length (v ∷ vs) → bk' (i + j) ≡ get_or (v ∷ vs) j []
      at zero h =
          let e : i + 0 ≡ i = omega arith in ap bk' e ∙ before i (omega arith) ∙ rw (==_refl i)
      at (suc j) h = ap bk' (omega arith) ∙ behind j (omega arith)

  pub read_buckets-items :
      (vs : List (List Key)) (i : ℕ) (bk : ℕ → List Key)
      → (bk' : ℕ → List Key) × (read_buckets {W = W} (length vs) bk (bucket_items i vs) ≡ some bk')
        × ((j : ℕ) → j < i → bk' j ≡ bk j)
        × ((j : ℕ) → j < length vs → bk' (i + j) ≡ get_or vs j [])
  unfolding read_buckets bucket_items read_bucket
  read_buckets-items [] i bk = (bk, refl, λ j h. refl, λ j h. absurd (omega arith))
  read_buckets-items ([] ∷ vs) i bk =
      let (bk', e, before, behind) = read_buckets-items vs (suc i) (store bk i []) in
      let (b, a) = cons-Reads i bk [] vs bk' before behind in (bk', e, b, a)
  read_buckets-items ((n ∷ v) ∷ vs) i bk =
      let (bk', e, before, behind) = read_buckets-items vs (suc i) (store bk i (n ∷ v)) in
      let (b, a) = cons-Reads i bk (n ∷ v) vs bk' before behind in
      (bk', rw (==_refl (suc (length v)), read_buckets) e, b, a)
