-- ===== src/SimHash/Similar.antt =====
-- The documents that `get_similar_doc` finds.
use dlg_service.Prelude.{
  ℕ, ◌+◌, ◌^◌, ◌<◌, ◌≤◌, ◌≡◌, refl, ap, ◌∙◌, sym, Option, none, some, List, [], ◌∷◌, ◌++◌, leb, ltb,
  leb→le, ◌==◌, ◌&&◌, not, ◌||◌, if◌then◌else◌, Bytes, true, false, Bool, length, length-append,
  arith, All, Bool-cases, inl, inr,
}
use mathlib.Core.List.{append_assoc, append-nil}
use dlg_service.Prelude.Bits.{differing}
use dlg_service.SimHash.{
  SimVal, copied, sim_val, userdata_size, SimInput, SimOutput, RedisValue, Value, expired,
  similar_values, similar_keys, get_similar_doc, push_similar, distance, is_append, fulltext,
}
use dlg_service.SimHash.Distance.{hamming_dist-differing}

-- A value with a signature of 64 bits whose private data fit their array.
abbrev pub IsStored : Value → Type 0
IsStored v = (v.simid < 2 ^ 64) × (v.datasize ≤ userdata_size)

sim_val-copied : (k : Bytes) (v : Value) → IsStored v → sim_val k v ≡ some (copied k v)
unfolding sim_val
sim_val-copied k v h =
    let fits : ltb userdata_size v.datasize ≡ false = ground arith in rw fits refl

module _ (input : SimInput) (sign timestamp : ℕ) where
  -- A value that counts: of another document, not expired, and at distance `d`.
  abbrev pub is_at : ℕ → Value → Bool
  is_at d v =
      not (input.input_docid == v.docid)
      && (not (expired timestamp v) && ((differing 64 v.simid sign == d) && leb d input.hamdis))

  unfoldable pub values_at : ℕ → Bytes → List Value → List SimVal
  values_at d k [] = []
  values_at d k (v ∷ vs) =
      let rest = values_at d k vs in if is_at d v then copied k v ∷ rest else rest

  -- The values at distance `d`, in order.
  unfoldable pub all_at : ℕ → List RedisValue → List SimVal
  all_at d [] = []
  all_at d (r ∷ rs) = values_at d r.key r.value ++ all_at d rs

  unfoldable pub has_same : List Value → Bool
  has_same [] = false
  has_same (v ∷ vs) = (input.input_docid == v.docid) || has_same vs

  unfoldable pub any_same : List RedisValue → Bool
  any_same [] = false
  any_same (r ∷ rs) = has_same r.value || any_same rs

  -- what the search leaves, after values at each distance
  record IsFound (found : ℕ → List SimVal) (same : Bool) (o : SimOutput)
      (r : Option (SimOutput × Bool)) : Type 0 where
    output : SimOutput
    result : r ≡ some (output, same)
    vectors : (d : ℕ) → output.simdis d ≡ o.simdis d ++ found d
    numbers : (d : ℕ) → output.counts d ≡ o.counts d + length (found d)

  push_found :
      (d : ℕ) (v : Value) (k : Bytes) (o : SimOutput)
      → d < distance
      → (o' : SimOutput) × (push_similar d (copied k v) o ≡ some o')
        × ((i : ℕ) → o'.simdis i ≡ (if i == d then o.simdis i ++ copied k v ∷ [] else o.simdis i))
        × ((i : ℕ) → o'.counts i ≡ (if i == d then o.counts i + 1 else o.counts i))
  unfolding push_similar
  push_found d v k o h =
      let fits : ltb d distance ≡ true = ground arith in (_, rw fits refl, λ i. refl, λ i. refl)

  IsFound-eq :
      (f g : ℕ → List SimVal) (s s' : Bool) (o : SimOutput) (r : Option (SimOutput × Bool))
      → ((d : ℕ) → f d ≡ g d)
      → s ≡ s'
      → IsFound f s o r
      → IsFound g s' o r
  IsFound-eq f g s s' o r e q a = record {
    output = a.output;
    result = a.result ∙ ap (λ b. some (a.output, b)) q;
    vectors = λ d. a.vectors d ∙ ap (λ l. o.simdis d ++ l) (e d);
    numbers = λ d. a.numbers d ∙ ap (λ l. o.counts d + length l) (e d);
  }

  IsFound-push :
      (d : ℕ) (k : Bytes) (v : Value) (vs : List Value) (o o' : SimOutput) (s : Bool)
      (r : Option (SimOutput × Bool))
      → ((i : ℕ) → o'.simdis i ≡ (if i == d then o.simdis i ++ copied k v ∷ [] else o.simdis i))
      → ((i : ℕ) → o'.counts i ≡ (if i == d then o.counts i + 1 else o.counts i))
      → ((i : ℕ) → is_at i v ≡ (i == d))
      → IsFound (λ i. values_at i k vs) s o' r
      → IsFound (λ i. values_at i k (v ∷ vs)) s o r
  unfolding values_at
  IsFound-push d k v vs o o' s r p q at a = record {
    output = a.output;
    result = a.result;
    vectors = λ i. a.vectors i ∙ ap (λ l. l ++ values_at i k vs) (p i) ∙ vector i (i == d) (at i);
    numbers =
        λ i. a.numbers i ∙ ap (λ n. n + length (values_at i k vs)) (q i) ∙ number i (i == d) (at i);
  }
    where
      vector :
          (i : ℕ) (b : Bool)
          → is_at i v ≡ b
          → (if b then o.simdis i ++ copied k v ∷ [] else o.simdis i) ++ values_at i k vs
            ≡ o.simdis i ++ (if is_at i v then copied k v ∷ values_at i k vs else values_at i k vs)
      vector i true e = rw e (append_assoc (o.simdis i) (copied k v ∷ []) (values_at i k vs))
      vector i false e = rw e refl

      number :
          (i : ℕ) (b : Bool)
          → is_at i v ≡ b
          → (if b then o.counts i + 1 else o.counts i) + length (values_at i k vs)
            ≡ o.counts i
              + length (if is_at i v then copied k v ∷ values_at i k vs else values_at i k vs)
      number i true e = rw e (omega arith)
      number i false e = rw e refl

  IsFound-skip :
      (k : Bytes) (v : Value) (vs : List Value) (o : SimOutput) (s : Bool)
      (r : Option (SimOutput × Bool))
      → ((i : ℕ) → is_at i v ≡ false)
      → IsFound (λ i. values_at i k vs) s o r
      → IsFound (λ i. values_at i k (v ∷ vs)) s o r
  unfolding values_at
  IsFound-skip k v vs o s r e a =
      IsFound-eq (λ i. values_at i k vs) (λ i. values_at i k (v ∷ vs)) s s o r
        (λ i. ap (λ b. if b then copied k v ∷ values_at i k vs else values_at i k vs) (sym (e i)))
        refl a

  or_false : (b : Bool) → (b || false) ≡ b
  or_false true = refl
  or_false false = refl

  or_true : (b : Bool) → (b || true) ≡ true
  or_true true = refl
  or_true false = refl

  far : (d i : ℕ) → leb d input.hamdis ≡ false → ((d == i) && leb i input.hamdis) ≡ false
  far d i h = ground arith

  near : (d i : ℕ) → leb d input.hamdis ≡ true → ((d == i) && leb i input.hamdis) ≡ (i == d)
  near d i h = ground arith

  similar_values-IsFound :
      (k : Bytes) (vs : List Value) (o : SimOutput) (same : Bool)
      → input.hamdis < distance
      → sign < 2 ^ 64
      → All IsStored vs
      → IsFound
          (λ d. values_at d k vs)
          (same || has_same vs)
          o
          (similar_values input sign timestamp k vs o same)
  unfolding similar_values has_same
  similar_values-IsFound k [] o same h w a = record {
    output = o;
    result = ap (λ b. some (o, b)) (sym (or_false same));
    vectors = λ d. unfold values_at in sym (append-nil (o.simdis d));
    numbers = λ d. unfold values_at in omega arith;
  }
  similar_values-IsFound k (v ∷ vs) o same h w a =
      let go = Bool-cases (input.input_docid == v.docid) in
      elim go [
        | inl e ↦ rw e (
            IsFound-skip k v vs o (same || true) (similar_values input sign timestamp k vs o true)
              (λ i. rw e refl)
              (IsFound-eq (λ i. values_at i k vs) (λ i. values_at i k vs) (true || has_same vs)
                (same || true) o (similar_values input sign timestamp k vs o true) (λ i. refl)
                (sym (or_true same)) (similar_values-IsFound k vs o true h w a.1)))
        | inr e ↦ elim (Bool-cases (expired timestamp v)) [
          | inl f ↦
              rw (e, f)
                (IsFound-skip k v vs o (same || has_same vs)
                  (similar_values input sign timestamp k vs o same) (λ i. rw (e, f) refl)
                  (similar_values-IsFound k vs o same h w a.1))
          | inr f ↦ elim (Bool-cases (leb (differing 64 v.simid sign) input.hamdis)) [
            | inl g ↦
                rw (e, f, hamming_dist-differing v.simid sign a.0.0 w, g, sim_val-copied k v a.0)
                  (let d = differing 64 v.simid sign in
                    let (o', p, s, c) =
                      push_found d v k o (omega (arith, leb→le d input.hamdis g)) in
                    rw p (
                      IsFound-push d k v vs o o' (same || has_same vs)
                        (similar_values input sign timestamp k vs o' same) s c
                        (λ i. rw (e, f) (near d i g))
                        (similar_values-IsFound k vs o' same h w a.1)))
            | inr g ↦
                rw (e, f, hamming_dist-differing v.simid sign a.0.0 w, g)
                  (IsFound-skip k v vs o (same || has_same vs)
                    (similar_values input sign timestamp k vs o same)
                    (λ i. rw (e, f) (far (differing 64 v.simid sign) i g))
                    (similar_values-IsFound k vs o same h w a.1))
          ]
        ]
      ]

  similar_keys-IsFound :
      (rs : List RedisValue) (o : SimOutput) (same : Bool)
      → input.hamdis < distance
      → sign < 2 ^ 64
      → All (λ r. All IsStored r.value) rs
      → IsFound
          (λ d. all_at d rs)
          (same || any_same rs)
          o
          (similar_keys input sign timestamp rs o same)
  unfolding similar_keys any_same all_at
  similar_keys-IsFound [] o same h w a = record {
    output = o;
    result = ap (λ b. some (o, b)) (sym (or_false same));
    vectors = λ d. sym (append-nil (o.simdis d));
    numbers = λ d. omega arith;
  }
  similar_keys-IsFound (r ∷ rs) o same h w a =
      let one = similar_values-IsFound r.key r.value o same h w a.0 in
      let rest = similar_keys-IsFound rs one.output (same || has_same r.value) h w a.1 in
      rw (one.result, similar_keys)
        (record {
          output = rest.output;
          result =
              rest.result
              ∙ ap (λ b. some (rest.output, b)) (or_assoc same (has_same r.value) (any_same rs));
          vectors = λ d.
              rest.vectors d
              ∙ ap (λ l. l ++ all_at d rs) (one.vectors d)
              ∙ append_assoc (o.simdis d) (values_at d r.key r.value) (all_at d rs);
          numbers = λ d. omega (
            arith,
            rest.numbers d,
            one.numbers d,
            length-append (values_at d r.key r.value) (all_at d rs),
          );
        })
    where
      or_assoc : (a b c : Bool) → ((a || b) || c) ≡ (a || (b || c))
      or_assoc true b c = refl
      or_assoc false b c = refl

  -- For a full text and a strategy other than APPEND, `hamdis` below `DISTANCE`, a signature of 64
  -- bits, and values whose signatures have 64 bits and whose private data are at most the 65 bytes
  -- of `userdata`, `get_similar_doc` returns 0 and writes outside neither `simdis` nor `userdata`:
  -- at each distance it appends the values of other documents, not expired, at that distance and at
  -- most `hamdis`, in order, each with its private data up to `datasize` and zeros behind, `counts`
  -- is their number, and `existSameDoc` is set where a value has the document's own id.
  pub get_similar_doc-all_at :
      (rs : List RedisValue) (o : SimOutput) (same : Bool)
      → is_append input.strategy ≡ false
      → input.sim_pattern ≡ fulltext
      → input.hamdis < distance
      → sign < 2 ^ 64
      → All (λ r. All IsStored r.value) rs
      → (o' : SimOutput) × (get_similar_doc input sign timestamp rs (some o) same
          ≡ some (true, some o', same || any_same rs))
        × ((d : ℕ) → o'.simdis d ≡ o.simdis d ++ all_at d rs)
        × ((d : ℕ) → o'.counts d ≡ length (all_at d rs))
  unfolding get_similar_doc similar_keys
  get_similar_doc-all_at rs o same n p h w a =
      let found = similar_keys-IsFound rs (record o { counts = λ i. 0 }) same h w a in
      let wrap : Option (SimOutput × Bool) → Option (Bool × Option SimOutput × Bool) =
        λ x. elim x [ none ↦ none | some r ↦ some (true, some r.0, r.1) ] in
      let searched : get_similar_doc input sign timestamp rs (some o) same
          ≡ wrap (similar_keys input sign timestamp rs (record o { counts = λ i. 0 }) same) =
        rw (n, p) refl in
      (
        found.output,
        searched ∙ ap wrap found.result,
        found.vectors,
        λ d. omega (arith, found.numbers d),
      )
