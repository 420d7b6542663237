-- ===== src/SimHash.antt =====
-- src/simhash/hashsign.cpp and its types in src/simhash/sim_struct.h: 64-bit signatures of documents,
-- their distance, and the search for documents that are near. `none` is a write outside an array.
pub mod Distance
pub mod Sign
pub mod Similar
use Prim.Native.Nat.{bit_and, bit_or, bit_xor}
use dlg_service.Prelude.{
  ℕ, zero, suc, ◌+◌, ◌-◌, ◌*◌, ◌/◌, ◌%◌, ◌^◌, Option, none, some, List, [], ◌∷◌, ◌++◌, leb, ltb,
  ◌==◌, ◌&&◌, not, if◌then◌else◌, Bytes, true, false, Bool, for_up, length, take, replicate,
}
use dlg_service.Index.Types.{c_str}

-- `funit`; the weight is a float.
pub record Funit {ℓ} (W : Type ℓ) : Type ℓ where
  pub weight : W
  pub feature : Bytes

-- The loop of `hamming_dist`; `none` where it has not ended by then.
unfoldable pub clear_bits : ℕ → ℕ → ℕ → Option ℕ
clear_bits zero val dist = none
clear_bits (suc fuel) val dist =
    let rest = clear_bits fuel (bit_and val (val - 1)) (dist + 1) in
    if val == 0 then some dist else rest

-- `hamming_dist`: 64 bits can be cleared, and then the test fails.
unfoldable pub hamming_dist : ℕ → ℕ → Option ℕ
hamming_dist t1 t2 = clear_bits 65 (bit_xor t1 t2) 0

-- `creat_sign` is `creat_sign_mds64`, with none for its -1; the float operations are parameters.
module _ {ℓ} {W : Type ℓ} (zero_weight : W) (add_weight sub_weight : W → W → W)
    (is_positive : W → Bool) (creat_sign : Bytes → Option ℕ) where
  -- `update_hist`, with the pointers `hist` and the shifted token.
  unfoldable pub update_hist : ℕ → ℕ → ℕ → W → (ℕ → W) → ℕ → W
  update_hist zero i token weight hist = hist
  update_hist (suc rounds) i token weight hist = update_hist rounds (suc i) (token / 2) weight (λ j.
      if j == i
      then (if token % 2 == 1 then add_weight (hist j) weight else sub_weight (hist j) weight)
      else hist j)

  -- The first loop of `simhash_sign`.
  unfoldable pub add_features : List (Funit W) → (ℕ → W) → ℕ → W
  add_features [] hist = hist
  add_features (tmp ∷ features) hist = elim (creat_sign (c_str tmp.feature)) [
    | none ↦ add_features features hist
    | some token ↦
        let str = c_str tmp.feature in
        let rest = add_features features (update_hist 64 0 token tmp.weight hist) in
        let rest' = add_features features hist in if leb (length str) 0 then rest' else rest
  ]

  -- The second loop's body.
  unfoldable pub sign_bit : (ℕ → W) → ℕ → ℕ → ℕ
  sign_bit hist i sign = bit_or sign ((if is_positive (hist i) then 1 else 0) * 2 ^ i)

  -- `simhash_sign`
  unfoldable pub simhash_sign : List (Funit W) → ℕ
  simhash_sign features = for_up 64 0 (sign_bit (add_features features (λ i. zero_weight))) 0

-- `enum strategy` and `enum pattern`, which is a number in C.
pub data Strategy : Type 0 where
  append : Strategy
  compare : Strategy
  appcom : Strategy
  delete : Strategy

-- `input->strategy == APPEND`
abbrev pub is_append : Strategy → Bool
is_append append = true
is_append compare = false
is_append appcom = false
is_append delete = false

pub data Pattern : Type 0 where
  fulltext : Pattern
  paragraph : Pattern
  sentence : Pattern
  other : ℕ → Pattern

-- `value_t`, `rpush_t` and `simval`; `rate` is always 0.0.
pub record Value : Type 0 where
  pub simid : ℕ
  pub docid : ℕ
  pub timestamp : ℕ
  pub datasize : ℕ
  pub userdata : Bytes

pub record RedisValue : Type 0 where
  pub key : Bytes
  pub value : List Value

pub record SimVal : Type 0 where
  pub sim_key : Bytes
  pub val : Value

-- The part of `sim_input_t` that the search reads, with `hamdis` not negative.
pub record SimInput : Type 0 where
  pub input_docid : ℕ
  pub hamdis : ℕ
  pub strategy : Strategy
  pub sim_pattern : Pattern

-- The part of `sim_output_t` that the search writes.
pub record SimOutput : Type 0 where
  pub simdis : ℕ → List SimVal
  pub counts : ℕ → ℕ

-- `DISTANCE`, the number of vectors in `simdis`; `counts` has one more.
abbrev pub distance : ℕ
distance = 5

-- `RAW_DATA_MAX_SIZE + 1`, the bytes of `userdata`.
abbrev pub userdata_size : ℕ
userdata_size = 65

-- `tmp` with the private data copied as far as `datasize`, and zeros behind.
abbrev pub copied : Bytes → Value → SimVal
copied k v = record {
  sim_key = k;
  val = record v {
    userdata = take v.datasize v.userdata ++ replicate (userdata_size - v.datasize) 0;
  };
}

-- `tmp`; `none` where `memcpy` reads and writes behind the array of 65 bytes.
unfoldable pub sim_val : Bytes → Value → Option SimVal
sim_val k v = if ltb userdata_size v.datasize then none else some (copied k v)

-- `output->simdis[d].push_back(tmp)` and `output->counts[d] ++`
unfoldable pub push_similar : ℕ → SimVal → SimOutput → Option SimOutput
push_similar d tmp o =
    if ltb d distance
    then some (record {
      simdis = λ i. if i == d then o.simdis i ++ tmp ∷ [] else o.simdis i;
      counts = λ i. if i == d then o.counts i + 1 else o.counts i;
    })
    else none

-- the value is expired
abbrev pub expired : ℕ → Value → Bool
expired timestamp v = leb v.timestamp timestamp && not (v.timestamp == 0)

module _ (input : SimInput) (sign timestamp : ℕ) where
  -- The inner loop: the output and `existSameDoc`.
  unfoldable pub similar_values : Bytes → List Value → SimOutput → Bool → Option (SimOutput × Bool)
  similar_values k [] o same = some (o, same)
  similar_values k (v ∷ vs) o same =
      if input.input_docid == v.docid
      then similar_values k vs o true
      else if expired timestamp v
      then similar_values k vs o same
      else elim (hamming_dist v.simid sign) [
        | none ↦ none
        | some d ↦
            if leb d input.hamdis
            then elim (sim_val k v) [
              | none ↦ none
              | some tmp ↦ elim (push_similar d tmp o) [
                | none ↦ none
                | some o' ↦ similar_values k vs o' same
              ]
            ]
            else similar_values k vs o same
      ]

  unfoldable pub similar_keys : List RedisValue → SimOutput → Bool → Option (SimOutput × Bool)
  similar_keys [] o same = some (o, same)
  similar_keys (r ∷ rs) o same = elim (similar_values r.key r.value o same) [
    | none ↦ none
    | some (o', same') ↦ similar_keys rs o' same'
  ]

  -- `get_similar_doc`: 0 or (none) -1, and what it leaves in the output and in `existSameDoc`.
  unfoldable pub get_similar_doc :
      List RedisValue → Option SimOutput → Bool → Option (Bool × Option SimOutput × Bool)
  get_similar_doc redisvalue none same = some (false, none, same)
  get_similar_doc redisvalue (some o) same =
      if is_append input.strategy then some (true, some o, same) else elim input.sim_pattern [
        | fulltext ↦ elim (similar_keys redisvalue (record o { counts = λ i. 0 }) same) [
          | none ↦ none
          | some r ↦ some (true, some r.0, r.1)
        ]
        | other n ↦ some (false, some o, same)
        | _ ↦ some (true, some o, same)
      ]
