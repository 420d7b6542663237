-- ===== src/Examples/Tables.antt =====
-- The theorems on the tree of words and on signatures at concrete inputs. Weights are numbers, and the
-- signature of a feature is its length.
use dlg_service.Prelude.{
  ℕ, ◌+◌, ◌-◌, ◌≡◌, refl, true, false, ◌||◌, none, some, List, [], ◌∷◌, ◌++◌, Bytes, length, ltb,
  if◌then◌else◌, arith, replicate,
}
use dlg_service.Prelude.Bits.{bit, differing}
use dlg_service.Dictionary.{
  dictionary, add_word, look_up, look_up_node, pos, add_from, allocate_node, link, mark, put_at,
  walk,
}
use dlg_service.Dictionary.Marks.{entry}
use dlg_service.Dictionary.Entries.{IsAdded, add_word-IsAdded, entry-eq, dictionary-IsDictionary}
use dlg_service.Dictionary.Fold.{lower, look_up_node-look_up}
use dlg_service.SimHash.{
  hamming_dist, simhash_sign, get_similar_doc, SimInput, SimOutput, RedisValue, compare, fulltext,
  Funit,
}
use dlg_service.SimHash.Distance.{hamming_dist-differing}
use dlg_service.SimHash.Sign.{place_weight, simhash_sign-place_weight}
use dlg_service.SimHash.Similar.{all_at, any_same, get_similar_doc-all_at}

abbrev ab : Bytes
ab = b'a' ∷ b'b' ∷ []

add_word-IsAdded_example : IsAdded 8 ab dictionary (add_word 8 ab dictionary)
add_word-IsAdded_example =
    add_word-IsAdded 8 ab dictionary (λ e. cc) (dictionary-IsDictionary 8 (omega arith))

entry-ab : entry ab (add_word 8 ab dictionary).1 ≡ some 2
unfolding add_word add_from allocate_node link mark put_at look_up walk
entry-ab = refl

entry-eq_example : ab ≡ ab
entry-eq_example =
    entry-eq 8 (add_word 8 ab dictionary).1
      (add_word-IsAdded 8 ab dictionary (λ e. cc)
        (dictionary-IsDictionary 8 (omega arith))).stays_dictionary
      ab ab 2 entry-ab entry-ab

look_up_node-look_up_example :
    look_up (lower (b'A' ∷ b'b' ∷ [])) (add_word 8 ab dictionary).1
    ≡ elim (look_up_node (b'A' ∷ b'b' ∷ []) none (add_word 8 ab dictionary).1) [
      | none ↦ pos 0
      | some i ↦ ((add_word 8 ab dictionary).1.nodes i).dw_index
    ]
look_up_node-look_up_example = look_up_node-look_up b'A' (b'b' ∷ []) (add_word 8 ab dictionary).1

hamming_dist-differing_example : hamming_dist 5 3 ≡ some (differing 64 5 3)
hamming_dist-differing_example = hamming_dist-differing 5 3 (omega arith) (omega arith)

abbrev features : List (Funit ℕ)
features = record { weight = 3; feature = ab } ∷ []

simhash_sign-place_weight_example :
    bit 1 (simhash_sign 0 (λ a b. a + b) (λ a b. a - b) (ltb 0) (λ s. some (length s)) features) ≡ (
      if ltb 0
        (place_weight 0 (λ a b. a + b) (λ a b. a - b) (ltb 0) (λ s. some (length s)) 1 features 0)
      then 1
      else 0)
simhash_sign-place_weight_example =
    simhash_sign-place_weight 0 (λ a b. a + b) (λ a b. a - b) (ltb 0) (λ s. some (length s))
      features 1 (omega arith)

abbrev input : SimInput
input = record { input_docid = 7; hamdis = 3; strategy = compare; sim_pattern = fulltext }

abbrev stored : List RedisValue
stored =
    record {
      key = ab;
      value =
          record { simid = 5; docid = 1; timestamp = 0; datasize = 2; userdata = replicate 65 b'x' }
          ∷ record { simid = 6; docid = 7; timestamp = 0; datasize = 0; userdata = replicate 65 0 }
          ∷ [];
    }
    ∷ []

abbrev cleared : SimOutput
cleared = record { simdis = λ d. []; counts = λ d. 4 }

get_similar_doc-all_at_example :
    (o : SimOutput) × (get_similar_doc input 3 100 stored (some cleared) false
      ≡ some (true, some o, false || any_same input 3 100 stored))
    × ((d : ℕ) → o.simdis d ≡ cleared.simdis d ++ all_at input 3 100 d stored)
    × ((d : ℕ) → o.counts d ≡ length (all_at input 3 100 d stored))
get_similar_doc-all_at_example =
    get_similar_doc-all_at input 3 100 stored cleared false refl refl (omega arith) (omega arith)
      (((omega arith, omega arith), ((omega arith, omega arith), tt)), tt)
