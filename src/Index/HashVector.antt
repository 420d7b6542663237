-- ===== src/Index/HashVector.antt =====
-- `CHashVector_Enhanced`: a hash table whose buckets are vectors of nodes that name their words by
-- an offset into one buffer; buckets are sorted in place by word, and searched by halving.
pub mod Sort
pub mod Find
pub mod File
use Prim.Native.Nat.{bit_xor, Ordering}
use dlg_service.Prelude.{
  ℕ, zero, suc, ◌+◌, ◌-◌, ◌*◌, ◌/◌, ◌%◌, ◌^◌, ◌≡◌, refl, Bool, true, false, ◌&&◌, not, Option, none,
  some, List, [], ◌∷◌, ◌++◌, ltb, leb, ◌==◌, if◌then◌else◌, Bytes, strcmp, length, get_or, set,
}
use dlg_service.Index.Types.{Key, assign, c_str, word_at}

-- `HASH_BASIC`.
abbrev pub hash_basic : ℕ
hash_basic = 11111

-- A `char` of x86 is signed: as an `unsigned`, a byte from 128 on is 2^32 - 256 more.
unfoldable pub sign_extend : ℕ → ℕ
sign_extend c = if ltb c 128 then c else c + 2 ^ 32 - 256

-- `index ^= ((index<<5) + (index>>2) + *str++)` on 32 bits.
unfoldable pub hash_step : ℕ → ℕ → ℕ
hash_step index c = bit_xor index ((index * 32 + index / 4 + sign_extend c) % 2 ^ 32)

unfoldable pub hash_from : ℕ → Bytes → ℕ
hash_from index [] = index
hash_from index (c ∷ str) =
    let rest = hash_from (hash_step index c) str in if c == 0 then index else rest

-- `GetHashValue`.
unfoldable pub get_hash_value : Bytes → ℕ
get_hash_value str = hash_from 0 str % hash_basic

-- The members: `data`, `m_charVect` and `m_wordsBuf` (empty for NULL).
pub record HashVector : Type 0 where
  pub buckets : ℕ → List Key
  pub char_vect : Bytes
  pub words_buf : Bytes

abbrev pub no_key : Key
no_key = record { begin = 0; end = 0; word_offset = 0 }

-- `data[i] = v`.
unfoldable pub store : (ℕ → List Key) → ℕ → List Key → ℕ → List Key
store data' i v j = if i == j then v else data' j

-- `AddItem`.
unfoldable pub add_item : Key → Bytes → HashVector → HashVector
add_item item word hv =
    let h = get_hash_value word in
    let placed = record item { word_offset = length hv.char_vect } in
    record hv {
      buckets = store hv.buckets h (hv.buckets h ++ placed ∷ []);
      char_vect = hv.char_vect ++ (c_str word ++ 0 ∷ []);
    }

-- `Wap(vect[i], vect[j])`: three assignments through `operator=`, the first into an uninitialised
-- node.
unfoldable pub wap : List Key → ℕ → ℕ → List Key
wap vect i j =
    let tmp = assign no_key (get_or vect i no_key) in
    let vect1 = set vect i (assign (get_or vect i no_key) (get_or vect j no_key)) in
    set vect1 j (assign (get_or vect1 j no_key) tmp)

module _ (buf : Bytes) where
  -- the word of the node at an index
  abbrev pub word : List Key → ℕ → Bytes
  word vect i = word_at buf (get_or vect i no_key).word_offset

  -- `strcmp(word, pchKeyValue) < 0` and its two kin.
  abbrev pub below : Bytes → Bytes → Bool
  below a b = elim (strcmp a b) [ Ordering.lt ↦ true | _ ↦ false ]

  -- The first inner loop of `Partition`; `rounds` is right - left, so its test is `left < right`.
  unfoldable pub up : List Key → Bytes → (rounds left : ℕ) → ℕ
  up vect kv zero left = left
  up vect kv (suc n) left =
      let rest = up vect kv n (left + 1) in if below (word vect left) kv then rest else left

  -- The second inner loop, on `right`.
  unfoldable pub down : List Key → Bytes → (key left right : ℕ) → ℕ
  down vect kv key left zero = 0
  down vect kv key left (suc r) =
      let rest = down vect kv key left r in
      if leb left (suc r) && ltb key (suc r) && not (below (word vect (suc r)) kv)
      then rest
      else suc r

  -- The outer loop of `Partition` on fuel: the nodes, `left` and `right`.
  unfoldable pub scan : ℕ → List Key → Bytes → (key left right : ℕ) → List Key × ℕ × ℕ
  scan zero vect kv key left right = (vect, left, right)
  scan (suc fuel) vect kv key left right =
      let l = up vect kv (right - left) left in
      let r = down vect kv key l right in
      let swapped = scan fuel (wap vect l r) kv key (l + 1) (r - 1) in
      let again = scan fuel vect kv key l r in
      if ltb left right then (if ltb l r then swapped else again) else (vect, left, right)

  -- the end of `Partition`, behind the outer loop
  unfoldable pub settle : Bytes → ℕ → List Key × ℕ × ℕ → ℕ × List Key
  settle kv key (vect, left, right) =
      let r = (if right == left && not (below (word vect right) kv) then right - 1 else right) in
      if r == key then (r, vect) else (r, wap vect key r)

  -- `Partition`: the index that it returns, and the nodes.
  unfoldable pub partition : List Key → (left right : ℕ) → ℕ × List Key
  partition vect left right =
      let kv = word vect left in
      if right == left + 1
      then (right, if below (word vect right) kv then wap vect left right else vect)
      else settle kv left (scan (right - left) vect kv left (left + 1) right)

  -- `QSort` on fuel for the depth. `key - 1` at 0 is -1 in the source; the call then has
  -- `left = 0` and does nothing, as with 0 here.
  unfoldable pub q_sort : ℕ → List Key → (left right : ℕ) → List Key
  q_sort zero vect left right = vect
  q_sort (suc fuel) vect left right =
      let (key, parted) = partition vect left right in
      let lower = q_sort fuel parted left (key - 1) in
      let upper = q_sort fuel lower (key + 1) right in if ltb left right then upper else vect

  -- The loop of `Find`: `hi` is right + 1, so `right >= left` reads `left < hi`.
  unfoldable pub search : ℕ → List Key → Bytes → (left hi : ℕ) → Option Key
  search zero vect w left hi = none
  search (suc fuel) vect w left hi =
      let mid = (left + (hi - 1)) / 2 in
      let right_half = search fuel vect w (mid + 1) hi in
      let left_half = search fuel vect w left mid in
      let found = some (get_or vect mid no_key) in
      if ltb left hi
      then elim (strcmp w (word vect mid)) [
        | Ordering.eq ↦ found
        | Ordering.gt ↦ right_half
        | Ordering.lt ↦ left_half
      ]
      else none

-- `Sort`: the buffer is a copy of the words, and every bucket is sorted by them.
unfoldable pub sort : HashVector → HashVector
sort hv = record hv {
  words_buf = hv.char_vect;
  buckets =
      λ i. q_sort hv.char_vect (length (hv.buckets i)) (hv.buckets i) 0 (length (hv.buckets i) - 1);
}

-- `Find`; one round more than there are nodes is enough.
unfoldable pub find : HashVector → Bytes → Option Key
find hv w =
    let vect = hv.buckets (get_hash_value w) in
    search hv.words_buf (suc (length vect)) vect (c_str w) 0 (length vect)
