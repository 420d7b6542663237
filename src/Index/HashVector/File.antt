-- ===== src/Index/HashVector/File.antt =====
-- `WriteFile` and `ReadInFile`. A file is the sequence of the items that the `fwrite` calls wrote;
-- a `fread` of another kind or count than was written fails.
use dlg_service.Prelude.{
  ℕ, zero, suc, Option, none, some, List, [], ◌∷◌, ◌++◌, ◌==◌, if◌then◌else◌, Bytes, length,
}
use dlg_service.Index.Types.{Key, Doc, Inv, word_at}
use dlg_service.Index.HashVector.{HashVector, hash_basic, store}

pub data Item {ℓ} (W : Type ℓ) : Type ℓ where
  int : ℕ → Item W
  chars : Bytes → Item W
  docs : List (Doc W) → Item W
  invs : List Inv → Item W
  keys : List Key → Item W

-- The loop of `WriteFile` over one bucket: each word is copied behind those before it, and the node
-- gets its new offset. `src` is m_charVect, `out` what m_wordsBuf holds up to pWord.
unfoldable pub relay_bucket : Bytes → Bytes → List Key → List Key × Bytes
relay_bucket src out [] = ([], out)
relay_bucket src out (n ∷ v) =
    let (v', end_out) = relay_bucket src (out ++ (word_at src n.word_offset ++ 0 ∷ [])) v in
    (record n { word_offset = length out } ∷ v', end_out)

-- The same over `rounds` buckets from bucket i on.
unfoldable pub relay : Bytes → (ℕ → List Key) → (rounds i : ℕ) → Bytes → List (List Key) × Bytes
relay src bk zero i out = ([], out)
relay src bk (suc n) i out =
    let (v, out1) = relay_bucket src out (bk i) in
    let (vs, out2) = relay src bk n (suc i) out1 in (v ∷ vs, out2)

module _ {ℓ} {W : Type ℓ} where
  -- The last loop of `WriteFile`: index, size and nodes of each bucket; nothing for no nodes.
  unfoldable pub bucket_items : ℕ → List (List Key) → List (Item W)
  bucket_items i [] = []
  bucket_items i ([] ∷ vs) = int i ∷ int 0 ∷ bucket_items (suc i) vs
  bucket_items i ((n ∷ v) ∷ vs) =
      int i ∷ int (length (n ∷ v)) ∷ keys (n ∷ v) ∷ bucket_items (suc i) vs

  -- `WriteFile`: the size of the words, the words, the number of buckets and the buckets.
  unfoldable pub write_file : HashVector → List (Item W)
  write_file hv =
      let (vs, out) = relay hv.char_vect hv.buckets hash_basic 0 [] in
      int (length hv.char_vect) ∷ chars out ∷ int hash_basic ∷ bucket_items 0 vs

  -- The reads of one bucket. `none` is the end of the file or an item of another kind.
  unfoldable pub read_bucket : List (Item W) → Option (ℕ × List Key × List (Item W))
  read_bucket (int i ∷ int zero ∷ f) = some (i, [], f)
  read_bucket (int i ∷ int (suc n) ∷ keys v ∷ f) =
      if length v == suc n then some (i, v, f) else none
  read_bucket _ = none

  unfoldable pub read_buckets : ℕ → (ℕ → List Key) → List (Item W) → Option (ℕ → List Key)
  read_buckets zero bk f = some bk
  read_buckets (suc n) bk f = elim (read_bucket f) [
    | none ↦ none
    | some (i, v, rest) ↦ read_buckets n (store bk i v) rest
  ]

  -- `ReadInFile`; `none` is the result `false`.
  unfoldable pub read_in_file : HashVector → List (Item W) → Option HashVector
  read_in_file hv (int size ∷ chars b ∷ int hash_size ∷ f) =
      if length b == size
      then (if hash_size == hash_basic
          then elim (read_buckets hash_size hv.buckets f) [
            | none ↦ none
            | some bk ↦ some (record hv { words_buf = b; buckets = bk })
          ]
          else none)
      else none
  read_in_file hv _ = none
