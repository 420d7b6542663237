-- ===== src/Index/CommonIndex.antt =====
-- `CommonIndex`: documents are added under their words to a map of posting lists; the map becomes
-- one vector of postings and a hash table of the words with their ranges in it; both are saved, and
-- loaded for the queries. `ChangeToHVIndex` is modelled for is_need_sort = false, the default of
-- `Save`, which no caller overrides.
pub mod Rep
pub mod Lookup
pub mod Relay
pub mod Saved
pub mod Built
use dlg_service.Prelude.{
  ℕ, zero, suc, ◌+◌, ◌-◌, Option, none, some, List, [], ◌∷◌, ◌++◌, ◌==◌, if◌then◌else◌, Bytes, Map,
  upsert, bytes_ord, length, get_elem?, take, drop,
}
use dlg_service.Index.Types.{Doc, Inv, Key, c_str, word_at}
use dlg_service.Index.HashVector
use dlg_service.Index.HashVector.{HashVector}
use dlg_service.Index.HashVector.File.{Item, int, chars, docs, invs, write_file, read_in_file}

pub record CommonIndex {ℓ} (W : Type ℓ) : Type ℓ where
  -- the loaded buffers; their lengths are m_num_char, m_num_doc and m_num_inv
  pub char_buf : Bytes
  pub doc_buf : List (Doc W)
  pub inv_buf : List Inv
  pub index : HashVector
  -- the vectors and the map that the index is made from
  pub char_vect : Bytes
  pub doc_vect : List (Doc W)
  pub inv_vect : List Inv
  pub index_map : Map Bytes (List Inv)

abbrev pub empty_table : HashVector
empty_table = record { buckets = λ i. []; char_vect = []; words_buf = [] }

-- `m_index_map[key].push_back(inv)`.
abbrev pub push_inv : Inv → Option (List Inv) → List Inv
push_inv inv none = inv ∷ []
push_inv inv (some l) = l ++ inv ∷ []

abbrev pub Postings : Type 0
Postings = Map Bytes (List Inv)

abbrev pub push : Bytes → Inv → Postings → Postings
push key inv m = upsert (c_str key) (push_inv inv) m

-- One posting under every key.
unfoldable pub push_all : List Bytes → Inv → Postings → Postings
push_all [] inv m = m
push_all (k ∷ ks) inv m = push_all ks inv (push k inv m)

-- The keys with a posting each, at one document; postings are there for all keys.
unfoldable pub push_each : List Bytes → List Inv → ℕ → Postings → Postings
push_each [] vs doc m = m
push_each (k ∷ ks) [] doc m = m
push_each (k ∷ ks) (v ∷ vs) doc m = push_each ks vs doc (push k (record v { doc_id = doc }) m)

-- The loop of `ChangeToHVIndex`: postings go to the end of m_inv_vect, the key with their range
-- into the hash table.
unfoldable pub put_entries : Postings → List Inv × HashVector → List Inv × HashVector
put_entries [] s = s
put_entries ((key, ps) ∷ m) (vect, hv) =
    let node : Key = record { begin = length vect; end = length (vect ++ ps); word_offset = 0 } in
    put_entries m (vect ++ ps, HashVector.add_item node key hv)

module _ {ℓ} {W : Type ℓ} where
  -- `CommonIndex()` and `Clear`.
  unfoldable pub clear : CommonIndex W
  clear = record {
    char_buf = [];
    doc_buf = [];
    inv_buf = [];
    index = empty_table;
    char_vect = [];
    doc_vect = [];
    inv_vect = [];
    index_map = [];
  }

  -- What the three `Add` begin with: the text and the document node.
  unfoldable pub add_doc : Doc W → Bytes → CommonIndex W → CommonIndex W
  add_doc doc text ix = record ix {
    char_vect = ix.char_vect ++ (c_str text ++ 0 ∷ []);
    doc_vect = ix.doc_vect ++ record doc { word_offset = length ix.char_vect } ∷ [];
  }

  -- `Add` of one key.
  unfoldable pub add_one : Bytes → Inv → Doc W → Bytes → CommonIndex W → CommonIndex W
  add_one key inv doc text ix =
      let ix1 = add_doc doc text ix in
      record ix1 { index_map = push key (record inv { doc_id = length ix.doc_vect }) ix1.index_map }

  -- `Add` of several keys with one posting node.
  unfoldable pub add_shared : List Bytes → Inv → Doc W → Bytes → CommonIndex W → CommonIndex W
  add_shared keys inv doc text ix =
      let ix1 = add_doc doc text ix in
      record ix1 {
        index_map = push_all keys (record inv { doc_id = length ix.doc_vect }) ix1.index_map;
      }

  -- `Add` of several keys with a posting node each.
  unfoldable pub add : List Bytes → List Inv → Doc W → Bytes → CommonIndex W → CommonIndex W
  add keys vs doc text ix =
      let ix1 = add_doc doc text ix in
      record ix1 { index_map = push_each keys vs (length ix.doc_vect) ix1.index_map }

  -- `ChangeToHVIndex(false)`.
  unfoldable pub change_to_hv_index : CommonIndex W → CommonIndex W
  change_to_hv_index ix =
      let (vect, hv) = put_entries ix.index_map (ix.inv_vect, ix.index) in
      record ix { inv_vect = vect; index = HashVector.sort hv }

  -- what `Save` writes
  unfoldable pub write_index : CommonIndex W → List (Item W)
  write_index ix =
      int (length ix.char_vect)
      ∷ chars ix.char_vect
      ∷ int (length ix.doc_vect)
      ∷ docs ix.doc_vect
      ∷ int (length ix.inv_vect)
      ∷ invs ix.inv_vect
      ∷ write_file ix.index

  -- `Save`: the file.
  unfoldable pub save : CommonIndex W → List (Item W)
  save ix = write_index (change_to_hv_index ix)

  -- `Load`, which clears first; `none` is the result -1.
  unfoldable pub load : List (Item W) → Option (CommonIndex W)
  load (int nc ∷ chars cs ∷ int nd ∷ docs ds ∷ int ni ∷ invs is ∷ f) =
      if length cs == nc
      then (if length ds == nd
          then (if length is == ni
              then elim (read_in_file clear.index f) [
                | none ↦ none
                | some hv ↦
                    some (record clear { char_buf = cs; doc_buf = ds; inv_buf = is; index = hv })
              ]
              else none)
          else none)
      else none
  load _ = none

  -- `GetInv`: the postings from m_inv_buf + begin on, `num_inv` of them; `none` for NULL, where
  -- `num_inv` is left alone.
  unfoldable pub get_inv : CommonIndex W → Bytes → Option (List Inv)
  get_inv ix key_word = elim (HashVector.find ix.index key_word) [
    | none ↦ none
    | some k ↦ some (take (k.end - k.begin) (drop k.begin ix.inv_buf))
  ]

  -- `GetDoc`; `none` for a document number that is out of range.
  unfoldable pub get_doc : CommonIndex W → Inv → Option (Doc W)
  get_doc ix inv = get_elem? ix.doc_buf inv.doc_id

  -- `GetDocText`.
  unfoldable pub get_doc_text : CommonIndex W → Doc W → Bytes
  get_doc_text ix doc = word_at ix.char_buf doc.word_offset
