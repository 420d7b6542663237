-- ===== src/Index/CommonIndex/Saved.antt =====
-- An index that was built, saved and loaded answers as the map of posting lists it was built from.
use dlg_service.Prelude.{
  ℕ, ◌≡◌, refl, sym, ap, ◌∙◌, Option, some, List, [], ◌∷◌, arith, Bytes, Option-cases, inl, inr,
  length, get_or, subst, ==_refl, lookup, IsSorted, bytes_ord, upsert, strcmp,
}
use Prim.Native.Nat.{Ordering}
use mathlib.Core.Option
use dlg_service.Index.Types.{Key, Inv, c_str}
use dlg_service.Index.HashVector
use dlg_service.Index.HashVector.{HashVector, get_hash_value, hash_basic, store}
use dlg_service.Index.HashVector.Sort.{q_sort_sorted}
use dlg_service.Index.HashVector.File.{relay, write_file, read_in_file, read_buckets, bucket_items}
use dlg_service.Index.CommonIndex.{
  CommonIndex, Postings, empty_table, put_entries, change_to_hv_index, write_index, save, load,
  get_inv, clear,
}
use dlg_service.Index.CommonIndex.Rep.{
  Rep, in_bucket, words_size, Represents, put_entries-Represents, empty-Represents,
}
use dlg_service.Index.CommonIndex.Lookup.{
  AreCStrings, Rep-Ascends, find-lookup, range, in_bucket-IsSorted, in_bucket-AreCStrings,
}
use dlg_service.Index.CommonIndex.Relay.{
  AllRelaid, relay-AllRelaid, read_buckets-items, range_size-words_size, get_hash_value-lt,
}

-- what is read back from the file that was written
abbrev ReadsBack {ℓ} : (W : Type ℓ) (hv0 hv : HashVector) (vect : List Inv) (es : Postings) → Type 0
ReadsBack W hv0 hv vect es =
    (hv' : HashVector) × (read_in_file {W = W} hv0 (write_file hv) ≡ some hv')
    × ((w : Bytes)
        → Rep hv'.words_buf vect (hv'.buckets (get_hash_value w)) (in_bucket (get_hash_value w) es))

module _ {ℓ} (W : Type ℓ) (hv0 hv : HashVector) (vect : List Inv) (es : Postings)
    (reps : (h : ℕ) → Rep hv.char_vect vect (hv.buckets h) (in_bucket h es))
    (sized : length hv.char_vect ≡ words_size es) where
  laid : AllRelaid vect [] hash_basic 0 es (relay hv.char_vect hv.buckets hash_basic 0 [])
  laid = relay-AllRelaid hv.char_vect vect hv.buckets es reps hash_basic 0 []

  abbrev vs : List (List Key)
  vs = (relay hv.char_vect hv.buckets hash_basic 0 []).0

  abbrev out : Bytes
  out = (relay hv.char_vect hv.buckets hash_basic 0 []).1

  length-out : length out ≡ length hv.char_vect
  length-out =
      ap length laid.behind ∙ laid.sized ∙ range_size-words_size hash_basic es refl ∙ sym sized

  read_in_file-write_file : ReadsBack W hv0 hv vect es
  unfolding read_in_file write_file
  read_in_file-write_file =
      let (bk', e, before, behind) = read_buckets-items W vs 0 hv0.buckets in
      let e' : read_buckets {W = W} hash_basic hv0.buckets (bucket_items 0 vs) ≡ some bk' =
        subst (λ n. read_buckets {W = W} n hv0.buckets (bucket_items 0 vs) ≡ some bk') laid.counted
          e in
      (
        record hv0 { words_buf = out; buckets = bk' },
        rw (length-out, ==_refl (length hv.char_vect), e'),
        λ w.
            let h = get_hash_value w in
            subst (λ b. Rep out vect b (in_bucket h es))
              (sym (behind h (omega (arith, laid.counted, get_hash_value-lt w)))
                ∙ ap bk' (omega arith))
              (subst (λ k. Rep out vect (get_or vs h []) (in_bucket k es)) (omega arith)
                (laid.stands h (get_hash_value-lt w))),
      )

load-write_index {ℓ} :
    {W : Type ℓ} (ix : CommonIndex W) {hv : HashVector}
    → read_in_file (clear {W = W}).index (write_file {W = W} ix.index) ≡ some hv
    → load (write_index ix)
      ≡ some (record (clear {W = W}) {
        char_buf = ix.char_vect;
        doc_buf = ix.doc_vect;
        inv_buf = ix.inv_vect;
        index = hv;
      })
unfolding load write_index
load-write_index ix e =
    rw
      (==_refl (length ix.char_vect), ==_refl (length ix.doc_vect), ==_refl (length ix.inv_vect), e)

-- an index that documents are being added to
pub record IsBuilt {ℓ} {W : Type ℓ} (ix : CommonIndex W) : Type ℓ where
  pub fresh_index : ix.index ≡ empty_table
  pub fresh_invs : ix.inv_vect ≡ []
  pub sorted : IsSorted ix.index_map
  pub strings : AreCStrings ix.index_map

pub upsert-AreCStrings :
    (k : Bytes) (f : Option (List Inv) → List Inv) (m : Postings)
    → c_str k ≡ k
    → AreCStrings m
    → AreCStrings (upsert k f m)
unfolding upsert
upsert-AreCStrings k f [] h a = (h, tt)
upsert-AreCStrings k f ((j, v) ∷ m) h a = go (strcmp k j) refl (upsert-AreCStrings k f m h a.1)
  where
    go :
        (c : Ordering)
        → strcmp k j ≡ c
        → AreCStrings (upsert k f m)
        → AreCStrings (upsert k f ((j, v) ∷ m))
    go Ordering.lt e ih = rw (e, upsert) (h, a)
    go Ordering.eq e ih = rw (e, upsert) a
    go Ordering.gt e ih = rw (e, upsert) (a.0, ih)

module _ {ℓ} {W : Type ℓ} (ix : CommonIndex W) (built : IsBuilt ix) where
  abbrev entries : List Inv × HashVector
  entries = put_entries ix.index_map ([], empty_table)

  entries-Represents : Represents entries.0 entries.1 ix.index_map
  entries-Represents = put_entries-Represents ix.index_map [] empty_table [] empty-Represents

  sort-Rep :
      (h : ℕ)
      → Rep
          (HashVector.sort entries.1).char_vect
          entries.0
          ((HashVector.sort entries.1).buckets h)
          (in_bucket h ix.index_map)
  unfolding HashVector.sort
  sort-Rep h =
      let r = entries-Represents.nodes h in
      rw
        (q_sort_sorted _ _ (
          Rep-Ascends _ _ _ _ r (in_bucket-AreCStrings h ix.index_map built.strings)
            (in_bucket-IsSorted h ix.index_map built.sorted)))
        r

  change_lem :
      change_to_hv_index ix ≡ record ix { inv_vect = entries.0; index = HashVector.sort entries.1 }
  unfolding change_to_hv_index
  change_lem = rw (built.fresh_index, built.fresh_invs)

  table-ReadsBack :
      ReadsBack W (clear {W = W}).index (HashVector.sort entries.1) entries.0 ix.index_map
  table-ReadsBack =
      read_in_file-write_file W _ (HashVector.sort entries.1) entries.0 ix.index_map sort-Rep
        (unfold HashVector.sort in entries-Represents.sized)

  get_inv-eq-map :
      (loaded : CommonIndex W) (w : Bytes)
      → get_inv loaded w
        ≡ Option.map (range loaded.index.words_buf loaded.inv_buf) (HashVector.find loaded.index w)
  unfolding get_inv
  get_inv-eq-map loaded w = elim (Option-cases (HashVector.find loaded.index w)) [
    | inl e ↦ rw (e, get_inv)
    | inr (k, e) ↦ rw (e, get_inv)
  ]

  -- An index whose table and vector of postings are still empty, whose map is sorted and whose words are
  -- C strings, as the adding of documents leaves it, saved and loaded: the load succeeds, gives back
  -- the texts and the documents, and finds for every word exactly the posting list gathered for it.
  pub load-save :
      (loaded : CommonIndex W) × (load (save ix) ≡ some loaded)
      × (loaded.char_buf ≡ ix.char_vect)
      × (loaded.doc_buf ≡ ix.doc_vect)
      × ((w : Bytes) → get_inv loaded w ≡ lookup (c_str w) ix.index_map)
  unfolding save
  load-save =
      let (hv', e, reps) = table-ReadsBack in
      let loaded : CommonIndex W = record (clear {W = W}) {
        char_buf = ix.char_vect;
        doc_buf = ix.doc_vect;
        inv_buf = entries.0;
        index = hv';
      } in
      (
        loaded,
        ap (λ u. load (write_index u)) change_lem ∙ load-write_index _ e,
        refl,
        refl,
        λ w.
            get_inv-eq-map loaded w
            ∙ find-lookup hv' entries.0 ix.index_map w (reps w) built.strings built.sorted,
      )
