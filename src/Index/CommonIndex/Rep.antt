-- ===== src/Index/CommonIndex/Rep.antt =====
-- How the nodes of a bucket stand for entries of the map of posting lists, and that the loop of
-- `ChangeToHVIndex` makes them so.
use dlg_service.Prelude.{
  ℕ, ◌+◌, ◌≡◌, refl, List, [], ◌∷◌, ◌++◌, arith, Bytes, Bool-cases, inl, inr, true, ◌==◌,
  if◌then◌else◌, length, length-append, subst, ==→eq,
}
use mathlib.Core.List.{append_assoc, append-nil}
use dlg_service.Index.Types.{Key, Inv, c_str, HoldsAt, HoldsAt-append, HoldsAt-end}
use dlg_service.Index.HashVector
use dlg_service.Index.HashVector.{HashVector, get_hash_value, store}
use dlg_service.Index.CommonIndex.{Postings, put_entries, empty_table}

-- a node names the word and the range of postings of an entry
pub record Stands (words : Bytes) (vect : List Inv) (n : Key) (key : Bytes) (ps : List Inv)
    : Type 0 where
  pub named : HoldsAt words n.word_offset (c_str key ++ 0 ∷ [])
  pub ranged : HoldsAt vect n.begin ps
  pub ended : n.end ≡ n.begin + length ps

-- node by node
abbrev pub Rep : Bytes → List Inv → List Key → Postings → Type 0
Rep words vect [] [] = Unit
Rep words vect (n ∷ v) ((key, ps) ∷ es) = Stands words vect n key ps × Rep words vect v es
Rep words vect _ _ = ⊥

-- the entries whose keys fall into a bucket
unfoldable pub in_bucket : ℕ → Postings → Postings
in_bucket h [] = []
in_bucket h ((key, ps) ∷ es) =
    let rest = in_bucket h es in if get_hash_value key == h then (key, ps) ∷ rest else rest

in_bucket_snoc :
    (h : ℕ) (es : Postings) (key : Bytes) (ps : List Inv)
    → in_bucket h (es ++ (key, ps) ∷ [])
      ≡ (if get_hash_value key == h then in_bucket h es ++ (key, ps) ∷ [] else in_bucket h es)
unfolding in_bucket
in_bucket_snoc h [] key ps = refl
in_bucket_snoc h ((k, p) ∷ es) key ps = ground (arith, in_bucket_snoc h es key ps)

Stands-append :
    (words w : Bytes) (vect i : List Inv) (n : Key) (key : Bytes) (ps : List Inv)
    → Stands words vect n key ps
    → Stands (words ++ w) (vect ++ i) n key ps
Stands-append words w vect i n key ps s = record {
  named = HoldsAt-append words _ _ w s.named;
  ranged = HoldsAt-append vect _ _ i s.ranged;
  ended = s.ended;
}

pub Rep-append :
    (words w : Bytes) (vect i : List Inv) (v : List Key) (es : Postings)
    → Rep words vect v es
    → Rep (words ++ w) (vect ++ i) v es
Rep-append words w vect i [] [] r = tt
Rep-append words w vect i [] (e ∷ es) r = absurd r
Rep-append words w vect i (n ∷ v) [] r = absurd r
Rep-append words w vect i (n ∷ v) ((key, ps) ∷ es) r =
    (Stands-append words w vect i n key ps r.0, Rep-append words w vect i v es r.1)

Rep-snoc :
    (words : Bytes) (vect : List Inv) (v : List Key) (es : Postings) (n : Key) (key : Bytes)
    (ps : List Inv)
    → Rep words vect v es
    → Stands words vect n key ps
    → Rep words vect (v ++ n ∷ []) (es ++ (key, ps) ∷ [])
Rep-snoc words vect [] [] n key ps r s = (s, tt)
Rep-snoc words vect [] (e ∷ es) n key ps r s = absurd r
Rep-snoc words vect (m ∷ v) [] n key ps r s = absurd r
Rep-snoc words vect (m ∷ v) ((k, p) ∷ es) n key ps r s =
    (r.0, Rep-snoc words vect v es n key ps r.1 s)

-- the bytes that the words of entries take, each with its NUL
unfoldable pub words_size : Postings → ℕ
words_size [] = 0
words_size ((key, ps) ∷ es) = length (c_str key) + 1 + words_size es

words_size_snoc :
    (es : Postings) (key : Bytes) (ps : List Inv)
    → words_size (es ++ (key, ps) ∷ []) ≡ words_size es + (length (c_str key) + 1)
unfolding words_size
words_size_snoc [] key ps = omega arith
words_size_snoc ((k, p) ∷ es) key ps = omega (arith, words_size_snoc es key ps)

-- a table and a vector of postings stand for entries
pub record Represents (vect : List Inv) (hv : HashVector) (es : Postings) : Type 0 where
  pub nodes : (h : ℕ) → Rep hv.char_vect vect (hv.buckets h) (in_bucket h es)
  pub sized : length hv.char_vect ≡ words_size es

module _ (vect : List Inv) (hv : HashVector) (es : Postings) (key : Bytes) (ps : List Inv) where
  abbrev node : Key
  node = record { begin = length vect; end = length (vect ++ ps); word_offset = 0 }

  abbrev hv' : HashVector
  hv' = HashVector.add_item node key hv

  abbrev placed : Key
  placed = record node { word_offset = length hv.char_vect }

  placed-Stands : Stands (hv.char_vect ++ (c_str key ++ 0 ∷ [])) (vect ++ ps) placed key ps
  placed-Stands = record {
    named = HoldsAt-end hv.char_vect (c_str key ++ 0 ∷ []);
    ranged = HoldsAt-end vect ps;
    ended = length-append vect ps;
  }

  add_item-nodes :
      Represents vect hv es
      → (h : ℕ)
      → Rep hv'.char_vect (vect ++ ps) (hv'.buckets h) (in_bucket h (es ++ (key, ps) ∷ []))
  unfolding HashVector.add_item store
  add_item-nodes r h = elim (Bool-cases (get_hash_value key == h)) [
    | inl here ↦
        rw (in_bucket_snoc, here)
          (Rep-snoc _ _ _ _ placed key ps (Rep-append hv.char_vect _ vect ps _ _ (same here))
            placed-Stands)
    | inr away ↦ rw (in_bucket_snoc, away) (Rep-append hv.char_vect _ vect ps _ _ (r.nodes h))
  ]
    where
      same :
          (get_hash_value key == h) ≡ true
          → Rep hv.char_vect vect (hv.buckets (get_hash_value key)) (in_bucket h es)
      same here =
          subst (λ g. Rep hv.char_vect vect (hv.buckets (get_hash_value key)) (in_bucket g es))
            (==→eq _ _ here) (r.nodes (get_hash_value key))

  add_item-Represents : Represents vect hv es → Represents (vect ++ ps) hv' (es ++ (key, ps) ∷ [])
  unfolding HashVector.add_item
  add_item-Represents r = record {
    nodes = add_item-nodes r;
    sized = omega (
      arith,
      length-append hv.char_vect (c_str key ++ 0 ∷ []),
      length-append (c_str key) (0 ∷ []),
      words_size_snoc es key ps,
      r.sized,
    );
  }

-- The loop of `ChangeToHVIndex` adds the entries of the map to those that the table stands for.
pub put_entries-Represents :
    (m : Postings) (vect : List Inv) (hv : HashVector) (es : Postings)
    → Represents vect hv es
    → let (vect', hv') = put_entries m (vect, hv) in Represents vect' hv' (es ++ m)
unfolding put_entries
put_entries-Represents [] vect hv es r = rw append-nil r
put_entries-Represents ((key, ps) ∷ m) vect hv es r = rw (← append_assoc es ((key, ps) ∷ []) m) (
    put_entries-Represents m (vect ++ ps) _ (es ++ (key, ps) ∷ [])
      (add_item-Represents vect hv es key ps r))

pub empty-Represents : Represents [] empty_table []
unfolding in_bucket words_size
empty-Represents = record { nodes = λ h. tt; sized = refl }
