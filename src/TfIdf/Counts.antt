-- ===== src/TfIdf/Counts.antt =====
-- What the counters of `TF_IDF` hold.
use Prim.Native.Nat.{Ordering}
use Prim.Native.Nat.Ordering.{lt, eq}
use dlg_service.Prelude.{
  ℕ, ◌+◌, ◌≤◌, ◌≡◌, refl, ap, ◌∙◌, List, [], ◌∷◌, arith, Bytes, bytes_eq, bytes_eq→eq,
  bytes_eq_refl, true, false, Bool-cases, inl, inr, if◌then◌else◌, Map, lookup, upsert,
  upsert-IsSorted, bytes_ord, keys, IsAbove, IsSorted, lookup-upsert_bytes, increment, count_of,
  count_of-increment, length, has, strcmp, strcmp_refl, strcmp_trans, strcmp-eq, ltb, ◌||◌,
}
use dlg_service.TfIdf.{
  TfIdf, count_words, mark_words, one, line_words, train_line, train_data_count, start,
}

-- how often a word occurs in a list
unfoldable pub occurrences : Bytes → List Bytes → ℕ
occurrences w [] = 0
occurrences w (k ∷ ks) = (if bytes_eq k w then 1 else 0) + occurrences w ks

-- how often it occurs in all lines
unfoldable pub total : Bytes → List Bytes → ℕ
total w [] = 0
total w (line ∷ lines) = occurrences w (line_words line) + total w lines

-- in how many lines it occurs
unfoldable pub containing : Bytes → List Bytes → ℕ
containing w [] = 0
containing w (line ∷ lines) =
    (if ltb 0 (occurrences w (line_words line)) then 1 else 0) + containing w lines

count_words-occurrences :
    (w : Bytes) (ks : List Bytes) (m : Map Bytes ℕ)
    → count_of (lookup w (count_words ks m)) ≡ occurrences w ks + count_of (lookup w m)
unfolding count_words occurrences
count_words-occurrences w [] m = omega arith
count_words-occurrences w (k ∷ ks) m =
    omega (arith, count_words-occurrences w ks (upsert k increment m), count_of-increment w k m)

mark_words-has :
    (w : Bytes) (ks : List Bytes) (m : Map Bytes ℕ)
    → has (lookup w (mark_words ks m)) ≡ (ltb 0 (occurrences w ks) || has (lookup w m))
unfolding mark_words occurrences
mark_words-has w [] m = refl
mark_words-has w (k ∷ ks) m = elim (Bool-cases (bytes_eq k w)) [
  | inl e ↦
      let here : has (lookup w (upsert k one m)) ≡ true =
        rw (lookup-upsert_bytes w k one m, e) refl in
      ground (arith, mark_words-has w ks (upsert k one m))
  | inr n ↦
      let same : has (lookup w (upsert k one m)) ≡ has (lookup w m) =
        rw (lookup-upsert_bytes w k one m, n) refl in
      ground (arith, mark_words-has w ks (upsert k one m))
]

mark_words-IsSorted : (ks : List Bytes) (m : Map Bytes ℕ) → IsSorted m → IsSorted (mark_words ks m)
unfolding mark_words
mark_words-IsSorted [] m s = s
mark_words-IsSorted (k ∷ ks) m s =
    mark_words-IsSorted ks (upsert k one m) (upsert-IsSorted k one m s)

IsAbove-lower : (u k : Bytes) (es : Map Bytes ℕ) → strcmp u k ≡ lt → IsAbove k es → IsAbove u es
IsAbove-lower u k [] h b = tt
IsAbove-lower u k ((i, x) ∷ es) h b = (strcmp_trans u k i h b.0, b.1)

-- a key below the keys of a map does not occur among them
occurrences-IsAbove : (w : Bytes) (m : Map Bytes ℕ) → IsAbove w m → occurrences w (keys m) ≡ 0
unfolding occurrences
occurrences-IsAbove w [] a = refl
occurrences-IsAbove w ((j, v) ∷ m) a = elim (Bool-cases (bytes_eq j w)) [
  | inl e ↦ absurd (clash (bytes_eq→eq j w e))
  | inr n ↦ rw n (omega (arith, occurrences-IsAbove w m (IsAbove-lower w j m a.0 a.1)))
]
  where
    clash : j ≡ w → ⊥
    clash e = ground (arith, a.0, strcmp_refl w)

occurrences-IsSorted :
    (w : Bytes) (m : Map Bytes ℕ)
    → IsSorted m
    → occurrences w (keys m) ≡ (if has (lookup w m) then 1 else 0)
unfolding occurrences lookup
occurrences-IsSorted w [] a = refl
occurrences-IsSorted w ((k, v) ∷ m) a = elim (Bool-cases (bytes_eq k w)) [
  | inl e ↦
      let same : strcmp w k ≡ eq = rw (bytes_eq→eq k w e) (strcmp_refl w) in
      let above : IsAbove w m = rw⁻¹ (bytes_eq→eq k w e) a in
      rw (e, same, lookup) (omega (arith, occurrences-IsAbove w m above))
  | inr n ↦ cases (strcmp w k) refl n (occurrences-IsSorted w m (tail k m a))
]
  where
    tail : (k : Bytes) (es : Map Bytes ℕ) → IsAbove k es → IsSorted es
    tail k [] b = tt
    tail k ((i, x) ∷ es) b = b.1

    cases :
        (c : Ordering)
        → strcmp w k ≡ c
        → bytes_eq k w ≡ false
        → occurrences w (keys m) ≡ (if has (lookup w m) then 1 else 0)
        → occurrences w (k ∷ keys m) ≡ (if has (lookup w ((k, v) ∷ m)) then 1 else 0)
    cases Ordering.lt e n ih =
        rw (e, lookup, n) (omega (arith, occurrences-IsAbove w m (IsAbove-lower w k m e a)))
    cases Ordering.eq e n ih = absurd (ground (arith, strcmp-eq w k e, bytes_eq_refl k))
    cases Ordering.gt e n ih = rw (e, lookup, n) (omega (arith, ih))

module _ (w : Bytes) where
  df_line :
      (ws : List Bytes) (m : Map Bytes ℕ)
      → count_of (lookup w (count_words (keys (mark_words ws [])) m))
        ≡ (if ltb 0 (occurrences w ws) then 1 else 0) + count_of (lookup w m)
  df_line ws m =
      let marked : has (lookup w (mark_words ws [])) ≡ ltb 0 (occurrences w ws) =
        mark_words-has w ws [] ∙ (unfold lookup in ground arith) in
      count_words-occurrences w (keys (mark_words ws [])) m
      ∙ ap (λ n. n + count_of (lookup w m))
          (occurrences-IsSorted w (mark_words ws []) (mark_words-IsSorted ws [] tt)
            ∙ ap (λ b. if b then 1 else 0) marked)

  train-counts :
      (lines : List Bytes) (t : TfIdf)
      → ((train_data_count lines t).num_doc ≡ length lines + t.num_doc)
        × (count_of (lookup w (train_data_count lines t).tf)
            ≡ total w lines + count_of (lookup w t.tf))
        × (count_of (lookup w (train_data_count lines t).df)
            ≡ containing w lines + count_of (lookup w t.df))
  unfolding train_data_count train_line total containing
  train-counts [] t = (omega arith, omega arith, omega arith)
  train-counts (line ∷ lines) t =
      let (n, f, d) = train-counts lines (train_line line t) in
      (
        omega (arith, n),
        omega (arith, f, count_words-occurrences w (line_words line) t.tf),
        omega (arith, d, df_line (line_words line) t.df),
      )

  -- After reading lines into fresh counters: num_doc is the number of the lines, tf of a word the
  -- number of its occurrences in all lines, and df of a word the number of the lines that it is in.
  pub train_data_count-counts :
      (lines : List Bytes)
      → ((train_data_count lines start).num_doc ≡ length lines)
        × (count_of (lookup w (train_data_count lines start).tf) ≡ total w lines)
        × (count_of (lookup w (train_data_count lines start).df) ≡ containing w lines)
  train_data_count-counts lines =
      let (n, f, d) = train-counts lines start in
      (omega (arith, n), f ∙ nothing (total w lines), d ∙ nothing (containing w lines))
    where
      nothing : (k : ℕ) → k + count_of (lookup w []) ≡ k
      nothing k = unfold lookup in omega arith

  containing-le :
      (lines : List Bytes)
      → (containing w lines ≤ total w lines) × (containing w lines ≤ length lines)
  unfolding containing total
  containing-le [] = (omega arith, omega arith)
  containing-le (line ∷ lines) =
      (ground (arith, containing-le lines), ground (arith, containing-le lines))

  -- A word's df is at most its tf and at most num_doc.
  pub df-le :
      (lines : List Bytes)
      → let t = train_data_count lines start in
        (count_of (lookup w t.df) ≤ count_of (lookup w t.tf))
        × (count_of (lookup w t.df) ≤ t.num_doc)
  df-le lines =
      let (n, f, d) = train_data_count-counts lines in
      (omega (arith, f, d, containing-le lines), omega (arith, n, d, containing-le lines))
