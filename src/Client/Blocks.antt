-- ===== src/Client/Blocks.antt =====
-- A connection as the bytes that are still to come, and the block that `readn_timeout` reads from it.
use Prim.Native.Nat.{min}
use dlg_service.Prelude.{
  ℕ, zero, suc, ◌+◌, ◌-◌, ◌≤◌, ◌<◌, ◌≡◌, ◌≢◌, refl, ap, ◌∙◌, sym, List, [], ◌∷◌, ◌++◌, ◌==◌, ◌&&◌,
  Bytes, false, length, take, drop, arith, Bool-cases, inl, inr, some, none, find, starts_with,
  starts_with-nil, starts_with-take,
}
use mathlib.Core.List.{append_assoc, append-nil}
use dlg_service.Client.{read_buf_size, readn_loop, readn}

-- What `read_data` does to the bytes to come: it takes the first ones, at most as many as are asked for,
-- and at least one if there is one.
pub record IsStream {ℓ} {S : Type ℓ} (read_data : ℕ → S → Bytes × S) (contents : S → Bytes)
    : Type ℓ where
  pub takes : (len : ℕ) (s : S) → (read_data len s).0 ++ contents (read_data len s).1 ≡ contents s
  pub at_most : (len : ℕ) (s : S) → length (read_data len s).0 ≤ len
  pub at_least :
      (len : ℕ) (s : S) → 0 < len → 0 < length (contents s) → 0 < length (read_data len s).0

module _ {ℓ} {A : Type ℓ} where
  pub take_prefix :
      (n : ℕ) (xs ys : List A) → length xs ≤ n → take n (xs ++ ys) ≡ xs ++ take (n - length xs) ys
  take_prefix n [] ys h = let e : n ≡ n - 0 = omega arith in ap (λ k. take k ys) e
  take_prefix zero (x ∷ xs) ys h = absurd (omega arith)
  take_prefix (suc n) (x ∷ xs) ys h =
      let e : n - length xs ≡ suc n - length (x ∷ xs) = omega arith in
      ap (λ l. x ∷ l) (take_prefix n xs ys (omega arith) ∙ ap (λ k. xs ++ take k ys) e)

  pub drop_prefix :
      (n : ℕ) (xs ys : List A) → length xs ≤ n → drop n (xs ++ ys) ≡ drop (n - length xs) ys
  drop_prefix n [] ys h = let e : n ≡ n - 0 = omega arith in ap (λ k. drop k ys) e
  drop_prefix zero (x ∷ xs) ys h = absurd (omega arith)
  drop_prefix (suc n) (x ∷ xs) ys h =
      let e : n - length xs ≡ suc n - length (x ∷ xs) = omega arith in
      drop_prefix n xs ys (omega arith) ∙ ap (λ k. drop k ys) e

  nothing : (xs : List A) → length xs ≡ 0 → xs ≡ []
  nothing [] h = refl
  nothing (x ∷ xs) h = absurd (omega arith)

  pub take_nothing : (n : ℕ) (xs : List A) → length xs ≡ 0 → take n xs ≡ []
  take_nothing zero xs h = refl
  take_nothing (suc n) [] h = refl
  take_nothing (suc n) (x ∷ xs) h = absurd (omega arith)

  pub take_more : (n m : ℕ) (xs : List A) → take n xs ++ take m (drop n xs) ≡ take (n + m) xs
  take_more n m xs = up_to n (n + m) xs refl
    where
      up_to : (i l : ℕ) (ys : List A) → l ≡ i + m → take i ys ++ take m (drop i ys) ≡ take l ys
      up_to zero l ys e = let same : m ≡ l = omega arith in ap (λ k. take k ys) same
      up_to (suc i) zero ys e = absurd (omega arith)
      up_to (suc i) (suc l) [] e = take_nothing m [] refl
      up_to (suc i) (suc l) (x ∷ ys) e = ap (λ r. x ∷ r) (up_to i l ys (omega arith))

  pub take_less : (n m : ℕ) (xs : List A) → n ≤ m → take n (take m xs) ≡ take n xs
  take_less zero m xs h = refl
  take_less (suc n) zero xs h = absurd (omega arith)
  take_less (suc n) (suc m) [] h = refl
  take_less (suc n) (suc m) (x ∷ xs) h = ap (λ r. x ∷ r) (take_less n m xs (omega arith))

  pub drop-take : (n m : ℕ) (xs : List A) → n ≤ m → drop n (take m xs) ≡ take (m - n) (drop n xs)
  drop-take zero m xs h = let same : m ≡ m - 0 = omega arith in ap (λ k. take k xs) same
  drop-take (suc n) zero xs h = absurd (omega arith)
  drop-take (suc n) (suc m) [] h = sym (take_nothing (suc m - suc n) [] refl)
  drop-take (suc n) (suc m) (x ∷ xs) h =
      let same : m - n ≡ suc m - suc n = omega arith in
      drop-take n m xs (omega arith) ∙ ap (λ k. take k (drop n xs)) same

  pub drop_nothing : (n : ℕ) (xs : List A) → length xs ≡ 0 → drop n xs ≡ xs
  drop_nothing zero xs h = refl
  drop_nothing (suc n) [] h = refl
  drop_nothing (suc n) (x ∷ xs) h = absurd (omega arith)

module _ {ℓ} {S : Type ℓ} {read_data : ℕ → S → Bytes × S} {contents : S → Bytes}
    (c : IsStream read_data contents) where
  readn_loop-take :
      (fuel left : ℕ) (s : S) (buf : Bytes)
      → left ≤ fuel
      → ((readn_loop read_data fuel left s buf).0 ≡ buf ++ take left (contents s))
        × (contents (readn_loop read_data fuel left s buf).1 ≡ drop left (contents s))
  unfolding readn_loop
  readn_loop-take zero zero s buf h = (sym (append-nil buf), refl)
  readn_loop-take zero (suc left) s buf h = absurd (omega arith)
  readn_loop-take (suc fuel) zero s buf h = (sym (append-nil buf), refl)
  readn_loop-take (suc fuel) (suc left) s buf h =
      let r = read_data (min (suc left) read_buf_size) s in
      let more : (suc left == 0) ≡ false = ground arith in
      let limit = c.at_most (min (suc left) read_buf_size) s in
      let whole = c.takes (min (suc left) read_buf_size) s in
      elim (Bool-cases (length r.0 == 0)) [
        | inl e ↦
            let none_read : length r.0 ≡ 0 = ground arith in
            let ended : length (contents s) ≡ 0 = at_end s none_read in
            let same : contents r.1 ≡ contents s =
              ap (λ l. l ++ contents r.1) (sym (nothing r.0 none_read)) ∙ whole in
            rw (more, e, readn_loop)
              (
                sym (append-nil buf)
                    ∙ ap (λ l. buf ++ l) (sym (take_nothing (suc left) (contents s) ended)),
                same ∙ sym (drop_nothing (suc left) (contents s) ended),
              )
        | inr e ↦
            let some_read : 0 < length r.0 = ground arith in
            let (t, d) =
              readn_loop-take fuel (suc left - length r.0) r.1 (buf ++ r.0) (omega arith) in
            rw (more, e, readn_loop)
              (
                t
                    ∙ append_assoc buf r.0 (take (suc left - length r.0) (contents r.1))
                    ∙ ap (λ l. buf ++ l)
                        (sym (take_prefix (suc left) r.0 (contents r.1) (omega arith))
                          ∙ ap (take (suc left)) whole),
                d
                    ∙ sym (drop_prefix (suc left) r.0 (contents r.1) (omega arith))
                    ∙ ap (drop (suc left)) whole,
              )
      ]
    where
      at_end :
          (s' : S)
          → length (read_data (min (suc left) read_buf_size) s').0 ≡ 0
          → length (contents s') ≡ 0
      at_end s' e =
          zero_of (length (contents s'))
            (c.at_least (min (suc left) read_buf_size) s' (omega arith))
        where
          zero_of :
              (n : ℕ) → (0 < n → 0 < length (read_data (min (suc left) read_buf_size) s').0) → n ≡ 0
          zero_of zero k = refl
          zero_of (suc n) k = absurd (omega (arith, k (omega arith)))

  -- `readn_timeout` reads the first bytes to come, as many as are asked for or as there are.
  pub readn-take :
      (need : ℕ) (s : S)
      → ((readn read_data need s).0 ≡ take need (contents s))
        × (contents (readn read_data need s).1 ≡ drop need (contents s))
  unfolding readn
  readn-take need s = readn_loop-take need need s [] (omega arith)

-- An occurrence behind a place, seen from there.
pub find-drop :
    (s sub : Bytes) (k i : ℕ) → find s sub ≡ some i → k ≤ i → find (drop k s) sub ≡ some (i - k)
unfolding find starts_with
find-drop s sub zero i e h = e ∙ ap some (omega arith)
find-drop [] sub (suc k) i e h = ground arith
find-drop (x ∷ s) sub (suc k) zero e h = absurd (omega arith)
find-drop (x ∷ s) sub (suc k) (suc i) e h = ground (arith, find-drop s sub k i)

starts_with-take_enough :
    (s p : Bytes) (k : ℕ) → length p ≤ k → starts_with (take k s) p ≡ starts_with s p
unfolding starts_with
starts_with-take_enough [] p zero h = refl
starts_with-take_enough [] p (suc k) h = refl
starts_with-take_enough (x ∷ s) [] zero h = refl
starts_with-take_enough (x ∷ s) [] (suc k) h = refl
starts_with-take_enough (x ∷ s) (y ∷ p) zero h = absurd (omega arith)
starts_with-take_enough (x ∷ s) (y ∷ p) (suc k) h =
    ap (λ b. (x == y) && b) (starts_with-take_enough s p k (omega arith))

-- The first occurrence is the first in every beginning that holds it, and a shorter one has none.
pub find-take_whole :
    (s sub : Bytes) (k i : ℕ)
    → find s sub ≡ some i
    → i + length sub ≤ k
    → find (take k s) sub ≡ some i
unfolding find starts_with
find-take_whole [] sub zero i e h = e
find-take_whole [] sub (suc k) i e h = e
find-take_whole (x ∷ s) [] zero i e h = e
find-take_whole (x ∷ s) (y ∷ sub) zero i e h = absurd (omega arith)
find-take_whole (x ∷ s) sub (suc k) zero e h =
    ground (arith, starts_with-take_enough (x ∷ s) sub (suc k) (omega arith))
find-take_whole (x ∷ s) sub (suc k) (suc i) e h =
    ground (arith, starts_with-take_enough (x ∷ s) sub (suc k), find-take_whole s sub k i)

pub find-take_short :
    (s sub : Bytes) (k i : ℕ) → sub ≢ [] → find s sub ≡ some i → k ≤ i → find (take k s) sub ≡ none
unfolding find starts_with
find-take_short s sub zero i n e h = empty_none sub n s
  where
    empty_none : (q : Bytes) → q ≢ [] → (r : Bytes) → find (take 0 r) q ≡ none
    empty_none [] m r = absurd (m refl)
    empty_none (y ∷ q) m [] = refl
    empty_none (y ∷ q) m (x ∷ r) = refl
find-take_short [] sub (suc k) i n e h = ground (arith, starts_with-nil sub n)
find-take_short (x ∷ s) sub (suc k) zero n e h = absurd (omega arith)
find-take_short (x ∷ s) sub (suc k) (suc i) n e h =
    ground (arith, starts_with-take (x ∷ s) sub (suc k), find-take_short s sub k i n)
