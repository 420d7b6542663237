-- ===== src/Server/Response/Buffer.antt =====
-- What `snprintf` and `memcpy` leave in the buffer of `dump_to_buff`.
use dlg_service.Prelude.{
  ℕ, zero, suc, ◌+◌, ◌-◌, ◌≤◌, ◌<◌, ◌≡◌, refl, ap, ◌∙◌, [], ◌∷◌, ◌++◌, ltb, ◌==◌, ==_refl,
  if◌then◌else◌, Bytes, true, false, length, length-append, take, arith,
}
use dlg_service.Server.Response.{dumped, store_bytes, printed, print_at}

-- `n` bytes of the buffer.
unfoldable pub bytes_of : (ℕ → ℕ) → ℕ → ℕ → Bytes
bytes_of dest at' zero = []
bytes_of dest at' (suc n) = dest at' ∷ bytes_of dest (suc at') n

store_bytes_lt :
    (s : Bytes) (k : ℕ) (dest : ℕ → ℕ) (i : ℕ) → i < k → store_bytes k s dest i ≡ dest i
unfolding store_bytes
store_bytes_lt [] k dest i l = refl
store_bytes_lt (c ∷ s) k dest i l =
    let ne : (i == k) ≡ false = ground arith in
    store_bytes_lt s (suc k) (λ j. if j == k then c else dest j) i (omega arith) ∙ rw ne refl

pub bytes_of_before :
    (n at' k : ℕ) (s : Bytes) (dest : ℕ → ℕ)
    → at' + n ≤ k
    → bytes_of (store_bytes k s dest) at' n ≡ bytes_of dest at' n
unfolding bytes_of
bytes_of_before zero at' k s dest h = refl
bytes_of_before (suc n) at' k s dest h =
    ap (λ c. c ∷ bytes_of (store_bytes k s dest) (suc at') n)
      (store_bytes_lt s k dest at' (omega arith))
    ∙ ap (λ l. dest at' ∷ l) (bytes_of_before n (suc at') k s dest (omega arith))

bytes_of_stored :
    (s t : Bytes) (k : ℕ) (dest : ℕ → ℕ) → bytes_of (store_bytes k (s ++ t) dest) k (length s) ≡ s
unfolding bytes_of store_bytes
bytes_of_stored [] t k dest = refl
bytes_of_stored (c ∷ s) t k dest =
    let put = λ (j : ℕ). if j == k then c else dest j in
    ap (λ b. b ∷ bytes_of (store_bytes (suc k) (s ++ t) put) (suc k) (length s))
      (store_bytes_lt (s ++ t) (suc k) put k (omega arith) ∙ rw (==_refl k) refl)
    ∙ ap (λ l. c ∷ l) (bytes_of_stored s t (suc k) put)

bytes_of_split :
    (n m l at' k : ℕ) (dest : ℕ → ℕ)
    → l ≡ n + m
    → k ≡ at' + n
    → bytes_of dest at' l ≡ bytes_of dest at' n ++ bytes_of dest k m
unfolding bytes_of
bytes_of_split zero m l at' k dest e f =
    let same : l ≡ m = omega arith in
    let same' : at' ≡ k = omega arith in
    ap (bytes_of dest at') same ∙ ap (λ i. bytes_of dest i m) same'
bytes_of_split (suc n) m zero at' k dest e f = absurd (omega arith)
bytes_of_split (suc n) m (suc l) at' k dest e f =
    ap (λ s. dest at' ∷ s) (bytes_of_split n m l (suc at') k dest (omega arith) (omega arith))

pub take_all : (n : ℕ) (s : Bytes) → length s ≤ n → take n s ≡ s
take_all zero [] l = refl
take_all zero (c ∷ s) l = absurd (omega arith)
take_all (suc n) [] l = refl
take_all (suc n) (c ∷ s) l = ap (λ r. c ∷ r) (take_all n s (omega arith))

-- The buffer holds a text, as far as it was not cut.
pub record IsWritten (max_dest_len : ℕ) (text : Bytes) (dest : ℕ → ℕ) (h : ℕ) : Type 0 where
  pub size : length text ≡ h
  pub bytes : h < max_dest_len → bytes_of dest 0 h ≡ text

module _ (max_dest_len : ℕ) where
  pub stored-IsWritten :
      (before text behind : Bytes) (dest : ℕ → ℕ) (h : ℕ)
      → IsWritten max_dest_len before dest h
      → (h + length text < max_dest_len → (s : Bytes) × (behind ≡ text ++ s))
      → IsWritten max_dest_len (before ++ text) (store_bytes h behind dest) (h + length text)
  stored-IsWritten before text behind dest h w e = record {
    size = omega (arith, length-append before text, w.size);
    bytes = λ l.
        let (s, q) = e l in
        rw q (
          bytes_of_split h (length text) (h + length text) 0 h (store_bytes h (text ++ s) dest) refl
            (omega arith)
          ∙ ap (λ b. b ++ bytes_of (store_bytes h (text ++ s) dest) h (length text))
              (bytes_of_before h 0 h (text ++ s) dest (omega arith) ∙ w.bytes (omega arith))
          ∙ ap (λ b. before ++ b) (bytes_of_stored text s h dest));
  }

  printed_whole :
      (size : ℕ) (text : Bytes) → length text < size → printed size text ≡ text ++ 0 ∷ []
  unfolding printed
  printed_whole zero text h = absurd (omega arith)
  printed_whole (suc size) text h = ap (λ s. s ++ 0 ∷ []) (take_all size text (omega arith))

  pub print_at-IsWritten :
      (before text : Bytes) (n : ℕ) (dest : ℕ → ℕ) (h : ℕ)
      → IsWritten max_dest_len before dest h
      → h ≤ max_dest_len
      → length text ≡ n
      → (dest' : ℕ → ℕ) × (print_at max_dest_len text n dest h ≡ dumped dest' (h + length text))
        × IsWritten max_dest_len (before ++ text) dest' (h + length text)
  unfolding print_at
  print_at-IsWritten before text n dest h w l e =
      let inside : ltb max_dest_len h ≡ false = ground arith in
      let full : (length text == n) ≡ true = ground arith in
      (
        store_bytes h (printed (max_dest_len - h) text) dest,
        rw (inside, full) refl,
        stored-IsWritten before text (printed (max_dest_len - h) text) dest h w
            (λ k. (0 ∷ [], printed_whole (max_dest_len - h) text (omega arith))),
      )
