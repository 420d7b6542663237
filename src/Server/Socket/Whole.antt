-- ===== src/Server/Socket/Whole.antt =====
-- A request is read the same, however the connection cuts it into pieces.
use dlg_service.Prelude.{
  ℕ, zero, suc, ◌+◌, ◌-◌, ◌≤◌, ◌<◌, ◌≡◌, ◌≢◌, refl, sym, ap, ◌∙◌, Option, some, List, [], ◌∷◌, ◌++◌,
  leb, ◌==◌, true, false, Bytes, length, take, drop, find, find-le, starts_with,
  length-le_of_starts_with, arith, All, length-append, length-take, length-drop, Bool-cases, inl,
  inr, Option-cases, take-append-drop,
}
use mathlib.Core.List.{append_assoc, append-nil}
use dlg_service.Index.Types.{c_str}
use dlg_service.Index.Make.{concat}
use dlg_service.Server.Socket.{empty_line, read_http_header, readn_loop, readn, recv_request}

starts_with_grow :
    (s p rest : Bytes) → length p ≤ length s → starts_with (s ++ rest) p ≡ starts_with s p
unfolding starts_with
starts_with_grow [] [] [] h = refl
starts_with_grow [] [] (x ∷ rest) h = refl
starts_with_grow [] (y ∷ p) rest h = absurd (omega arith)
starts_with_grow (x ∷ s) [] rest h = refl
starts_with_grow (x ∷ s) (y ∷ p) rest h = ground (arith, starts_with_grow s p rest)

-- What comes later does not move the first occurrence.
find_grow : (s p rest : Bytes) (i : ℕ) → p ≢ [] → find s p ≡ some i → find (s ++ rest) p ≡ some i
unfolding find
find_grow [] p rest i n h = absurd (empty p n h)
  where
    empty : (q : Bytes) → q ≢ [] → find [] q ≡ some i → ⊥
    empty [] m e = m refl
    empty (y ∷ q) m e = unfold find starts_with in cc
find_grow (x ∷ s) p rest zero n h =
    ground (arith, length-le_of_starts_with (x ∷ s) p, starts_with_grow (x ∷ s) p rest)
find_grow (x ∷ s) p rest (suc i) n h =
    ground (arith, find-le s p i, starts_with_grow (x ∷ s) p rest, find_grow s p rest i n)

take_front : (n : ℕ) (xs ys : Bytes) → n ≤ length xs → take n (xs ++ ys) ≡ take n xs
take_front zero xs ys h = refl
take_front (suc n) [] ys h = absurd (omega arith)
take_front (suc n) (x ∷ xs) ys h = ap (λ l. x ∷ l) (take_front n xs ys (omega arith))

drop_front : (n : ℕ) (xs ys : Bytes) → n ≤ length xs → drop n (xs ++ ys) ≡ drop n xs ++ ys
drop_front zero xs ys h = refl
drop_front (suc n) [] ys h = absurd (omega arith)
drop_front (suc n) (x ∷ xs) ys h = drop_front n xs ys (omega arith)

-- the pieces of a text without NUL
abbrev pub ArePlain : List Bytes → Type 0
ArePlain = All (λ p. c_str p ≡ p)

-- Where the bytes of the buffer and of the pieces, taken together, have an empty line, the header read
-- is what stands before the first one, and what is left is what stands behind it.
pub read_http_header-whole :
    (pieces : List Bytes) (buffer : Bytes) (pos : ℕ)
    → ArePlain pieces
    → find (buffer ++ concat pieces) empty_line ≡ some pos
    → let r = read_http_header pieces buffer in
      (r.result ≡ some (take pos (buffer ++ concat pieces)))
      × (r.buffer ++ concat r.pieces ≡ drop (pos + 4) (buffer ++ concat pieces))
unfolding read_http_header
read_http_header-whole [] buffer pos a h =
    let e : buffer ++ concat [] ≡ buffer = unfold concat in append-nil buffer in
    let found : find buffer empty_line ≡ some pos = ap (λ t. find t empty_line) (sym e) ∙ h in
    rw (found, e, read_http_header) (refl, unfold concat in append-nil (drop (pos + 4) buffer))
read_http_header-whole (p ∷ pieces) buffer pos a h = elim (Option-cases (find buffer empty_line)) [
  | inl missing ↦
      let e : buffer ++ concat (p ∷ pieces) ≡ buffer ++ c_str p ++ concat pieces =
        unfold concat in
        sym (append_assoc buffer p (concat pieces))
        ∙ ap (λ q. buffer ++ q ++ concat pieces) (sym a.0) in
      rw (missing, e, read_http_header)
        (read_http_header-whole pieces (buffer ++ c_str p) pos a.1
          (ap (λ t. find t empty_line) (sym e) ∙ h))
  | inr (i, found) ↦
      let all =
        find_grow buffer empty_line (concat (p ∷ pieces)) i (λ e. absurd (nonempty e)) found in
      let same : i ≡ pos = some_inj i pos (sym all ∙ h) in
      let room = find-le buffer empty_line i found in
      rw (found, read_http_header)
        (
          ap some (
              sym (take_front i buffer (concat (p ∷ pieces)) (omega arith))
              ∙ ap (λ k. take k (buffer ++ concat (p ∷ pieces))) same),
          sym (drop_front (i + 4) buffer (concat (p ∷ pieces)) (omega arith))
              ∙ ap (λ k. drop (k + 4) (buffer ++ concat (p ∷ pieces))) same,
        )
]
  where
    nonempty : empty_line ≡ [] → ⊥
    nonempty e = cc

    some_inj : (i j : ℕ) → some i ≡ some j → i ≡ j
    some_inj i j e = cc

-- `read` hands out at least one byte and never more than it was asked for.
unfoldable pub Fits : ℕ → List Bytes → Type 0
Fits left [] = Unit
Fits zero (p ∷ pieces) = Unit
Fits (suc left) (p ∷ pieces) =
    (0 < length p) × (length p ≤ suc left) × Fits (suc left - length p) pieces

readn_loop-whole :
    (left : ℕ) (pieces : List Bytes) (content : Bytes)
    → Fits left pieces
    → left ≤ length (concat pieces)
    → let r = readn_loop left pieces content in
      (length r.result ≡ length content + left)
      × (r.result ++ (r.buffer ++ concat r.pieces) ≡ content ++ concat pieces)
unfolding readn_loop Fits concat
readn_loop-whole zero [] content f h = (omega arith, refl)
readn_loop-whole (suc left) [] content f h = absurd (omega arith)
readn_loop-whole zero (p ∷ pieces) content f h = (omega arith, refl)
readn_loop-whole (suc left) (p ∷ pieces) content f h =
    let (n, e) =
      readn_loop-whole (suc left - length p) pieces (content ++ p) f.2
        (omega (arith, length-append p (concat pieces))) in
    let nz : (suc left == 0) ≡ false = ground arith in
    rw (nz, readn_loop)
      (omega (arith, n, length-append content p, f.1), e ∙ append_assoc content p (concat pieces))

-- Where the buffer and the pieces have `buf_len` bytes and `read` keeps to its limits, `readn_timeout`
-- reads exactly `buf_len` bytes, the first ones, and leaves the others.
pub readn-whole :
    (buf_len : ℕ) (pieces : List Bytes) (buffer : Bytes)
    → Fits (buf_len - length buffer) pieces
    → buf_len ≤ length (buffer ++ concat pieces)
    → let r = readn buf_len pieces buffer in
      (length r.result ≡ buf_len)
      × (r.result ++ (r.buffer ++ concat r.pieces) ≡ buffer ++ concat pieces)
unfolding readn
readn-whole buf_len pieces buffer f h = elim (Bool-cases (leb buf_len (length buffer))) [
  | inl y ↦
      let le : buf_len ≤ length buffer = ground arith in
      rw (y, readn)
        (
          omega (arith, length-take buf_len buffer),
          sym (append_assoc (take buf_len buffer) (drop buf_len buffer) (concat pieces))
              ∙ ap (λ t. t ++ concat pieces) (take-append-drop buf_len buffer),
        )
  | inr n ↦
      let lt : length buffer < buf_len = ground arith in
      let (k, e) =
        readn_loop-whole (buf_len - length buffer) pieces buffer f
          (omega (arith, length-append buffer (concat pieces))) in
      rw (n, readn) (omega (arith, k), e)
]

module _ (content_len : Bytes → Option ℕ) (pieces : List Bytes) (buffer : Bytes) (pos len : ℕ) where
  -- A connection whose buffer and pieces, taken together, begin with a header, its empty line and the
  -- content length that `GetInfo` finds in this header: wherever the bytes are cut, `recv_request`
  -- hands out this header and exactly this content, and leaves what stands behind it; if `read` keeps
  -- to its limits and no piece has a NUL.
  pub recv_request-whole :
      ArePlain pieces
      → find (buffer ++ concat pieces) empty_line ≡ some pos
      → content_len (take pos (buffer ++ concat pieces)) ≡ some len
      → pos + 4 + len ≤ length (buffer ++ concat pieces)
      → Fits
          (len - length (read_http_header pieces buffer).buffer)
          (read_http_header pieces buffer).pieces
      → (content : Bytes) × ((recv_request content_len pieces buffer).result
          ≡ some (take pos (buffer ++ concat pieces), content))
        × (length content ≡ len)
        × (content
              ++ ((recv_request content_len pieces buffer).buffer
                  ++ concat (recv_request content_len pieces buffer).pieces)
            ≡ drop (pos + 4) (buffer ++ concat pieces))
  unfolding recv_request
  recv_request-whole plain found said room fits =
      let head = read_http_header pieces buffer in
      let (e, left) = read_http_header-whole pieces buffer pos plain found in
      let enough : len ≤ length (head.buffer ++ concat head.pieces) =
        omega (arith, room, ap length left, length-drop (pos + 4) (buffer ++ concat pieces)) in
      let (n, rest) = readn-whole len head.pieces head.buffer fits enough in
      let body = readn len head.pieces head.buffer in
      let right : (length body.result == len) ≡ true = ground arith in
      (
        body.result,
        rw (e, said, recv_request, right) refl,
        n,
        rw (e, said, recv_request) (rest ∙ left),
      )
