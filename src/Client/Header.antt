-- ===== src/Client/Header.antt =====
-- `read_http_header_timeout` of `HttpClient` on a whole response.
use dlg_service.Prelude.{
  ℕ, zero, suc, ◌+◌, ◌-◌, ◌*◌, ◌/◌, ◌%◌, ◌≤◌, ◌<◌, ◌≡◌, ◌≢◌, refl, ap, subst, ◌∙◌, sym, [], ◌∷◌,
  ◌++◌, ◌==◌, Bytes, false, length, length-take, take, drop, All, arith, some, none, find, find-le,
  drop-drop, dec_lt,
}
use mathlib.Core.Path.{ap₂}
use mathlib.Core.List.{append_assoc}
use dlg_service.Index.Types.{c_str}
use dlg_service.Server.Socket.{empty_line}
use dlg_service.Client.{readn, read_header}
use dlg_service.Client.Blocks.{
  IsStream, readn-take, take_more, take_less, drop-take, find-drop, find-take_whole,
  find-take_short,
}

-- no NUL
abbrev pub IsPlain : Bytes → Type 0
IsPlain = All (λ c. c ≢ 0)

c_str-IsPlain : (s : Bytes) → IsPlain s → c_str s ≡ s
unfolding c_str
c_str-IsPlain [] a = refl
c_str-IsPlain (c ∷ s) a = ground (arith, a.0, c_str-IsPlain s a.1)

IsPlain-take : (n : ℕ) (s : Bytes) → IsPlain s → IsPlain (take n s)
IsPlain-take zero s a = tt
IsPlain-take (suc n) [] a = tt
IsPlain-take (suc n) (c ∷ s) a = (a.0, IsPlain-take n s a.1)

IsPlain-drop : (n : ℕ) (s : Bytes) → IsPlain s → IsPlain (drop n s)
IsPlain-drop zero s a = a
IsPlain-drop (suc n) [] a = tt
IsPlain-drop (suc n) (c ∷ s) a = IsPlain-drop n s a.1

nonzero : (n : ℕ) → 0 < n → (n == 0) ≡ false
nonzero n h = ground arith

-- where the block that holds a place ends
abbrev pub block_end : ℕ → ℕ
block_end pos = pos / 64 * 64 + 64

block_end-later : (pos : ℕ) → 64 ≤ pos → 64 + block_end (pos - 64) ≡ block_end pos
block_end-later pos h = omega arith

-- What `read_http_header_timeout` hands out for a response and the place of its empty line.
abbrev pub read_of : Bytes → ℕ → Bytes → Bytes × Bytes
read_of header pos response =
    (header ++ take (pos + 4) response, take (block_end pos - (pos + 4)) (drop (pos + 4) response))

-- A block is gone, and the rest is a response as well.
read_of-later :
    (header : Bytes) (pos : ℕ) (response : Bytes)
    → 64 ≤ pos
    → read_of (header ++ take 64 response) (pos - 64) (drop 64 response)
      ≡ read_of header pos response
read_of-later header pos response h =
    let whole : 64 + (pos - 64 + 4) ≡ pos + 4 = omega arith in
    let left : block_end (pos - 64) - (pos - 64 + 4) ≡ block_end pos - (pos + 4) =
      omega (arith, block_end-later pos h) in
    ap₂ (λ l r. (l, r))
      (append_assoc header (take 64 response) (take (pos - 64 + 4) (drop 64 response))
        ∙ ap (λ l. header ++ l)
            (take_more 64 (pos - 64 + 4) response ∙ ap (λ k. take k response) whole))
      (ap₂ take left (drop-drop 64 (pos - 64 + 4) response ∙ ap (λ k. drop k response) whole))

module _ {ℓ} {S : Type ℓ} {read_data : ℕ → S → Bytes × S} {contents : S → Bytes}
    (c : IsStream read_data contents) where
  -- A block that holds a place of the response is not empty.
  not_ended :
      (s : S) (pos : ℕ)
      → pos + 4 ≤ length (contents s)
      → (length (readn read_data 64 s).0 == 0) ≡ false
  not_ended s pos room =
      nonzero (length (readn read_data 64 s).0)
        (subst (λ b. 0 < length b) (sym (readn-take c 64 s).0) some_taken)
    where
      some_taken : 0 < length (take 64 (contents s))
      some_taken = omega (arith, length-take 64 (contents s))

  -- The header ends in the first block.
  header_here :
      (fuel : ℕ) (s : S) (header : Bytes) (pos : ℕ)
      → find (contents s) empty_line ≡ some pos
      → IsPlain (contents s)
      → pos ≤ 60
      → ((read_header read_data (suc fuel) s header).0
          ≡ some (
            header ++ take (pos + 4) (contents s),
            take (64 - (pos + 4)) (drop (pos + 4) (contents s)),
          ))
        × (contents (read_header read_data (suc fuel) s header).1 ≡ drop 64 (contents s))
  unfolding read_header
  header_here fuel s header pos e a h =
      let (t, d) = readn-take c 64 s in
      let room = find-le (contents s) empty_line pos e in
      let full = not_ended s pos room in
      let plain : c_str (readn read_data 64 s).0 ≡ take 64 (contents s) =
        ap c_str t ∙ c_str-IsPlain (take 64 (contents s)) (IsPlain-take 64 (contents s) a) in
      let found : find (c_str (readn read_data 64 s).0) empty_line ≡ some pos =
        ap (λ b. find b empty_line) plain
        ∙ find-take_whole (contents s) empty_line 64 pos e (omega arith) in
      rw (full, found, read_header)
        (
          ap (λ b. some (header ++ take (pos + 4) b, drop (pos + 4) b)) t
              ∙ ap (λ b. some (header ++ b, drop (pos + 4) (take 64 (contents s))))
                  (take_less (pos + 4) 64 (contents s) (omega arith))
              ∙ ap (λ b. some (header ++ take (pos + 4) (contents s), b))
                  (drop-take (pos + 4) 64 (contents s) (omega arith)),
          d,
        )

  -- It does not end there.
  header_later :
      (fuel : ℕ) (s : S) (header : Bytes) (pos : ℕ)
      → find (contents s) empty_line ≡ some pos
      → IsPlain (contents s)
      → 64 ≤ pos
      → read_header read_data (suc fuel) s header
        ≡ read_header read_data fuel (readn read_data 64 s).1 (header ++ take 64 (contents s))
  unfolding read_header
  header_later fuel s header pos e a h =
      let (t, d) = readn-take c 64 s in
      let room = find-le (contents s) empty_line pos e in
      let full = not_ended s pos room in
      let plain : c_str (readn read_data 64 s).0 ≡ take 64 (contents s) =
        ap c_str t ∙ c_str-IsPlain (take 64 (contents s)) (IsPlain-take 64 (contents s) a) in
      let missing : find (c_str (readn read_data 64 s).0) empty_line ≡ none =
        ap (λ b. find b empty_line) plain
        ∙ find-take_short (contents s) empty_line 64 pos (λ q. absurd cc) e h in
      rw (full, missing, read_header)
        (ap (λ b. read_header read_data fuel (readn read_data 64 s).1 (header ++ b)) plain)

  -- The header is everything up to the empty line, and the part of the body is the rest of that block.
  pub read_header-block :
      (fuel : ℕ) (s : S) (header : Bytes) (pos : ℕ)
      → find (contents s) empty_line ≡ some pos
      → IsPlain (contents s)
      → pos % 64 ≤ 60
      → pos < 64 * fuel
      → ((read_header read_data fuel s header).0 ≡ some (read_of header pos (contents s)))
        × (contents (read_header read_data fuel s header).1 ≡ drop (block_end pos) (contents s))
  read_header-block zero s header pos e a b f = absurd (omega arith)
  read_header-block (suc fuel) s header pos e a b f = elim (dec_lt pos 64) [
    | yes h ↦
        let (p, q) = header_here fuel s header pos e a (omega arith) in
        let first : 64 ≡ block_end pos = omega arith in
        (
          p
              ∙ ap
                  (λ k. some (
                    header ++ take (pos + 4) (contents s),
                    take (k - (pos + 4)) (drop (pos + 4) (contents s)),
                  ))
                  first,
          q ∙ ap (λ k. drop k (contents s)) first,
        )
    | no h ↦
        let later : 64 ≤ pos = omega (arith, h) in
        let r = readn read_data 64 s in
        let d : contents r.1 ≡ drop 64 (contents s) = (readn-take c 64 s).1 in
        let (p, q) =
          read_header-block fuel r.1 (header ++ take 64 (contents s)) (pos - 64)
            (ap (λ l. find l empty_line) d ∙ find-drop (contents s) empty_line 64 pos e later)
            (subst IsPlain (sym d) (IsPlain-drop 64 (contents s) a)) (omega arith) (omega arith) in
        let step = header_later fuel s header pos e a later in
        (
          ap (λ l. l.0) step
              ∙ p
              ∙ ap some (
                  ap (read_of (header ++ take 64 (contents s)) (pos - 64)) d
                  ∙ read_of-later header pos (contents s) later),
          ap (λ l. contents l.1) step
              ∙ q
              ∙ ap (drop (block_end (pos - 64))) d
              ∙ drop-drop 64 (block_end (pos - 64)) (contents s)
              ∙ ap (λ k. drop k (contents s)) (block_end-later pos later),
        )
  ]
