-- ===== src/Client/Recv.antt =====
-- `recv` of `HttpClient` on a whole response.
use Prim.Native.Nat.{min}
use dlg_service.Prelude.{
  ℕ, ◌+◌, ◌-◌, ◌*◌, ◌%◌, ◌≤◌, ◌<◌, ◌≡◌, refl, ap, ◌∙◌, sym, [], ◌++◌, ◌==◌, ltb, leb, ◌^◌,
  if◌then◌else◌, Bytes, true, false, length, length-drop, length-take, take, drop, arith, Bool,
  ◌||◌, some, find, find-le, drop-drop,
}
use mathlib.Core.Path.{ap₂}
use dlg_service.Server.Socket.{empty_line}
use dlg_service.Client.{
  readn, read_header, recv_body, recv, content_length_mark, Received, received, read_timeout,
  not_enough_buff, outside,
}
use dlg_service.Client.Blocks.{IsStream, readn-take, take_more}
use dlg_service.Client.Header.{IsPlain, block_end, read_header-block}

abbrev pub choose : Bool → Bool → Bool → Bool → Received → Received
choose full over short all done =
    if full
    then not_enough_buff
    else if over
    then outside
    else if short
    then read_timeout
    else if all
    then done
    else read_timeout

length_in_block :
    (pos : ℕ) (response part_body : Bytes)
    → pos + 4 ≤ length response
    → pos % 64 ≤ 60
    → part_body ≡ take (block_end pos - (pos + 4)) (drop (pos + 4) response)
    → length part_body ≡ min (block_end pos) (length response) - (pos + 4)
length_in_block pos response part_body a b p =
    ap length p
    ∙ length-take (block_end pos - (pos + 4)) (drop (pos + 4) response)
    ∙ ap (min (block_end pos - (pos + 4))) (length-drop (pos + 4) response)
    ∙ minus (block_end pos) (length response) (pos + 4)
  where
    minus : (x y k : ℕ) → min (x - k) (y - k) ≡ min x y - k
    minus x y k = omega arith

-- What came with the header and what is read behind it are the body.
whole_body :
    (pos len : ℕ) (response part_body : Bytes)
    → pos + 4 ≤ length response
    → pos % 64 ≤ 60
    → part_body ≡ take (block_end pos - (pos + 4)) (drop (pos + 4) response)
    → min (block_end pos) (length response) < pos + 4 + len
    → pos + 4 + len ≤ length response
    → part_body ++ take (len - length part_body) (drop (block_end pos) response)
      ≡ take len (drop (pos + 4) response)
whole_body pos len response part_body a b p long all =
    let in_block : length part_body ≡ block_end pos - (pos + 4) =
      omega (arith, length_in_block pos response part_body a b p) in
    let there : pos + 4 + (block_end pos - (pos + 4)) ≡ block_end pos = omega arith in
    let left : block_end pos - (pos + 4) + (len - length part_body) ≡ len = omega arith in
    ap₂ (λ x y. x ++ take (len - length part_body) y) p
      (ap (λ k. drop k response) (sym there)
        ∙ sym (drop-drop (pos + 4) (block_end pos - (pos + 4)) response))
    ∙ take_more (block_end pos - (pos + 4)) (len - length part_body) (drop (pos + 4) response)
    ∙ ap (λ k. take k (drop (pos + 4) response)) left

-- What a response comes to, by the place of its empty line, the length that its header gives and the bytes
-- that came.
abbrev pub verdict : (max_buf_len pos len : ℕ) (response : Bytes) → Received
verdict max_buf_len pos len response =
    let in_block = min (block_end pos) (length response) in
    choose (ltb max_buf_len len) (ltb max_buf_len (in_block - (pos + 4)))
      (leb (pos + 4 + len) in_block) (leb (pos + 4 + len) (length response))
      (received (take (pos + 4) response) (take len (drop (pos + 4) response)))

choose_same :
    (full over short short' all all' : Bool) (done done' : Received)
    → short ≡ short'
    → (short' ≡ false → all ≡ all')
    → (short' ≡ false → all' ≡ true → done ≡ done')
    → choose full over short all done ≡ choose full over short' all' done'
choose_same true over short short' all all' done done' s a d = refl
choose_same false true short short' all all' done done' s a d = refl
choose_same false false short true all all' done done' s a d = rw s refl
choose_same false false short false all true done done' s a d = rw (s, a refl) (d refl refl)
choose_same false false short false all false done done' s a d = rw (s, a refl) refl

short_test :
    (len part k m : ℕ)
    → k ≤ m
    → part ≡ m - k
    → len < 2 ^ 31
    → (len - part == 0 || leb (2 ^ 31) (len - part)) ≡ leb (k + len) m
short_test len part k m a b c = ground arith

all_test :
    (len part read k end total : ℕ)
    → part ≡ min end total - k
    → read ≡ min (len - part) (total - end)
    → k ≤ end
    → k ≤ total
    → leb (k + len) (min end total) ≡ false
    → (read == len - part) ≡ leb (k + len) total
all_test len part read k end total a b c d e = ground arith

pick :
    (max_buf_len pos len part read total : ℕ)
    → pos + 4 ≤ total
    → pos % 64 ≤ 60
    → part ≡ min (block_end pos) total - (pos + 4)
    → read ≡ min (len - part) (total - block_end pos)
    → len < 2 ^ 31
    → (done done' : Received)
    → (min (block_end pos) total < pos + 4 + len → pos + 4 + len ≤ total → done ≡ done')
    → choose
        (ltb max_buf_len len)
        (ltb max_buf_len part)
        (len - part == 0 || leb (2 ^ 31) (len - part))
        (read == len - part)
        done
      ≡ choose
          (ltb max_buf_len len)
          (ltb max_buf_len (min (block_end pos) total - (pos + 4)))
          (leb (pos + 4 + len) (min (block_end pos) total))
          (leb (pos + 4 + len) total)
          done'
pick max_buf_len pos len part read total a b h r small done done' same =
    choose_same (ltb max_buf_len len) (ltb max_buf_len part) _ _ _ _ _ _
      (short_test len part (pos + 4) (min (block_end pos) total) (omega arith) h small)
      (all_test len part read (pos + 4) (block_end pos) total h r (omega arith) a)
      (λ q w. same (ground arith) (ground arith))
    ∙ ap
        (λ o.
          choose (ltb max_buf_len len) (ltb max_buf_len o)
            (leb (pos + 4 + len) (min (block_end pos) total)) (leb (pos + 4 + len) total) done')
        h

-- The tests of `recv` choose the result, whatever they leave of the connection.
chosen {ℓ} :
    {S : Type ℓ} (full over short all : Bool) (done : Received) (s s' : S)
    → (λ (r : Received × S). r.0)
        (if full
          then (not_enough_buff, s)
          else if over
          then (outside, s)
          else if short
          then (read_timeout, s)
          else if all
          then (done, s')
          else (read_timeout, s'))
      ≡ choose full over short all done
chosen true over short all done s s' = refl
chosen false true short all done s s' = refl
chosen false false true all done s s' = refl
chosen false false false true done s s' = refl
chosen false false false false done s s' = refl

module _ {ℓ} {S : Type ℓ} {read_data : ℕ → S → Bytes × S} {contents : S → Bytes}
    (c : IsStream read_data contents) (scan : Bytes → ℕ) (fuel max_buf_len : ℕ) where
  recv_body-verdict :
      (s : S) (header : Bytes) (pos len idx : ℕ) (response part_body : Bytes)
      → pos + 4 ≤ length response
      → pos % 64 ≤ 60
      → header ≡ take (pos + 4) response
      → part_body ≡ take (block_end pos - (pos + 4)) (drop (pos + 4) response)
      → contents s ≡ drop (block_end pos) response
      → find header content_length_mark ≡ some idx
      → scan (drop idx header) ≡ len
      → len < 2 ^ 31
      → (recv_body read_data scan fuel max_buf_len header part_body s).0
        ≡ verdict max_buf_len pos len response
  unfolding recv_body
  recv_body-verdict s header pos len idx response part_body room b h p r i l small =
      let same : scan (drop idx header) % 2 ^ 32 ≡ len = omega (arith, l) in
      let here = length_in_block pos response part_body room b p in
      let rest = readn read_data (len - length part_body) s in
      let (t, d) = readn-take c (len - length part_body) s in
      let there : length rest.0 ≡ min (len - length part_body) (length response - block_end pos) =
        ap length (t ∙ ap (take (len - length part_body)) r)
        ∙ length-take (len - length part_body) (drop (block_end pos) response)
        ∙ ap (min (len - length part_body)) (length-drop (block_end pos) response) in
      let body : part_body ++ rest.0
          ≡ part_body ++ take (len - length part_body) (drop (block_end pos) response) =
        ap (λ l'. part_body ++ l') (t ∙ ap (take (len - length part_body)) r) in
      rw (i, same, recv_body)
        (chosen (ltb max_buf_len len) (ltb max_buf_len (length part_body))
            (len - length part_body == 0 || leb (2 ^ 31) (len - length part_body))
            (length rest.0 == len - length part_body) (received header (part_body ++ rest.0)) s
            rest.1
          ∙ pick max_buf_len pos len (length part_body) (length rest.0) (length response) room b
              here there small (received header (part_body ++ rest.0))
              (received (take (pos + 4) response) (take len (drop (pos + 4) response)))
              (λ long all.
                ap₂ received h (body ∙ whole_body pos len response part_body room b p long all)))

  -- On a connection that hands out its bytes in order (at most as many as are asked for, and at least one
  -- while there is one), for a response without NUL whose empty line lies in one 64-byte block and comes
  -- before the header's fuel is used up, and whose header gives a length below 2^31: `recv` comes to what
  -- `verdict` says of the bytes that came. So it returns the header up to the empty line and exactly the
  -- body if the body reaches beyond the block with the empty line and all of it comes; a body
  -- that is longer than the buffer is refused with -3, a short one with -1, and so is, with -1, a body that
  -- is complete in the block of the empty line; if more bytes than the buffer holds came in that block, they
  -- are written outside it.
  pub recv-verdict :
      (s : S) (pos len idx : ℕ)
      → find (contents s) empty_line ≡ some pos
      → IsPlain (contents s)
      → pos % 64 ≤ 60
      → pos < 64 * fuel
      → find (take (pos + 4) (contents s)) content_length_mark ≡ some idx
      → scan (drop idx (take (pos + 4) (contents s))) ≡ len
      → len < 2 ^ 31
      → (recv read_data scan fuel max_buf_len s).0 ≡ verdict max_buf_len pos len (contents s)
  unfolding recv
  recv-verdict s pos len idx e a b f i l small =
      let (p, q) = read_header-block c fuel s [] pos e a b f in
      rw (p, recv)
        (recv_body-verdict (read_header read_data fuel s []).1 (take (pos + 4) (contents s)) pos len
          idx (contents s) (take (block_end pos - (pos + 4)) (drop (pos + 4) (contents s)))
          (find-le (contents s) empty_line pos e) b refl refl q i l small)
