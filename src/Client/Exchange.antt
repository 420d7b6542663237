-- ===== src/Client/Exchange.antt =====
-- What the client reads of a response that the server wrote.
use dlg_service.Prelude.{
  ℕ, ◌+◌, ◌-◌, ◌^◌, ◌≤◌, ◌<◌, ◌≡◌, refl, ap, subst, ◌∙◌, sym, some, none, [], ◌∷◌, ◌++◌, leb, ltb,
  drop-append, if◌then◌else◌, Bytes, true, false, Bool, length, length-append, take, take-append,
  drop, arith, find,
}
use dlg_service.Server.Response.{decimal, dump_to_buff, dumped}
use dlg_service.Server.Response.Buffer.{take_all, bytes_of}
use dlg_service.Server.Response.Decimal.{length-decimal}
use dlg_service.Server.Response.Head.{response_head}
use dlg_service.Server.Handler.{generate_response}
use dlg_service.Server.Socket.{empty_line}
use dlg_service.Client.{recv, content_length_mark, Received, received, read_timeout}
use mathlib.Core.Path.{ap₂}
use Prim.Native.Nat.{min}
use dlg_service.Client.Blocks.{IsStream}
use dlg_service.Client.Header.{IsPlain, block_end}
use dlg_service.Client.Recv.{choose, verdict, recv-verdict}
use dlg_service.Client.Answer.{
  head_of, answer, generate_response-answer, head-answer, decimal-AreDigits, find-head_of,
  find-mark, head_of-IsPlain, length-head_of, bytes_of-dump_to_buff,
}

choose_whole :
    (full over short all short' : Bool) (done done' : Received)
    → full ≡ false
    → over ≡ false
    → short ≡ short'
    → all ≡ true
    → done ≡ done'
    → choose full over short all done ≡ (if short' then read_timeout else done')
choose_whole full over short all short' done done' f o s a d = rw (f, o, s, a, d) refl

module _ (max_buf_len pos len total : ℕ) where
  fits : len ≤ max_buf_len → ltb max_buf_len len ≡ false
  fits l = ground arith

  fits_part :
      len ≤ max_buf_len
      → pos ≤ 60
      → total ≡ pos + 4 + len
      → ltb max_buf_len (min (block_end pos) total - (pos + 4)) ≡ false
  fits_part l p t = ground arith

  in_first :
      pos ≤ 60
      → total ≡ pos + 4 + len
      → leb (pos + 4 + len) (min (block_end pos) total) ≡ leb total 64
  in_first p t = let end : block_end pos ≡ 64 = omega arith in rw end (ground arith)

  all_there : total ≡ pos + 4 + len → leb (pos + 4 + len) total ≡ true
  all_there t = ground arith

-- A response that is as long as its header says.
verdict-whole :
    (max_buf_len pos : ℕ) (head content : Bytes)
    → length head ≡ pos + 4
    → pos ≤ 60
    → length content ≤ max_buf_len
    → verdict max_buf_len pos (length content) (head ++ content)
      ≡ (if leb (length (head ++ content)) 64 then read_timeout else received head content)
verdict-whole max_buf_len pos head content h p l =
    let size : length (head ++ content) ≡ pos + 4 + length content =
      length-append head content ∙ ap (λ n. n + length content) h in
    choose_whole _ _ _ _ (leb (length (head ++ content)) 64) _ (received head content)
      (fits max_buf_len pos (length content) (length (head ++ content)) l)
      (fits_part max_buf_len pos (length content) (length (head ++ content)) l p size)
      (in_first max_buf_len pos (length content) (length (head ++ content)) p size)
      (all_there max_buf_len pos (length content) (length (head ++ content)) size)
      (ap₂ received (take-append head content (pos + 4) (sym h)) (
        ap (take (length content)) (drop-append head content (pos + 4) (sym h))
        ∙ take_all (length content) content (omega arith)))

module _ {ℓ} {S : Type ℓ} {read_data : ℕ → S → Bytes × S} {contents : S → Bytes}
    (c : IsStream read_data contents) (scan : Bytes → ℕ)
    (reads : (n : ℕ) (rest : Bytes)
      → n < 2 ^ 31
      → scan (content_length_mark ++ b' ' ∷ (decimal n ++ 13 ∷ rest)) ≡ n)
    (fuel max_buf_len : ℕ) where
  -- On a connection that hands out its bytes in order, with a `sscanf` that reads back a number
  -- that `%u` printed, for a content without NUL of less than 2^31 bytes: `generate_response`
  -- returns 0 and makes the answer with version HTTP/1.0, status 200, the content and its length;
  -- and this answer, dumped into a buffer of at least 64 bytes, is read by the client into a buffer
  -- that the content fits. If head and content have more than 64 bytes together, `recv` returns
  -- exactly the head and the content, and else it returns -1, although all of the response came.
  pub recv-generate_response :
      (s : S) (content : Bytes) (response_len : ℕ) (response_buf d : ℕ → ℕ) (len : ℕ)
      → 0 < fuel
      → length content < 2 ^ 31
      → length content ≤ max_buf_len
      → IsPlain content
      → 64 ≤ response_len
      → dump_to_buff response_len (answer content) response_buf ≡ dumped d len
      → contents s ≡ bytes_of d 0 len
      → (generate_response (some content) none ≡ some (true, answer content))
        × ((recv read_data scan fuel max_buf_len s).0 ≡ (
            if leb (length (response_head (answer content) ++ content)) 64
            then read_timeout
            else received (response_head (answer content)) content))
  recv-generate_response s content response_len response_buf d len f small fits plain room e came =
      let ds = decimal (length content) in
      let head : response_head (answer content) ≡ head_of ds = head-answer content (omega arith) in
      let text : contents s ≡ head_of ds ++ content =
        came
        ∙ bytes_of-dump_to_buff response_len content response_buf d len small room e
        ∙ ap (λ l. l ++ content) head in
      let digits = decimal-AreDigits (length content) in
      let short = length-decimal (length content) (omega arith) in
      let pos = 33 + length ds in
      let size = length-head_of ds in
      let taken : take (pos + 4) (contents s) ≡ head_of ds =
        ap (take (pos + 4)) text ∙ take-append (head_of ds) content (pos + 4) (sym size) in
      (
        generate_response-answer content small,
        recv-verdict c scan fuel max_buf_len s pos (length content) 17
              (ap (λ l. find l empty_line) text ∙ find-head_of ds content digits)
              (subst IsPlain (sym text) (head_of-IsPlain ds content digits plain))
              (omega (arith, short)) (omega (arith, short))
              (ap (λ l. find l content_length_mark) taken ∙ find-mark ds)
              (ap (λ l. scan (drop 17 l)) taken ∙ reads (length content) (10 ∷ 13 ∷ 10 ∷ []) small)
              small
            ∙ ap (verdict max_buf_len pos (length content)) text
            ∙ verdict-whole max_buf_len pos (head_of ds) content size (omega (arith, short)) fits
            ∙ ap (λ h. if leb (length (h ++ content)) 64 then read_timeout else received h content)
                (sym head),
      )
