-- ===== src/Examples/Streams.antt =====
-- The theorems on connections at concrete inputs.
use dlg_service.Prelude.{
  ℕ, ◌^◌, ◌<◌, ◌≤◌, ◌≡◌, refl, sym, ap, none, [], ◌∷◌, ◌++◌, Bytes, length, length-append,
  length-take, take, drop, arith, some, find, starts_with, replicate, take-append-drop, Bool, true,
  ltb, leb, if◌then◌else◌, ◌&&◌, inl,
}
use dlg_service.Server.Response.{atoi_from}
use dlg_service.Server.Socket.{empty_line}
use dlg_service.Client.{recv, content_length_mark, received, read_timeout}
use dlg_service.Client.Blocks.{IsStream}
use dlg_service.Client.Header.{IsPlain}
use dlg_service.Client.Recv.{verdict, recv-verdict}
use dlg_service.Server.Response.{dumped, dump_to_buff, http_response, decimal, filled}
use dlg_service.Server.Response.Buffer.{bytes_of}
use dlg_service.Server.Response.Decimal.{atoi_from-decimal_append, length-decimal}
use dlg_service.Server.Response.Head.{response_head}
use dlg_service.Server.Response.Dump.{dump_to_buff-filled}
use dlg_service.Server.Handler.{generate_response}
use dlg_service.Client.Answer.{answer, head-answer, length-head_of}
use dlg_service.Client.Exchange.{recv-generate_response}

-- A connection that has all its bytes at once.
abbrev at_once : ℕ → Bytes → Bytes × Bytes
at_once len s = (take len s, drop len s)

at_once-IsStream : IsStream at_once (λ s. s)
at_once-IsStream = record {
  takes = λ len s. take-append-drop len s;
  at_most = λ len s. omega (arith, length-take len s);
  at_least = λ len s a b. omega (arith, length-take len s);
}

abbrev no_nul : Bytes → Bool
no_nul [] = true
no_nul (c ∷ s) = ltb 0 c && no_nul s

no_nul-IsPlain : (s : Bytes) → no_nul s ≡ true → IsPlain s
no_nul-IsPlain [] h = tt
no_nul-IsPlain (c ∷ s) h = (λ e. ground (arith, e, h), no_nul-IsPlain s (ground arith))

-- "Content-Length:70", an empty line and a body of 70 bytes, of which 43 come in the block of the header
abbrev response : Bytes
response = content_length_mark ++ (b'7' ∷ b'0' ∷ empty_line) ++ replicate 70 b'x'

abbrev given_length : Bytes → ℕ
given_length s = atoi_from 0 (drop 15 s)

recv-verdict_example : (recv at_once given_length 2 100 response).0 ≡ verdict 100 17 70 response
recv-verdict_example =
    recv-verdict at_once-IsStream given_length 2 100 response 17 70 0
      (unfold find starts_with in refl) (no_nul-IsPlain response refl) (omega arith) (omega arith)
      (unfold find starts_with in refl) (unfold atoi_from in refl) (omega arith)

recv_test : verdict 100 17 70 response ≡ received (take 21 response) (replicate 70 b'x')
recv_test = refl

-- a content of 30 bytes, which makes 69 with the head
abbrev content : Bytes
content = replicate 30 b'x'

abbrev sent : Bytes
sent = response_head (answer content) ++ content

abbrev number_behind : Bytes → ℕ
number_behind s = atoi_from 0 (drop 16 s)

number_behind-reads :
    (n : ℕ) (rest : Bytes)
    → n < 2 ^ 31
    → number_behind (content_length_mark ++ b' ' ∷ (decimal n ++ 13 ∷ rest)) ≡ n
unfolding atoi_from
number_behind-reads n rest h = atoi_from-decimal_append n (13 ∷ rest)

sent_fits : length sent < 100
sent_fits = omega (
  arith,
  length-append (response_head (answer content)) content,
  ap length (head-answer content (omega arith)),
  length-head_of (decimal 30),
  length-decimal 30 (omega arith),
)

dumped_content :
    (d : ℕ → ℕ) × (dump_to_buff 100 (answer content) (λ i. 0) ≡ dumped d (length sent))
    × (bytes_of d 0 (length sent) ≡ sent)
unfolding filled
dumped_content =
    let r =
      (dump_to_buff-filled 100 (http_response 0 2) content (λ i. 0) (inl (omega arith))
          (omega arith) (omega (arith, head_fits)) head_fits).fits
        sent_fits in
    (r.0, r.1, r.2)
  where
    head_fits : length (response_head (answer content)) ≤ 100
    head_fits = omega (arith, sent_fits, length-append (response_head (answer content)) content)

recv-generate_response_example :
    (generate_response (some content) none ≡ some (true, answer content))
    × ((recv at_once number_behind 1 100 sent).0 ≡ (
        if leb (length (response_head (answer content) ++ content)) 64
        then read_timeout
        else received (response_head (answer content)) content))
recv-generate_response_example =
    recv-generate_response at_once-IsStream number_behind number_behind-reads 1 100 sent content 100
      (λ i. 0) dumped_content.0 (length sent) (omega arith) (omega arith) (omega arith)
      (no_nul-IsPlain content refl) (omega arith) dumped_content.1 (sym dumped_content.2)
