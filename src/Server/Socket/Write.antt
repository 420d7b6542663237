-- ===== src/Server/Socket/Write.antt =====
-- `writen_timeout` of src/http_server/http_server.cpp, on what `poll` and `write` return in turn.
use Prim.Native.Nat.{min}
use dlg_service.Prelude.{
  ℕ, zero, suc, ◌+◌, ◌-◌, ◌≤◌, ◌<◌, ◌≡◌, refl, ap, ◌∙◌, List, [], ◌∷◌, ◌++◌, ◌==◌, if◌then◌else◌,
  Bytes, false, length, take, drop, All, arith,
}

-- One round: the descriptor is not ready for writing, `write` returns -1, or it takes some bytes, at most
-- those that are asked for.
pub data Round : Type 0 where
  not_ready : Round
  write_error : Round
  wrote : ℕ → Round

-- What the call comes to: it still waits, it reads in front of the buffer, or it returns -1 or a count, and
-- what has been written by then.
pub data Written : Type 0 where
  waits : Written
  outside : Written
  failed : Bytes → Written
  returned : ℕ → Bytes → Written

-- The loop: `buf` is `pos` bytes on, and a result -1 of `write` is taken off as any other.
unfoldable pub writen_loop : List Round → Bytes → ℕ → ℕ → Bytes → Written
writen_loop [] buf pos zero sent = returned (length buf) sent
writen_loop [] buf pos (suc left) sent = waits
writen_loop (r ∷ rs) buf pos zero sent = returned (length buf) sent
writen_loop (not_ready ∷ rs) buf pos (suc left) sent = failed sent
writen_loop (write_error ∷ rs) buf zero (suc left) sent = outside
writen_loop (write_error ∷ rs) buf (suc pos) (suc left) sent =
    writen_loop rs buf pos (suc (suc left)) sent
writen_loop (wrote k ∷ rs) buf pos (suc left) sent =
    let n = min k (suc left) in
    let rest = writen_loop rs buf (pos + n) (suc left - n) (sent ++ take n (drop pos buf)) in
    if n == 0 then returned (length buf - suc left) sent else rest

-- `writen_timeout`
unfoldable pub writen : List Round → Bytes → Written
writen rounds buf = writen_loop rounds buf 0 (length buf) []

-- A round in which bytes are taken.
unfoldable pub takes : Round → ℕ
takes not_ready = 0
takes write_error = 0
takes (wrote k) = k

whole : (s : Bytes) (n : ℕ) → n ≡ length s → take n s ≡ s
whole [] zero e = refl
whole [] (suc n) e = absurd (omega arith)
whole (c ∷ s) zero e = absurd (omega arith)
whole (c ∷ s) (suc n) e = ap (λ r. c ∷ r) (whole s n (omega arith))

empty : (n : ℕ) → take {A = ℕ} n [] ≡ []
empty zero = refl
empty (suc n) = refl

joined : (s : Bytes) (pos n : ℕ) → take pos s ++ take n (drop pos s) ≡ take (pos + n) s
joined s pos n = after s pos (pos + n) refl
  where
    after : (t : Bytes) (i l : ℕ) → l ≡ i + n → take i t ++ take n (drop i t) ≡ take l t
    after t zero l e = let same : n ≡ l = omega arith in ap (λ k. take k t) same
    after [] (suc i) zero e = absurd (omega arith)
    after [] (suc i) (suc l) e = empty n
    after (c ∷ t) (suc i) zero e = absurd (omega arith)
    after (c ∷ t) (suc i) (suc l) e = ap (λ r. c ∷ r) (after t i l (omega arith))

writen_loop-whole :
    (rounds : List Round) (buf : Bytes) (pos left : ℕ)
    → All (λ r. 0 < takes r) rounds
    → left ≤ length rounds
    → pos + left ≡ length buf
    → writen_loop rounds buf pos left (take pos buf) ≡ returned (length buf) buf
unfolding writen_loop takes
writen_loop-whole [] buf pos zero a l e = ap (returned (length buf)) (whole buf pos (omega arith))
writen_loop-whole [] buf pos (suc left) a l e = absurd (omega arith)
writen_loop-whole (r ∷ rs) buf pos zero a l e =
    ap (returned (length buf)) (whole buf pos (omega arith))
writen_loop-whole (not_ready ∷ rs) buf pos (suc left) a l e = absurd (omega (arith, a.0))
writen_loop-whole (write_error ∷ rs) buf pos (suc left) a l e = absurd (omega (arith, a.0))
writen_loop-whole (wrote k ∷ rs) buf pos (suc left) a l e =
    let n = min k (suc left) in
    let some_bytes : (n == 0) ≡ false = ground (arith, a.0) in
    rw some_bytes (
      ap (writen_loop rs buf (pos + n) (suc left - n)) (joined buf pos n)
      ∙ writen_loop-whole rs buf (pos + n) (suc left - n) a.1 (omega (arith, a.0)) (omega arith))

-- Where every round takes at least one byte, and there are as many rounds as bytes, `writen_timeout` ends
-- and returns the length of the buffer, and exactly its bytes have been written, in order.
pub writen-whole :
    (rounds : List Round) (buf : Bytes)
    → All (λ r. 0 < takes r) rounds
    → length buf ≤ length rounds
    → writen rounds buf ≡ returned (length buf) buf
unfolding writen
writen-whole rounds buf a l = writen_loop-whole rounds buf 0 (length buf) a l (omega arith)
