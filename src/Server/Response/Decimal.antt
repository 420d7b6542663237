-- ===== src/Server/Response/Decimal.antt =====
-- `atoi` of what `%u` prints.
use dlg_service.Prelude.{
  ℕ, zero, suc, ◌+◌, ◌-◌, ◌*◌, ◌/◌, ◌%◌, ◌^◌, ◌≤◌, length, ◌<◌, ◌≡◌, refl, ap, ◌∙◌, [], ◌∷◌, ◌++◌,
  leb, ltb, ◌&&◌, Bytes, true, arith, Bool-cases, inl, inr,
}
use native.Mathlib.Nat.{pow-suc}
use dlg_service.Server.Response.{decimal_from, decimal, atoi_from}

atoi_digit : (m n : ℕ) (s : Bytes) → n < 10 → atoi_from m ((48 + n) ∷ s) ≡ atoi_from (m * 10 + n) s
unfolding atoi_from
atoi_digit m n s h =
    let digit : (leb 48 (48 + n) && leb (48 + n) 57) ≡ true = ground arith in
    let value : m * 10 + (48 + n - 48) ≡ m * 10 + n = omega arith in
    rw digit (ap (λ k. atoi_from k s) value)

atoi_from-decimal_from :
    (fuel n : ℕ) (behind : Bytes)
    → n < fuel
    → atoi_from 0 (decimal_from fuel n behind) ≡ atoi_from n behind
unfolding decimal_from
atoi_from-decimal_from zero n behind h = absurd (omega arith)
atoi_from-decimal_from (suc fuel) n behind h = elim (Bool-cases (ltb n 10)) [
  | inl e ↦
      let small : n < 10 = ground arith in
      let value : 0 * 10 + n ≡ n = omega arith in
      rw e (atoi_digit 0 n behind small ∙ ap (λ k. atoi_from k behind) value)
  | inr e ↦
      let large : n / 10 < fuel = ground arith in
      let value : n / 10 * 10 + n % 10 ≡ n = omega arith in
      rw e (
        atoi_from-decimal_from fuel (n / 10) ((48 + n % 10) ∷ behind) large
        ∙ atoi_digit (n / 10) (n % 10) behind (omega arith)
        ∙ ap (λ k. atoi_from k behind) value)
]

decimal_from-append :
    (fuel n : ℕ) (behind rest : Bytes)
    → decimal_from fuel n behind ++ rest ≡ decimal_from fuel n (behind ++ rest)
unfolding decimal_from
decimal_from-append zero n behind rest = refl
decimal_from-append (suc fuel) n behind rest = elim (Bool-cases (ltb n 10)) [
  | inl e ↦ rw e refl
  | inr e ↦ rw e (decimal_from-append fuel (n / 10) ((48 + n % 10) ∷ behind) rest)
]

-- `atoi` of the digits of a number and something behind goes on from the number.
pub atoi_from-decimal_append :
    (n : ℕ) (rest : Bytes) → atoi_from 0 (decimal n ++ rest) ≡ atoi_from n rest
unfolding decimal
atoi_from-decimal_append n rest =
    ap (atoi_from 0) (decimal_from-append (suc n) n [] rest)
    ∙ atoi_from-decimal_from (suc n) n rest (omega arith)

-- `atoi` of the decimal digits of a number is the number.
pub atoi_from-decimal : (n : ℕ) → atoi_from 0 (decimal n) ≡ n
unfolding decimal
atoi_from-decimal n = atoi_from-decimal_from (suc n) n [] (omega arith) ∙ (unfold atoi_from in refl)

length-decimal_from :
    (k fuel n : ℕ) (behind : Bytes)
    → n < 10 ^ suc k
    → length (decimal_from fuel n behind) ≤ suc k + length behind
unfolding decimal_from
length-decimal_from k zero n behind h = omega arith
length-decimal_from zero (suc fuel) n behind h =
    let small : ltb n 10 ≡ true = ground arith in rw small (omega arith)
length-decimal_from (suc k) (suc fuel) n behind h = elim (Bool-cases (ltb n 10)) [
  | inl e ↦ rw e (omega arith)
  | inr e ↦ rw e (
      omega (
        arith,
        length-decimal_from k fuel (n / 10) ((48 + n % 10) ∷ behind)
            (omega (arith, pow-suc 10 (suc k))),
      ))
]

-- A number of 32 bits has at most ten digits.
pub length-decimal : (n : ℕ) → n < 2 ^ 32 → length (decimal n) ≤ 10
unfolding decimal
length-decimal n h = omega (arith, length-decimal_from 9 (suc n) n [] (omega arith))
