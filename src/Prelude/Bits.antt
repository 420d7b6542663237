-- ===== src/Prelude/Bits.antt =====
-- The binary digits of numbers, under `&`, `|` and `^`.
use Prim.Native.Nat.{
  ℕ, zero, suc, ◌+◌, ◌-◌, ◌*◌, ◌/◌, ◌%◌, ◌^◌, ◌≤◌, ◌<◌, min, max, differ, digits, bitwise, bit_and,
  bit_or, bit_xor, bit_and-bitwise, bit_or-bitwise, bit_xor-bitwise,
}
use native.Mathlib.Nat.{pow-suc}
use native.Mathlib.Omega.{arith}
use mathlib.Core.Logic.{◌⊎◌, inl, inr}
use mathlib.Core.Path.{◌≡◌, refl, sym, ap, ◌∙◌}

-- Digit `i`, from the lowest.
unfoldable pub bit : ℕ → ℕ → ℕ
bit zero n = n % 2
bit (suc i) n = bit i (n / 2)

-- The ones among the lowest `w` digits.
unfoldable pub ones : ℕ → ℕ → ℕ
ones zero n = 0
ones (suc w) n = n % 2 + ones w (n / 2)

-- The places among the lowest `w` at which two numbers differ.
unfoldable pub differing : ℕ → ℕ → ℕ → ℕ
differing zero a b = 0
differing (suc w) a b = differ (a % 2) (b % 2) + differing w (a / 2) (b / 2)

-- A bitwise operation digit by digit; `past` says the same of it once the first number has run out.
module _ (past : ℕ → ℕ) (op : ℕ → ℕ → ℕ) where
  one_more : (fuel a b : ℕ) → a ≤ fuel → digits past op (suc fuel) a b ≡ digits past op fuel a b
  one_more zero zero b h = refl
  one_more zero (suc a) b h = absurd (omega arith)
  one_more (suc fuel) zero b h = refl
  one_more (suc fuel) (suc a) b h =
      ap (λ high. high * 2 + op (suc a % 2) (b % 2))
        (one_more fuel (suc a / 2) (b / 2) (omega arith))

  more :
      (k l fuel a b : ℕ) → a ≤ fuel → l ≡ k + fuel → digits past op l a b ≡ digits past op fuel a b
  more zero l fuel a b h e =
      let same : l ≡ fuel = omega arith in ap (λ n. digits past op n a b) same
  more (suc k) zero fuel a b h e = absurd (omega arith)
  more (suc k) (suc l) fuel a b h e =
      one_more l a b (omega arith) ∙ more k l fuel a b h (omega arith)

  low_digit :
      ((b : ℕ) → past b ≡ past (b / 2) * 2 + op 0 (b % 2))
      → (a b : ℕ) → bitwise past op a b ≡ op (a % 2) (b % 2) + bitwise past op (a / 2) (b / 2) * 2
  low_digit out zero b = omega (arith, out b)
  low_digit out (suc a) b =
      let half = suc a / 2 in
      let high : digits past op a half (b / 2) ≡ digits past op half half (b / 2) =
        more (a - half) a half half (b / 2) (omega arith) (omega arith) in
      omega (arith, high)

pub and-digit : (a b : ℕ) → bit_and a b ≡ min (a % 2) (b % 2) + bit_and (a / 2) (b / 2) * 2
and-digit a b =
    bit_and-bitwise a b
    ∙ low_digit (λ k. 0) min (λ k. omega arith) a b
    ∙ ap (λ high. min (a % 2) (b % 2) + high * 2) (sym (bit_and-bitwise (a / 2) (b / 2)))

pub or-digit : (a b : ℕ) → bit_or a b ≡ max (a % 2) (b % 2) + bit_or (a / 2) (b / 2) * 2
or-digit a b =
    bit_or-bitwise a b
    ∙ low_digit (λ k. k) max (λ k. omega arith) a b
    ∙ ap (λ high. max (a % 2) (b % 2) + high * 2) (sym (bit_or-bitwise (a / 2) (b / 2)))

pub xor-digit : (a b : ℕ) → bit_xor a b ≡ differ (a % 2) (b % 2) + bit_xor (a / 2) (b / 2) * 2
xor-digit a b =
    bit_xor-bitwise a b
    ∙ low_digit (λ k. k) differ (λ k. omega arith) a b
    ∙ ap (λ high. differ (a % 2) (b % 2) + high * 2) (sym (bit_xor-bitwise (a / 2) (b / 2)))

differ_lt : (a b : ℕ) → differ (a % 2) (b % 2) < 2
differ_lt a b = below (a % 2) (b % 2) (omega arith) (omega arith)
  where
    below : (x y : ℕ) → x < 2 → y < 2 → differ x y < 2
    below zero y p q = q
    below (suc x) zero p q = p
    below (suc zero) (suc y) p q = omega arith
    below (suc (suc x)) (suc y) p q = absurd (omega arith)

bit_xor_nil : bit_xor 0 0 ≡ 0
bit_xor_nil = refl

pub bit_xor-lt : (w a b : ℕ) → a < 2 ^ w → b < 2 ^ w → bit_xor a b < 2 ^ w
bit_xor-lt zero zero zero p q = omega (arith, bit_xor_nil)
bit_xor-lt zero (suc a) b p q = absurd (omega arith)
bit_xor-lt zero zero (suc b) p q = absurd (omega arith)
bit_xor-lt (suc w) a b p q = omega (
  arith,
  xor-digit a b,
  differ_lt a b,
  pow-suc 2 w,
  bit_xor-lt w (a / 2) (b / 2) (omega (arith, pow-suc 2 w)) (omega (arith, pow-suc 2 w)),
)

pub ones-bit_xor : (w a b : ℕ) → ones w (bit_xor a b) ≡ differing w a b
unfolding ones differing
ones-bit_xor zero a b = refl
ones-bit_xor (suc w) a b =
    let low : bit_xor a b % 2 ≡ differ (a % 2) (b % 2) =
      omega (arith, xor-digit a b, differ_lt a b) in
    let high : bit_xor a b / 2 ≡ bit_xor (a / 2) (b / 2) =
      omega (arith, xor-digit a b, differ_lt a b) in
    omega (arith, low, ap (ones w) high, ones-bit_xor w (a / 2) (b / 2))

bit_and_self : (w a : ℕ) → a < 2 ^ w → bit_and a a ≡ a
bit_and_self zero zero p = simp bit_and-bitwise (omega arith)
bit_and_self zero (suc a) p = absurd (omega arith)
bit_and_self (suc w) a p =
    ground (arith, and-digit a a, bit_and_self w (a / 2) (omega (arith, pow-suc 2 w)))

odd_or_even : (n : ℕ) → (n % 2 ≡ 1) ⊎ (n % 2 ≡ 0)
odd_or_even n = ground arith

-- `n & (n - 1)` is `n` without its lowest one.
pub ones-clear : (w n : ℕ) → 0 < n → n < 2 ^ w → ones w (bit_and n (n - 1)) + 1 ≡ ones w n
unfolding ones
ones-clear zero n p q = absurd (omega arith)
ones-clear (suc w) n p q =
    let m = n / 2 in
    let fits : m < 2 ^ w = omega (arith, pow-suc 2 w) in
    elim (odd_or_even n) [
      | inl o ↦
          let before : (n - 1) / 2 ≡ m = omega arith in
          let rest : bit_and n (n - 1) ≡ m * 2 =
            omega (arith, and-digit n (n - 1), ap (bit_and m) before, bit_and_self w m fits) in
          let half : bit_and n (n - 1) / 2 ≡ m = omega (arith, rest) in
          omega (arith, rest, ap (ones w) half)
      | inr e ↦
          let before : (n - 1) / 2 ≡ m - 1 = omega arith in
          let rest : bit_and n (n - 1) ≡ bit_and m (m - 1) * 2 =
            omega (arith, and-digit n (n - 1), ap (bit_and m) before) in
          let half : bit_and n (n - 1) / 2 ≡ bit_and m (m - 1) = omega (arith, rest) in
          omega (arith, rest, ap (ones w) half, ones-clear w m (omega arith) fits)
    ]

pub bit-bit_or : (i a b : ℕ) → bit i (bit_or a b) ≡ max (bit i a) (bit i b)
unfolding bit
bit-bit_or zero a b = ground (arith, or-digit a b)
bit-bit_or (suc i) a b =
    let high : bit_or a b / 2 ≡ bit_or (a / 2) (b / 2) = ground (arith, or-digit a b) in
    ap (bit i) high ∙ bit-bit_or i (a / 2) (b / 2)

pub bit_and-le : (w a b : ℕ) → a < 2 ^ w → bit_and a b ≤ a
bit_and-le zero zero b p = simp bit_and-bitwise (omega arith)
bit_and-le zero (suc a) b p = absurd (omega arith)
bit_and-le (suc w) a b p =
    ground (arith, and-digit a b, bit_and-le w (a / 2) (b / 2) (omega (arith, pow-suc 2 w)))
