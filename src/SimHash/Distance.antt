-- ===== src/SimHash/Distance.antt =====
-- `hamming_dist` counts the places at which two signatures differ.
use Prim.Native.Nat.{bit_and, bit_xor}
use dlg_service.Prelude.{
  ℕ, zero, suc, ◌+◌, ◌-◌, ◌/◌, ◌^◌, ◌≤◌, ◌<◌, ◌≡◌, refl, ap, ◌∙◌, some, ◌==◌, arith, ==→eq,
  Bool-cases, inl, inr,
}
use dlg_service.Prelude.Bits.{ones, ones-clear, ones-bit_xor, bit_xor-lt, bit_and-le, differing}
use dlg_service.SimHash.{clear_bits, hamming_dist}

clear_bits-ones :
    (fuel val dist : ℕ)
    → val < 2 ^ 64
    → ones 64 val < fuel
    → clear_bits fuel val dist ≡ some (dist + ones 64 val)
unfolding clear_bits
clear_bits-ones zero val dist h k = absurd (omega arith)
clear_bits-ones (suc fuel) val dist h k = elim (Bool-cases (val == 0)) [
  | inl e ↦
      let nothing : ones 64 val ≡ 0 = ap (ones 64) (==→eq val 0 e) ∙ ones_zero in
      rw e (ap some (omega arith))
  | inr e ↦
      let n : 0 < val = ground arith in
      rw e (
        clear_bits-ones fuel (bit_and val (val - 1)) (dist + 1)
          (omega (arith, bit_and-le 64 val (val - 1) h)) (omega (arith, ones-clear 64 val n h))
        ∙ ap some (omega (arith, ones-clear 64 val n h)))
]
  where
    ones_zero : ones 64 0 ≡ 0
    ones_zero = unfold ones in refl

ones-le : (w n : ℕ) → ones w n ≤ w
unfolding ones
ones-le zero n = omega arith
ones-le (suc w) n = omega (arith, ones-le w (n / 2))

-- `hamming_dist` ends, with the number of bits that differ.
pub hamming_dist-differing :
    (t1 t2 : ℕ) → t1 < 2 ^ 64 → t2 < 2 ^ 64 → hamming_dist t1 t2 ≡ some (differing 64 t1 t2)
unfolding hamming_dist
hamming_dist-differing t1 t2 h k =
    clear_bits-ones 65 (bit_xor t1 t2) 0 (bit_xor-lt 64 t1 t2 h k)
      (omega (arith, ones-le 64 (bit_xor t1 t2)))
    ∙ ap some (omega (arith, ones-bit_xor 64 t1 t2))
