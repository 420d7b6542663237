-- ===== src/SimHash/Sign.antt =====
-- The digits of the signature that `simhash_sign` makes.
use Prim.Native.Nat.{max}
use native.Mathlib.Nat.{pow-suc}
use dlg_service.Prelude.{
  ℕ, zero, suc, ◌+◌, ◌*◌, ◌/◌, ◌^◌, ◌≤◌, ◌<◌, ◌≡◌, refl, ap, ◌∙◌, sym, subst, Option, none, some,
  List, [], ◌∷◌, leb, length, Option-cases, ◌==◌, if◌then◌else◌, Bytes, true, false, Bool, for_up,
  arith, Bool-cases, ==→eq, inl, inr,
}
use dlg_service.Prelude.Bits.{bit, bit-bit_or}
use dlg_service.SimHash.{Funit, add_features, sign_bit, simhash_sign, update_hist}
use dlg_service.Index.Types.{c_str}

bit_zero : (i : ℕ) → bit i 0 ≡ 0
unfolding bit
bit_zero zero = refl
bit_zero (suc i) = bit_zero i

bit_power : (i j : ℕ) → bit i (2 ^ j) ≡ (if i == j then 1 else 0)
unfolding bit
bit_power zero zero = refl
bit_power zero (suc j) = ground (arith, pow-suc 2 j)
bit_power (suc i) zero = bit_zero i ∙ ground arith
bit_power (suc i) (suc j) =
    let half : 2 ^ suc j / 2 ≡ 2 ^ j = omega (arith, pow-suc 2 j) in
    ap (bit i) half ∙ ground (arith, bit_power i j)

max_zero : (n : ℕ) → max 0 n ≡ n
max_zero n = omega arith

abbrev digit : Bool → ℕ
digit b = if b then 1 else 0

module _ {ℓ} {W : Type ℓ} (zero_weight : W) (add_weight sub_weight : W → W → W)
    (is_positive : W → Bool) (creat_sign : Bytes → Option ℕ) where
  -- The sum of the weights at place `i`: added where the feature's signature has a one there, and subtracted
  -- where it has a zero; features that are empty or have no signature are left out.
  unfoldable pub place_weight : ℕ → List (Funit W) → W → W
  place_weight i [] w = w
  place_weight i (tmp ∷ features) w = elim (creat_sign (c_str tmp.feature)) [
    | none ↦ place_weight i features w
    | some token ↦
        let str = c_str tmp.feature in
        let rest =
          place_weight i features
            (if bit i token == 1 then add_weight w tmp.weight else sub_weight w tmp.weight) in
        let rest' = place_weight i features w in if leb (length str) 0 then rest' else rest
  ]

  update : ℕ → ℕ → ℕ → W → (ℕ → W) → ℕ → W
  update n k token weight hist =
      update_hist zero_weight add_weight sub_weight is_positive creat_sign n k token weight hist

  update_before :
      (n k token : ℕ) (weight : W) (hist : ℕ → W) (i : ℕ)
      → i < k
      → update n k token weight hist i ≡ hist i
  unfolding update update_hist
  update_before zero k token weight hist i h = refl
  update_before (suc n) k token weight hist i h =
      update_before n (suc k) (token / 2) weight _ i (omega arith)
      ∙ (let ne : (i == k) ≡ false = ground arith in rw ne refl)

  update_at :
      (n k token : ℕ) (weight : W) (hist : ℕ → W) (e : ℕ)
      → e < n
      → update n k token weight hist (e + k) ≡ (
          if bit e token == 1
          then add_weight (hist (e + k)) weight
          else sub_weight (hist (e + k)) weight)
  unfolding update update_hist bit
  update_at zero k token weight hist e h = absurd (omega arith)
  update_at (suc n) k token weight hist zero h =
      update_before n (suc k) (token / 2) weight _ (0 + k) (omega arith)
      ∙ (let ne : (0 + k == k) ≡ true = ground arith in rw ne refl)
  update_at (suc n) k token weight hist (suc e) h =
      let at : suc e + k ≡ e + suc k = omega arith in
      let ne : (e + suc k == k) ≡ false = ground arith in
      rw at (update_at n (suc k) (token / 2) weight _ e (omega arith) ∙ rw ne refl)

  add_features-place_weight :
      (features : List (Funit W)) (hist : ℕ → W) (i : ℕ)
      → i < 64
      → add_features zero_weight add_weight sub_weight is_positive creat_sign features hist i
        ≡ place_weight i features (hist i)
  unfolding add_features place_weight update
  add_features-place_weight [] hist i h = refl
  add_features-place_weight (tmp ∷ features) hist i h =
      elim (Option-cases (creat_sign (c_str tmp.feature))) [
        | inl e ↦ rw (e, add_features, place_weight) (add_features-place_weight features hist i h)
        | inr (token, e) ↦ elim (Bool-cases (leb (length (c_str tmp.feature)) 0)) [
          | inl f ↦
              rw (e, add_features, place_weight, f) (add_features-place_weight features hist i h)
          | inr f ↦
              let at : i + 0 ≡ i = omega arith in
              let updated : update 64 0 token tmp.weight hist i ≡ (
                  if bit i token == 1
                  then add_weight (hist i) tmp.weight
                  else sub_weight (hist i) tmp.weight) =
                subst
                  (λ k. update 64 0 token tmp.weight hist k ≡ (
                    if bit i token == 1
                    then add_weight (hist k) tmp.weight
                    else sub_weight (hist k) tmp.weight))
                  at (update_at 64 0 token tmp.weight hist i h) in
              rw (e, add_features, place_weight, f)
                (add_features-place_weight features (update 64 0 token tmp.weight hist) i h
                  ∙ ap (place_weight i features) updated)
        ]
      ]

  bit-sign_bit :
      (hist : ℕ → W) (i j sign : ℕ)
      → bit j (sign_bit zero_weight add_weight sub_weight is_positive creat_sign hist i sign)
        ≡ max (bit j sign) (if j == i then (if is_positive (hist i) then 1 else 0) else 0)
  unfolding sign_bit
  bit-sign_bit hist i j sign = elim (Bool-cases (is_positive (hist i))) [
    | inl e ↦
        let one : 1 * 2 ^ i ≡ 2 ^ i = omega arith in
        rw e
          (bit-bit_or j sign (1 * 2 ^ i) ∙ ap (max (bit j sign)) (ap (bit j) one ∙ bit_power j i))
    | inr e ↦
        let none_at : 0 * 2 ^ i ≡ 0 = omega arith in
        let zero' : bit j (0 * 2 ^ i) ≡ 0 = ap (bit j) none_at ∙ bit_zero j in
        rw e (bit-bit_or j sign (0 * 2 ^ i) ∙ ap (max (bit j sign)) (ground (arith, zero')))
  ]

  sign_kept :
      (hist : ℕ → W) (n k sign j : ℕ)
      → j < k
      → bit j
          (for_up n k (sign_bit zero_weight add_weight sub_weight is_positive creat_sign hist) sign)
        ≡ bit j sign
  unfolding for_up
  sign_kept hist zero k sign j h = refl
  sign_kept hist (suc n) k sign j h =
      let ne : (j == k) ≡ false = ground arith in
      sign_kept hist n (suc k)
        (sign_bit zero_weight add_weight sub_weight is_positive creat_sign hist k sign) j
        (omega arith)
      ∙ bit-sign_bit hist k j sign
      ∙ rw ne (omega arith)

  sign_loop :
      (hist : ℕ → W) (n k sign j : ℕ)
      → ((i : ℕ) → k ≤ i → bit i sign ≡ 0)
      → k ≤ j
      → j < n + k
      → bit j
          (for_up n k (sign_bit zero_weight add_weight sub_weight is_positive creat_sign hist) sign)
        ≡ (if is_positive (hist j) then 1 else 0)
  unfolding for_up
  sign_loop hist zero k sign j free h l = absurd (omega arith)
  sign_loop hist (suc n) k sign j free h l =
      let sign' = sign_bit zero_weight add_weight sub_weight is_positive creat_sign hist k sign in
      elim (Bool-cases (j == k)) [
        | inl e ↦
            let same : j ≡ k = ==→eq j k e in
            sign_kept hist n (suc k) sign' j (omega arith)
            ∙ bit-sign_bit hist k j sign
            ∙ (rw e (
                ap (λ b. max b (if is_positive (hist k) then 1 else 0)) (free j h)
                ∙ max_zero (if is_positive (hist k) then 1 else 0)
                ∙ ap (λ i. digit (is_positive (hist i))) (sym same)))
        | inr e ↦
            sign_loop hist n (suc k) sign' j
              (λ i p.
                let ne : (i == k) ≡ false = ground arith in
                bit-sign_bit hist k i sign ∙ rw ne (ap (λ b. max b 0) (free i (omega arith))))
              (ground arith) (omega arith)
      ]

  -- Digit `i` of the signature is 1 exactly where the features' weights at place `i` sum up to a
  -- positive weight.
  pub simhash_sign-place_weight :
      (features : List (Funit W)) (i : ℕ)
      → i < 64
      → bit i (simhash_sign zero_weight add_weight sub_weight is_positive creat_sign features)
        ≡ (if is_positive (place_weight i features zero_weight) then 1 else 0)
  unfolding simhash_sign
  simhash_sign-place_weight features i h =
      let hist =
        add_features zero_weight add_weight sub_weight is_positive creat_sign features
          (λ j. zero_weight) in
      sign_loop hist 64 0 0 i (λ j p. bit_zero j) (omega arith) (omega arith)
      ∙ ap (λ w. if is_positive w then 1 else 0)
          (add_features-place_weight features (λ j. zero_weight) i h)
