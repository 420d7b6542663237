-- ===== src/Index/HashVector/Sort.antt =====
-- `QSort` leaves a bucket alone whose words ascend already. `Wap` moves `begin` and `end` without
-- the words, so this is what keeps each word with its postings.
use Prim.Native.Nat.Ordering.{lt}
use dlg_service.Prelude.{
  ℕ, zero, suc, ◌+◌, ◌-◌, ◌≤◌, ◌<◌, ◌≡◌, refl, List, arith, Bytes, Bool-cases, inl, inr, false,
  ◌==◌, length, strcmp, strcmp_swap, dec_lt,
}
use dlg_service.Index.Types.{Key}
use dlg_service.Index.HashVector.{word, below, up, down, scan, settle, partition, q_sort}

-- the words of the nodes ascend strictly
abbrev pub Ascends : Bytes → List Key → Type 0
Ascends buf v = (i j : ℕ) → i < j → j < length v → strcmp (word buf v i) (word buf v j) ≡ lt

below-false : (buf a b : Bytes) → strcmp a b ≡ lt → below buf b a ≡ false
below-false buf a b h = ground (arith, strcmp_swap a b h)

module _ (buf : Bytes) (v : List Key) (asc : Ascends buf v) (l : ℕ) where
  abbrev kv : Bytes
  kv = word buf v l

  down_lem : (r : ℕ) → l ≤ r → r < length v → down buf v kv l (l + 1) r ≡ l
  unfolding down
  down_lem zero h b = omega arith
  down_lem (suc r) h b = elim (dec_lt l (suc r)) [
    | yes p ↦
        ground (arith, below-false buf kv (word buf v (suc r)) (asc l (suc r) p b), down_lem r)
    | no p ↦ ground arith
  ]

  up_lem : (n : ℕ) → l + 1 < length v → up buf v kv n (l + 1) ≡ l + 1
  unfolding up
  up_lem zero h = refl
  up_lem (suc n) h =
      ground (arith, below-false buf kv (word buf v (l + 1)) (asc l (l + 1) (omega arith) h))

  scan_done : (fuel : ℕ) → scan buf fuel v kv l (l + 1) l ≡ (v, l + 1, l)
  unfolding scan
  scan_done zero = refl
  scan_done (suc fuel) = ground arith

  scan_lem :
      (fuel r : ℕ) → l + 1 < r → r < length v → scan buf (suc fuel) v kv l (l + 1) r ≡ (v, l + 1, l)
  unfolding scan
  scan_lem fuel r h b = ground (arith, up_lem (r - (l + 1)), down_lem r, scan_done fuel)

  -- `Partition` moves nothing, and returns an index of the range
  partition_lem :
      (r : ℕ) → l < r → r < length v → ((partition buf v l r).1 ≡ v) × ((partition buf v l r).0 ≤ r)
  unfolding partition settle
  partition_lem r h b = elim (Bool-cases (r == l + 1)) [
    | inl two ↦ ground (arith, below-false buf kv (word buf v r) (asc l r h b))
    | inr more ↦
        let e : r - l ≡ suc (r - l - 1) = omega arith in
        rw (e, scan_lem (r - l - 1) r (ground arith) b) (ground arith)
  ]

q_sort-Ascends :
    (buf : Bytes) (v : List Key)
    → Ascends buf v
    → (fuel l r : ℕ) → (l < r → r < length v)
    → q_sort buf fuel v l r ≡ v
unfolding q_sort
q_sort-Ascends buf v asc zero l r b = refl
q_sort-Ascends buf v asc (suc fuel) l r b = elim (dec_lt l r) [
  | no n ↦ ground arith
  | yes h ↦
      let (same, le) = partition_lem buf v asc l r h (b h) in
      ground (
        arith,
        q_sort-Ascends buf v asc fuel l ((partition buf v l r).0 - 1) (λ p. omega (arith, le, b h)),
        q_sort-Ascends buf v asc fuel ((partition buf v l r).0 + 1) r (λ p. b h),
      )
]

-- Sorting a bucket whose words ascend strictly changes none of its nodes, neither their order nor
-- their `begin` and `end`.
pub q_sort_sorted :
    (buf : Bytes) (v : List Key) → Ascends buf v → q_sort buf (length v) v 0 (length v - 1) ≡ v
q_sort_sorted buf v asc = q_sort-Ascends buf v asc (length v) 0 (length v - 1) (λ h. omega arith)
