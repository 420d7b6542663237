-- ===== src/Index/HashVector/Find.antt =====
-- The binary search of `Find` in a bucket whose words ascend strictly.
use dlg_service.Prelude.{
  ℕ, zero, suc, ◌+◌, ◌-◌, ◌/◌, ◌≤◌, ◌<◌, ◌≡◌, ◌≢◌, refl, List, arith, Bytes, length, get_or,
  strcmp_swap, strcmp_refl, strcmp-eq, some, none, dec_lt, ℕ_discrete,
}
use dlg_service.Index.Types.{Key}
use dlg_service.Index.HashVector.{no_key, word, search}
use dlg_service.Index.HashVector.Sort.{Ascends}

module _ (buf : Bytes) (v : List Key) where
  -- a word of the bucket is found
  pub search_present :
      Ascends buf v
      → (fuel lo hi i : ℕ) → lo ≤ i
      → i < hi
      → hi ≤ length v
      → hi - lo < fuel
      → search buf fuel v (word buf v i) lo hi ≡ some (get_or v i no_key)
  unfolding search
  search_present asc zero lo hi i a b c d = absurd (omega arith)
  search_present asc (suc fuel) lo hi i a b c d =
      let mid = (lo + (hi - 1)) / 2 in
      elim (ℕ_discrete mid i) [
        | yes e ↦ rw e (ground (arith, strcmp_refl (word buf v i)))
        | no n ↦ elim (dec_lt mid i) [
          | yes p ↦ ground (
            arith,
            strcmp_swap (word buf v mid) (word buf v i) (asc mid i p (omega arith)),
            search_present asc fuel (mid + 1) hi i,
          )
          | no q ↦
              ground
                (arith, asc i mid (omega arith) (omega arith), search_present asc fuel lo mid i)
        ]
      ]

  -- a word that no node of the bucket has is not found
  pub search_absent :
      (w : Bytes)
      → ((i : ℕ) → i < length v → word buf v i ≢ w)
      → (fuel lo hi : ℕ) → hi ≤ length v
      → search buf fuel v w lo hi ≡ none
  unfolding search
  search_absent w miss zero lo hi b = refl
  search_absent w miss (suc fuel) lo hi b = elim (dec_lt lo hi) [
    | no n ↦ ground arith
    | yes h ↦
        let mid = (lo + (hi - 1)) / 2 in
        ground (
          arith,
          strcmp-eq w (word buf v mid),
          miss mid (omega arith),
          search_absent w miss fuel (mid + 1) hi,
          search_absent w miss fuel lo mid,
        )
  ]
