-- ===== src/Text.antt =====
-- The string helpers of src/include/gary_common/gary_string.h (namespace spaceGary). A std::string
-- is a list of bytes; `size_type` positions are numbers, with `none` for npos.
pub mod Trim
pub mod Split
pub mod Words
pub mod Delete
pub mod Runs
use dlg_service.Prelude.{
  ℕ, zero, suc, ◌+◌, ◌-◌, Bool, true, false, not, ◌||◌, ◌&&◌, Option, none, some, List, [], ◌∷◌,
  ◌++◌, ltb, leb, ◌==◌, if◌then◌else◌, Bytes, find_from, length, get_or, take, drop,
}

-- `strItem.substr(pos, n)` at `pos` not past the end.
abbrev pub substr : Bytes → ℕ → ℕ → Bytes
substr s pos n = take n (drop pos s)

-- The four bytes that StringTrim removes.
abbrev pub is_blank : ℕ → Bool
is_blank c = c == 0x20 || c == 0x09 || c == 0x0d || c == 0x0a

-- `left` after the first loop: the terminating NUL of c_str(), which is no blank, stops it.
unfoldable pub trim_left : Bytes → ℕ
trim_left [] = 0
trim_left (c ∷ s) = let rest = suc (trim_left s) in if is_blank c then rest else 0

-- `right + 1` after the second loop, started at `right + 1 = k`.
unfoldable pub trim_right : Bytes → ℕ → ℕ
trim_right s zero = 0
trim_right s (suc k) = let rest = trim_right s k in if is_blank (get_or s k 0) then rest else suc k

-- `StringTrim`. The test `left > right` is `right + 1 ≤ left`.
unfoldable pub string_trim : Bytes → Bytes
string_trim s =
    let left = trim_left s in
    let right = trim_right s (length s) in
    if length s == 0 then s else if leb right left then [] else substr s left (right - left)

-- The loop of `StringSplit` on fuel: `begin` is posFindBegin, `parts` is vectRes, and the search
-- that sets posOnePart is made at the head of each round. `none` means that the fuel ran out.
unfoldable pub split_loop : ℕ → Bytes → Bytes → ℕ → List Bytes → Option (List Bytes)
split_loop zero s sep begin parts = none
split_loop (suc fuel) s sep begin parts = elim (find_from s sep begin) [
  | some one ↦
      split_loop fuel s sep (one + length sep)
        (if one == begin then parts else parts ++ substr s begin (one - begin) ∷ [])
  | none ↦ some (if ltb begin (length s) then parts ++ drop begin s ∷ [] else parts)
]

-- `StringSplit`; each round moves `begin` forward, so one round more than there are bytes is enough.
unfoldable pub string_split : Bytes → Bytes → Option (List Bytes)
string_split s sep = split_loop (suc (length s)) s sep 0 []

-- The loop of `SegSplit`: `pre` is is_pre_seg, set where a separator stood directly before.
unfoldable pub seg_loop : ℕ → Bytes → Bytes → ℕ → Bool → List Bytes → Option (List Bytes)
seg_loop zero s sep begin pre parts = none
seg_loop (suc fuel) s sep begin pre parts = elim (find_from s sep begin) [
  | some one ↦ seg_loop fuel s sep (one + length sep) (one == begin) (
      if one == begin
      then (if pre then parts ++ sep ∷ [] else parts)
      else parts ++ substr s begin (one - begin) ∷ [])
  | none ↦ some (if ltb begin (length s) then parts ++ drop begin s ∷ [] else parts)
]

-- `SegSplit`.
unfoldable pub seg_split : Bytes → Bytes → Option (List Bytes)
seg_split s sep = seg_loop (suc (length s)) s sep 0 false []
