-- ===== src/Text/Split.antt =====
-- `StringSplit` and `SegSplit`: they end, give non-empty parts without separators, and undo joining.
use dlg_service.Prelude.{
  ℕ, zero, suc, ◌+◌, ◌-◌, ◌≤◌, ◌<◌, ◌≡◌, ◌≢◌, refl, sym, ◌∙◌, ap, inl, inr, List, [], ◌∷◌, ◌++◌,
  arith, Bytes, Bool-cases, Option-cases, length, drop, ltb, ◌==◌, All, All-append, drop-drop,
  length-take, length-drop, some, none, if◌then◌else◌, ltb→lt, find, find_from, find-le, find-take,
  find-append, find-none, length-append, drop-append, take-append,
}
use mathlib.Core.List.{append-nil, append_assoc}
use dlg_service.Text.{substr, split_loop, string_split}

-- a part that a split may give: not empty, and without a separator
abbrev pub IsPart : Bytes → Bytes → Type 0
IsPart sep p = (p ≢ []) × (find p sep ≡ none)

module _ (s sep : Bytes) (proper : sep ≢ []) where
  sep_pos : 0 < length sep
  sep_pos = go sep proper
    where
      go : (p : Bytes) → p ≢ [] → 0 < length p
      go [] h = absurd (h refl)
      go (x ∷ p) h = omega arith

  -- a separator that is found lies between `begin` and the end
  found-le :
      (begin one : ℕ)
      → begin ≤ length s
      → find_from s sep begin ≡ some one
      → (begin ≤ one)
        × (one + length sep ≤ length s)
        × (find (drop begin s) sep ≡ some (one - begin))
  unfolding find_from
  found-le begin one h e = elim (Option-cases (find (drop begin s) sep)) [
    | inl n ↦ cc
    | inr (i, f) ↦ ground (arith, find-le (drop begin s) sep i, length-drop begin s)
  ]

  IsPart-before :
      (begin one : ℕ)
      → begin ≤ length s
      → find_from s sep begin ≡ some one
      → one ≢ begin
      → IsPart sep (substr s begin (one - begin))
  IsPart-before begin one h e ne =
      let (lo, hi, f) = found-le begin one h e in
      (
        λ z. omega (
          arith,
          ap length z,
          length-take (one - begin) (drop begin s),
          length-drop begin s,
          sep_pos,
        ),
        find-take (drop begin s) sep (one - begin) proper f,
      )

  IsPart-last :
      (begin : ℕ) → begin < length s → find_from s sep begin ≡ none → IsPart sep (drop begin s)
  unfolding find_from
  IsPart-last begin h e = (λ z. omega (arith, ap length z, length-drop begin s), ground arith)

  parts_after :
      (begin one : ℕ) (parts : List Bytes)
      → begin ≤ length s
      → find_from s sep begin ≡ some one
      → All (IsPart sep) parts
      → All
          (IsPart sep)
          (if one == begin then parts else parts ++ substr s begin (one - begin) ∷ [])
  parts_after begin one parts l f a = elim (Bool-cases (one == begin)) [
    | inl e ↦ rw e a
    | inr e ↦
        rw e (All-append (IsPart sep) parts _ a (IsPart-before begin one l f (ground arith), tt))
  ]

  parts_end :
      (begin : ℕ) (parts : List Bytes)
      → find_from s sep begin ≡ none
      → All (IsPart sep) parts
      → All (IsPart sep) (if ltb begin (length s) then parts ++ drop begin s ∷ [] else parts)
  parts_end begin parts f a = elim (Bool-cases (ltb begin (length s))) [
    | inl e ↦ rw e (All-append (IsPart sep) parts _ a (IsPart-last begin (ltb→lt _ _ e) f, tt))
    | inr e ↦ rw e a
  ]

  split_loop-IsPart :
      (fuel begin : ℕ) (parts : List Bytes)
      → length s - begin < fuel
      → begin ≤ length s
      → All (IsPart sep) parts
      → (out : List Bytes) × (split_loop fuel s sep begin parts ≡ some out) × All (IsPart sep) out
  unfolding split_loop
  split_loop-IsPart zero begin parts h l a = absurd (omega arith)
  split_loop-IsPart (suc fuel) begin parts h l a = elim (Option-cases (find_from s sep begin)) [
    | inl n ↦ rw (n, split_loop) (_, refl, parts_end begin parts n a)
    | inr (one, f) ↦
        let (lo, hi, _) = found-le begin one l f in
        rw (f, split_loop)
          (split_loop-IsPart fuel (one + length sep) _ (omega (arith, sep_pos)) hi
            (parts_after begin one parts l f a))
  ]

-- With a non-empty separator `StringSplit` ends, and every part is non-empty and free of separators.
pub string_split-IsPart :
    (s sep : Bytes)
    → sep ≢ []
    → (out : List Bytes) × (string_split s sep ≡ some out) × All (IsPart sep) out
unfolding string_split
string_split-IsPart s sep proper =
    split_loop-IsPart s sep proper (suc (length s)) 0 [] (omega arith) (omega arith) tt

-- The parts, each with a separator behind it: how `EditSort` writes its candidates.
unfoldable pub join_each : Bytes → List Bytes → Bytes
join_each sep [] = []
join_each sep (p ∷ ps) = p ++ (sep ++ join_each sep ps)

module _ (h : ℕ) (t : Bytes) where
  -- a text that is not empty and does not hold the separator's first byte
  abbrev pub IsPlain : Bytes → Type 0
  IsPlain p = (p ≢ []) × All (λ x. x ≢ h) p

  find_from-join_each :
      (s p rest : Bytes) (begin : ℕ)
      → drop begin s ≡ p ++ ((h ∷ t) ++ rest)
      → All (λ x. x ≢ h) p
      → find_from s (h ∷ t) begin ≡ some (begin + length p)
  unfolding find_from
  find_from-join_each s p rest begin e a = rw (e, find-append p h t rest a)

  find_from-end : (s : Bytes) (begin : ℕ) → drop begin s ≡ [] → find_from s (h ∷ t) begin ≡ none
  unfolding find_from
  find_from-end s begin e = rw (e, find-none [] h t tt)

  -- what is left behind the part and its separator
  drop-join_each :
      (s p rest : Bytes) (begin : ℕ)
      → drop begin s ≡ p ++ ((h ∷ t) ++ rest)
      → drop (begin + length p + length (h ∷ t)) s ≡ rest
  drop-join_each s p rest begin e =
      sym (drop-drop (begin + length p) (length (h ∷ t)) s)
      ∙ ap (drop (length (h ∷ t))) (sym (drop-drop begin (length p) s))
      ∙ ap (λ u. drop (length (h ∷ t)) (drop (length p) u)) e
      ∙ ap (drop (length (h ∷ t))) (drop-append p ((h ∷ t) ++ rest) (length p) refl)
      ∙ drop-append (h ∷ t) rest (length (h ∷ t)) refl

  length-pos : (p : Bytes) → p ≢ [] → 0 < length p
  length-pos [] n = absurd (n refl)
  length-pos (x ∷ p) n = omega arith

  -- one round of the loop puts the part behind the earlier ones
  part-join_each :
      (s p rest : Bytes) (begin : ℕ) (parts : List Bytes)
      → drop begin s ≡ p ++ ((h ∷ t) ++ rest)
      → p ≢ []
      → (if (begin + length p) == begin
          then parts
          else parts ++ substr s begin (begin + length p - begin) ∷ [])
        ≡ parts ++ p ∷ []
  part-join_each s p rest begin parts e n =
      let k : begin + length p - begin ≡ length p = omega arith in
      rw (k, e, take-append p ((h ∷ t) ++ rest) (length p) refl) (ground (arith, length-pos p n))

  split_loop-join_each :
      (ps : List Bytes) (fuel begin : ℕ) (s : Bytes) (parts : List Bytes)
      → drop begin s ≡ join_each (h ∷ t) ps
      → begin ≤ length s
      → length s - begin < fuel
      → All IsPlain ps
      → split_loop fuel s (h ∷ t) begin parts ≡ some (parts ++ ps)
  unfolding split_loop join_each
  split_loop-join_each ps zero begin s parts e l f a = absurd (omega arith)
  split_loop-join_each [] (suc fuel) begin s parts e l f a =
      rw (find_from-end s begin e, split_loop, append-nil)
        (ground (arith, ap length e, length-drop begin s))
  split_loop-join_each (p ∷ ps) (suc fuel) begin s parts e l f a =
      let rest = join_each (h ∷ t) ps in
      let fits : begin + length p + length (h ∷ t) ≤ length s = omega (
        arith,
        ap length e,
        length-drop begin s,
        length-append p ((h ∷ t) ++ rest),
        length-append (h ∷ t) rest,
      ) in
      rw
        (
          find_from-join_each s p rest begin e a.0.1,
          split_loop,
          part-join_each s p rest begin parts e a.0.0,
        )
        (split_loop-join_each ps fuel (begin + length p + length (h ∷ t)) s (parts ++ p ∷ [])
            (drop-join_each s p rest begin e) fits (omega arith) a.1
          ∙ ap some (append_assoc parts (p ∷ []) ps))

-- `StringSplit` undoes the joining: it gives back every list of parts that are not empty and do not
-- hold the separator's first byte.
pub string_split-join_each :
    (h : ℕ) (t : Bytes) (ps : List Bytes)
    → All (IsPlain h t) ps
    → string_split (join_each (h ∷ t) ps) (h ∷ t) ≡ some ps
unfolding string_split
string_split-join_each h t ps a =
    split_loop-join_each h t ps (suc (length s)) 0 s [] refl (omega arith) (omega arith) a
  where
    s : Bytes
    s = join_each (h ∷ t) ps
