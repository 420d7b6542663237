-- ===== src/Index/Types.antt =====
-- The node types of src/index/inv_index/doc_index.h, and NUL-terminated strings in a buffer.
-- `weight`, a float that the service only copies, is the parameter `W` of the document node.
-- Offsets and counts are numbers: the buffers are taken to be small enough for their C types.
use dlg_service.Prelude.{
  ℕ, ◌≡◌, refl, List, [], ◌∷◌, ◌++◌, ◌==◌, if◌then◌else◌, Bytes, drop, length, arith, drop-append,
  ap, ◌∙◌, sym, Bool-cases, inl, inr,
}
use mathlib.Core.List.{append_assoc, append-nil}

-- `DLG_DOC_TYPE`.
pub record Doc {ℓ} (W : Type ℓ) : Type ℓ where
  pub word_offset : ℕ
  pub weight : W

-- `DLG_INV_TYPE`.
pub record Inv : Type 0 where
  pub occ : ℕ
  pub occ_len : ℕ
  pub occ_filed : ℕ
  pub doc_id : ℕ

-- `DLG_KEY_TYPE`.
pub record Key : Type 0 where
  pub begin : ℕ
  pub end : ℕ
  pub word_offset : ℕ

-- `DLG_KEY_TYPE::operator=` on the node `to`: it assigns `word_offset` to itself, so the target
-- keeps its own.
unfoldable pub assign : Key → Key → Key
assign to m = record to { begin = m.begin; end = m.end }

-- The bytes before the first NUL: what a `const char *` to them denotes.
unfoldable pub c_str : Bytes → Bytes
c_str [] = []
c_str (c ∷ s) = let rest = c ∷ c_str s in if c == 0 then [] else rest

-- The C string that begins at an offset of a buffer.
unfoldable pub word_at : Bytes → ℕ → Bytes
word_at buf off = c_str (drop off buf)

pub c_str_idem : (s : Bytes) → c_str (c_str s) ≡ c_str s
unfolding c_str
c_str_idem [] = refl
c_str_idem (c ∷ s) = ground (arith, c_str_idem s)

-- A NUL ends the string, whatever stands behind it.
pub c_str-append : (s rest : Bytes) → c_str (c_str s ++ (0 ∷ rest)) ≡ c_str s
unfolding c_str
c_str-append [] rest = ground arith
c_str-append (c ∷ s) rest = elim (Bool-cases (c == 0)) [
  | inl z ↦ rw z (ground arith)
  | inr z ↦ rw z (rw (z, c_str) (ap (λ u. c ∷ u) (c_str-append s rest)))
]

-- A list stands in a longer one at an offset.
pub record HoldsAt {ℓ} {A : Type ℓ} (buf : List A) (off : ℕ) (s : List A) : Type ℓ where
  pub before : List A
  pub after : List A
  pub split : buf ≡ before ++ (s ++ after)
  pub offset : off ≡ length before

module _ {ℓ} {A : Type ℓ} where
  -- Growing the buffer at its end moves nothing.
  pub HoldsAt-append :
      (buf : List A) (off : ℕ) (s rest : List A) → HoldsAt buf off s → HoldsAt (buf ++ rest) off s
  HoldsAt-append buf off s rest h = record {
    before = h.before;
    after = h.after ++ rest;
    split =
        ap (λ b. b ++ rest) h.split
        ∙ append_assoc h.before (s ++ h.after) rest
        ∙ ap (λ t. h.before ++ t) (append_assoc s h.after rest);
    offset = h.offset;
  }

  -- What is put at the end stands at the old length.
  pub HoldsAt-end : (buf s : List A) → HoldsAt (buf ++ s) (length buf) s
  HoldsAt-end buf s = record {
    before = buf;
    after = [];
    split = ap (λ t. buf ++ t) (sym (append-nil s));
    offset = refl;
  }

  pub HoldsAt-drop :
      (buf : List A) (off : ℕ) (s : List A) (h : HoldsAt buf off s) → drop off buf ≡ s ++ h.after
  HoldsAt-drop buf off s h =
      ap (drop off) h.split ∙ drop-append h.before (s ++ h.after) off h.offset

-- The C string at an offset where a terminated string stands.
pub word_at-HoldsAt :
    (buf : Bytes) (off : ℕ) (w : Bytes)
    → HoldsAt buf off (c_str w ++ 0 ∷ [])
    → word_at buf off ≡ c_str w
unfolding word_at
word_at-HoldsAt buf off w h =
    ap c_str (HoldsAt-drop buf off (c_str w ++ 0 ∷ []) h ∙ append_assoc (c_str w) (0 ∷ []) h.after)
    ∙ c_str-append w h.after
