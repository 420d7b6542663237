-- ===== src/Index/Make.antt =====
-- `CDlgIndex::MakeIndex` of src/index/inv_index/doc_index.cpp: a document for every usable line, under
-- its words. The lines are those that `fgets` hands out; `segment` is `SEGMENT_1::Segment_`, and
-- `zero_weight` the float 0.
pub mod Answers
use dlg_service.Prelude.{
  ℕ, zero, suc, Option, none, some, List, [], ◌∷◌, ◌++◌, map, ltb, if◌then◌else◌, Bytes, length,
  get_or,
}
use dlg_service.Text.{string_trim, string_split}
use dlg_service.Index.Types.{Inv, Doc}
use dlg_service.Index.CommonIndex.{CommonIndex, add, clear}

-- "##_##"
abbrev pub question_mark : Bytes
question_mark = b'#' ∷ b'#' ∷ b'_' ∷ b'#' ∷ b'#' ∷ []

-- `StringSplit`, which always ends (`string_split-IsPart`).
abbrev pub split_parts : Bytes → Bytes → List Bytes
split_parts s sep = elim (string_split s sep) [ none ↦ [] | some ps ↦ ps ]

-- The texts in one: `doc_name` after the loop.
unfoldable pub concat : List Bytes → Bytes
concat [] = []
concat (p ∷ ps) = p ++ concat ps

-- `destString`: the question before the mark, or the whole line.
unfoldable pub dest_string : Bytes → Bytes
dest_string line =
    let line_str = string_trim line in
    let parts = split_parts line_str question_mark in
    if ltb 1 (length parts) then get_or parts 0 [] else line_str

-- The posting node of a word, before `Add` numbers it.
abbrev pub word_inv : Bytes → Inv
word_inv w = record { occ = 0; occ_len = length w; occ_filed = 0; doc_id = 0 }

module _ {ℓ} {W : Type ℓ} (segment : Bytes → List Bytes) (zero_weight : W) where
  -- The body of the loop.
  unfoldable pub make_line : Bytes → CommonIndex W → CommonIndex W
  make_line line ix =
      let dest = dest_string line in
      let seg_parts = segment dest in
      let doc : Doc W = record { word_offset = 0; weight = zero_weight } in
      if ltb (length dest) 2
      then ix
      else if ltb 0 (length seg_parts)
      then add seg_parts (map word_inv seg_parts) doc (concat seg_parts) ix
      else ix

  unfoldable pub make_lines : List Bytes → CommonIndex W → CommonIndex W
  make_lines [] ix = ix
  make_lines (line ∷ lines) ix = make_lines lines (make_line line ix)

  -- `MakeIndex` up to its `Save`, on a fresh index.
  unfoldable pub make_index : List Bytes → CommonIndex W
  make_index lines = make_lines lines clear
