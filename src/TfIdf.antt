-- ===== src/TfIdf.antt =====
-- `TF_IDF` of src/include/common/tf-idf.cpp: how often the words of a text occur, and in how many of
-- its lines. The file that is read is the list of its lines.
pub mod Counts
use dlg_service.Prelude.{
  ℕ, suc, ◌+◌, ◌*◌, Option, none, some, List, [], ◌∷◌, Bytes, Map, lookup, upsert, bytes_ord, keys,
  increment, count_of,
}
use dlg_service.Text.{string_trim}
use dlg_service.Index.Make.{split_parts}

pub record TfIdf : Type 0 where
  pub num_doc : ℕ
  pub tf : Map Bytes ℕ
  pub df : Map Bytes ℕ

-- `tf[word]++` for the words of a line.
unfoldable pub count_words : List Bytes → Map Bytes ℕ → Map Bytes ℕ
count_words [] m = m
count_words (w ∷ ws) m = count_words ws (upsert w increment m)

abbrev pub one : Option ℕ → ℕ
one _ = 1

-- `tmp[word] = 1` for the words of a line.
unfoldable pub mark_words : List Bytes → Map Bytes ℕ → Map Bytes ℕ
mark_words [] m = m
mark_words (w ∷ ws) m = mark_words ws (upsert w one m)

-- " "
abbrev pub blank : Bytes
blank = b' ' ∷ []

abbrev pub line_words : Bytes → List Bytes
line_words line = split_parts (string_trim line) blank

-- The body of the loop of `Train_data_count`.
unfoldable pub train_line : Bytes → TfIdf → TfIdf
train_line line t =
    let ws = line_words line in
    record {
      num_doc = t.num_doc + 1;
      tf = count_words ws t.tf;
      df = count_words (keys (mark_words ws [])) t.df;
    }

-- `Train_data_count`.
unfoldable pub train_data_count : List Bytes → TfIdf → TfIdf
train_data_count [] t = t
train_data_count (line ∷ lines) t = train_data_count lines (train_line line t)

-- The constructor.
abbrev pub start : TfIdf
start = record { num_doc = 0; tf = []; df = [] }

-- `Tf_Idf_Count`: for each word the quotient tf / (df + 0.1), as the fraction 10 tf / (10 df + 1),
-- which the code rounds to a double.
unfoldable pub tf_idf_count : TfIdf → Map Bytes ℕ → List (Bytes × (ℕ × ℕ))
tf_idf_count t [] = []
tf_idf_count t ((w, n) ∷ m) = (w, (10 * n, 10 * count_of (lookup w t.df) + 1)) ∷ tf_idf_count t m
