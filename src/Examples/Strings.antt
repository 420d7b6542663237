-- ===== src/Examples/Strings.antt =====
-- The theorems on strings and on term statistics at concrete inputs.
use dlg_service.Prelude.{
  suc, ◌-◌, ◌≤◌, ◌≡◌, none, some, [], ◌∷◌, ◌++◌, map, Bytes, length, drop, lookup, find, arith,
  count_of, bytes_ord,
}
use dlg_service.Index.Make.{concat}
use dlg_service.Text.Words.{get_word_num, join_words, IsAsciiWord, get_word_num-join_words}
use dlg_service.Text.Delete.{
  delete_str, delete_space, without_blanks, delete_str-find, delete_space-without_blanks,
}
use dlg_service.Text.Runs.{all_substr, runs, all_suffix, ends, all_substr-runs, all_suffix-ends}
use dlg_service.TfIdf.{train_data_count, start}
use dlg_service.TfIdf.Counts.{total, containing, train_data_count-counts, df-le}

abbrev ab : Bytes
ab = b'a' ∷ b'b' ∷ []

abbrev spaced : Bytes
spaced = b'a' ∷ b' ' ∷ b'b' ∷ []

get_word_num-join_words_example : get_word_num (join_words ab (ab ∷ [])) ≡ length (ab ∷ ab ∷ [])
get_word_num-join_words_example = get_word_num-join_words ab (ab ∷ []) word (word, tt)
  where
    word : IsAsciiWord ab
    word = ((λ e. cc), ((omega arith, (λ e. omega arith)), ((omega arith, (λ e. omega arith)), tt)))

delete_str-find_example :
    (t : Bytes) × (delete_str (suc (length spaced)) (b' ' ∷ []) spaced ≡ some t)
    × (find t (b' ' ∷ []) ≡ none)
delete_str-find_example = delete_str-find (b' ' ∷ []) spaced (λ e. cc)

delete_space-without_blanks_example : delete_space spaced ≡ some (without_blanks spaced)
delete_space-without_blanks_example = delete_space-without_blanks spaced

all_substr-runs_example :
    all_substr (ab ∷ spaced ∷ []) [] ≡ [] ++ map concat (runs (ab ∷ spaced ∷ []))
all_substr-runs_example = all_substr-runs (ab ∷ spaced ∷ []) []

all_suffix-ends_example :
    all_suffix (ab ∷ spaced ∷ [])
    ≡ map concat (ends (drop (length (ab ∷ spaced ∷ []) - 10) (ab ∷ spaced ∷ [])))
all_suffix-ends_example = all_suffix-ends (ab ∷ spaced ∷ [])

train_data_count-counts_example :
    ((train_data_count (spaced ∷ ab ∷ []) start).num_doc ≡ length (spaced ∷ ab ∷ []))
    × (count_of (lookup ab (train_data_count (spaced ∷ ab ∷ []) start).tf)
        ≡ total ab (spaced ∷ ab ∷ []))
    × (count_of (lookup ab (train_data_count (spaced ∷ ab ∷ []) start).df)
        ≡ containing ab (spaced ∷ ab ∷ []))
train_data_count-counts_example = train_data_count-counts ab (spaced ∷ ab ∷ [])

df-le_example :
    (count_of (lookup ab (train_data_count (spaced ∷ ab ∷ []) start).df)
      ≤ count_of (lookup ab (train_data_count (spaced ∷ ab ∷ []) start).tf))
    × (count_of (lookup ab (train_data_count (spaced ∷ ab ∷ []) start).df)
        ≤ (train_data_count (spaced ∷ ab ∷ []) start).num_doc)
df-le_example = df-le ab (spaced ∷ ab ∷ [])
