-- ===== src/Examples.antt =====
-- The theorems at concrete inputs. The segmenter of the examples makes a word of every byte; the
-- weights of documents are numbers.
mod Dialogues
mod Streams
mod Responses
mod Strings
mod Tables
mod Handles
use dlg_service.Prelude.{
  for_up, upsert, strcmp, ℕ, zero, suc, ◌+◌, ◌-◌, ◌≤◌, ◌<◌, ◌≡◌, refl, none, some, List, [], ◌∷◌,
  ◌++◌, map, Bytes, All, length, get_or, take, drop, lookup, find_from, starts_with, bytes_eq,
  arith, bytes_ord, nat_ord, true, find, keys, IsSorted,
}
use dlg_service.Text.{string_trim, string_split, trim_left, trim_right, split_loop}
use dlg_service.Text.Trim.{IsTrimOf, string_trim-IsTrimOf}
use dlg_service.Text.Split.{IsPart, string_split-IsPart, join_each, string_split-join_each}
use dlg_service.EditDist.{
  Cells, edit, edit_sort, hashes, sort_loop, sort_step, calculate, fill_cells, fill_cell,
  init_cells, store, word_cost, min,
}
use dlg_service.EditDist.Script.{Script, start, delete, keep}
use dlg_service.EditDist.Table.{edit-attained, edit-le}
use dlg_service.EditDist.Groups.{edit_sort-group, edit_sort-sort_ed, extend, group, firsts, is_in}
use dlg_service.Index.Types.{Inv, Doc, c_str}
use dlg_service.Index.CommonIndex
use dlg_service.Index.CommonIndex.{CommonIndex, save, load, get_inv, clear}
use dlg_service.Index.CommonIndex.Saved.{load-save}
use dlg_service.Index.CommonIndex.Built.{grow, Texts, add-IsBuilt, clear-IsBuilt}
use dlg_service.Index.Make.{make_index, concat, dest_string}
use dlg_service.Index.Make.Answers.{documents, postings, make_index-answers}
use dlg_service.Search.{get_union_results, int_max, binary_search}
use dlg_service.Search.Binary.{IsAscending, IsVerdict, binary_search-IsVerdict}
use dlg_service.Search.Query.{matching, get_union_results-matching, count}
use dlg_service.Dialogue.{distance, asked}
use dlg_service.Dialogue.Nearest.{IsNearest, asked-IsNearest}
use dlg_service.Url.{url_encode, url_decode, handler_url_encode}
use dlg_service.Url.RoundTrip.{url_decode-handler_url_encode, url_decode-url_encode}
use dlg_service.Server.LinkedList
use dlg_service.Server.LinkedList.{Links, del, Holds, add-Holds}
use dlg_service.Server.LinkedList.Del.{del-Holds}
use dlg_service.Server.WaitList.{wait_list, run, put_op, get_op, flush_op, Op}
use dlg_service.Server.WaitList.Refines.{Agree, AreFresh, queue_run, wait_list-Models, run-Agree}
use dlg_service.Server.Socket.{recv_request, empty_line, read_http_header}
use dlg_service.Server.Socket.Whole.{ArePlain, Fits, recv_request-whole}

abbrev letters : Bytes → List Bytes
letters s = map (λ c. c ∷ []) s

abbrev raw : Cells
raw = λ i j. 7

string_trim-IsTrimOf_example : IsTrimOf (32 ∷ 65 ∷ 9 ∷ []) (string_trim (32 ∷ 65 ∷ 9 ∷ []))
string_trim-IsTrimOf_example = string_trim-IsTrimOf (32 ∷ 65 ∷ 9 ∷ [])

string_split-IsPart_example :
    (out : List Bytes) × (string_split (65 ∷ 35 ∷ 66 ∷ []) (35 ∷ []) ≡ some out)
    × All (IsPart (35 ∷ [])) out
string_split-IsPart_example = string_split-IsPart (65 ∷ 35 ∷ 66 ∷ []) (35 ∷ []) (λ e. cc)

string_split-join_each_example :
    string_split (join_each (35 ∷ 35 ∷ []) ((65 ∷ []) ∷ (66 ∷ []) ∷ [])) (35 ∷ 35 ∷ [])
    ≡ some ((65 ∷ []) ∷ (66 ∷ []) ∷ [])
string_split-join_each_example = string_split-join_each 35 (35 ∷ []) ((65 ∷ []) ∷ (66 ∷ []) ∷ []) (
  ((λ e. cc), ((λ e. absurd (omega arith)), tt)),
  (((λ e. cc), ((λ e. absurd (omega arith)), tt)), tt),
)

abbrev one_word : List Bytes
one_word = (65 ∷ []) ∷ []

abbrev two_words : List Bytes
two_words = (65 ∷ []) ∷ (66 ∷ []) ∷ []

edit-attained_example : Script two_words one_word 2 1 (edit two_words one_word raw)
edit-attained_example = edit-attained two_words one_word raw

edit-le_example : edit two_words one_word raw ≤ 1
edit-le_example = edit-le two_words one_word raw 1 (delete (keep refl start))

edit_sort-group_example :
    lookup 1 (edit_sort letters raw (65 ∷ []) ((66 ∷ []) ∷ (66 ∷ []) ∷ []) [] []).cadidate_sort
    ≡ extend none (group letters raw (65 ∷ []) 1 (firsts [] ((66 ∷ []) ∷ (66 ∷ []) ∷ [])))
edit_sort-group_example = edit_sort-group letters raw (65 ∷ []) ((66 ∷ []) ∷ (66 ∷ []) ∷ []) 1

edit_sort-sort_ed_example :
    ((edit_sort letters raw (65 ∷ []) ((66 ∷ []) ∷ (65 ∷ []) ∷ []) [] []).sort_ed
      ≡ keys (edit_sort letters raw (65 ∷ []) ((66 ∷ []) ∷ (65 ∷ []) ∷ []) [] []).cadidate_sort)
    × IsSorted (edit_sort letters raw (65 ∷ []) ((66 ∷ []) ∷ (65 ∷ []) ∷ []) [] []).cadidate_sort
edit_sort-sort_ed_example = edit_sort-sort_ed letters raw (65 ∷ []) ((66 ∷ []) ∷ (65 ∷ []) ∷ [])

-- two lines, the first with an answer behind its mark
abbrev two_lines : List Bytes
two_lines = (65 ∷ 66 ∷ 35 ∷ 35 ∷ 95 ∷ 35 ∷ 35 ∷ 67 ∷ []) ∷ (66 ∷ 66 ∷ []) ∷ []

abbrev a_doc : Doc ℕ
a_doc = record { word_offset = 0; weight = 3 }

abbrev a_posting : Inv
a_posting = record { occ = 1; occ_len = 1; occ_filed = 0; doc_id = 0 }

abbrev a_index : CommonIndex ℕ
a_index = CommonIndex.add two_words (a_posting ∷ a_posting ∷ []) a_doc (65 ∷ 66 ∷ []) clear

load-save_example :
    (loaded : CommonIndex ℕ) × (load (save a_index) ≡ some loaded)
    × (loaded.char_buf ≡ a_index.char_vect)
    × (loaded.doc_buf ≡ a_index.doc_vect)
    × ((w : Bytes) → get_inv loaded w ≡ lookup (c_str w) a_index.index_map)
load-save_example = load-save a_index (
    add-IsBuilt clear two_words (a_posting ∷ a_posting ∷ []) a_doc (65 ∷ 66 ∷ []) (clear-IsBuilt ℕ))

make_index-answers_example :
    (loaded : CommonIndex ℕ) × (load (save (make_index letters 0 two_lines)) ≡ some loaded)
    × ((w : Bytes)
        → get_inv loaded w ≡ grow none (postings (c_str w) 0 (documents letters two_lines)))
    × Texts loaded.char_buf loaded.doc_buf (map concat (documents letters two_lines))
make_index-answers_example = make_index-answers letters 0 two_lines

count_a : length (matching (c_str (65 ∷ [])) (documents letters two_lines)) ≡ 1
unfolding matching documents dest_string string_trim trim_left trim_right string_split split_loop
    find_from find starts_with c_str count bytes_eq concat
count_a = refl

count_b : length (matching (c_str (66 ∷ [])) (documents letters two_lines)) ≡ 3
unfolding matching documents dest_string string_trim trim_left trim_right string_split split_loop
    find_from find starts_with c_str count bytes_eq concat
count_b = refl

few_a : length (matching (c_str (65 ∷ [])) (documents letters two_lines)) < int_max
few_a = omega (arith, count_a)

few_b : length (matching (c_str (66 ∷ [])) (documents letters two_lines)) < int_max
few_b = omega (arith, count_b)

get_union_results-matching_example :
    (loaded : CommonIndex ℕ) × (i : ℕ) × (load (save (make_index letters 0 two_lines))
      ≡ some loaded)
    × (i < 2)
    × (get_union_results loaded two_words
        ≡ some (matching (c_str (get_or two_words i [])) (documents letters two_lines)))
    × All
        (λ w.
          length (matching (c_str (get_or two_words i [])) (documents letters two_lines))
          ≤ length (matching (c_str w) (documents letters two_lines)))
        two_words
get_union_results-matching_example =
    get_union_results-matching letters 0 two_lines (65 ∷ []) ((66 ∷ []) ∷ []) (few_a, (few_b, tt))

abbrev ascending_postings : List Inv
ascending_postings = a_posting ∷ record a_posting { doc_id = 4 } ∷ []

ascending : IsAscending ascending_postings
ascending zero j le h = omega arith
ascending (suc i) zero le h = absurd (omega arith)
ascending (suc zero) (suc zero) le h = omega arith
ascending (suc (suc i)) (suc zero) le h = absurd (omega arith)
ascending (suc i) (suc (suc j)) le h = absurd (omega arith)

binary_search-IsVerdict_example :
    IsVerdict 4 ascending_postings 0 2 (binary_search 4 ascending_postings 0 2)
binary_search-IsVerdict_example =
    binary_search-IsVerdict 4 ascending_postings ascending 0 2 (omega arith)

url_decode-handler_url_encode_example :
    url_decode (handler_url_encode (32 ∷ 65 ∷ 200 ∷ [])) ≡ c_str (32 ∷ 65 ∷ 200 ∷ [])
url_decode-handler_url_encode_example =
    url_decode-handler_url_encode (32 ∷ 65 ∷ 200 ∷ [])
      (omega arith, (omega arith, (omega arith, tt)))

url_decode-url_encode_example :
    url_decode (url_encode (32 ∷ 65 ∷ 200 ∷ [])) ≡ c_str (32 ∷ 65 ∷ 200 ∷ [])
url_decode-url_encode_example =
    url_decode-url_encode (32 ∷ 65 ∷ 200 ∷ []) (omega arith, (omega arith, (omega arith, tt)))

abbrev memory : Links
memory = record { next = λ j. 9; prev = λ j. 9 }

abbrev two_ops : List Op
two_ops = put_op 1 ∷ put_op 2 ∷ get_op ∷ flush_op ∷ get_op ∷ []

two_ops-AreFresh : AreFresh two_ops true []
unfolding AreFresh
two_ops-AreFresh = (
  (λ e. absurd (omega arith)),
  tt,
  ((λ e. absurd (omega arith)), ((λ e. absurd (omega arith)), tt), tt),
)

run-Agree_example : Agree (run two_ops (wait_list memory)) (queue_run two_ops true [])
run-Agree_example =
    run-Agree two_ops (wait_list memory) true [] (wait_list-Models memory) two_ops-AreFresh

abbrev one_node : Links
one_node = LinkedList.add 1 (LinkedList.empty memory)

empty-Holds : Holds (LinkedList.empty memory) []
unfolding LinkedList.empty
empty-Holds = record { chain = (refl, refl); distinct = tt }

add-Holds_example : Holds (LinkedList.add 1 (LinkedList.empty memory)) (1 ∷ [])
add-Holds_example =
    add-Holds 1 (LinkedList.empty memory) [] (λ e. absurd (omega arith)) tt empty-Holds

one_node-Holds : Holds one_node (1 ∷ [])
one_node-Holds = add-Holds 1 (LinkedList.empty memory) [] (λ e. absurd (omega arith)) tt empty-Holds

del-Holds_example : Holds (del 1 one_node) []
del-Holds_example = del-Holds 1 one_node [] [] one_node-Holds

-- a request of a header of one byte and a content of one byte, cut within the empty line
abbrev two_pieces : List Bytes
two_pieces = (65 ∷ 13 ∷ []) ∷ (10 ∷ 13 ∷ 10 ∷ 66 ∷ []) ∷ []

two_pieces-ArePlain : ArePlain two_pieces
unfolding c_str
two_pieces-ArePlain = (refl, (refl, tt))

line_at : find ([] ++ concat two_pieces) empty_line ≡ some 1
unfolding find starts_with concat
line_at = refl

all_bytes : 1 + 4 + 1 ≤ length ([] ++ concat two_pieces)
unfolding concat
all_bytes = omega arith

two_pieces-Fits :
    Fits
      (1 - length (read_http_header two_pieces []).buffer)
      (read_http_header two_pieces []).pieces
unfolding read_http_header find starts_with c_str Fits
two_pieces-Fits = tt

recv_request-whole_example :
    (content : Bytes) × ((recv_request (λ h. some 1) two_pieces []).result
      ≡ some (take 1 ([] ++ concat two_pieces), content))
    × (length content ≡ 1)
    × (content
          ++ ((recv_request (λ h. some 1) two_pieces []).buffer
              ++ concat (recv_request (λ h. some 1) two_pieces []).pieces)
        ≡ drop (1 + 4) ([] ++ concat two_pieces))
recv_request-whole_example =
    recv_request-whole (λ h. some 1) two_pieces [] 1 1 two_pieces-ArePlain line_at refl all_bytes
      two_pieces-Fits

abbrev two_candidates : List Bytes
two_candidates = (66 ∷ []) ∷ (65 ∷ []) ∷ []

two_candidates-sorted :
    (edit_sort letters raw (65 ∷ []) two_candidates [] []).cadidate_sort
    ≡ (0, 65 ∷ hashes) ∷ (1, 66 ∷ hashes) ∷ []
unfolding edit_sort sort_loop sort_step calculate edit fill_cells fill_cell init_cells store
    word_cost min for_up lookup upsert bytes_eq strcmp
two_candidates-sorted = refl

two_candidates-close : All (λ c. distance 1 c < 10000) two_candidates
unfolding distance
two_candidates-close = (omega arith, (omega arith, tt))

asked-IsNearest_example :
    (q : Bytes) × (asked 1 (edit_sort letters raw (65 ∷ []) two_candidates [] []).cadidate_sort
      ≡ some q)
    × (is_in q (group letters raw (65 ∷ []) 0 (firsts [] two_candidates)) ≡ true)
    × IsNearest 1 q (group letters raw (65 ∷ []) 0 (firsts [] two_candidates))
asked-IsNearest_example =
    asked-IsNearest letters raw (65 ∷ []) two_candidates 1 0 (65 ∷ hashes) ((1, 66 ∷ hashes) ∷ [])
      (
        ((λ e. cc), ((λ e. absurd (omega arith)), tt)),
        (((λ e. cc), ((λ e. absurd (omega arith)), tt)), tt),
      )
      two_candidates-close two_candidates-sorted (omega arith)
