-- ===== src/Lib.antt =====
-- The dialogue service, from its string helpers to the server: a question is segmented into words,
-- the words are looked up in an inverted index of known questions, the candidates are ranked by their
-- edit distance, and requests come in over HTTP.
--
-- Prelude: Boolean tests, lists, strings, counting loops, orders and maps on the native numbers. A
--   string is the list of its bytes; std::map is a list of pairs in ascending order of the keys.
-- Text: StringTrim, StringSplit and SegSplit of src/include/gary_common/gary_string.h. Text/Trim and
--   Text/Split have the proofs. The loops run on fuel of one more than the length of the string; each
--   round but the last goes on by at least the separator's length, so that it is enough.
--   Text/Words has GetWordNum, GetTheWord and GetEngWord, Text/Delete deleteStr and deleteSpace,
--   Text/Runs the two forms of all_substr, and all_suffix, with their theorems.
-- TfIdf: src/include/common/tf-idf.cpp, its counters as maps. TfIdf/Counts says what they count.
-- Dictionary: the tree of words of src/include/gary_common/gary_dictionary.h, its nodes as numbers
--   into a store. Dictionary/Tree has the shape of the tree, Dictionary/Marks what LookUp finds after
--   each change, Dictionary/Entries AddWord, and Dictionary/Fold the second LookUp.
-- SimHash: src/simhash/hashsign.cpp. SimHash/Sign is about the signature, SimHash/Distance about the
--   distance, whose loop has fuel for the 64 bits and its last test, SimHash/Similar about the search.
-- EditDist: src/include/common/EditDist.cpp. EditDist/Script says what an edit script is,
--   EditDist/Table that the table holds the costs, EditDist/Groups what EditSort gathers.
-- Index: Index/Types has the nodes of src/index/inv_index/doc_index.h; Index/HashVector the hash table
--   of src/include/HashVector_Enhanced.h (GetHashValue, AddItem, Wap, Partition, QSort, Sort, Find,
--   and in Index/HashVector/File WriteFile and ReadInFile); Index/CommonIndex the inverted index of
--   src/include/common_index.h (Add, ChangeToHVIndex, Save, Load, GetInv, GetDoc, GetDocText, Clear);
--   Index/Make the function MakeIndex of src/index/inv_index/doc_index.cpp. The files are lists of
--   items, one for each fwrite. Sorting and searching a bucket run on its length as fuel.
-- Search: the queries of src/index/inv_index/doc_index.cpp (GetDlgResult, GetUnionResults,
--   GetInvResults, UnionInvResult, SearchDoc, BinarySearch, GraphSegment), Normalize_ of
--   src/index/inv_index/normalize.cpp and Segment_ of src/segment/Segment.cpp. The binary search runs
--   on the length of its range as fuel, which is enough since each round shortens the range.
-- Url: UrlEncode of src/http_server/HttpHandler.cpp, url_encode and url_decode of
--   src/include/UrlEncodeAndDecode.h.
-- Server: Server/LinkedList is src/http_server/linked_list.hpp, the nodes' pointers as two functions on
--   addresses; Server/WaitList is src/http_server/wait_list.hpp, where every operation is one step
--   under the mutex and one that waits does not happen; Server/Socket reads requests as
--   src/http_server/http_server.cpp does, and Server/Handles is its table of connections, with the
--   counts of src/http_server/socket_handle.hpp: each critical section is a step, so that accepting
--   takes two and closing three. Server/Handles/Erase is about the table, Server/Handles/Counted
--   about the number. Server/Response is src/http_server/HttpResponse.cpp and the tables of its
--   header, Server/Response/Head and Server/Response/Dump what dump_to_buff writes; snprintf leaves what the C library documents, and a write outside the
--   buffer is a result of its own. Server/Config is src/http_server/config_map.hpp, its nodes a tree by
--   first child and next sibling, and the section that is open a path of names;
--   Server/Configuration is src/http_server/configuration.cpp.
--   Server/Handler is generate_response of src/http_server/HttpHandler.cpp.
--   Server/Socket/Write is writen_timeout, on the results of poll and write in turn.
-- Dialogue: show_results of src/dialogue/dialogue.cpp and the search of answers of
--   src/da_search/Da_Search.cpp. Dialogue/Outcome is IndexOutcome with the search of questions of
--   src/doc_search/Doc_Search.cpp, Dialogue/Closest the question that is asked, Dialogue/Whole a query's
--   way through index, distances and answers.
-- Client: recv, read_http_header_timeout and readn_timeout of src/http_client/HttpClient.cpp, the connection
--   a parameter that hands out bytes. The loop of the header has fuel for the blocks that it reads.
--   Client/Blocks is about readn_timeout, Client/Header about the header, Client/Recv about the whole,
--   Client/Answer and Client/Exchange about the server's responses.
-- Examples: the theorems at concrete inputs.
--
-- Parameters: what a connection of the client hands out, the graph segmenter and the character conversions, what `new int[]` leaves in memory,
-- what `read`, `poll` and `write` return, the parsing of a header's content length, `atoi` of the configuration, the hash of a
-- feature and the arithmetic of its float weights, the trie of src/da_search/Da_Search.cpp, and `rand`.
-- Numbers are unbounded where the source has int and int64_t offsets and counts, on the assumption that
-- the data fit; the hash, the bytes, the handles' counts and the lengths of a
-- response's content wrap as in the source. The digits of a number are printed on fuel of one more than the number, of which each round takes a tenth.
--
-- Not modelled: logging, the dictionaries' files, GetInfo and the threads of the server, enum_value of
-- config_map, src/index/index_da,
-- src/QueryMatch, src/locate_getresult, the bounded heap and the bitmaps of
-- src/include/gary_common, and the copies of other projects' libraries.
pub mod Prelude
pub mod Text
pub mod TfIdf
pub mod Dictionary
pub mod SimHash
pub mod EditDist
pub mod Index
pub mod Search
pub mod Url
pub mod Server
pub mod Dialogue
pub mod Client
pub mod Examples
