-- ===== src/Server/Config.antt =====
-- `config_map` of src/http_server/config_map.hpp: a tree of sections and values, its nodes linked by first
-- child and next sibling. `cur` is the path of section names to its node: a section is the first of its
-- name among its siblings, and stays so, since a name is only added where it is not there.
pub mod Import
pub mod Values
pub mod Sections
use dlg_service.Prelude.{
  ℕ, zero, suc, ◌+◌, ◌-◌, Option, none, some, List, [], ◌∷◌, ◌++◌, map, leb, ltb, ◌==◌, ◌&&◌, ◌||◌,
  not, if◌then◌else◌, Bytes, bytes_eq, find, true, false, Bool, length, take, drop, get_or,
}
use dlg_service.Index.Types.{c_str}

pub data NodeType : Type 0 where
  section : NodeType
  value : NodeType

-- `config_map_node`, with `nil` for NULL.
pub data ConfigMapNode : Type 0 where
  nil : ConfigMapNode
  node : NodeType → Bytes → Bytes → (left right : ConfigMapNode) → ConfigMapNode

abbrev pub is_section : NodeType → Bool
is_section section = true
is_section value = false

pub record ConfigMap : Type 0 where
  pub root_left : ConfigMapNode
  pub cur : List Bytes

-- The constructor.
abbrev pub config_map : ConfigMap
config_map = record { root_left = nil; cur = [] }

-- `cur->left`, for the section of a path.
unfoldable pub chain_at : List Bytes → ConfigMapNode → ConfigMapNode
chain_at [] pos = pos
chain_at (sub ∷ path) nil = nil
chain_at (sub ∷ path) (node type' key val left right) =
    let down = chain_at path left in
    let next = chain_at (sub ∷ path) right in
    if is_section type' && bytes_eq key sub then down else next

-- A change of `cur->left`.
unfoldable pub change_at :
    List Bytes → (ConfigMapNode → ConfigMapNode) → ConfigMapNode → ConfigMapNode
change_at [] f pos = f pos
change_at (sub ∷ path) f nil = nil
change_at (sub ∷ path) f (node type' key val left right) =
    let down = change_at path f left in
    let next = change_at (sub ∷ path) f right in
    if is_section type' && bytes_eq key sub
    then node type' key val down right
    else node type' key val left next

-- The search for a section, and its insertion before the others where it is missing.
unfoldable pub has_section : Bytes → ConfigMapNode → Bool
has_section sub nil = false
has_section sub (node type' key val left right) =
    let next = has_section sub right in if is_section type' && bytes_eq key sub then true else next

unfoldable pub find_section : Bytes → ConfigMapNode → ConfigMapNode
find_section sub pos = if has_section sub pos then pos else node section sub [] nil pos

abbrev pub is_space : ℕ → Bool
is_space c = (leb 9 c && leb c 13) || (c == b' ')

unfoldable pub strip_left : Bytes → Bytes
strip_left [] = []
strip_left (c ∷ s) = let rest = strip_left s in if is_space c then rest else c ∷ s

unfoldable pub strip_right : Bytes → Bytes
strip_right [] = []
strip_right (c ∷ s) =
    let rest = strip_right s in if length rest == 0 && is_space c then [] else c ∷ rest

-- `strip`
unfoldable pub strip : Bytes → Bytes
strip str = strip_right (strip_left str)

-- The pieces of a text between the bytes `c`: `find(head + 1, str.end(), c)` again and again.
unfoldable pub pieces : ℕ → Bytes → Bytes → List Bytes
pieces c piece [] = piece ∷ []
pieces c piece (b ∷ s) =
    let rest = pieces c [] s in
    let more = pieces c (piece ++ b ∷ []) s in if b == c then piece ∷ rest else more

-- The loop of `set_section`, from `cur` on.
unfoldable pub enter : List Bytes → ConfigMap → ConfigMap
enter [] config = config
enter (piece ∷ rest) config =
    let sub = strip piece in
    let here = enter rest config in
    let below = enter rest (record {
      root_left = change_at config.cur (find_section sub) config.root_left;
      cur = config.cur ++ sub ∷ [];
    }) in
    if length sub == 0 then here else below

-- `set_section`
unfoldable pub set_section : Bytes → ConfigMap → ConfigMap
set_section key config =
    enter (pieces b'/' [] (map (λ c. if c == 92 then b'/' else c) (c_str key)))
      (record config { cur = [] })

unfoldable pub has_value : Bytes → ConfigMapNode → Bool
has_value key' nil = false
has_value key' (node type' key val left right) =
    let next = has_value key' right in
    if not (is_section type') && bytes_eq key key' then true else next

unfoldable pub assign_value : Bytes → Bytes → ConfigMapNode → ConfigMapNode
assign_value key' value' nil = nil
assign_value key' value' (node type' key val left right) =
    let next = assign_value key' value' right in
    if not (is_section type') && bytes_eq key key'
    then node type' key value' left right
    else node type' key val left next

-- `set_value`, on `cur->left`.
unfoldable pub put_value : Bytes → Bytes → ConfigMapNode → ConfigMapNode
put_value key' value' pos =
    if has_value key' pos then assign_value key' value' pos else node value key' value' nil pos

unfoldable pub set_value : Bytes → Bytes → ConfigMap → ConfigMap
set_value key' value' config = record config {
  root_left = change_at config.cur (put_value key' value') config.root_left;
}

-- `get_value`, on `cur->left`: none for -1.
unfoldable pub find_value : Bytes → ConfigMapNode → Option Bytes
find_value key' nil = none
find_value key' (node type' key val left right) =
    let next = find_value key' right in
    if not (is_section type') && bytes_eq key key' then some val else next

unfoldable pub get_value : Bytes → ConfigMap → Option Bytes
get_value key' config = find_value key' (chain_at config.cur config.root_left)

-- The text up to the next byte `c`, and what follows the byte.
unfoldable pub until : ℕ → Bytes → Option (Bytes × Bytes)
until c s = elim (find s (c ∷ [])) [ none ↦ none | some i ↦ some (take i s, drop (suc i) s) ]

-- What `import` does with the rest of a line behind a parameter's name.
unfoldable pub import_value : Bytes → Bytes → ConfigMap → ConfigMap
import_value key' [] config = config
import_value key' (c ∷ line) config =
    if c == b'='
    then elim (strip line) [
      | [] ↦ config
      | d ∷ line' ↦
          if d == b'"'
          then elim (until b'"' line') [
            | none ↦ config
            | some r ↦ set_value (c_str key') (c_str r.0) config
          ]
          else config
    ]
    else config

-- A line of `import`.
unfoldable pub import_line : Bytes → ConfigMap → ConfigMap
import_line line config = elim (strip line) [
  | [] ↦ config
  | c ∷ line' ↦
      if c == b'['
      then elim (until b']' line') [
        | none ↦ config
        | some r ↦ if length r.0 == 0 then config else set_section (strip r.0) config
      ]
      else if c == b'"'
      then elim (until b'"' line') [
        | none ↦ config
        | some r ↦ if length r.0 == 0 then config else import_value r.0 (strip r.1) config
      ]
      else config
]

-- `import` of a file's lines.
unfoldable pub import_lines : List Bytes → ConfigMap → ConfigMap
import_lines [] config = config
import_lines (line ∷ lines) config = import_lines lines (import_line line config)
