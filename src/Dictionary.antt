-- ===== src/Dictionary.antt =====
-- `CDictionary` of src/include/gary_common/gary_dictionary.h: a tree of words whose nodes come from a
-- pool of fixed size. Node 0 stands for the root, which is outside the pool (the pool's own node 0 is
-- left empty), node `i` for `m_pNodeBuf + i`. The pool has less than 2^31 nodes, so `TINT32` holds
-- every index.
pub mod Tree
pub mod Marks
pub mod Entries
pub mod Fold
use dlg_service.Prelude.{
  ℕ, zero, suc, ◌+◌, ◌≡◌, Option, none, some, List, [], ◌∷◌, leb, ◌==◌, ◌&&◌, if◌then◌else◌, Bytes,
  true, false, Bool,
}

pub data ℤ : Type 0 where
  pos : ℕ → ℤ
  negsuc : ℕ → ℤ

-- `- m`
abbrev pub neg : ℕ → ℤ
neg zero = pos 0
neg (suc m) = negsuc m

-- `SCharNode`
pub record CharNode : Type 0 where
  pub dw_index : ℤ
  pub next : ℕ → Option ℕ

-- `SCharNode::Reset`
abbrev pub reset_node : CharNode
reset_node = record { dw_index = pos 0; next = λ c. none }

-- `f[k] = v`
unfoldable pub put_at {ℓ} : {A : Type ℓ} → ℕ → A → (ℕ → A) → ℕ → A
put_at k v f i = if i == k then v else f i

pub record Dictionary : Type 0 where
  pub nodes : ℕ → CharNode
  pub cur_node_index : ℕ

-- The constructor: `new SCharNode` runs the node's own constructor.
abbrev pub dictionary : Dictionary
dictionary = record { nodes = λ i. reset_node; cur_node_index = 1 }

-- `Reset`: the pool keeps its nodes.
unfoldable pub reset : Dictionary → Dictionary
reset d = record { nodes = put_at 0 reset_node d.nodes; cur_node_index = 1 }

-- The loop of the first `LookUp`, from a node on.
unfoldable pub walk : (ℕ → CharNode) → ℕ → Bytes → Option ℕ
walk nodes i [] = some i
walk nodes i (c ∷ w) = elim ((nodes i).next c) [ none ↦ none | some j ↦ walk nodes j w ]

-- The first `LookUp`.
unfoldable pub look_up : Bytes → Dictionary → ℤ
look_up [] d = pos 0
look_up (c ∷ w) d = elim (walk d.nodes 0 (c ∷ w)) [ none ↦ pos 0 | some i ↦ (d.nodes i).dw_index ]

-- `cTheChar` after the case conversion, at the first byte of a character.
abbrev pub fold_char : ℕ → ℕ
fold_char c = if leb 128 c then c else if leb b'A' c && leb c b'Z' then c + 32 else c

-- The loop of the second `LookUp`; `need` is `dwNeedWordMatchLen`.
unfoldable pub walk_folded : (ℕ → CharNode) → ℕ → ℕ → Bytes → Option ℕ
walk_folded nodes need i [] = some i
walk_folded nodes zero i (c ∷ w) = elim ((nodes i).next (fold_char c)) [
  | none ↦ none
  | some j ↦ walk_folded nodes (if leb 128 c then 1 else 0) j w
]
walk_folded nodes (suc need) i (c ∷ w) = elim ((nodes i).next c) [
  | none ↦ none
  | some j ↦ walk_folded nodes need j w
]

-- The second `LookUp`: from a node, or from the root for NULL.
unfoldable pub look_up_node : Bytes → Option ℕ → Dictionary → Option ℕ
look_up_node [] begin_node d = none
look_up_node (c ∷ w) none d = walk_folded d.nodes 0 0 (c ∷ w)
look_up_node (c ∷ w) (some i) d = walk_folded d.nodes 0 i (c ∷ w)

-- `pCurNode->next[c] = pNewNode`
unfoldable pub link : ℕ → ℕ → ℕ → Dictionary → Dictionary
link i c j d = record d {
  nodes = put_at i (record (d.nodes i) { next = put_at c (some j) (d.nodes i).next }) d.nodes;
}

-- The end of `AddWord`, at the word's node.
unfoldable pub mark : ℕ → Dictionary → ℤ × Dictionary
mark i d = elim (d.nodes i).dw_index [
  | pos n ↦ (pos n, d)
  | negsuc n ↦ (
    pos (suc n),
    record d { nodes = put_at i (record (d.nodes i) { dw_index = pos (suc n) }) d.nodes },
  )
]

module _ (dic_size : ℕ) where
  -- `AllocateNode`: the node, or NULL.
  unfoldable pub allocate_node : Dictionary → Option ℕ × Dictionary
  allocate_node d = if leb dic_size d.cur_node_index then (none, d) else (
    some d.cur_node_index,
    record {
      nodes =
          put_at d.cur_node_index (record reset_node { dw_index = neg d.cur_node_index }) d.nodes;
      cur_node_index = d.cur_node_index + 1;
    },
  )

  -- The loop of `AddWord`, from a node on, and its end.
  unfoldable pub add_from : ℕ → Bytes → Dictionary → ℤ × Dictionary
  add_from i [] d = mark i d
  add_from i (c ∷ w) d = elim ((d.nodes i).next c) [
    | some j ↦ add_from j w d
    | none ↦ elim (allocate_node d).0 [
      | none ↦ (pos 0, (allocate_node d).1)
      | some j ↦ add_from j w (link i c j (allocate_node d).1)
    ]
  ]

  -- `AddWord`
  unfoldable pub add_word : Bytes → Dictionary → ℤ × Dictionary
  add_word [] d = (pos 0, d)
  add_word (c ∷ w) d = add_from 0 (c ∷ w) d
