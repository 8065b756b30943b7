-- ===== src/Core/VerifyUpdate.antt =====
-- core/src/proof/path_proof.rs: `verify_update`, which computes the root after an update from
-- verified paths of the trie before it.
pub mod Compact
pub mod Climb
pub mod Single
use nomt.Base.{
  ℕ, ◌+◌, ◌-◌, Bool, true, not, List, [], ◌∷◌, reverse, Bits, bool_eq, list_eq, nat_eq, ◌==◌,
  if◌then◌else◌, ltb, length, take, Option, none, some,
}
use nomt.Core.Trie.{Node, NodeKind, KeyPath, NodeHasher}
use nomt.Core.Update.{Change, shared_bits, bits_ltb, join_nodes, leaf_ops_spliced, build_trie}
use nomt.Core.PathProof.{VerifiedPathProof}

pub data VerifyUpdateError : Type 0 where
  paths_out_of_order ops_out_of_order op_out_of_scope path_without_ops root_mismatch :
      VerifyUpdateError

pub record PathUpdate : Type 0 where
  pub inner : VerifiedPathProof
  pub ops : List Change

-- `view_bits().starts_with(path)`
unfoldable pub starts_with : Bits → Bits → Bool
starts_with path key = take (length path) key == path

-- Whether the item follows the one before it, if there is one.
unfoldable pub in_order : Option Bits → Bits → Bool
in_order none key = true
in_order (some before) key = bits_ltb before key

-- The inner loop of the checks: the first error of the operations of a path.
unfoldable pub check_ops : Bits → Option KeyPath → List Change → Option VerifyUpdateError
unfolding starts_with in_order
check_ops path before [] = none
check_ops path before ((key, value) ∷ ops) =
    let rest = check_ops path (some key) ops in
    if not (in_order before key)
    then some ops_out_of_order
    else if not (starts_with path key)
    then some op_out_of_scope
    else rest

unfoldable pub check_path : Node → Option Bits → PathUpdate → Option VerifyUpdateError
unfolding check_ops
check_path prev_root before path =
    if not (path.inner.root == prev_root)
    then some root_mismatch
    else if not (in_order before path.inner.key_path)
    then some paths_out_of_order
    else if length path.ops == 0
    then some path_without_ops
    else check_ops path.inner.key_path none path.ops

unfoldable pub check_paths : Node → Option Bits → List PathUpdate → Option VerifyUpdateError
unfolding check_path
check_paths prev_root before [] = none
check_paths prev_root before (path ∷ paths) =
    let rest = check_paths prev_root (some path.inner.key_path) paths in
    elim (check_path prev_root before path) [ some e ↦ some e | none ↦ rest ]

-- `pending_siblings.last().map_or(false, |p| p.1 == cur_layer)`: the sibling and the rest.
unfoldable pub replace_sibling : ℕ → Node → List (Node × ℕ) → Node × List (Node × ℕ)
replace_sibling cur_layer sibling [] = (sibling, [])
replace_sibling cur_layer sibling ((node, layer) ∷ pending) =
    if layer == cur_layer then (node, pending) else (sibling, (node, layer) ∷ pending)

module _ (h : NodeHasher) where
  -- The match on the kinds of the current node and its sibling.
  unfoldable pub compact : Bool → Node → Node → Node
  unfolding join_nodes
  compact bit cur_node sibling = elim (h.node_kind cur_node) [
    | NodeKind.terminator ↦ elim (h.node_kind sibling) [
      | NodeKind.terminator ↦ cur_node
      | NodeKind.leaf ↦ sibling
      | NodeKind.internal ↦ h.hash_internal (join_nodes bit sibling cur_node)
    ]
    | NodeKind.leaf ↦ elim (h.node_kind sibling) [
      | NodeKind.terminator ↦ cur_node
      | NodeKind.leaf ↦ h.hash_internal (join_nodes bit sibling cur_node)
      | NodeKind.internal ↦ h.hash_internal (join_nodes bit sibling cur_node)
    ]
    | NodeKind.internal ↦ h.hash_internal (join_nodes bit sibling cur_node)
  ]

  -- The loop over the zip of bits and siblings, from below; the node and the stack at its end.
  unfoldable pub climb_path : Bits → List Node → Node → ℕ → List (Node × ℕ) → Node × List (Node × ℕ)
  unfolding replace_sibling compact
  climb_path [] siblings cur_node cur_layer pending = (cur_node, pending)
  climb_path (bit ∷ bits) [] cur_node cur_layer pending = (cur_node, pending)
  climb_path (bit ∷ bits) (proven ∷ siblings) cur_node cur_layer pending =
      let (sibling, rest) = replace_sibling cur_layer proven pending in
      climb_path bits siblings (compact bit cur_node sibling) (cur_layer - 1) rest

  -- How far to go up for a path before the next one; `none` where the subtraction overflows, which
  -- panics where overflow is checked and wraps around in a release build.
  unfoldable pub up_layers_of : Bits → Option Bits → Option ℕ
  up_layers_of path none = some (length path)
  up_layers_of path (some next) =
      let n = shared_bits next path in
      if ltb n (length path) then some (length path - (n + 1)) else none

  unfoldable pub next_path : List PathUpdate → Option Bits
  next_path [] = none
  next_path (path ∷ paths) = some path.inner.key_path

  -- The body of the loop for a path, given the layers to go up.
  unfoldable pub update_path : PathUpdate → ℕ → List (Node × ℕ) → List (Node × ℕ)
  unfolding climb_path
  update_path path up_layers pending =
      let bits = path.inner.key_path in
      let skip = length bits in
      let sub_root = (build_trie h skip (leaf_ops_spliced path.inner.terminal path.ops)).0 in
      let (cur_node, rest) =
        climb_path (take up_layers (reverse bits)) (reverse path.inner.siblings) sub_root skip
          pending in
      (cur_node, skip - up_layers) ∷ rest

  unfoldable pub update_paths : List PathUpdate → List (Node × ℕ) → Option (List (Node × ℕ))
  unfolding up_layers_of next_path update_path
  update_paths [] pending = some pending
  update_paths (path ∷ paths) pending = elim (up_layers_of path.inner.key_path (next_path paths)) [
    | none ↦ none
    | some up_layers ↦ update_paths paths (update_path path up_layers pending)
  ]

-- The results of `verify_update`; `panic` is the failed subtraction.
pub data UpdateOutcome : Type 0 where
  root : Node → UpdateOutcome
  failed : VerifyUpdateError → UpdateOutcome
  panic : UpdateOutcome

unfoldable pub last_pending : Option (List (Node × ℕ)) → UpdateOutcome
last_pending none = UpdateOutcome.panic
last_pending (some []) = UpdateOutcome.panic
last_pending (some ((node, layer) ∷ pending)) = UpdateOutcome.root node

unfoldable pub verify_update : NodeHasher → Node → List PathUpdate → UpdateOutcome
unfolding check_paths update_paths last_pending
verify_update h prev_root [] = UpdateOutcome.root prev_root
verify_update h prev_root (path ∷ paths) = elim (check_paths prev_root none (path ∷ paths)) [
  | some e ↦ UpdateOutcome.failed e
  | none ↦ last_pending (update_paths h (path ∷ paths) [])
]
