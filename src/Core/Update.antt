-- ===== src/Core/Update.antt =====
-- core/src/update.rs: the operations that replace a terminal node of the trie, and `build_trie`,
-- which builds the nodes above a sorted list of leaves by a left frontier.
pub mod Reference
pub mod Group
pub mod Frontier
pub mod Shared
pub mod Steps
pub mod Halves
pub mod Correct
use nomt.Base.{
  ℕ, zero, suc, ◌+◌, ◌-◌, max, Bool, true, false, not, List, [], ◌∷◌, ◌++◌, reverse, Bits, bool_eq,
  list_eq, nat_eq, ◌==◌, if◌then◌else◌, length, take, drop, Option, none, some, is_some,
}
use mathlib.Core.Option
use nomt.Core.Trie.{Node, KeyPath, ValueHash, InternalData, LeafData, NodeHasher, terminator_node}

unfoldable pub shared_bits : Bits → Bits → ℕ
shared_bits [] ys = 0
shared_bits (x ∷ xs) [] = 0
shared_bits (x ∷ xs) (y ∷ ys) = if x == y then suc (shared_bits xs ys) else 0

-- The order of `[u8; 32]` and of bit slices: lexicographic, a proper prefix first.
unfoldable pub bits_ltb : Bits → Bits → Bool
bits_ltb [] [] = false
bits_ltb [] (y ∷ ys) = true
bits_ltb (x ∷ xs) [] = false
bits_ltb (x ∷ xs) (y ∷ ys) = if x == y then bits_ltb xs ys else y

-- A key with its value, and a change of a key: `none` deletes it.
abbrev pub Op : Type 0
Op = KeyPath × ValueHash

abbrev pub Change : Type 0
Change = KeyPath × Option ValueHash

-- `slice::binary_search_by_key` on a slice that is sorted by its distinct keys.
pub data Search : Type 0 where
  found insert_at : ℕ → Search

unfoldable pub shift : Search → Search
shift (Search.found i) = Search.found (suc i)
shift (Search.insert_at i) = Search.insert_at (suc i)

unfoldable pub binary_search : KeyPath → List Change → Search
unfolding shift bits_ltb
binary_search key [] = Search.insert_at 0
binary_search key ((k, v) ∷ ops) =
    if bits_ltb k key
    then shift (binary_search key ops)
    else if k == key
    then Search.found 0
    else Search.insert_at 0

-- The position at which the key of the leaf is missing.
unfoldable pub splice_index : Option LeafData → List Change → Option ℕ
unfolding binary_search
splice_index none ops = none
splice_index (some leaf) ops = elim (binary_search leaf.key_path ops) [
  | Search.found i ↦ none
  | Search.insert_at i ↦ some i
]

unfoldable pub preserve_value : Option ℕ → Option LeafData → List Change
preserve_value none leaf = []
preserve_value (some i) none = []
preserve_value (some i) (some leaf) = (leaf.key_path, some leaf.value_hash) ∷ []

unfoldable pub skip_deleted : List Change → List Op
skip_deleted [] = []
skip_deleted ((k, none) ∷ ops) = skip_deleted ops
skip_deleted ((k, some v) ∷ ops) = (k, v) ∷ skip_deleted ops

unfoldable pub leaf_ops_spliced : Option LeafData → List Change → List Op
unfolding splice_index preserve_value skip_deleted
leaf_ops_spliced leaf ops =
    let index = splice_index leaf ops in
    let at : ℕ = Option.get_or index 0 in
    skip_deleted (take at ops ++ (preserve_value index leaf ++ drop at ops))

-- What the visitor is told of a node.
pub data WriteNode : Type 0 where
  leaf : (up : Bool) (down : Bits) (leaf_data : LeafData) (node : Node) → WriteNode
  internal : (internal_data : InternalData) (node : Node) → WriteNode
  terminator : WriteNode

unfoldable pub up_of : WriteNode → Bool
up_of (WriteNode.leaf up down leaf_data node) = up
up_of (WriteNode.internal internal_data node) = true
up_of WriteNode.terminator = false

unfoldable pub down_of : WriteNode → Bits
down_of (WriteNode.leaf up down leaf_data node) = down
down_of (WriteNode.internal internal_data node) = []
down_of WriteNode.terminator = []

unfoldable pub node_of : WriteNode → Node
node_of (WriteNode.leaf up down leaf_data node) = node
node_of (WriteNode.internal internal_data node) = node
node_of WriteNode.terminator = terminator_node

-- The local state of `build_trie`: the stack `pending_siblings`, its top first, and the calls of
-- the visitor so far, in order.
pub record Build : Type 0 where
  pub pending : List (Node × ℕ)
  pub visited : List WriteNode

-- `pending_siblings.last().map_or(false, |l| l.1 == layer)`: the sibling and the rest.
unfoldable pub pop_sibling : ℕ → List (Node × ℕ) → Node × List (Node × ℕ)
pop_sibling layer [] = (terminator_node, [])
pop_sibling layer ((node, l) ∷ pending) =
    if l == layer then (node, pending) else (terminator_node, (node, l) ∷ pending)

unfoldable pub join_nodes : Bool → Node → Node → InternalData
join_nodes bit sibling node =
    if bit then record { left = sibling; right = node } else record { left = node; right = sibling }

-- `leaf_depth` and `hash_up_layers`, from the bits shared with the keys before and after.
unfoldable pub layers_of : Option ℕ → Option ℕ → ℕ × ℕ
layers_of none none = (0, 0)
layers_of none (some n2) = (n2 + 1, 0)
layers_of (some n1) none = (n1 + 1, n1 + 1)
layers_of (some n1) (some n2) = (max n1 n2 + 1, n1 - n2)

unfoldable pub common_after_prefix : ℕ → KeyPath → KeyPath → ℕ
common_after_prefix skip k1 k2 = shared_bits (drop skip k1) (drop skip k2)

unfoldable pub shared_with : ℕ → KeyPath → Option Op → Option ℕ
unfolding common_after_prefix
shared_with skip key none = none
shared_with skip key (some (k, v)) = some (common_after_prefix skip k key)

-- `pending_siblings.pop().map(|n| n.0).unwrap_or(TERMINATOR)`
unfoldable pub root_of_stack : List (Node × ℕ) → Node
root_of_stack [] = terminator_node
root_of_stack ((node, layer) ∷ pending) = node

module _ (h : NodeHasher) where
  unfoldable pub leaf_node : Op → Node
  leaf_node (k, v) = h.hash_leaf (record { key_path = k; value_hash = v })

  -- The inner loop, over the bits of the key from below: it ends by the push.
  unfoldable pub hash_up : Bits → Node → ℕ → Build → Build
  unfolding pop_sibling join_nodes
  hash_up [] node layer b = record b { pending = (node, layer) ∷ b.pending }
  hash_up (bit ∷ bits) node layer b =
      let (sibling, pending) = pop_sibling layer b.pending in
      let internal_data = join_nodes bit sibling node in
      let next = h.hash_internal internal_data in
      hash_up bits next (layer - 1) (record {
        pending = pending;
        visited = b.visited ++ WriteNode.internal internal_data next ∷ [];
      })

  -- The body of the outer loop for the leaf `b`, between `a` and `c`.
  unfoldable pub place_leaf : ℕ → Option Op → Op → Option Op → Build → Build
  unfolding layers_of shared_with leaf_node hash_up
  place_leaf skip a (this_key, this_val) c b =
      let n1 = shared_with skip this_key a in
      let n2 = shared_with skip this_key c in
      let (leaf_depth, hash_up_layers) = layers_of n1 n2 in
      let node = leaf_node (this_key, this_val) in
      let down_start : ℕ = skip + Option.get_or n1 0 in
      let leaf_end_bit = skip + leaf_depth in
      hash_up (take hash_up_layers (reverse (take leaf_depth (drop skip this_key)))) node leaf_depth
        (record b {
          visited =
              b.visited
              ++ WriteNode.leaf (is_some n1)
                  (take (leaf_end_bit - down_start) (drop down_start this_key))
                  (record { key_path = this_key; value_hash = this_val }) node
                ∷ [];
        })

  unfoldable pub build_loop : ℕ → Option Op → List Op → Build → Build
  unfolding place_leaf
  build_loop skip a [] b = b
  build_loop skip a (this ∷ []) b = place_leaf skip a this none b
  build_loop skip a (this ∷ next ∷ rest) b =
      build_loop skip (some this) (next ∷ rest) (place_leaf skip a this (some next) b)

  -- The root of the stack, and all calls of the visitor.
  unfoldable pub build_trie : ℕ → List Op → Node × List WriteNode
  unfolding build_loop leaf_node root_of_stack
  build_trie skip [] = (terminator_node, WriteNode.terminator ∷ [])
  build_trie skip ((k, v) ∷ []) =
      let node = leaf_node (k, v) in
      (node, WriteNode.leaf false [] (record { key_path = k; value_hash = v }) node ∷ [])
  build_trie skip (a ∷ b ∷ ops) =
      let end = build_loop skip none (a ∷ b ∷ ops) (record { pending = []; visited = [] }) in
      (root_of_stack end.pending, end.visited)
