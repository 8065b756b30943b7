-- ===== src/Core/Hasher.antt =====
-- core/src/hasher.rs: the hashers that mark the kind of a node in the top bit of its hash.
use nomt.Base.{
  ◌≡◌, ◌≢◌, Bool, true, false, [], ◌∷◌, ◌++◌, Bits, bool_eq, list_eq, ◌==◌, ==_refl, arith, refl,
  if◌then◌else◌, length, ne→==-false, ap, ◌∙◌, ◌↔◌,
}
use nomt.Core.Trie.{
  Node, NodeKind, InternalData, LeafData, NodeHasher, IsLabelled, terminator_node, ValueHash,
}

-- `node[0] >> 7 == 1` reads the first bit.
top_bit : Node → Bool
top_bit [] = false
top_bit (b ∷ bs) = b

pub node_kind_by_msb : Node → NodeKind
unfolding top_bit
node_kind_by_msb node =
    if top_bit node
    then NodeKind.leaf
    else if node == terminator_node
    then NodeKind.terminator
    else NodeKind.internal

-- `node[0] |= 0b10000000`
pub set_msb : Node → Node
set_msb [] = []
set_msb (b ∷ bs) = true ∷ bs

-- `node[0] &= 0b01111111`
unfoldable pub unset_msb : Node → Node
unset_msb [] = []
unset_msb (b ∷ bs) = false ∷ bs

-- A binary hash function, given by the crates `blake3`, `sha2` or `digest`.
pub record BinaryHash : Type 0 where
  pub hash : Bits → Node

module _ (h : BinaryHash) where
  -- The buffer of 64 bytes is the two inputs in order.
  pub hash2_32_concat : Bits → Bits → Node
  hash2_32_concat left right = h.hash (left ++ right)

  -- `ValueHasher for BinaryHasher<H>`
  pub hash_value : Bits → ValueHash
  hash_value value = h.hash value

  -- `NodeHasher for BinaryHasher<H>`
  pub binary_hasher : NodeHasher
  unfolding node_kind_by_msb set_msb unset_msb hash2_32_concat
  binary_hasher = record {
    hash_leaf = λ d. set_msb (hash2_32_concat d.key_path d.value_hash);
    hash_internal = λ d. unset_msb (hash2_32_concat d.left d.right);
    node_kind = node_kind_by_msb;
  }

top_bit-set_msb : (n : Node) → length n ≡ 256 → top_bit (set_msb n) ≡ true
unfolding top_bit set_msb
top_bit-set_msb [] e = absurd (omega arith)
top_bit-set_msb (b ∷ bs) e = refl

top_bit-unset_msb : (n : Node) → top_bit (unset_msb n) ≡ false
unfolding top_bit unset_msb
top_bit-unset_msb [] = refl
top_bit-unset_msb (b ∷ bs) = refl

top_bit-terminator_node : top_bit terminator_node ≡ false
unfolding top_bit terminator_node
top_bit-terminator_node = refl

leaf_of_top_bit : (n : Node) → top_bit n ≡ true → node_kind_by_msb n ≡ NodeKind.leaf
unfolding node_kind_by_msb
leaf_of_top_bit n e = rw e

internal_of_top_bit :
    (n : Node) → top_bit n ≡ false → n ≢ terminator_node → node_kind_by_msb n ≡ NodeKind.internal
unfolding node_kind_by_msb
internal_of_top_bit n e ne = rw (e, ne→==-false n terminator_node ne)

terminator_node_kind : node_kind_by_msb terminator_node ≡ NodeKind.terminator
unfolding node_kind_by_msb
terminator_node_kind = rw (top_bit-terminator_node, ==_refl terminator_node)

module _ (h : BinaryHash) (size : (input : Bits) → length (h.hash input) ≡ 256) where
  hash_leaf-kind :
      (d : LeafData) → (binary_hasher h).node_kind ((binary_hasher h).hash_leaf d) ≡ NodeKind.leaf
  unfolding binary_hasher
  hash_leaf-kind d =
      let n : Node = h.hash (d.key_path ++ d.value_hash) in
      leaf_of_top_bit (set_msb n) (top_bit-set_msb n (size (d.key_path ++ d.value_hash)))

terminator_of_unset :
    (n : Node)
    → unset_msb n ≡ terminator_node
    → node_kind_by_msb (unset_msb n) ≡ NodeKind.terminator
terminator_of_unset n e = ap node_kind_by_msb e ∙ terminator_node_kind

internal_of_unset :
    (n : Node) → unset_msb n ≢ terminator_node → node_kind_by_msb (unset_msb n) ≡ NodeKind.internal
internal_of_unset n ne = internal_of_top_bit (unset_msb n) (top_bit-unset_msb n) ne

-- The hash of a pair of nodes reads as an internal node, unless it is zero below its top bit.
internal_kind_iff :
    (n : Node)
    → (node_kind_by_msb (unset_msb n) ≡ NodeKind.internal) ↔ (unset_msb n ≢ terminator_node)
internal_kind_iff n = (λ k e. cc (k, terminator_of_unset n e), λ ne. internal_of_unset n ne)

-- The hasher labels all nodes exactly if no pair hashes to zero below the top bit.
binary_hasher-IsLabelled :
    (h : BinaryHash)
    → ((input : Bits) → length (h.hash input) ≡ 256)
    → IsLabelled (binary_hasher h)
      ↔ ((d : InternalData) → unset_msb (h.hash (d.left ++ d.right)) ≢ terminator_node)
unfolding binary_hasher
binary_hasher-IsLabelled h size = (
  λ labelled d. (internal_kind_iff (h.hash (d.left ++ d.right))).0 (labelled.internal_kind d),
  λ nonzero. record {
    leaf_kind = hash_leaf-kind h size;
    internal_kind = λ d. (internal_kind_iff (h.hash (d.left ++ d.right))).1 (nonzero d);
    terminator_kind = terminator_node_kind;
  },
)
