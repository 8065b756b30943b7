-- ===== src/Core/PathProof.antt =====
-- core/src/proof/path_proof.rs: proofs of one path of the trie, their verification, and the
-- verification of an update against such proofs.
pub mod Descent
pub mod Members
pub mod Sound
use nomt.Base.{
  ℕ, zero, suc, ◌+◌, ◌-◌, min, Bool, true, false, not, ◌&&◌, List, [], ◌∷◌, reverse, Bits, bool_eq,
  list_eq, nat_eq, ◌==◌, if◌then◌else◌, ltb, length, take, drop, Option, none, some, Result, ok,
  err,
}
use mathlib.Core.Option
use nomt.Core.Trie.{
  Node, NodeKind, KeyPath, ValueHash, InternalData, LeafData, NodeHasher, terminator_node, leaf_eq,
}
use nomt.Core.TriePos.{TriePosition, path_of}
use nomt.Core.Update.{Change, Op, shared_bits, bits_ltb, join_nodes, leaf_ops_spliced, build_trie}

pub data PathProofTerminal : Type 0 where
  leaf : LeafData → PathProofTerminal
  terminator : TriePosition → PathProofTerminal

-- `PathProofTerminal::path`
unfoldable pub terminal_path : PathProofTerminal → Bits
unfolding path_of
terminal_path (PathProofTerminal.leaf d) = d.key_path
terminal_path (PathProofTerminal.terminator position) = path_of position

unfoldable pub as_leaf_option : PathProofTerminal → Option LeafData
as_leaf_option (PathProofTerminal.leaf d) = some d
as_leaf_option (PathProofTerminal.terminator position) = none

pub record PathProof : Type 0 where
  pub terminal : PathProofTerminal
  pub siblings : List Node

pub data KeyOutOfScope : Type 0 where
  key_out_of_scope : KeyOutOfScope

pub data PathProofVerificationError : Type 0 where
  too_many_siblings root_mismatch : PathProofVerificationError

pub record VerifiedPathProof : Type 0 where
  pub key_path : Bits
  pub terminal : Option LeafData
  pub siblings : List Node
  pub root : Node

-- Whether the key begins with the proven path.
unfoldable pub in_scope : VerifiedPathProof → KeyPath → Bool
in_scope v key = v.key_path == take (length v.key_path) key

unfoldable pub has_terminal : Option LeafData → LeafData → Bool
has_terminal none expected = false
has_terminal (some d) expected = d == expected

unfoldable pub confirm_value : VerifiedPathProof → LeafData → Result KeyOutOfScope Bool
unfolding in_scope has_terminal
confirm_value v expected =
    if in_scope v expected.key_path
    then ok (has_terminal v.terminal expected)
    else err key_out_of_scope

unfoldable pub other_key : Option LeafData → KeyPath → Bool
other_key none key = true
other_key (some d) key = not (d.key_path == key)

unfoldable pub confirm_nonexistence : VerifiedPathProof → KeyPath → Result KeyOutOfScope Bool
unfolding in_scope other_key
confirm_nonexistence v key =
    if in_scope v key then ok (other_key v.terminal key) else err key_out_of_scope

module _ (h : NodeHasher) where
  -- `PathProofTerminal::node`
  unfoldable pub terminal_node : PathProofTerminal → Node
  terminal_node (PathProofTerminal.leaf d) = h.hash_leaf d
  terminal_node (PathProofTerminal.terminator position) = terminator_node

  -- The loop of `hash_path` over the zip of the reversed path and the siblings.
  unfoldable pub hash_up_path : Node → Bits → List Node → Node
  unfolding join_nodes
  hash_up_path node [] siblings = node
  hash_up_path node (bit ∷ bits) [] = node
  hash_up_path node (bit ∷ bits) (sibling ∷ siblings) =
      hash_up_path (h.hash_internal (join_nodes bit sibling node)) bits siblings

  unfoldable pub hash_path : Node → Bits → List Node → Node
  unfolding hash_up_path
  hash_path node path siblings = hash_up_path node (reverse path) siblings

  unfoldable pub verify :
      PathProof → Bits → Node → Result PathProofVerificationError VerifiedPathProof
  unfolding terminal_node hash_path as_leaf_option
  verify p key_path root =
      let count = length p.siblings in
      let relevant_path = take count key_path in
      if ltb (min (length key_path) 256) count
      then err too_many_siblings
      else if hash_path (terminal_node p.terminal) relevant_path (reverse p.siblings) == root
      then ok (record {
        key_path = relevant_path;
        terminal = as_leaf_option p.terminal;
        siblings = p.siblings;
        root = root;
      })
      else err root_mismatch
