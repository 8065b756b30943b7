-- ===== src/Core/Update/Reference.antt =====
-- What `build_trie` computes (core/src/update.rs): the trie of a list of leaves, by recursion on
-- the bits of their keys. An empty sub-trie is the terminator, a sub-trie of one leaf is that
-- leaf, and any other is an internal node over its two halves.
use nomt.Base.{
  ℕ, zero, suc, ◌+◌, ◌≡◌, Bool, true, false, List, [], ◌∷◌, Bits, bool_eq, ◌==◌, if◌then◌else◌,
  length, take, get_or,
}
use nomt.Core.Trie.{Node, KeyPath, NodeHasher, terminator_node}
use nomt.Core.Update.{Op, leaf_node, bits_ltb}

abbrev pub bit_at : ℕ → KeyPath → Bool
bit_at p key = get_or key p false

-- The leaves whose key has the bit `b` at `p`.
unfoldable pub with_bit : ℕ → Bool → List Op → List Op
with_bit p b [] = []
with_bit p b ((k, v) ∷ ops) =
    let rest = with_bit p b ops in if bit_at p k == b then (k, v) ∷ rest else rest

module _ (h : NodeHasher) where
  -- The sub-trie at depth `p`, over keys with `f` more bits.
  unfoldable pub sub_trie : ℕ → ℕ → List Op → Node
  sub_trie f p [] = terminator_node
  sub_trie f p (a ∷ []) = leaf_node h a
  sub_trie zero p (a ∷ b ∷ ops) = terminator_node
  sub_trie (suc f) p (a ∷ b ∷ ops) = h.hash_internal (record {
    left = sub_trie f (suc p) (with_bit p false (a ∷ b ∷ ops));
    right = sub_trie f (suc p) (with_bit p true (a ∷ b ∷ ops));
  })

abbrev pub AllKeys : (KeyPath → Type 0) → List Op → Type 0
AllKeys P [] = Unit
AllKeys P ((k, v) ∷ ops) = P k × AllKeys P ops

-- Strictly ascending keys.
abbrev pub IsAscending : List Op → Type 0
IsAscending [] = Unit
IsAscending ((k, v) ∷ ops) = AllKeys (λ j. bits_ltb k j ≡ true) ops × IsAscending ops

-- Ascending keys of `p + f` bits that agree on the first `p`.
pub record IsGroup (f p : ℕ) (prefix : Bits) (ops : List Op) : Type 0 where
  pub sized : AllKeys (λ k. length k ≡ p + f) ops
  pub shared : AllKeys (λ k. take p k ≡ prefix) ops
  pub ascending : IsAscending ops
