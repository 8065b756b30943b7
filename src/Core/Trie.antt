-- ===== src/Core/Trie.antt =====
-- core/src/trie.rs: the nodes of the trie and their preimages, and the interface `NodeHasher` of
-- core/src/hasher.rs by which they are labelled. A `[u8; 32]` is read as its 256 bits, the most
-- significant first.
use nomt.Base.{
  ◌≡◌, ◌≢◌, ◌↔◌, Bool, true, false, ◌&&◌, Bits, Eq, bool_eq, list_eq, ◌==◌, ==_iff, arith,
  replicate,
}

abbrev pub Node : Type 0
Node = Bits

abbrev pub KeyPath : Type 0
KeyPath = Bits

abbrev pub ValueHash : Type 0
ValueHash = Bits

-- TERMINATOR
unfoldable pub terminator_node : Node
terminator_node = replicate 256 false

pub data NodeKind : Type 0 where
  terminator leaf internal : NodeKind

pub record InternalData : Type 0 where
  pub left : Node
  pub right : Node

pub record LeafData : Type 0 where
  pub key_path : KeyPath
  pub value_hash : ValueHash

-- The derived `PartialEq`.
abbrev pub leaf_beq : LeafData → LeafData → Bool
leaf_beq a b = (a.key_path == b.key_path) && (a.value_hash == b.value_hash)

pub leaf_beq_iff : (a b : LeafData) → (leaf_beq a b ≡ true) ↔ (a ≡ b)
leaf_beq_iff a b = ground (arith, ==_iff a.key_path b.key_path, ==_iff a.value_hash b.value_hash)

instance abbrev pub leaf_eq : Eq LeafData
leaf_eq = record { beq = leaf_beq; beq_iff = leaf_beq_iff }

abbrev pub internal_beq : InternalData → InternalData → Bool
internal_beq a b = (a.left == b.left) && (a.right == b.right)

pub internal_beq_iff : (a b : InternalData) → (internal_beq a b ≡ true) ↔ (a ≡ b)
internal_beq_iff a b = ground (arith, ==_iff a.left b.left, ==_iff a.right b.right)

instance abbrev pub internal_eq : Eq InternalData
internal_eq = record { beq = internal_beq; beq_iff = internal_beq_iff }

abbrev pub kind_beq : NodeKind → NodeKind → Bool
kind_beq NodeKind.terminator NodeKind.terminator = true
kind_beq NodeKind.leaf NodeKind.leaf = true
kind_beq NodeKind.internal NodeKind.internal = true
kind_beq _ _ = false

-- The trait: how nodes are hashed, and how a hash shows the kind of its node.
pub record NodeHasher : Type 0 where
  pub hash_leaf : LeafData → Node
  pub hash_internal : InternalData → Node
  pub node_kind : Node → NodeKind

module _ (h : NodeHasher) where
  unfoldable pub is_leaf : Node → Bool
  is_leaf hash = kind_beq (h.node_kind hash) NodeKind.leaf

  unfoldable pub is_internal : Node → Bool
  is_internal hash = kind_beq (h.node_kind hash) NodeKind.internal

  unfoldable pub is_terminator : Node → Bool
  is_terminator hash = kind_beq (h.node_kind hash) NodeKind.terminator

  -- What the trait's comments ask of an implementation: the kinds are told apart, and no hash is
  -- the reserved zero value.
  pub record IsLabelled : Type 0 where
    pub leaf_kind : (d : LeafData) → h.node_kind (h.hash_leaf d) ≡ NodeKind.leaf
    pub internal_kind : (d : InternalData) → h.node_kind (h.hash_internal d) ≡ NodeKind.internal
    pub terminator_kind : h.node_kind terminator_node ≡ NodeKind.terminator

  -- Two different preimages with the same hash, the first among those of `L` or `I`, the second
  -- among those of `M` or `J`.
  pub data Collision (L M : LeafData → Type 0) (I J : InternalData → Type 0) : Type 0 where
    leaves :
        (a b : LeafData) → L a → M b → a ≢ b → h.hash_leaf a ≡ h.hash_leaf b → Collision L M I J
    internals :
        (a b : InternalData)
        → I a
        → J b
        → a ≢ b
        → h.hash_internal a ≡ h.hash_internal b
        → Collision L M I J

  pub Collision-map :
      {L M L' M' : LeafData → Type 0} {I J I' J' : InternalData → Type 0}
      → ((a : LeafData) → L a → L' a)
      → ((b : LeafData) → M b → M' b)
      → ((a : InternalData) → I a → I' a)
      → ((b : InternalData) → J b → J' b)
      → Collision L M I J
      → Collision L' M' I' J'
  Collision-map l m i j (leaves a b la mb ne e) = leaves a b (l a la) (m b mb) ne e
  Collision-map l m i j (internals a b ia jb ne e) = internals a b (i a ia) (j b jb) ne e
