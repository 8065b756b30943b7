-- ===== src/Core/VerifyUpdate/Compact.antt =====
-- Compacting nodes while climbing a path of the trie (`verify_update` of
-- core/src/proof/path_proof.rs).
use nomt.Base.{
  ℕ, zero, suc, ◌+◌, ◌≤◌, ◌≡◌, ◌⊎◌, inl, inr, refl, sym, ap, ap₂, ◌∙◌, Bool, true, false, not, List,
  [], ◌∷◌, ◌++◌, Bits, bool_eq, length, arith, Bool-cases,
}
use nomt.Core.Trie.{Node, NodeKind, NodeHasher, IsLabelled, terminator_node}
use nomt.Core.Update.{Op, leaf_node, join_nodes}
use nomt.Core.Update.Reference.{bit_at, with_bit, sub_trie, IsGroup}
use nomt.Core.Update.Group.{with_bit-IsGroup, group_end}
use nomt.Core.VerifyUpdate.{compact}

-- The kind of the root of the trie of a list.
kind_of : List Op → NodeKind
kind_of [] = NodeKind.terminator
kind_of (a ∷ []) = NodeKind.leaf
kind_of (a ∷ b ∷ ops) = NodeKind.internal

length-with_bit :
    (p : ℕ) (b : Bool) (ops : List Op)
    → length (with_bit p b ops) + length (with_bit p (not b) ops) ≡ length ops
unfolding with_bit
length-with_bit p b [] = omega arith
length-with_bit p true ((k, v) ∷ ops) = ground (arith, length-with_bit p true ops)
length-with_bit p false ((k, v) ∷ ops) = ground (arith, length-with_bit p false ops)

-- A single leaf is on one side or on the other.
one_side :
    (p : ℕ) (o : Op) (bit : Bool)
    → ((with_bit p bit (o ∷ []) ≡ o ∷ []) × (with_bit p (not bit) (o ∷ []) ≡ []))
      ⊎ ((with_bit p bit (o ∷ []) ≡ []) × (with_bit p (not bit) (o ∷ []) ≡ o ∷ []))
unfolding with_bit
one_side p (k, v) true = elim (Bool-cases (bit_at p k)) [
  | inl e ↦ inl (ground arith, ground arith)
  | inr e ↦ inr (ground arith, ground arith)
]
one_side p (k, v) false = elim (Bool-cases (bit_at p k)) [
  | inl e ↦ inr (ground arith, ground arith)
  | inr e ↦ inl (ground arith, ground arith)
]

module _ (h : NodeHasher) (labelled : IsLabelled h) where
  node_kind-sub_trie :
      (f p : ℕ) (prefix : Bits) (ops : List Op)
      → IsGroup f p prefix ops
      → h.node_kind (sub_trie h f p ops) ≡ kind_of ops
  unfolding sub_trie kind_of leaf_node
  node_kind-sub_trie zero p prefix [] g = labelled.terminator_kind
  node_kind-sub_trie (suc f) p prefix [] g = labelled.terminator_kind
  node_kind-sub_trie zero p prefix ((k, v) ∷ []) g = labelled.leaf_kind _
  node_kind-sub_trie (suc f) p prefix ((k, v) ∷ []) g = labelled.leaf_kind _
  node_kind-sub_trie zero p prefix (a ∷ b ∷ ops) g = absurd (group_end p prefix a b ops g)
  node_kind-sub_trie (suc f) p prefix (a ∷ b ∷ ops) g = labelled.internal_kind _

  compact_internal :
      (bit : Bool) (cur_node sibling : Node) (ls rs : List Op)
      → h.node_kind cur_node ≡ kind_of ls
      → h.node_kind sibling ≡ kind_of rs
      → 2 ≤ length ls + length rs
      → compact h bit cur_node sibling ≡ h.hash_internal (join_nodes bit sibling cur_node)
  unfolding compact kind_of
  compact_internal bit c s [] [] kc ks two = absurd (omega arith)
  compact_internal bit c s [] (r ∷ []) kc ks two = absurd (omega arith)
  compact_internal bit c s [] (r ∷ r' ∷ rs) kc ks two = rw (kc, ks, compact) refl
  compact_internal bit c s (l ∷ []) [] kc ks two = absurd (omega arith)
  compact_internal bit c s (l ∷ []) (r ∷ []) kc ks two = rw (kc, ks, compact) refl
  compact_internal bit c s (l ∷ []) (r ∷ r' ∷ rs) kc ks two = rw (kc, ks, compact) refl
  compact_internal bit c s (l ∷ l' ∷ ls) rs kc ks two = rw (kc, compact) refl

  compact_terminators :
      (bit : Bool) (cur_node sibling : Node)
      → h.node_kind cur_node ≡ NodeKind.terminator
      → h.node_kind sibling ≡ NodeKind.terminator
      → compact h bit cur_node sibling ≡ cur_node
  unfolding compact
  compact_terminators bit c s kc ks = rw (kc, ks, compact) refl

  compact_leaf :
      (bit : Bool) (cur_node sibling : Node)
      → h.node_kind cur_node ≡ NodeKind.leaf
      → h.node_kind sibling ≡ NodeKind.terminator
      → compact h bit cur_node sibling ≡ cur_node
  unfolding compact
  compact_leaf bit c s kc ks = rw (kc, ks, compact) refl

  compact_sibling :
      (bit : Bool) (cur_node sibling : Node)
      → h.node_kind cur_node ≡ NodeKind.terminator
      → h.node_kind sibling ≡ NodeKind.leaf
      → compact h bit cur_node sibling ≡ sibling
  unfolding compact
  compact_sibling bit c s kc ks = rw (kc, ks, compact) refl

  leaf_kind : (o : Op) → h.node_kind (leaf_node h o) ≡ NodeKind.leaf
  unfolding leaf_node
  leaf_kind (k, v) = labelled.leaf_kind _

  one_leaf : (f p : ℕ) (o : Op) → sub_trie h f p (o ∷ []) ≡ leaf_node h o
  unfolding sub_trie
  one_leaf zero p o = refl
  one_leaf (suc f) p o = refl

  no_leaf : (f p : ℕ) → sub_trie h f p [] ≡ terminator_node
  unfolding sub_trie
  no_leaf zero p = refl
  no_leaf (suc f) p = refl

  joined :
      (f p : ℕ) (a b : Op) (ops : List Op) (bit : Bool)
      → h.hash_internal (
          join_nodes bit
            (sub_trie h f (suc p) (with_bit p (not bit) (a ∷ b ∷ ops)))
            (sub_trie h f (suc p) (with_bit p bit (a ∷ b ∷ ops))))
        ≡ sub_trie h (suc f) p (a ∷ b ∷ ops)
  unfolding join_nodes sub_trie
  joined f p a b ops true = refl
  joined f p a b ops false = refl

  -- The root of a half of a group, compacted with the root of the other half as its sibling, is
  -- the root of the group.
  pub compact-eq-sub_trie :
      (f p : ℕ) (prefix : Bits) (ops : List Op) (bit : Bool)
      → IsGroup (suc f) p prefix ops
      → compact h bit
          (sub_trie h f (suc p) (with_bit p bit ops))
          (sub_trie h f (suc p) (with_bit p (not bit) ops))
        ≡ sub_trie h (suc f) p ops
  compact-eq-sub_trie f p prefix [] bit g =
      unfold with_bit in
      compact_terminators bit (sub_trie h f (suc p) []) (sub_trie h f (suc p) [])
        (ap h.node_kind (no_leaf f (suc p)) ∙ labelled.terminator_kind)
        (ap h.node_kind (no_leaf f (suc p)) ∙ labelled.terminator_kind)
      ∙ no_leaf f (suc p)
      ∙ sym (no_leaf (suc f) p)
  compact-eq-sub_trie f p prefix (o ∷ []) bit g =
      let leaf : h.node_kind (sub_trie h f (suc p) (o ∷ [])) ≡ NodeKind.leaf =
        ap h.node_kind (one_leaf f (suc p) o) ∙ leaf_kind o in
      let empty : h.node_kind (sub_trie h f (suc p) []) ≡ NodeKind.terminator =
        ap h.node_kind (no_leaf f (suc p)) ∙ labelled.terminator_kind in
      elim (one_side p o bit) [
        | inl (here, there) ↦
            ap₂ (compact h bit) (ap (sub_trie h f (suc p)) here) (ap (sub_trie h f (suc p)) there)
            ∙ compact_leaf bit (sub_trie h f (suc p) (o ∷ [])) (sub_trie h f (suc p) []) leaf empty
            ∙ one_leaf f (suc p) o
            ∙ sym (one_leaf (suc f) p o)
        | inr (here, there) ↦
            ap₂ (compact h bit) (ap (sub_trie h f (suc p)) here) (ap (sub_trie h f (suc p)) there)
            ∙ compact_sibling bit (sub_trie h f (suc p) []) (sub_trie h f (suc p) (o ∷ [])) empty
                leaf
            ∙ one_leaf f (suc p) o
            ∙ sym (one_leaf (suc f) p o)
      ]
  compact-eq-sub_trie f p prefix (a ∷ b ∷ ops) bit g =
      let half : (side : Bool)
          → IsGroup f (suc p) (prefix ++ side ∷ []) (with_bit p side (a ∷ b ∷ ops)) =
        λ side. with_bit-IsGroup f p prefix side (a ∷ b ∷ ops) g in
      compact_internal bit (sub_trie h f (suc p) (with_bit p bit (a ∷ b ∷ ops)))
        (sub_trie h f (suc p) (with_bit p (not bit) (a ∷ b ∷ ops))) (with_bit p bit (a ∷ b ∷ ops))
        (with_bit p (not bit) (a ∷ b ∷ ops))
        (node_kind-sub_trie f (suc p) (prefix ++ bit ∷ []) (with_bit p bit (a ∷ b ∷ ops))
          (half bit))
        (node_kind-sub_trie f (suc p) (prefix ++ not bit ∷ []) (with_bit p (not bit) (a ∷ b ∷ ops))
          (half (not bit)))
        (omega (arith, length-with_bit p bit (a ∷ b ∷ ops)))
      ∙ joined f p a b ops bit
