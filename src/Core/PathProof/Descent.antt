-- ===== src/Core/PathProof/Descent.antt =====
-- Going down the reference trie along a path whose hash is its root (core/src/proof/path_proof.rs).
use nomt.Base.{
  ℕ, zero, suc, ◌≡◌, refl, ap, ap₂, ◌∙◌, Bool, true, false, List, [], ◌∷◌, ◌++◌, reverse, Bits,
  bool_eq, list_eq, length, arith, inl, inr, ◌⊎◌, eq_or_ne, length-reverse,
}
use mathlib.Core.Path.{subst}
use mathlib.Core.List.{reverse-cons}
use nomt.Core.Trie.{
  Node, NodeKind, KeyPath, ValueHash, InternalData, LeafData, NodeHasher, IsLabelled, Collision,
  Collision-map, internals, leaves, terminator_node, internal_eq, leaf_eq,
}
use nomt.Core.Update.{Op, leaf_node, join_nodes}
use nomt.Core.Update.Reference.{with_bit, sub_trie, IsGroup}
use nomt.Core.Update.Group.{with_bit-IsGroup, group_end}
use nomt.Core.PathProof.{hash_up_path, hash_path}

-- The operations below the path `path` that starts at the bit `p`.
unfoldable pub below : ℕ → Bits → List Op → List Op
below p [] ops = ops
below p (b ∷ bs) ops = below (suc p) bs (with_bit p b ops)

-- The operations hold the key with the value, or hold the key.
abbrev pub Holds : KeyPath → ValueHash → List Op → Type 0
Holds k v [] = ⊥
Holds k v ((j, w) ∷ ops) = ((k ≡ j) × (v ≡ w)) ⊎ Holds k v ops

abbrev pub HoldsKey : KeyPath → List Op → Type 0
HoldsKey k ops = (v : ValueHash) × Holds k v ops

module _ (h : NodeHasher) where
  -- The hash of a path from the top down.
  unfoldable pub hash_down : Node → Bits → List Node → Node
  hash_down node [] siblings = node
  hash_down node (b ∷ bs) [] = node
  hash_down node (b ∷ bs) (s ∷ ss) = h.hash_internal (join_nodes b s (hash_down node bs ss))

  hash_up_path-append :
      (node : Node) (bits : Bits) (siblings : List Node) (b : Bool) (s : Node)
      → length bits ≡ length siblings
      → hash_up_path h node (bits ++ b ∷ []) (siblings ++ s ∷ [])
        ≡ h.hash_internal (join_nodes b s (hash_up_path h node bits siblings))
  unfolding hash_up_path
  hash_up_path-append node [] [] b s e = refl
  hash_up_path-append node [] (s' ∷ ss) b s e = absurd (omega arith)
  hash_up_path-append node (b' ∷ bs) [] b s e = absurd (omega arith)
  hash_up_path-append node (b' ∷ bs) (s' ∷ ss) b s e =
      hash_up_path-append (h.hash_internal (join_nodes b' s' node)) bs ss b s (omega arith)

  pub hash_path-eq-hash_down :
      (node : Node) (bits : Bits) (siblings : List Node)
      → length bits ≡ length siblings
      → hash_path h node bits (reverse siblings) ≡ hash_down node bits siblings
  unfolding hash_path hash_down
  hash_path-eq-hash_down node [] siblings e = refl
  hash_path-eq-hash_down node (b ∷ bs) [] e = absurd (omega arith)
  hash_path-eq-hash_down node (b ∷ bs) (s ∷ ss) e =
      ap₂ (hash_up_path h node) (reverse-cons b bs) (reverse-cons s ss)
      ∙ hash_up_path-append node (reverse bs) (reverse ss) b s
          (omega (arith, length-reverse {0} bs, length-reverse {0} ss))
      ∙ ap (λ n. h.hash_internal (join_nodes b s n))
          (hash_path-eq-hash_down node bs ss (omega arith))

  -- The pairs of nodes that are hashed along a path.
  abbrev pub IsOnPath : Node → Bits → List Node → InternalData → Type 0
  IsOnPath node [] siblings i = ⊥
  IsOnPath node (b ∷ bs) [] i = ⊥
  IsOnPath node (b ∷ bs) (s ∷ ss) i =
      (i ≡ join_nodes b s (hash_down node bs ss)) ⊎ IsOnPath node bs ss i

  -- The pairs of nodes that are hashed in the reference trie.
  abbrev pub IsInTrie : ℕ → ℕ → List Op → InternalData → Type 0
  IsInTrie zero p ops i = ⊥
  IsInTrie (suc f) p [] i = ⊥
  IsInTrie (suc f) p (a ∷ []) i = ⊥
  IsInTrie (suc f) p (a ∷ b ∷ ops) i =
      (i ≡ record {
        left = sub_trie h f (suc p) (with_bit p false (a ∷ b ∷ ops));
        right = sub_trie h f (suc p) (with_bit p true (a ∷ b ∷ ops));
      })
      ⊎ (IsInTrie f (suc p) (with_bit p false (a ∷ b ∷ ops)) i
          ⊎ IsInTrie f (suc p) (with_bit p true (a ∷ b ∷ ops)) i)

  child-IsInTrie :
      (f p : ℕ) (a b : Op) (ops : List Op) (side : Bool) (i : InternalData)
      → IsInTrie f (suc p) (with_bit p side (a ∷ b ∷ ops)) i
      → IsInTrie (suc f) p (a ∷ b ∷ ops) i
  child-IsInTrie f p a b ops false i m = inr (inl m)
  child-IsInTrie f p a b ops true i m = inr (inr m)

  same_leaf :
      (d : LeafData) (k : KeyPath) (v : ValueHash)
      → h.hash_leaf d ≡ h.hash_leaf (record { key_path = k; value_hash = v })
      → (◌≡◌ {A = List Op} ((k, v) ∷ []) ((d.key_path, d.value_hash) ∷ []))
        ⊎ Collision h
            (λ a. a ≡ d)
            (λ m. Holds m.key_path m.value_hash ((k, v) ∷ []))
            (λ i. ⊥)
            (λ j. ⊥)
  same_leaf d k v e =
      let d' : LeafData = record { key_path = k; value_hash = v } in
      elim (eq_or_ne d d') [
        | inl same ↦ inl (cc same)
        | inr other ↦ inr (leaves d d' refl (inl (refl, refl)) other e)
      ]

  -- The two children of the root of a reference trie with a given internal hash.
  module _ (labelled : IsLabelled h) where
    leaf_root : (o : Op) → h.node_kind (leaf_node h o) ≡ NodeKind.leaf
    leaf_root o = unfold leaf_node in labelled.leaf_kind _

    pub children_of_root :
        (f p : ℕ) (ops : List Op) (d : InternalData)
        → h.hash_internal d ≡ sub_trie h f p ops
        → ((f' : ℕ) × (f ≡ suc f')
            × (d.left ≡ sub_trie h f' (suc p) (with_bit p false ops))
            × (d.right ≡ sub_trie h f' (suc p) (with_bit p true ops))
            × ((b : Bool) (i : InternalData)
                → IsInTrie f' (suc p) (with_bit p b ops) i
                → IsInTrie f p ops i))
          ⊎ Collision h (λ a. ⊥) (λ b. ⊥) (λ i. i ≡ d) (IsInTrie f p ops)
    unfolding sub_trie
    children_of_root zero p [] d e =
        cc (ap h.node_kind e, labelled.internal_kind d, labelled.terminator_kind)
    children_of_root (suc f) p [] d e =
        cc (ap h.node_kind e, labelled.internal_kind d, labelled.terminator_kind)
    children_of_root zero p (o ∷ []) d e =
        cc (ap h.node_kind e, labelled.internal_kind d, leaf_root o)
    children_of_root (suc f) p (o ∷ []) d e =
        cc (ap h.node_kind e, labelled.internal_kind d, leaf_root o)
    children_of_root zero p (a ∷ b ∷ ops) d e =
        cc (ap h.node_kind e, labelled.internal_kind d, labelled.terminator_kind)
    children_of_root (suc f) p (a ∷ b ∷ ops) d e =
        let d' : InternalData = record {
          left = sub_trie h f (suc p) (with_bit p false (a ∷ b ∷ ops));
          right = sub_trie h f (suc p) (with_bit p true (a ∷ b ∷ ops));
        } in
        elim (eq_or_ne d d') [
          | inl same ↦ inl (
            f,
            refl,
            ap (λ (i : InternalData). i.left) same,
            ap (λ (i : InternalData). i.right) same,
            child-IsInTrie f p a b ops,
          )
          | inr other ↦ inr (internals d d' refl (inl refl) other e)
        ]

    -- What stands at the end of a path of the trie.
    pub record EndsAt (node : Node) (ops : List Op) : Type 0 where
      pub bits_left : ℕ
      pub depth : ℕ
      pub prefix : Bits
      pub root : node ≡ sub_trie h bits_left depth ops
      pub group : IsGroup bits_left depth prefix ops

    clash_above :
        (node : Node) (b : Bool) (bs : Bits) (s : Node) (ss : List Node) (f p : ℕ) (ops : List Op)
        → (f' : ℕ)
        → ((b : Bool) (i : InternalData)
            → IsInTrie f' (suc p) (with_bit p b ops) i
            → IsInTrie f p ops i)
        → EndsAt node (below (suc p) bs (with_bit p b ops))
          ⊎ Collision h
              (λ a. ⊥)
              (λ b. ⊥)
              (IsOnPath node bs ss)
              (IsInTrie f' (suc p) (with_bit p b ops))
        → EndsAt node (below (suc p) bs (with_bit p b ops))
          ⊎ Collision h (λ a. ⊥) (λ b. ⊥) (IsOnPath node (b ∷ bs) (s ∷ ss)) (IsInTrie f p ops)
    clash_above node b bs s ss f p ops f' up (inl r) = inl r
    clash_above node b bs s ss f p ops f' up (inr c) =
        inr (Collision-map h (λ a x. x) (λ b x. x) (λ i x. inr x) (up b) c)

    -- A path that hashes to the root of the reference trie ends at the root of the sub-trie of
    -- the operations below it, or shows a collision.
    pub descent :
        (node : Node) (bits : Bits) (siblings : List Node) (f p : ℕ) (prefix : Bits)
        → (ops : List Op) → length bits ≡ length siblings
        → IsGroup f p prefix ops
        → hash_down node bits siblings ≡ sub_trie h f p ops
        → EndsAt node (below p bits ops)
          ⊎ Collision h (λ a. ⊥) (λ b. ⊥) (IsOnPath node bits siblings) (IsInTrie f p ops)
    unfolding hash_down below
    descent node [] siblings f p prefix ops n g e =
        inl (record { bits_left = f; depth = p; prefix = prefix; root = e; group = g })
    descent node (b ∷ bs) [] f p prefix ops n g e = absurd (omega arith)
    descent node (true ∷ bs) (s ∷ ss) f p prefix ops n g e =
        elim (children_of_root f p ops (join_nodes true s (hash_down node bs ss)) e) [
          | inl (f', ef, left, right, up) ↦ clash_above node (true) bs s ss f p ops f' up (
              descent node bs ss f' (suc p) (prefix ++ true ∷ []) (with_bit p true ops)
                (omega arith)
                (with_bit-IsGroup f' p prefix true ops (subst (λ n. IsGroup n p prefix ops) ef g))
                (unfold join_nodes in right))
          | inr c ↦ inr (Collision-map h (λ a x. x) (λ b x. x) (λ i x. inl x) (λ j x. x) c)
        ]
    descent node (false ∷ bs) (s ∷ ss) f p prefix ops n g e =
        elim (children_of_root f p ops (join_nodes false s (hash_down node bs ss)) e) [
          | inl (f', ef, left, right, up) ↦ clash_above node (false) bs s ss f p ops f' up (
              descent node bs ss f' (suc p) (prefix ++ false ∷ []) (with_bit p false ops)
                (omega arith)
                (with_bit-IsGroup f' p prefix false ops (subst (λ n. IsGroup n p prefix ops) ef g))
                (unfold join_nodes in left))
          | inr c ↦ inr (Collision-map h (λ a x. x) (λ b x. x) (λ i x. inl x) (λ j x. x) c)
        ]

    leaf_of_root :
        (d : LeafData) (f p : ℕ) (ops : List Op)
        → h.hash_leaf d ≡ sub_trie h f p ops
        → (ops ≡ (d.key_path, d.value_hash) ∷ [])
          ⊎ Collision h (λ a. a ≡ d) (λ m. Holds m.key_path m.value_hash ops) (λ i. ⊥) (λ j. ⊥)
    unfolding sub_trie leaf_node
    leaf_of_root d zero p [] e =
        cc (ap h.node_kind e, labelled.leaf_kind d, labelled.terminator_kind)
    leaf_of_root d (suc f) p [] e =
        cc (ap h.node_kind e, labelled.leaf_kind d, labelled.terminator_kind)
    leaf_of_root d zero p (a ∷ b ∷ ops) e =
        cc (ap h.node_kind e, labelled.leaf_kind d, labelled.terminator_kind)
    leaf_of_root d (suc f) p (a ∷ b ∷ ops) e =
        cc (ap h.node_kind e, labelled.leaf_kind d, labelled.internal_kind _)
    leaf_of_root d zero p ((k, v) ∷ []) e = same_leaf d k v e
    leaf_of_root d (suc f) p ((k, v) ∷ []) e = same_leaf d k v e

    terminator_of_root :
        (f p : ℕ) (prefix : Bits) (ops : List Op)
        → IsGroup f p prefix ops
        → terminator_node ≡ sub_trie h f p ops
        → ops ≡ []
    unfolding sub_trie
    terminator_of_root f p prefix [] g e = refl
    terminator_of_root zero p prefix (o ∷ []) g e =
        cc (ap h.node_kind e, leaf_root o, labelled.terminator_kind)
    terminator_of_root (suc f) p prefix (o ∷ []) g e =
        cc (ap h.node_kind e, leaf_root o, labelled.terminator_kind)
    terminator_of_root zero p prefix (a ∷ b ∷ ops) g e = absurd (group_end p prefix a b ops g)
    terminator_of_root (suc f) p prefix (a ∷ b ∷ ops) g e =
        cc (ap h.node_kind e, labelled.internal_kind _, labelled.terminator_kind)

    -- A leaf at the end of a path is the only operation there.
    pub end_leaf :
        (d : LeafData) (ops : List Op)
        → EndsAt (h.hash_leaf d) ops
        → (ops ≡ (d.key_path, d.value_hash) ∷ [])
          ⊎ Collision h (λ a. a ≡ d) (λ m. Holds m.key_path m.value_hash ops) (λ i. ⊥) (λ j. ⊥)
    end_leaf d ops r = leaf_of_root d r.bits_left r.depth ops r.root

    -- A terminator at the end of a path stands over no operation.
    pub end_terminator : (ops : List Op) → EndsAt terminator_node ops → ops ≡ []
    end_terminator ops r = terminator_of_root r.bits_left r.depth r.prefix ops r.group r.root
