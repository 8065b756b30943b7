-- ===== src/Core/Update/Frontier.antt =====
-- The left frontier of `build_trie` (core/src/update.rs) without the calls of the visitor: what
-- the stack `pending_siblings` is after each leaf.
use nomt.Base.{
  ℕ, zero, suc, ◌-◌, ◌≤◌, ◌<◌, ◌≡◌, refl, sym, ap, ◌∙◌, false, List, [], ◌∷◌, Bits, bool_eq, length,
  take, drop, reverse, arith, take-suc, get_elem?-eq-get_or, Option, none, some, nat_eq,
}
use mathlib.Core.Path.{subst}
use mathlib.Core.List.{reverse-append}
use nomt.Core.Trie.{Node, NodeHasher}
use nomt.Core.Update.{
  Op, Build, leaf_node, shared_with, layers_of, join_nodes, pop_sibling, hash_up, place_leaf,
  build_loop,
}
use nomt.Core.Update.Reference.{bit_at}

abbrev pub Stack : Type 0
Stack = List (Node × ℕ)

abbrev pub next_op : List Op → Option Op
next_op [] = none
next_op (o ∷ ops) = some o

pub predecessor : (n : ℕ) → suc n - 1 ≡ n
predecessor n = omega arith

module _ (h : NodeHasher) where
  -- `hash_up` on the stack alone.
  pub climb : Bits → Node → ℕ → Stack → Stack
  climb [] node layer s = (node, layer) ∷ s
  climb (bit ∷ bits) node layer s =
      let (sibling, rest) = pop_sibling layer s in
      climb bits (h.hash_internal (join_nodes bit sibling node)) (layer - 1) rest

  pending-hash_up :
      (bits : Bits) (node : Node) (layer : ℕ) (b : Build)
      → (hash_up h bits node layer b).pending ≡ climb bits node layer b.pending
  unfolding hash_up climb
  pending-hash_up [] node layer b = refl
  pending-hash_up (bit ∷ bits) node layer b =
      let (sibling, rest) = pop_sibling layer b.pending in
      pending-hash_up bits (h.hash_internal (join_nodes bit sibling node)) (layer - 1) _

  -- `place_leaf` on the stack alone.
  unfoldable pub place : ℕ → Option Op → Op → Option Op → Stack → Stack
  place skip a this c s =
      let (leaf_depth, layers) =
        layers_of (shared_with skip this.0 a) (shared_with skip this.0 c) in
      climb (take layers (reverse (take leaf_depth (drop skip this.0)))) (leaf_node h this)
        leaf_depth s

  unfoldable pub pend_loop : ℕ → Option Op → List Op → Stack → Stack
  pend_loop skip a [] s = s
  pend_loop skip a (this ∷ rest) s =
      pend_loop skip (some this) rest (place skip a this (next_op rest) s)

  pending-place_leaf :
      (skip : ℕ) (a : Option Op) (this : Op) (c : Option Op) (b : Build)
      → (place_leaf h skip a this c b).pending ≡ place skip a this c b.pending
  unfolding place_leaf place
  pending-place_leaf skip a (k, v) c b = pending-hash_up _ _ _ _

  pub pending-build_loop :
      (skip : ℕ) (a : Option Op) (ops : List Op) (b : Build)
      → (build_loop h skip a ops b).pending ≡ pend_loop skip a ops b.pending
  unfolding build_loop pend_loop
  pending-build_loop skip a [] b = refl
  pending-build_loop skip a (this ∷ []) b = pending-place_leaf skip a this none b
  pending-build_loop skip a (this ∷ next ∷ rest) b =
      pending-build_loop skip (some this) (next ∷ rest) (place_leaf h skip a this (some next) b)
      ∙ ap (pend_loop skip (some this) (next ∷ rest)) (pending-place_leaf skip a this (some next) b)

  -- The climb by `n` layers along the bits of a key after the skipped ones.
  unfoldable pub ascend : Bits → ℕ → Node → ℕ → Stack → Stack
  ascend key zero node layer s = (node, layer) ∷ s
  ascend key (suc n) node layer s =
      let (sibling, rest) = pop_sibling layer s in
      ascend key n (h.hash_internal (join_nodes (bit_at (layer - 1) key) sibling node)) (layer - 1)
        rest

  take-reverse-suc :
      (key : Bits) (n l : ℕ)
      → l < length key
      → take (suc n) (reverse (take (suc l) key)) ≡ bit_at l key ∷ take n (reverse (take l key))
  take-reverse-suc key n l fits =
      ap (λ t. take (suc n) (reverse t))
        (take-suc l key (bit_at l key) (get_elem?-eq-get_or key l false fits))
      ∙ ap (take (suc n)) (reverse-append (take l key) (bit_at l key ∷ []))

  pub climb-eq-ascend :
      (key : Bits) (n l : ℕ) (node : Node) (s : Stack)
      → n ≤ l
      → l ≤ length key
      → climb (take n (reverse (take l key))) node l s ≡ ascend key n node l s
  unfolding climb ascend
  climb-eq-ascend key zero l node s h1 h2 = refl
  climb-eq-ascend key (suc n) zero node s h1 h2 = absurd (omega arith)
  climb-eq-ascend key (suc n) (suc l) node s h1 h2 =
      let (sibling, rest) = pop_sibling (suc l) s in
      let bits = take n (reverse (take l key)) in
      let up = λ (m : ℕ). h.hash_internal (join_nodes (bit_at m key) sibling node) in
      ap (λ t. climb t node (suc l) s) (take-reverse-suc key n l h2)
      ∙ subst (λ m. climb bits (up l) m rest ≡ ascend key n (up m) m rest) (sym (predecessor l))
          (climb-eq-ascend key n l (up l) rest (omega arith) (omega arith))
