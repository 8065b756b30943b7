-- ===== src/Core/Update/Steps.antt =====
-- One layer of the left frontier of `build_trie` (core/src/update.rs), and the neighbours of a
-- group of keys.
use nomt.Base.{
  ℕ, zero, suc, ◌-◌, ◌≤◌, ◌≡◌, refl, ap, ap₂, ◌∙◌, Bool, true, false, List, [], ◌∷◌, ◌++◌, Bits,
  length, arith, Option, some, nat_eq,
}
use nomt.Core.Trie.{Node, KeyPath, NodeHasher, terminator_node}
use nomt.Core.Update.{Op, leaf_node, common_after_prefix, shared_with, join_nodes, pop_sibling}
use nomt.Core.Update.Reference.{bit_at, with_bit, sub_trie, AllKeys}
use nomt.Core.Update.Frontier.{Stack, next_op, place, pend_loop, ascend, predecessor}

abbrev pub first_key : List Op → KeyPath
first_key [] = []
first_key (o ∷ ops) = o.0

abbrev pub last_op : List Op → Op
last_op [] = ([], [])
last_op (o ∷ []) = o
last_op (o ∷ o' ∷ ops) = last_op (o' ∷ ops)

-- The top of the stack waits at the layer `d` or above.
abbrev pub TopLe : Stack → ℕ → Type 0
TopLe [] d = Unit
TopLe ((node, layer) ∷ s) d = layer ≤ d

pub TopLe-suc : (s : Stack) (d : ℕ) → TopLe s d → TopLe s (suc d)
TopLe-suc [] d h = tt
TopLe-suc ((node, layer) ∷ s) d h = omega arith

pub AllKeys-first :
    (P : KeyPath → Type 0) (ops : List Op) → 1 ≤ length ops → AllKeys P ops → P (first_key ops)
AllKeys-first P [] n h = absurd (omega arith)
AllKeys-first P (o ∷ ops) n h = h.0

pub AllKeys-last :
    (P : KeyPath → Type 0) (ops : List Op) → 1 ≤ length ops → AllKeys P ops → P (last_op ops).0
AllKeys-last P [] n h = absurd (omega arith)
AllKeys-last P (o ∷ []) n h = h.0
AllKeys-last P (o ∷ o' ∷ ops) n h = AllKeys-last P (o' ∷ ops) (omega arith) h.1

pub last_op-append : (xs ys : List Op) → 1 ≤ length ys → last_op (xs ++ ys) ≡ last_op ys
last_op-append xs [] n = absurd (omega arith)
last_op-append [] (y ∷ ys) n = refl
last_op-append (x ∷ []) (y ∷ ys) n = refl
last_op-append (x ∷ x' ∷ xs) (y ∷ ys) n = last_op-append (x' ∷ xs) (y ∷ ys) n

pub first_key-append : (xs ys : List Op) → 1 ≤ length xs → first_key (xs ++ ys) ≡ first_key xs
first_key-append [] ys n = absurd (omega arith)
first_key-append (x ∷ xs) ys n = refl

pub pop_sibling-TopLe :
    (s : Stack) (d : ℕ) → TopLe s d → pop_sibling (suc d) s ≡ (terminator_node, s)
unfolding pop_sibling
pop_sibling-TopLe [] d h = refl
pop_sibling-TopLe ((node, layer) ∷ s) d h = ground arith

pub pop_sibling-here :
    (node : Node) (layer : ℕ) (s : Stack) → pop_sibling layer ((node, layer) ∷ s) ≡ (node, s)
unfolding pop_sibling
pop_sibling-here node layer s = ground arith

pub shared_with-some :
    (skip : ℕ) (key : KeyPath) (o : Op)
    → shared_with skip key (some o) ≡ some (common_after_prefix skip o.0 key)
unfolding shared_with
shared_with-some skip key o = refl

module _ (h : NodeHasher) where
  pub sub_trie_many :
      (f p : ℕ) (ops : List Op)
      → 2 ≤ length ops
      → sub_trie h (suc f) p ops
        ≡ h.hash_internal (record {
          left = sub_trie h f (suc p) (with_bit p false ops);
          right = sub_trie h f (suc p) (with_bit p true ops);
        })
  unfolding sub_trie
  sub_trie_many f p [] n = absurd (omega arith)
  sub_trie_many f p (a ∷ []) n = absurd (omega arith)
  sub_trie_many f p (a ∷ b ∷ ops) n = refl

  pub sub_trie_empty : (f p : ℕ) → sub_trie h f p [] ≡ terminator_node
  unfolding sub_trie
  sub_trie_empty zero p = refl
  sub_trie_empty (suc f) p = refl

  pub sub_trie_one : (f p : ℕ) (o : Op) → sub_trie h f p (o ∷ []) ≡ leaf_node h o
  unfolding sub_trie
  sub_trie_one zero p o = refl
  sub_trie_one (suc f) p o = refl

  -- One layer of a climb, where the sibling and the bit are known.
  pub ascend_step :
      (key : Bits) (d t : ℕ) (bit : Bool) (node sibling : Node) (s rest : Stack)
      → t ≤ d
      → pop_sibling (suc d) s ≡ (sibling, rest)
      → bit_at d key ≡ bit
      → ascend h key (suc d - t) node (suc d) s
        ≡ ascend h key (d - t) (h.hash_internal (join_nodes bit sibling node)) d rest
  unfolding ascend
  ascend_step key d t bit node sibling s rest le popped at =
      let count : suc d - t ≡ suc (d - t) = omega arith in
      let next = λ (m : ℕ) (top : Node × Stack) (b : Bool).
        ascend h key (d - t) (h.hash_internal (join_nodes b top.0 node)) m top.1 in
      ap (λ n. ascend h key n node (suc d) s) count
      ∙ ap (λ m. next m (pop_sibling (suc d) s) (bit_at m key)) (predecessor d)
      ∙ ap₂ (next d) popped at

  pub ascend_none :
      (key : Bits) (d : ℕ) (node : Node) (s : Stack) → ascend h key (d - d) node d s ≡ (node, d) ∷ s
  unfolding ascend
  ascend_none key d node s =
      let stop : d - d ≡ 0 = omega arith in ap (λ n. ascend h key n node d s) stop

  pub pend_loop-cons :
      (skip : ℕ) (a : Option Op) (o : Op) (rest : List Op) (s : Stack)
      → pend_loop h skip a (o ∷ rest) s
        ≡ pend_loop h skip (some o) rest (place h skip a o (next_op rest) s)
  unfolding pend_loop
  pend_loop-cons skip a o rest s = refl
