-- ===== src/Core/Update/Halves.antt =====
-- The two halves of a group of keys under the left frontier of `build_trie`
-- (core/src/update.rs).
use nomt.Base.{
  ℕ, suc, ◌+◌, ◌-◌, ◌≤◌, ◌<◌, ◌≡◌, refl, sym, ap, ◌∙◌, Bool, true, false, List, [], ◌∷◌, ◌++◌, Bits,
  length, take, drop, arith, get_or-drop, inl, inr, Option, none, some, nat_eq,
}
use mathlib.Core.Path.{subst}
use native.Mathlib.Nat.{add-suc}
use nomt.Core.Trie.{Node, KeyPath, NodeHasher, terminator_node}
use nomt.Core.Update.{Op, shared_with, join_nodes}
use nomt.Core.Update.Reference.{bit_at, sub_trie, AllKeys, IsGroup}
use nomt.Core.Update.Frontier.{Stack, next_op, pend_loop, ascend}
use nomt.Core.Update.Shared.{shared_at, Below, Below-suc, target, target-le, Tight, place-Tight}
use nomt.Core.Update.Steps.{
  first_key, last_op, TopLe, TopLe-suc, AllKeys-last, pop_sibling-TopLe, pop_sibling-here,
  shared_with-some, sub_trie_one, ascend_step, ascend_none, pend_loop-cons,
}

module _ (h : NodeHasher) (skip : ℕ) where
  -- The bits that the first and the last key of a list share with their neighbours.
  abbrev pub before : Option Op → List Op → Option ℕ
  before a ops = shared_with skip (first_key ops) a

  abbrev pub after : List Op → List Op → Option ℕ
  after ops rest = shared_with skip (last_op ops).0 (next_op rest)

  -- The stack after a group at the layer `d`: its root, hashed up to the target.
  abbrev pub done : ℕ → ℕ → List Op → List Op → Stack → Stack
  done f d ops rest s =
      ascend h (drop skip (last_op ops).0) (d - target (after ops rest))
        (sub_trie h f (skip + d) ops) d s

  -- The claim for groups of at least two keys, at every layer.
  abbrev pub Many : ℕ → Type 0
  Many f =
      (d : ℕ) (prefix : Bits) (ops : List Op) (a : Option Op) (rest : List Op) (s : Stack)
      → 2 ≤ length ops
      → IsGroup f (skip + d) prefix ops
      → Below (before a ops) d
      → Below (after ops rest) d
      → TopLe s d
      → pend_loop h skip a (ops ++ rest) s
        ≡ pend_loop h skip (some (last_op ops)) rest (done f d ops rest s)

  pub Tight-Below-before : (n1 n2 : Option ℕ) (d : ℕ) → Tight n1 n2 d → Below n1 (suc d)
  Tight-Below-before none n2 d t = tt
  Tight-Below-before (some n) n2 d (inl (e, b)) = omega arith
  Tight-Below-before (some n) n2 d (inr (e, b)) = ground arith

  pub Tight-Below-after : (n1 n2 : Option ℕ) (d : ℕ) → Tight n1 n2 d → Below n2 (suc d)
  Tight-Below-after n1 none d t = tt
  Tight-Below-after n1 (some n) d (inl (e, b)) = ground arith
  Tight-Below-after n1 (some n) d (inr (e, b)) = omega arith

  -- A nonempty group with a neighbour that leaves it exactly one layer above.
  pub any_group :
      (f : ℕ)
      → Many f
      → (d : ℕ) (prefix : Bits) (ops : List Op) (a : Option Op) (rest : List Op) (s : Stack)
      → 1 ≤ length ops
      → IsGroup f (skip + suc d) prefix ops
      → Tight (before a ops) (after ops rest) d
      → TopLe s (suc d)
      → pend_loop h skip a (ops ++ rest) s
        ≡ pend_loop h skip (some (last_op ops)) rest (done f (suc d) ops rest s)
  any_group f many d prefix [] a rest s n g t top = absurd (omega arith)
  any_group f many d prefix (o ∷ []) a rest s n g t top =
      pend_loop-cons h skip a o rest s
      ∙ ap (pend_loop h skip (some o) rest) (
          place-Tight h skip d a o (next_op rest) s (omega (arith, g.sized.0)) t
          ∙ ap
              (λ node.
                ascend h (drop skip o.0) (suc d - target (after (o ∷ []) rest)) node (suc d) s)
              (sym (sub_trie_one h f (skip + suc d) o)))
  any_group f many d prefix (o ∷ o' ∷ ops) a rest s n g t top =
      many (suc d) prefix (o ∷ o' ∷ ops) a rest s (omega arith) g
        (Tight-Below-before (before a (o ∷ o' ∷ ops)) (after (o ∷ o' ∷ ops) rest) d t)
        (Tight-Below-after (before a (o ∷ o' ∷ ops)) (after (o ∷ o' ∷ ops) rest) d t) top

  -- All keys of a group have the same bit: its root is one layer above that of the group.
  pub lopsided :
      (f : ℕ)
      → Many f
      → (b : Bool) (d : ℕ) (prefix : Bits) (ops : List Op) (a : Option Op) (rest : List Op)
      → (s : Stack) → 2 ≤ length ops
      → IsGroup f (suc (skip + d)) (prefix ++ b ∷ []) ops
      → AllKeys (λ k. bit_at (skip + d) k ≡ b) ops
      → Below (before a ops) d
      → Below (after ops rest) d
      → TopLe s d
      → pend_loop h skip a (ops ++ rest) s
        ≡ pend_loop h skip (some (last_op ops)) rest (
            ascend h
              (drop skip (last_op ops).0)
              (d - target (after ops rest))
              (h.hash_internal (join_nodes b terminator_node (sub_trie h f (suc (skip + d)) ops)))
              d
              s)
  lopsided f many b d prefix ops a rest s n g bits b1 b2 top =
      let e : skip + suc d ≡ suc (skip + d) = add-suc skip d in
      let key = drop skip (last_op ops).0 in
      let last_bit : bit_at d key ≡ b =
        get_or-drop skip d (last_op ops).0 false
        ∙ AllKeys-last (λ k. bit_at (skip + d) k ≡ b) ops (omega arith) bits in
      many (suc d) (prefix ++ b ∷ []) ops a rest s n
        (subst (λ p. IsGroup f p (prefix ++ b ∷ []) ops) (sym e) g) (Below-suc (before a ops) d b1)
        (Below-suc (after ops rest) d b2) (TopLe-suc s d top)
      ∙ ap (pend_loop h skip (some (last_op ops)) rest) (
          ascend_step h key d (target (after ops rest)) b (sub_trie h f (skip + suc d) ops)
            terminator_node s s (target-le (after ops rest) d b2) (pop_sibling-TopLe s d top)
            last_bit
          ∙ ap
              (λ p.
                ascend h key (d - target (after ops rest))
                  (h.hash_internal (join_nodes b terminator_node (sub_trie h f p ops))) d s)
              e)

  -- Both halves of a group have keys: the first half waits on the stack for the second.
  module _ (f : ℕ) (many : Many f) (d : ℕ) (prefix : Bits) (ls : List Op) (w : Op) (ws : List Op)
      (nl : 1 ≤ length ls) (gl : IsGroup f (skip + suc d) (prefix ++ false ∷ []) ls)
      (gr : IsGroup f (skip + suc d) (prefix ++ true ∷ []) (w ∷ ws))
      (sl : AllKeys (λ k. take (skip + d) k ≡ prefix) ls)
      (sr : AllKeys (λ k. take (skip + d) k ≡ prefix) (w ∷ ws))
      (bl : AllKeys (λ k. bit_at (skip + d) k ≡ false) ls)
      (br : AllKeys (λ k. bit_at (skip + d) k ≡ true) (w ∷ ws)) where
    abbrev pub l_key : KeyPath
    l_key = (last_op ls).0

    pub l_facts :
        (take (skip + d) l_key ≡ prefix)
        × (bit_at (skip + d) l_key ≡ false)
        × (skip + d < length l_key)
        × (skip + d < length w.0)
    l_facts = (
      AllKeys-last (λ k. take (skip + d) k ≡ prefix) ls nl sl,
      AllKeys-last (λ k. bit_at (skip + d) k ≡ false) ls nl bl,
      omega (arith, AllKeys-last (λ k. length k ≡ skip + suc d + f) ls nl gl.sized),
      omega (arith, gr.sized.0),
    )

    pub after_left : (rest : List Op) → after ls ((w ∷ ws) ++ rest) ≡ some d
    after_left rest =
        let (tl, fl, inl', inr') = l_facts in
        shared_with-some skip l_key w
        ∙ ap some (shared_at skip d true w.0 l_key (sr.0 ∙ sym tl) inr' inl' br.0 fl)

    pub before_right : before (some (last_op ls)) (w ∷ ws) ≡ some d
    before_right =
        let (tl, fl, inl', inr') = l_facts in
        shared_with-some skip w.0 (last_op ls)
        ∙ ap some (shared_at skip d false l_key w.0 (tl ∙ sym sr.0) inl' inr' fl br.0)

    abbrev pub left_root : Node
    left_root = sub_trie h f (skip + suc d) ls

    abbrev pub right_root : Node
    right_root = sub_trie h f (skip + suc d) (w ∷ ws)

    pub left_half :
        (a : Option Op) (rest : List Op) (s : Stack)
        → Below (before a ls) d
        → TopLe s d
        → pend_loop h skip a (ls ++ ((w ∷ ws) ++ rest)) s
          ≡ pend_loop h skip (some (last_op ls)) ((w ∷ ws) ++ rest) ((left_root, suc d) ∷ s)
    left_half a rest s b1 top =
        any_group f many d (prefix ++ false ∷ []) ls a ((w ∷ ws) ++ rest) s nl gl
          (inl (after_left rest, b1)) (TopLe-suc s d top)
        ∙ ap (pend_loop h skip (some (last_op ls)) ((w ∷ ws) ++ rest)) (
            ap (λ n. ascend h (drop skip l_key) (suc d - target n) left_root (suc d) s)
              (after_left rest)
            ∙ ascend_none h (drop skip l_key) (suc d) left_root s)

    pub right_half :
        (rest : List Op) (s : Stack)
        → Below (after (w ∷ ws) rest) d
        → pend_loop h skip (some (last_op ls)) ((w ∷ ws) ++ rest) ((left_root, suc d) ∷ s)
          ≡ pend_loop h skip (some (last_op (w ∷ ws))) rest (
              ascend h
                (drop skip (last_op (w ∷ ws)).0)
                (d - target (after (w ∷ ws) rest))
                (h.hash_internal (record { left = left_root; right = right_root }))
                d
                s)
    right_half rest s b2 =
        let key = drop skip (last_op (w ∷ ws)).0 in
        any_group f many d (prefix ++ true ∷ []) (w ∷ ws) (some (last_op ls)) rest
          ((left_root, suc d) ∷ s) (omega arith) gr (inr (before_right, b2)) (omega arith)
        ∙ ap (pend_loop h skip (some (last_op (w ∷ ws))) rest) (
            ascend_step h key d (target (after (w ∷ ws) rest)) true right_root left_root
              ((left_root, suc d) ∷ s) s (target-le (after (w ∷ ws) rest) d b2)
              (pop_sibling-here left_root (suc d) s)
              (get_or-drop skip d (last_op (w ∷ ws)).0 false
                ∙ AllKeys-last (λ k. bit_at (skip + d) k ≡ true) (w ∷ ws) (omega arith) br)
            ∙ ap (λ i. ascend h key (d - target (after (w ∷ ws) rest)) (h.hash_internal i) d s)
                (unfold join_nodes in refl))
