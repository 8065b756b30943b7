-- ===== src/Core/Update/Correct.antt =====
-- `build_trie` of core/src/update.rs computes the root of the reference trie.
use nomt.Base.{
  ℕ, zero, suc, ◌+◌, ◌-◌, ◌≤◌, ◌≡◌, refl, sym, ap, ap₂, ◌∙◌, Bool, true, false, List, [], ◌∷◌, ◌++◌,
  Bits, length, take, drop, arith, Option, none, some, nat_eq,
}
use mathlib.Core.Path.{subst}
use mathlib.Core.List.{append_assoc, append-nil}
use native.Mathlib.Nat.{add-zero, add-suc}
use nomt.Core.Trie.{Node, NodeHasher, terminator_node}
use nomt.Core.Update.{Op, shared_with, join_nodes, build_trie, root_of_stack}
use nomt.Core.Update.Reference.{bit_at, with_bit, sub_trie, AllKeys, IsGroup}
use nomt.Core.Update.Group.{
  with_bit-IsGroup, with_bit-bits, AllKeys-with_bit, group_split, group_end,
}
use nomt.Core.Update.Frontier.{Stack, next_op, pend_loop, ascend, pending-build_loop}
use nomt.Core.Update.Shared.{Below, target}
use nomt.Core.Update.Steps.{
  first_key, last_op, TopLe, last_op-append, first_key-append, sub_trie_many, sub_trie_empty,
  sub_trie_one,
}
use nomt.Core.Update.Halves.{Many, before, after, done, lopsided, left_half, right_half}

module _ (h : NodeHasher) (skip : ℕ) where
  -- The stack after a group, by the last key and the root of the group.
  abbrev after_group : ℕ → List Op → Stack → Op → Node → Stack
  after_group d rest s o node =
      pend_loop h skip (some o) rest
        (ascend h (drop skip o.0) (d - target (shared_with skip o.0 (next_op rest))) node d s)

  module _ (f : ℕ) (many : Many h skip f) (d : ℕ) (prefix : Bits) (ops : List Op)
      (n : 2 ≤ length ops) (g : IsGroup (suc f) (skip + d) prefix ops) where
    abbrev zeros : List Op
    zeros = with_bit (skip + d) false ops

    abbrev ones : List Op
    ones = with_bit (skip + d) true ops

    split_eq : ops ≡ zeros ++ ones
    split_eq = group_split f (skip + d) prefix ops g

    half-IsGroup :
        (b : Bool) → IsGroup f (skip + suc d) (prefix ++ b ∷ []) (with_bit (skip + d) b ops)
    half-IsGroup b =
        subst (λ p. IsGroup f p (prefix ++ b ∷ []) (with_bit (skip + d) b ops))
          (sym (add-suc skip d)) (with_bit-IsGroup f (skip + d) prefix b ops g)

    -- All keys have the bit `b`.
    one_sided :
        (b : Bool) (a : Option Op) (rest : List Op) (s : Stack)
        → with_bit (skip + d) b ops ≡ ops
        → h.hash_internal (join_nodes b terminator_node (sub_trie h f (suc (skip + d)) ops))
          ≡ sub_trie h (suc f) (skip + d) ops
        → Below (before h skip a ops) d
        → Below (after h skip ops rest) d
        → TopLe s d
        → pend_loop h skip a (ops ++ rest) s
          ≡ after_group d rest s (last_op ops) (sub_trie h (suc f) (skip + d) ops)
    one_sided b a rest s all root b1 b2 top =
        lopsided h skip f many b d prefix ops a rest s n
          (subst (IsGroup f (suc (skip + d)) (prefix ++ b ∷ [])) all
            (with_bit-IsGroup f (skip + d) prefix b ops g))
          (subst (AllKeys (λ k. bit_at (skip + d) k ≡ b)) all (with_bit-bits (skip + d) b ops)) b1
          b2 top
        ∙ ap (after_group d rest s (last_op ops)) root

    only_ones : zeros ≡ [] → ones ≡ ops
    only_ones e = sym (split_eq ∙ ap (λ t. t ++ ones) e)

    only_zeros : ones ≡ [] → zeros ≡ ops
    only_zeros e = sym (split_eq ∙ ap (λ t. zeros ++ t) e ∙ append-nil zeros)

    root_of_ones :
        zeros ≡ []
        → h.hash_internal (join_nodes true terminator_node (sub_trie h f (suc (skip + d)) ops))
          ≡ sub_trie h (suc f) (skip + d) ops
    root_of_ones e =
        unfold join_nodes in
        sym (
          sub_trie_many h f (skip + d) ops n
          ∙ ap₂
              (λ l r. h.hash_internal (record {
                left = sub_trie h f (suc (skip + d)) l;
                right = sub_trie h f (suc (skip + d)) r;
              }))
              e (only_ones e)
          ∙ ap
              (λ l.
                h.hash_internal (record { left = l; right = sub_trie h f (suc (skip + d)) ops }))
              (sub_trie_empty h f (suc (skip + d))))

    root_of_zeros :
        ones ≡ []
        → h.hash_internal (join_nodes false terminator_node (sub_trie h f (suc (skip + d)) ops))
          ≡ sub_trie h (suc f) (skip + d) ops
    root_of_zeros e =
        unfold join_nodes in
        sym (
          sub_trie_many h f (skip + d) ops n
          ∙ ap₂
              (λ l r. h.hash_internal (record {
                left = sub_trie h f (suc (skip + d)) l;
                right = sub_trie h f (suc (skip + d)) r;
              }))
              (only_zeros e) e
          ∙ ap
              (λ r.
                h.hash_internal (record { left = sub_trie h f (suc (skip + d)) ops; right = r }))
              (sub_trie_empty h f (suc (skip + d))))

    two_sided :
        (w : Op) (ws : List Op) (a : Option Op) (rest : List Op) (s : Stack)
        → 1 ≤ length zeros
        → ones ≡ w ∷ ws
        → Below (before h skip a ops) d
        → Below (after h skip ops rest) d
        → TopLe s d
        → pend_loop h skip a (ops ++ rest) s
          ≡ after_group d rest s (last_op ops) (sub_trie h (suc f) (skip + d) ops)
    two_sided w ws a rest s nz e b1 b2 top =
        let p = skip + d in
        let whole : ops ≡ zeros ++ (w ∷ ws) = split_eq ∙ ap (λ t. zeros ++ t) e in
        let last : last_op ops ≡ last_op (w ∷ ws) =
          ap last_op whole ∙ last_op-append zeros (w ∷ ws) (omega arith) in
        let first : first_key ops ≡ first_key zeros =
          ap first_key whole ∙ first_key-append zeros (w ∷ ws) nz in
        let gr : IsGroup f (skip + suc d) (prefix ++ true ∷ []) (w ∷ ws) =
          subst (IsGroup f (skip + suc d) (prefix ++ true ∷ [])) e (half-IsGroup true) in
        let sl = AllKeys-with_bit p false (λ k. take p k ≡ prefix) ops g.shared in
        let sr : AllKeys (λ k. take p k ≡ prefix) (w ∷ ws) =
          subst (AllKeys (λ k. take p k ≡ prefix)) e
            (AllKeys-with_bit p true (λ k. take p k ≡ prefix) ops g.shared) in
        let bl = with_bit-bits p false ops in
        let br : AllKeys (λ k. bit_at p k ≡ true) (w ∷ ws) =
          subst (AllKeys (λ k. bit_at p k ≡ true)) e (with_bit-bits p true ops) in
        let b1' : Below (before h skip a zeros) d =
          subst (λ k. Below (shared_with skip k a) d) first b1 in
        let b2' : Below (after h skip (w ∷ ws) rest) d =
          subst (λ (o : Op). Below (shared_with skip o.0 (next_op rest)) d) last b2 in
        ap (λ t. pend_loop h skip a (t ++ rest) s) whole
        ∙ ap (λ t. pend_loop h skip a t s) (append_assoc zeros (w ∷ ws) rest)
        ∙ left_half h skip f many d prefix zeros w ws nz (half-IsGroup false) gr sl sr bl br a rest
            s b1' top
        ∙ right_half h skip f many d prefix zeros w ws nz (half-IsGroup false) gr sl sr bl br rest s
            b2'
        ∙ ap₂ (after_group d rest s) (sym last) two_sided_root
      where
        two_sided_root :
            h.hash_internal (record {
              left = sub_trie h f (skip + suc d) zeros;
              right = sub_trie h f (skip + suc d) (w ∷ ws);
            })
            ≡ sub_trie h (suc f) (skip + d) ops
        two_sided_root =
            ap₂
              (λ q r.
                h.hash_internal (record { left = sub_trie h f q zeros; right = sub_trie h f q r }))
              (add-suc skip d) (sym e)
            ∙ sym (sub_trie_many h f (skip + d) ops n)

  Many-step : (f : ℕ) → Many h skip f → Many h skip (suc f)
  Many-step f many d prefix ops a rest s n g b1 b2 top =
      cases (with_bit (skip + d) false ops) refl (with_bit (skip + d) true ops) refl
    where
      cases :
          (ls : List Op)
          → with_bit (skip + d) false ops ≡ ls
          → (rs : List Op) → with_bit (skip + d) true ops ≡ rs
          → pend_loop h skip a (ops ++ rest) s
            ≡ pend_loop h skip (some (last_op ops)) rest (done h skip (suc f) d ops rest s)
      cases [] el rs er =
          one_sided f many d prefix ops n g true a rest s (only_ones f many d prefix ops n g el)
            (root_of_ones f many d prefix ops n g el) b1 b2 top
      cases (l ∷ ls) el [] er =
          one_sided f many d prefix ops n g false a rest s (only_zeros f many d prefix ops n g er)
            (root_of_zeros f many d prefix ops n g er) b1 b2 top
      cases (l ∷ ls) el (w ∷ ws) er =
          two_sided f many d prefix ops n g w ws a rest s (rw el (omega arith)) er b1 b2 top

  Many-zero : Many h skip 0
  Many-zero d prefix [] a rest s n g b1 b2 top = absurd (omega arith)
  Many-zero d prefix (o ∷ []) a rest s n g b1 b2 top = absurd (omega arith)
  Many-zero d prefix (o ∷ o' ∷ ops) a rest s n g b1 b2 top =
      absurd (group_end (skip + d) prefix o o' ops g)

  Many-groups : (f : ℕ) → Many h skip f
  Many-groups zero = Many-zero
  Many-groups (suc f) = Many-step f (Many-groups f)

module _ (h : NodeHasher) (f skip : ℕ) (prefix : Bits) (ops : List Op) where
  -- A whole list of two or more leaves leaves its root alone on the stack.
  whole_list :
      2 ≤ length ops
      → IsGroup f skip prefix ops
      → pend_loop h skip none ops [] ≡ (sub_trie h f skip ops, 0) ∷ []
  unfolding shared_with pend_loop ascend
  whole_list n g =
      ap (λ t. pend_loop h skip none t []) (sym (append-nil ops))
      ∙ Many-groups h skip f 0 prefix ops none [] [] n
          (subst (λ p. IsGroup f p prefix ops) (sym (add-zero skip)) g) tt tt tt
      ∙ ap (λ p. (sub_trie h f p ops, 0) ∷ []) (add-zero skip)

build_trie-many :
    (h : NodeHasher) (skip : ℕ) (a b : Op) (ops : List Op)
    → (build_trie h skip (a ∷ b ∷ ops)).0 ≡ root_of_stack (pend_loop h skip none (a ∷ b ∷ ops) [])
unfolding build_trie
build_trie-many h skip a b ops =
    ap root_of_stack
      (pending-build_loop h skip none (a ∷ b ∷ ops) (record { pending = []; visited = [] }))

-- Over ascending keys of `skip + f` bits that agree on the first `skip`, the root that
-- `build_trie` returns is that of the reference trie.
pub build_trie-eq-sub_trie :
    (h : NodeHasher) (f skip : ℕ) (prefix : Bits) (ops : List Op)
    → IsGroup f skip prefix ops
    → (build_trie h skip ops).0 ≡ sub_trie h f skip ops
unfolding build_trie
build_trie-eq-sub_trie h f skip prefix [] g = sym (sub_trie_empty h f skip)
build_trie-eq-sub_trie h f skip prefix (o ∷ []) g = sym (sub_trie_one h f skip o)
build_trie-eq-sub_trie h f skip prefix (a ∷ b ∷ ops) g =
    build_trie-many h skip a b ops
    ∙ ap root_of_stack (whole_list h f skip prefix (a ∷ b ∷ ops) (omega arith) g)
