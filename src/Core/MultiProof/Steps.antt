-- ===== src/Core/MultiProof/Steps.antt =====
-- What a run of `verify_range` that succeeds has gone through
-- (core/src/proof/multi_proof.rs).
use nomt.Base.{
  ℕ, zero, suc, ◌+◌, ◌-◌, ◌≤◌, ◌≡◌, inl, inr, refl, sym, ap, ap₂, ◌∙◌, List, [], ◌∷◌, reverse, Bits,
  bool_eq, length, take, drop, slice, Option, none, some, arith, Result, ok, and_then-ok, ok_inj,
  ok_or, Stop, panic, lt_or_ge, lt→ltb, le→ltb-false,
}
use nomt.Core.Trie.{Node, NodeHasher}
use nomt.Core.Update.{shared_bits}
use nomt.Core.PathProof.{terminal_path, terminal_node, hash_path}
use nomt.Core.MultiProof.{
  MultiPathProof, Ranged, slice_from, bisect_index, last_path, verify_single, verify_range,
  verify_halves, join_halves,
}
use nomt.Core.MultiProof.Halves.{path_at}

pub slice_from-ok :
    {A : Type 0} (n : ℕ) (xs ys : List A)
    → slice_from n xs ≡ ok ys
    → (ys ≡ drop n xs) × (n ≤ length xs)
unfolding slice_from
slice_from-ok n xs ys e = elim (lt_or_ge (length xs) n) [
  | inl short ↦ absurd (ground (arith, lt→ltb (length xs) n short))
  | inr l ↦ (ground (arith, le→ltb-false (length xs) n l), l)
]

pub ok_or-ok : {A : Type 0} (o : Option A) (s : Stop) (a : A) → ok_or o s ≡ ok a → o ≡ some a
ok_or-ok none s a e = absurd (cc)
ok_or-ok (some b) s a e = ground arith

module _ (h : NodeHasher) where
  pub verify_single-ok :
      (d : ℕ) (p : MultiPathProof) (siblings : List Node) (offset : ℕ) (r : Ranged)
      → verify_single h d p siblings offset ≡ ok r
      → (d ≤ p.depth)
        × (p.depth ≤ length (terminal_path p.terminal))
        × (p.depth - d ≤ length siblings)
        × (r.node
            ≡ hash_path h
                (terminal_node h p.terminal)
                (slice d (d + (p.depth - d)) (terminal_path p.terminal))
                (reverse (take (p.depth - d) siblings)))
        × (r.verified_paths
            ≡ record {
              terminal = p.terminal;
              depth = p.depth;
              unique_siblings = (offset, offset + (p.depth - d));
            }
              ∷ [])
  unfolding verify_single
  verify_single-ok d p siblings offset r e = elim (lt_or_ge p.depth d) [
    | inl above ↦ absurd (ground (arith, lt→ltb p.depth d above))
    | inr l1 ↦ elim (lt_or_ge (length (terminal_path p.terminal)) p.depth) [
      | inl short ↦ absurd (
          ground (
            arith,
            lt→ltb (length (terminal_path p.terminal)) p.depth short,
            le→ltb-false p.depth d l1,
          ))
      | inr l2 ↦ elim (lt_or_ge (length siblings) (p.depth - d)) [
        | inl few ↦ absurd (
            ground (
              arith,
              lt→ltb (length siblings) (p.depth - d) few,
              le→ltb-false p.depth d l1,
              le→ltb-false (length (terminal_path p.terminal)) p.depth l2,
            ))
        | inr l3 ↦
            let run : _ ≡ r = ok_inj _ r (
              rw
                (
                  le→ltb-false p.depth d l1,
                  le→ltb-false (length (terminal_path p.terminal)) p.depth l2,
                  le→ltb-false (length siblings) (p.depth - d) l3,
                )
                at e) in
            (l1, l2, l3, ap (λ t. t.node) (sym run), ap (λ t. t.verified_paths) (sym run))
      ]
    ]
  ]

  -- What the two recursive calls have returned.
  pub record Halves (recurse : ℕ → List MultiPathProof → List Node → ℕ → Result Stop Ranged) (d : ℕ)
      (path : Bits) (common index : ℕ) (paths : List MultiPathProof) (siblings : List Node)
      (offset : ℕ) (r : Ranged) : Type 0 where
    pub enough : common ≤ length siblings
    pub left : Ranged
    pub ran_left :
        recurse (d + common + 1) (take index paths) (drop common siblings) (offset + common)
        ≡ ok left
    pub right : Ranged
    pub ran_right :
        recurse
          (d + common + 1)
          (drop index paths)
          (drop (common + left.siblings_used) siblings)
          (offset + common + left.siblings_used)
        ≡ ok right
    pub joined : join_halves h d path siblings offset common left right ≡ r

  pub verify_halves-Halves :
      (recurse : ℕ → List MultiPathProof → List Node → ℕ → Result Stop Ranged)
      → (d : ℕ) (path : Bits) (common index : ℕ) (paths : List MultiPathProof)
      → (siblings : List Node) (offset : ℕ) (r : Ranged)
      → verify_halves h recurse d path common index paths siblings offset ≡ ok r
      → Halves recurse d path common index paths siblings offset r
  unfolding verify_halves
  verify_halves-Halves recurse d path common index paths siblings offset r e =
      let (s, cut, e1) = and_then-ok (slice_from common siblings) _ e in
      let (s_eq, enough) = slice_from-ok common siblings s cut in
      let (left, ran, e2) =
        and_then-ok (recurse (d + common + 1) (take index paths) s (offset + common)) _ e1 in
      let (t, cut', e3) = and_then-ok (slice_from (common + left.siblings_used) siblings) _ e2 in
      let (t_eq, _) = slice_from-ok (common + left.siblings_used) siblings t cut' in
      let (right, ran', e4) =
        and_then-ok
          (recurse (d + common + 1) (drop index paths) t (offset + common + left.siblings_used)) _
          e3 in
      record {
        enough = enough;
        left = left;
        ran_left =
            ap (λ x. recurse (d + common + 1) (take index paths) x (offset + common)) (sym s_eq)
            ∙ ran;
        right = right;
        ran_right =
            ap
              (λ x.
                recurse (d + common + 1) (drop index paths) x
                  (offset + common + left.siblings_used))
              (sym t_eq)
            ∙ ran';
        joined = ok_inj _ r e4;
      }

  pub record Bisected (fuel d : ℕ) (p q : MultiPathProof) (ps : List MultiPathProof)
      (siblings : List Node) (offset : ℕ) (r : Ranged) : Type 0 where
    pub common : ℕ
    pub shared : shared_bits (path_at d p) (path_at d (last_path q ps)) ≡ common
    pub index : ℕ
    pub found : bisect_index (d + common) (p ∷ (q ∷ ps)) ≡ some index
    pub halves :
        Halves (verify_range h fuel) d (path_at d p) common index (p ∷ (q ∷ ps)) siblings offset r

  pub verify_range-Bisected :
      (fuel d : ℕ) (p q : MultiPathProof) (ps : List MultiPathProof) (siblings : List Node)
      → (offset : ℕ) (r : Ranged)
      → verify_range h (suc fuel) d (p ∷ (q ∷ ps)) siblings offset ≡ ok r
      → Bisected fuel d p q ps siblings offset r
  unfolding verify_range
  verify_range-Bisected fuel d p q ps siblings offset r e =
      let paths = p ∷ (q ∷ ps) in
      let (x, s1, e1) = and_then-ok (slice_from d (terminal_path p.terminal)) _ e in
      let (z, s2, e2) = and_then-ok (slice_from d (terminal_path (last_path q ps).terminal)) _ e1 in
      let (x_eq, _) = slice_from-ok d (terminal_path p.terminal) x s1 in
      let (z_eq, _) = slice_from-ok d (terminal_path (last_path q ps).terminal) z s2 in
      let (index, s3, e3) =
        and_then-ok (ok_or (bisect_index (d + shared_bits x z) paths) panic) _ e2 in
      let run : verify_halves h (verify_range h fuel) d (path_at d p) (shared_bits x z) index paths
            siblings offset
          ≡ ok r =
        ap
          (λ t.
            verify_halves h (verify_range h fuel) d t (shared_bits x z) index paths siblings offset)
          (sym x_eq)
        ∙ e3 in
      record {
        common = shared_bits x z;
        shared = ap₂ shared_bits (sym x_eq) (sym z_eq);
        index = index;
        found = ok_or-ok (bisect_index (d + shared_bits x z) paths) panic index s3;
        halves =
            verify_halves-Halves (verify_range h fuel) d (path_at d p) (shared_bits x z) index paths
              siblings offset r run;
      }

  pub single_range :
      (fuel d : ℕ) (p : MultiPathProof) (siblings : List Node) (offset : ℕ)
      → verify_single h d p siblings offset ≡ verify_range h fuel d (p ∷ []) siblings offset
  unfolding verify_range
  single_range zero d p siblings offset = refl
  single_range (suc fuel) d p siblings offset = refl

  pub no_fuel :
      (d : ℕ) (p q : MultiPathProof) (ps : List MultiPathProof) (siblings : List Node) (offset : ℕ)
      → (r : Ranged) → verify_range h 0 d (p ∷ (q ∷ ps)) siblings offset ≡ ok r
      → ⊥
  unfolding verify_range
  no_fuel d p q ps siblings offset r e = cc
