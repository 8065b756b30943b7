-- ===== src/Core/MultiProof/Range.antt =====
-- What `verify_range` shows of each path of its range (core/src/proof/multi_proof.rs).
use nomt.Base.{
  ℕ, zero, suc, ◌+◌, ◌-◌, ◌≤◌, ◌<◌, ◌≡◌, sym, ap, ◌∙◌, Bool, true, false, List, [], ◌∷◌, ◌++◌,
  reverse, Bits, bool_eq, length, take, drop, slice, arith, length-take, length-drop, ok,
}
use mathlib.Core.Path.{subst}
use nomt.Core.Trie.{Node, NodeHasher}
use nomt.Core.Update.{join_nodes}
use nomt.Core.PathProof.{PathProofTerminal, terminal_path, terminal_node, hash_path}
use nomt.Core.PathProof.Descent.{hash_down, hash_path-eq-hash_down}
use nomt.Core.MultiProof.{
  MultiPathProof, VerifiedMultiPath, Ranged, verify_single, verify_range, join_halves,
}
use nomt.Core.MultiProof.Halves.{
  path_at, Ascends, AllPaths, AllPaths-zip, AllPaths-take, AllPaths-drop, bisect-IsCut,
}
use nomt.Core.MultiProof.Proves.{
  AllVerified, AllVerified-append, AllVerified-map, Proves, Proves-up,
}
use nomt.Core.MultiProof.Siblings.{SiblingsOf, of_single, of_left, of_right}
use nomt.Core.MultiProof.Steps.{verify_single-ok, verify_range-Bisected, single_range, no_fuel}

module _ (h : NodeHasher) where
  verify_single-Proves :
      (P : PathProofTerminal → Type 0) (S : PathProofTerminal → List Node → Type 0) (d : ℕ)
      → (p : MultiPathProof) (siblings : List Node) (offset : ℕ) (r : Ranged) → P p.terminal
      → S p.terminal (take (p.depth - d) siblings)
      → verify_single h d p siblings offset ≡ ok r
      → AllVerified (λ v. P v.terminal × Proves h S d r.node v) r.verified_paths
  verify_single-Proves P S d p siblings offset r holds made e =
      let (above, fits, enough, node, paths) = verify_single-ok h d p siblings offset r e in
      let count = p.depth - d in
      let used = take count siblings in
      let path = terminal_path p.terminal in
      let size : length used ≡ count = omega (arith, length-take {0} count siblings, enough) in
      let bits : slice d (d + count) path ≡ take count (drop d path) =
        ap (λ n. take n (drop d path)) (omega arith) in
      let cut : length (take count (drop d path)) ≡ length used =
        omega (arith, length-take {0} count (drop d path), length-drop {0} d path, size, fits) in
      let proven : Proves h S d r.node (record {
        terminal = p.terminal;
        depth = p.depth;
        unique_siblings = (offset, offset + count);
      }) =
        record {
          siblings = used;
          made = made;
          depth = omega (arith, size, above);
          fits = fits;
          hashed =
              ap (λ n. hash_down h (terminal_node h p.terminal) (take n (drop d path)) used) size
              ∙ sym (
                  hash_path-eq-hash_down h (terminal_node h p.terminal) (take count (drop d path))
                    used cut)
              ∙ ap (λ x. hash_path h (terminal_node h p.terminal) x (reverse used)) (sym bits)
              ∙ sym node;
        } in
      rw paths ((holds, proven), tt)

  -- The node over the halves, from the top down.
  join_halves-node :
      (d : ℕ) (path : Bits) (siblings : List Node) (offset common : ℕ) (left right : Ranged)
      → length (take common path) ≡ common
      → common ≤ length siblings
      → (join_halves h d path siblings offset common left right).node
        ≡ hash_down h
            (h.hash_internal (record { left = left.node; right = right.node }))
            (take common path)
            (take common siblings)
  unfolding join_halves
  join_halves-node d path siblings offset common left right size enough =
      hash_path-eq-hash_down h (h.hash_internal (record { left = left.node; right = right.node }))
        (take common path) (take common siblings)
        (omega (arith, size, length-take {0} common siblings, enough))

  -- A verified path of a half, as one of the range.
  abbrev pub Shown :
      (PathProofTerminal → Type 0)
      → (PathProofTerminal → List Node → Type 0)
      → ℕ
      → Node
      → VerifiedMultiPath
      → Type 0
  Shown P S d node v = P v.terminal × Proves h S d node v

  Halves-Shown :
      (P : PathProofTerminal → Type 0) (S T : PathProofTerminal → List Node → Type 0) (d : ℕ)
      → (b : Bool) (pre : Bits) (c : ℕ) (above : List Node) (child other : Node)
      → (vs : List VerifiedMultiPath)
      → ((x : PathProofTerminal) (below : List Node) → S x below → T x (above ++ other ∷ below))
      → length pre ≡ c
      → length above ≡ c
      → AllVerified
          (Shown
            (λ t. P t × (take (suc c) (drop d (terminal_path t)) ≡ pre ++ b ∷ []))
            S
            (d + suc c)
            child)
          vs
      → AllVerified
          (Shown P T d (hash_down h (h.hash_internal (join_nodes b other child)) pre above))
          vs
  Halves-Shown P S T d b pre c above child other vs lift size size' all =
      AllVerified-map
        (λ v t. (t.0.0, Proves-up h S T d c b pre above other child v lift size size' t.0.1 t.1)) vs
        all

  join_halves-Shown :
      (P : PathProofTerminal → Type 0) (S : PathProofTerminal → List Node → Type 0) (d : ℕ)
      → (path : Bits) (siblings : List Node) (offset common : ℕ) (left right : Ranged) (node : Node)
      → (join_halves h d path siblings offset common left right).node ≡ node
      → AllVerified (Shown P S d node) (left.verified_paths ++ right.verified_paths)
      → AllVerified
          (Shown P S d (join_halves h d path siblings offset common left right).node)
          (join_halves h d path siblings offset common left right).verified_paths
  unfolding join_halves
  join_halves-Shown P S d path siblings offset common left right node e all =
      subst (λ n. AllVerified (Shown P S d n) (left.verified_paths ++ right.verified_paths)) (sym e)
        all

  pub verify_range-Shown :
      (P : PathProofTerminal → Type 0) (fuel d : ℕ) (paths : List MultiPathProof)
      → (siblings : List Node) (offset : ℕ) (r : Ranged) → 0 < length paths
      → Ascends d paths
      → AllPaths (λ q. P q.terminal) paths
      → verify_range h fuel d paths siblings offset ≡ ok r
      → AllVerified (Shown P (SiblingsOf h fuel d paths siblings offset) d r.node) r.verified_paths
  unfolding join_nodes
  verify_range-Shown P fuel d [] siblings offset r some_path order all e = absurd (omega arith)
  verify_range-Shown P fuel d (p ∷ []) siblings offset r some_path order all e =
      verify_single-Proves P (SiblingsOf h fuel d (p ∷ []) siblings offset) d p siblings offset r
        all.0 (of_single fuel d p siblings offset) (single_range h fuel d p siblings offset ∙ e)
  verify_range-Shown P zero d (p ∷ (q ∷ ps)) siblings offset r some_path order all e =
      absurd (no_fuel h d p q ps siblings offset r e)
  verify_range-Shown P (suc fuel) d (p ∷ (q ∷ ps)) siblings offset r some_path order all e =
      let paths = p ∷ (q ∷ ps) in
      let t = verify_range-Bisected h fuel d p q ps siblings offset r e in
      let c = t.common in
      let cut = bisect-IsCut d t.index p q ps c order t.shared t.found in
      let pre = take c (path_at d p) in
      let above = take c siblings in
      let size' : length above ≡ c = omega (arith, length-take {0} c siblings, t.halves.enough) in
      let whole = SiblingsOf h (suc fuel) d paths siblings offset in
      let left_made =
        SiblingsOf h fuel (d + suc c) (take t.index paths) (drop c siblings) (offset + c) in
      let right_made =
        SiblingsOf h fuel (d + suc c) (drop t.index paths)
          (drop (c + t.halves.left.siblings_used) siblings)
          (offset + c + t.halves.left.siblings_used) in
      let deep : d + suc c ≡ d + c + 1 = omega arith in
      let left =
        verify_range-Shown
          (λ x. P x × (take (suc c) (drop d (terminal_path x)) ≡ pre ++ false ∷ [])) fuel
          (d + suc c) (take t.index paths) (drop c siblings) (offset + c) t.halves.left
          (omega (arith, length-take {0} t.index paths, cut.left_some)) cut.left_order
          (AllPaths-zip (λ x a b. (a, b)) (take t.index paths)
            (AllPaths-take (λ x. P x.terminal) t.index paths all) cut.left_bits)
          (ap (λ n. verify_range h fuel n (take t.index paths) (drop c siblings) (offset + c)) deep
            ∙ t.halves.ran_left) in
      let right =
        verify_range-Shown (λ x. P x × (take (suc c) (drop d (terminal_path x)) ≡ pre ++ true ∷ []))
          fuel (d + suc c) (drop t.index paths) (drop (c + t.halves.left.siblings_used) siblings)
          (offset + c + t.halves.left.siblings_used) t.halves.right
          (omega (arith, length-drop {0} t.index paths, cut.right_some)) cut.right_order
          (AllPaths-zip (λ x a b. (a, b)) (drop t.index paths)
            (AllPaths-drop (λ x. P x.terminal) t.index paths all) cut.right_bits)
          (ap
              (λ n.
                verify_range h fuel n (drop t.index paths)
                  (drop (c + t.halves.left.siblings_used) siblings)
                  (offset + c + t.halves.left.siblings_used))
              deep
            ∙ t.halves.ran_right) in
      let node =
        join_halves-node d (path_at d p) siblings offset c t.halves.left t.halves.right cut.shared
          t.halves.enough in
      let joined =
        AllVerified-append
          (Shown P whole d (
            hash_down h
              (h.hash_internal (record { left = t.halves.left.node; right = t.halves.right.node }))
              pre above))
          t.halves.left.verified_paths t.halves.right.verified_paths
          (Halves-Shown P left_made whole d false pre c above t.halves.left.node t.halves.right.node
            t.halves.left.verified_paths
            (λ x below m. of_left fuel d p q ps siblings offset r t x below (
              subst
                (λ n.
                  SiblingsOf h fuel n (take t.index paths) (drop c siblings) (offset + c) x below)
                deep m))
            cut.shared size' left)
          (Halves-Shown P right_made whole d true pre c above t.halves.right.node t.halves.left.node
            t.halves.right.verified_paths
            (λ x below m. of_right fuel d p q ps siblings offset r t x below (
              subst
                (λ n.
                  SiblingsOf h fuel n (drop t.index paths)
                    (drop (c + t.halves.left.siblings_used) siblings)
                    (offset + c + t.halves.left.siblings_used) x below)
                deep m))
            cut.shared size' right) in
      subst (λ x. AllVerified (Shown P whole d x.node) x.verified_paths) t.halves.joined
        (join_halves-Shown P whole d (path_at d p) siblings offset c t.halves.left t.halves.right _
          node joined)
