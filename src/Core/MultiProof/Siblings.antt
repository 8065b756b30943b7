-- ===== src/Core/MultiProof/Siblings.antt =====
-- The siblings of the path proof that a multi-proof holds for one of its paths, as `verify_range`
-- takes them from its slices and from the halves (core/src/proof/multi_proof.rs).
use nomt.Base.{ℕ, suc, ◌+◌, ◌-◌, List, [], ◌∷◌, ◌++◌, take, drop}
use nomt.Core.Trie.{Node, NodeHasher}
use nomt.Core.PathProof.{PathProofTerminal}
use nomt.Core.MultiProof.{MultiPathProof, Ranged, root_path}
use nomt.Core.MultiProof.Steps.{Bisected}

-- By the fuel, the depth, the paths, the siblings and the offset of a range, and the terminal of a
-- path of it: a path alone takes the siblings from the range's own, and a path of a half takes
-- those above the bisection, then the node of the other half, then its siblings in its half.
pub data SiblingsOf (h : NodeHasher)
    : ℕ → ℕ → List MultiPathProof → List Node → ℕ → PathProofTerminal → List Node → Type 0 where
  of_root :
      (fuel d : ℕ) (siblings : List Node) (offset : ℕ)
      → SiblingsOf h fuel d [] siblings offset root_path.terminal []
  of_single :
      (fuel d : ℕ) (p : MultiPathProof) (siblings : List Node) (offset : ℕ)
      → SiblingsOf h fuel d (p ∷ []) siblings offset p.terminal (take (p.depth - d) siblings)
  of_left :
      (fuel d : ℕ) (p q : MultiPathProof) (ps : List MultiPathProof) (siblings : List Node)
      → (offset : ℕ) (r : Ranged) (t : Bisected h fuel d p q ps siblings offset r)
      → (terminal : PathProofTerminal) (below : List Node)
      → SiblingsOf h fuel
          (d + t.common + 1)
          (take t.index (p ∷ (q ∷ ps)))
          (drop t.common siblings)
          (offset + t.common)
          terminal
          below
      → SiblingsOf h
          (suc fuel)
          d
          (p ∷ (q ∷ ps))
          siblings
          offset
          terminal
          (take t.common siblings ++ t.halves.right.node ∷ below)
  of_right :
      (fuel d : ℕ) (p q : MultiPathProof) (ps : List MultiPathProof) (siblings : List Node)
      → (offset : ℕ) (r : Ranged) (t : Bisected h fuel d p q ps siblings offset r)
      → (terminal : PathProofTerminal) (below : List Node)
      → SiblingsOf h fuel
          (d + t.common + 1)
          (drop t.index (p ∷ (q ∷ ps)))
          (drop (t.common + t.halves.left.siblings_used) siblings)
          (offset + t.common + t.halves.left.siblings_used)
          terminal
          below
      → SiblingsOf h
          (suc fuel)
          d
          (p ∷ (q ∷ ps))
          siblings
          offset
          terminal
          (take t.common siblings ++ t.halves.left.node ∷ below)
