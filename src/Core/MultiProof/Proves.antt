-- ===== src/Core/MultiProof/Proves.antt =====
-- What siblings show of a verified path (core/src/proof/multi_proof.rs).
use nomt.Base.{
  take-add, ℕ, suc, ◌+◌, ◌≤◌, ◌≡◌, refl, ap, ap₂, ◌∙◌, Bool, List, [], ◌∷◌, ◌++◌, Bits, bool_eq,
  length, take, drop, arith, drop-drop, length-append,
}
use nomt.Core.Trie.{Node, NodeHasher}
use nomt.Core.Update.{join_nodes}
use nomt.Core.PathProof.{PathProofTerminal, terminal_path, terminal_node}
use nomt.Core.PathProof.Descent.{hash_down}
use nomt.Core.MultiProof.{VerifiedMultiPath}

abbrev pub AllVerified : (VerifiedMultiPath → Type 0) → List VerifiedMultiPath → Type 0
AllVerified P [] = Unit
AllVerified P (v ∷ vs) = P v × AllVerified P vs

pub AllVerified-append :
    (P : VerifiedMultiPath → Type 0) (vs ws : List VerifiedMultiPath)
    → AllVerified P vs
    → AllVerified P ws
    → AllVerified P (vs ++ ws)
AllVerified-append P [] ws a b = b
AllVerified-append P (v ∷ vs) ws (x, a) b = (x, AllVerified-append P vs ws a b)

pub AllVerified-map :
    {P Q : VerifiedMultiPath → Type 0} (f : (v : VerifiedMultiPath) → P v → Q v)
    (vs : List VerifiedMultiPath)
    → AllVerified P vs
    → AllVerified Q vs
AllVerified-map f [] a = tt
AllVerified-map f (v ∷ vs) (x, a) = (f v x, AllVerified-map f vs a)

module _ (h : NodeHasher) where
  -- Siblings from bit `d` on, which stand in the relation `S` with the terminal of a path, hash that
  -- terminal up to the node.
  pub record Proves (S : PathProofTerminal → List Node → Type 0) (d : ℕ) (node : Node)
      (v : VerifiedMultiPath) : Type 0 where
    pub siblings : List Node
    pub made : S v.terminal siblings
    pub depth : v.depth ≡ d + length siblings
    pub fits : v.depth ≤ length (terminal_path v.terminal)
    pub hashed :
        hash_down h
          (terminal_node h v.terminal)
          (take (length siblings) (drop d (terminal_path v.terminal)))
          siblings
        ≡ node

  hash_down-append :
      (node : Node) (b : Bool) (o : Node) (bits below : Bits) (above siblings : List Node)
      → length bits ≡ length above
      → hash_down h node ((bits ++ b ∷ []) ++ below) (above ++ o ∷ siblings)
        ≡ hash_down h
            (h.hash_internal (join_nodes b o (hash_down h node below siblings)))
            bits
            above
  unfolding hash_down
  hash_down-append node b o [] below [] siblings e = refl
  hash_down-append node b o [] below (s ∷ above) siblings e = absurd (omega arith)
  hash_down-append node b o (c ∷ bits) below [] siblings e = absurd (omega arith)
  hash_down-append node b o (c ∷ bits) below (s ∷ above) siblings e =
      ap (λ t. h.hash_internal (join_nodes c s t))
        (hash_down-append node b o bits below above siblings (omega arith))

  -- A path of a half is one of the whole range.
  pub Proves-up :
      (S T : PathProofTerminal → List Node → Type 0) (d c : ℕ) (b : Bool) (pre : Bits)
      → (above : List Node) (other node : Node) (v : VerifiedMultiPath)
      → ((x : PathProofTerminal) (below : List Node) → S x below → T x (above ++ other ∷ below))
      → length pre ≡ c
      → length above ≡ c
      → take (suc c) (drop d (terminal_path v.terminal)) ≡ pre ++ b ∷ []
      → Proves S (d + suc c) node v
      → Proves T d (hash_down h (h.hash_internal (join_nodes b other node)) pre above) v
  Proves-up S T d c b pre above other node v lift size size' bits t =
      let path = drop d (terminal_path v.terminal) in
      let count = length-append above (other ∷ t.siblings) in
      let same : take (length (above ++ other ∷ t.siblings)) path
          ≡ (pre ++ b ∷ [])
            ++ take (length t.siblings) (drop (d + suc c) (terminal_path v.terminal)) =
        ap (λ n. take n path) (omega (arith, count, size'))
        ∙ take-add (suc c) (length t.siblings) path
        ∙ ap₂ (λ x y. x ++ take (length t.siblings) y) bits
            (drop-drop (suc c) d (terminal_path v.terminal)) in
      record {
        siblings = above ++ other ∷ t.siblings;
        made = lift v.terminal t.siblings t.made;
        depth = omega (arith, t.depth, count, size');
        fits = t.fits;
        hashed =
            ap (λ x. hash_down h (terminal_node h v.terminal) x (above ++ other ∷ t.siblings)) same
            ∙ hash_down-append (terminal_node h v.terminal) b other pre _ above t.siblings
                (omega (arith, size, size'))
            ∙ ap (λ n. hash_down h (h.hash_internal (join_nodes b other n)) pre above) t.hashed;
      }
