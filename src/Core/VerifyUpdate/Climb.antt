-- ===== src/Core/VerifyUpdate/Climb.antt =====
-- Climbing a single path to the root of the trie (`verify_update` of
-- core/src/proof/path_proof.rs).
use nomt.Base.{
  ℕ, zero, suc, ◌+◌, ◌-◌, ◌≡◌, refl, sym, ap, ap₂, ◌∙◌, Bool, not, List, [], ◌∷◌, ◌++◌, reverse,
  Bits, length, arith, length-reverse,
}
use mathlib.Core.Path.{subst}
use mathlib.Core.List.{reverse-cons}
use nomt.Core.Trie.{Node, NodeHasher, IsLabelled}
use nomt.Core.Update.{Op}
use nomt.Core.Update.Reference.{with_bit, sub_trie, IsGroup}
use nomt.Core.Update.Group.{with_bit-IsGroup}
use nomt.Core.PathProof.Descent.{below}
use nomt.Core.VerifyUpdate.{compact, replace_sibling, climb_path}
use nomt.Core.VerifyUpdate.Compact.{compact-eq-sub_trie}

module _ (h : NodeHasher) where
  -- The climb from the top down.
  unfoldable pub climb_down : Node → Bits → List Node → Node
  climb_down node [] siblings = node
  climb_down node (b ∷ bs) [] = node
  climb_down node (b ∷ bs) (s ∷ ss) = compact h b (climb_down node bs ss) s

  climb_path-append :
      (node : Node) (layer : ℕ) (bits : Bits) (siblings : List Node) (b : Bool) (s : Node)
      → length bits ≡ length siblings
      → (climb_path h (bits ++ b ∷ []) (siblings ++ s ∷ []) node layer []).0
        ≡ compact h b (climb_path h bits siblings node layer []).0 s
  unfolding climb_path replace_sibling
  climb_path-append node layer [] [] b s e = refl
  climb_path-append node layer [] (s' ∷ ss) b s e = absurd (omega arith)
  climb_path-append node layer (b' ∷ bs) [] b s e = absurd (omega arith)
  climb_path-append node layer (b' ∷ bs) (s' ∷ ss) b s e =
      climb_path-append (compact h b' node s') (layer - 1) bs ss b s (omega arith)

  pub climb_path-eq-climb_down :
      (node : Node) (layer : ℕ) (bits : Bits) (siblings : List Node)
      → length bits ≡ length siblings
      → (climb_path h (reverse bits) (reverse siblings) node layer []).0
        ≡ climb_down node bits siblings
  unfolding climb_path climb_down
  climb_path-eq-climb_down node layer [] siblings e = refl
  climb_path-eq-climb_down node layer (b ∷ bs) [] e = absurd (omega arith)
  climb_path-eq-climb_down node layer (b ∷ bs) (s ∷ ss) e =
      ap₂ (λ bits siblings. (climb_path h bits siblings node layer []).0) (reverse-cons b bs)
        (reverse-cons s ss)
      ∙ climb_path-append node layer (reverse bs) (reverse ss) b s
          (omega (arith, length-reverse {0} bs, length-reverse {0} ss))
      ∙ ap (λ n. compact h b n s) (climb_path-eq-climb_down node layer bs ss (omega arith))

  -- The siblings of a path are the roots of the sub-tries beside it.
  abbrev pub RootsBeside : ℕ → ℕ → Bits → List Node → List Op → Type 0
  RootsBeside n p [] siblings ops = Unit
  RootsBeside n p (b ∷ bs) [] ops = ⊥
  RootsBeside zero p (b ∷ bs) (s ∷ ss) ops = ⊥
  RootsBeside (suc n) p (b ∷ bs) (s ∷ ss) ops =
      (s ≡ sub_trie h n (suc p) (with_bit p (not b) ops))
      × RootsBeside n (suc p) bs ss (with_bit p b ops)

  -- The sub-trie at the end of a path.
  pub record Bottom (n p : ℕ) (bits : Bits) (siblings : List Node) (ops : List Op) : Type 0 where
    pub left : ℕ
    pub prefix : Bits
    pub group : IsGroup left (p + length bits) prefix (below p bits ops)
    pub climbs :
        (node : Node)
        → node ≡ sub_trie h left (p + length bits) (below p bits ops)
        → climb_down node bits siblings ≡ sub_trie h n p ops

  module _ (labelled : IsLabelled h) where
    pub bottom :
        (n p : ℕ) (prefix bits : Bits) (siblings : List Node) (ops : List Op)
        → IsGroup n p prefix ops
        → RootsBeside n p bits siblings ops
        → Bottom n p bits siblings ops
    unfolding climb_down below
    bottom n p prefix [] siblings ops g beside =
        let here : p + 0 ≡ p = omega arith in
        record {
          left = n;
          prefix = prefix;
          group = subst (λ d. IsGroup n d prefix ops) (sym here) g;
          climbs = λ node e. e ∙ ap (λ d. sub_trie h n d ops) here;
        }
    bottom n p prefix (b ∷ bs) [] ops g beside = absurd beside
    bottom zero p prefix (b ∷ bs) (s ∷ ss) ops g beside = absurd beside
    bottom (suc n) p prefix (b ∷ bs) (s ∷ ss) ops g (here, beside) =
        let r =
          bottom n (suc p) (prefix ++ b ∷ []) bs ss (with_bit p b ops)
            (with_bit-IsGroup n p prefix b ops g) beside in
        let deep : suc p + length bs ≡ p + suc (length bs) = omega arith in
        record {
          left = r.left;
          prefix = r.prefix;
          group =
              subst (λ d. IsGroup r.left d r.prefix (below (suc p) bs (with_bit p b ops))) deep
                r.group;
          climbs = λ node e.
              ap₂ (compact h b)
                (r.climbs node (
                  e
                  ∙ ap (λ d. sub_trie h r.left d (below (suc p) bs (with_bit p b ops))) (sym deep)))
                here
              ∙ compact-eq-sub_trie h labelled n p prefix ops b g;
        }
