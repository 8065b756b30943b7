-- ===== src/Core/Update/Shared.antt =====
-- The bits that neighbouring keys share, and the layers that follow (`build_trie` of
-- core/src/update.rs).
use nomt.Base.{
  ℕ, zero, suc, ◌+◌, ◌-◌, ◌≤◌, ◌<◌, ◌≡◌, Bool, true, false, not, [], ◌∷◌, Bits, bool_eq, length,
  take, drop, arith, length-drop, inl, inr, ◌⊎◌, Option, none, some, nat_eq,
}
use native.Mathlib.Nat.{zero-add, suc-add}
use nomt.Core.Trie.{KeyPath, NodeHasher}
use nomt.Core.Update.{Op, leaf_node, shared_bits, common_after_prefix, shared_with, layers_of}
use nomt.Core.Update.Reference.{bit_at}
use nomt.Core.Update.Frontier.{Stack, place, ascend, climb-eq-ascend}

shared_at_zero :
    (d : ℕ) (b : Bool) (x y : Bits)
    → take d x ≡ take d y
    → d < length x
    → d < length y
    → bit_at d x ≡ b
    → bit_at d y ≡ not b
    → shared_bits x y ≡ d
unfolding shared_bits
shared_at_zero d b [] y e hx hy bx by = absurd (omega arith)
shared_at_zero d b (a ∷ x) [] e hx hy bx by = absurd (omega arith)
shared_at_zero zero true (a ∷ x) (c ∷ y) e hx hy bx by = ground arith
shared_at_zero zero false (a ∷ x) (c ∷ y) e hx hy bx by = ground arith
shared_at_zero (suc d) b (a ∷ x) (c ∷ y) e hx hy bx by =
    let head : a ≡ c = cc in
    let tail : take d x ≡ take d y = cc in
    let rest = shared_at_zero d b x y tail (omega arith) (omega arith) bx by in ground arith

-- Keys that agree up to the bit `skip + d` and differ there share `d` bits after the prefix.
pub shared_at :
    (skip d : ℕ) (b : Bool) (x y : KeyPath)
    → take (skip + d) x ≡ take (skip + d) y
    → skip + d < length x
    → skip + d < length y
    → bit_at (skip + d) x ≡ b
    → bit_at (skip + d) y ≡ not b
    → common_after_prefix skip x y ≡ d
unfolding common_after_prefix
shared_at zero d b x y e hx hy bx by =
    shared_at_zero d b x y (rw zero-add at e) (omega arith) (omega arith) (rw zero-add at bx)
      (rw zero-add at by)
shared_at (suc skip) d b [] y e hx hy bx by = absurd (omega arith)
shared_at (suc skip) d b (a ∷ x) [] e hx hy bx by = absurd (omega arith)
shared_at (suc skip) d b (a ∷ x) (c ∷ y) e hx hy bx by =
    let e' : a ∷ take (skip + d) x ≡ c ∷ take (skip + d) y = rw suc-add at e in
    let tail : take (skip + d) x ≡ take (skip + d) y = cc in
    unfold common_after_prefix in
    shared_at skip d b x y tail (omega arith) (omega arith) (rw suc-add at bx) (rw suc-add at by)

-- A bound on the bits shared with a neighbour, if there is one.
abbrev pub Below : Option ℕ → ℕ → Type 0
Below none d = Unit
Below (some n) d = n < d

pub Below-suc : (n : Option ℕ) (d : ℕ) → Below n d → Below n (suc d)
Below-suc none d h = tt
Below-suc (some n) d h = omega arith

-- The layer up to which a leaf is hashed before the next one comes.
abbrev pub target : Option ℕ → ℕ
target none = 0
target (some n) = suc n

pub target-le : (n : Option ℕ) (d : ℕ) → Below n d → target n ≤ d
target-le none d h = omega arith
target-le (some n) d h = h

-- One neighbour shares exactly `d` bits, and the other fewer.
abbrev pub Tight : Option ℕ → Option ℕ → ℕ → Type 0
Tight n1 n2 d = ((n2 ≡ some d) × Below n1 d) ⊎ ((n1 ≡ some d) × Below n2 d)

layers-Tight :
    (n1 n2 : Option ℕ) (d : ℕ)
    → Tight n1 n2 d
    → (layers_of n1 n2).0 ≡ suc d × ((layers_of n1 n2).1 ≡ suc d - target n2)
unfolding layers_of
layers-Tight none none d (inl (e, b)) = cc
layers-Tight none none d (inr (e, b)) = cc
layers-Tight none (some n) d (inl (e, b)) = ground arith
layers-Tight none (some n) d (inr (e, b)) = cc
layers-Tight (some m) none d (inl (e, b)) = cc
layers-Tight (some m) none d (inr (e, b)) = ground arith
layers-Tight (some m) (some n) d (inl (e, b)) = ground arith
layers-Tight (some m) (some n) d (inr (e, b)) = ground arith

module _ (h : NodeHasher) where
  -- A leaf between such neighbours starts one layer below the bits that it shares.
  pub place-Tight :
      (skip d : ℕ) (a : Option Op) (this : Op) (c : Option Op) (s : Stack)
      → skip + suc d ≤ length this.0
      → Tight (shared_with skip this.0 a) (shared_with skip this.0 c) d
      → place h skip a this c s
        ≡ ascend h
            (drop skip this.0)
            (suc d - target (shared_with skip this.0 c))
            (leaf_node h this)
            (suc d)
            s
  unfolding place
  place-Tight skip d a this c s fits tight =
      let n2 = shared_with skip this.0 c in
      let (depth, layers) = layers-Tight (shared_with skip this.0 a) n2 d tight in
      rw (depth, layers)
        (climb-eq-ascend h (drop skip this.0) (suc d - target n2) (suc d) (leaf_node h this) s
          (omega arith) (omega (arith, length-drop {0} skip this.0)))
