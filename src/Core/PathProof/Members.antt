-- ===== src/Core/PathProof/Members.antt =====
-- The operations below a path of the trie (core/src/proof/path_proof.rs).
use nomt.Base.{
  ℕ, zero, suc, ◌≡◌, sym, ap, ◌∙◌, Bool, true, List, [], ◌∷◌, Bits, bool_eq, list_eq, ◌==◌, ==_iff,
  length, take, inl, inr, drop, Bool-cases,
}
use nomt.Core.Trie.{KeyPath, ValueHash, leaf_eq}
use nomt.Core.Update.{Op}
use nomt.Core.Update.Reference.{bit_at, with_bit}
use nomt.Core.PathProof.Descent.{Holds, below}

Holds-with_bit :
    (p : ℕ) (b : Bool) (k : KeyPath) (v : ValueHash) (ops : List Op)
    → Holds k v (with_bit p b ops)
    → Holds k v ops
unfolding with_bit
Holds-with_bit p b k v [] m = m
Holds-with_bit p b k v ((j, w) ∷ ops) m = elim (Bool-cases (bit_at p j == b)) [
  | inl e ↦
      let m' : Holds k v ((j, w) ∷ with_bit p b ops) = rw e at m in
      elim m' [ inl here ↦ inl here | inr later ↦ inr (Holds-with_bit p b k v ops later) ]
  | inr e ↦ let m' : Holds k v (with_bit p b ops) = rw e at m in inr (Holds-with_bit p b k v ops m')
]

with_bit-Holds :
    (p : ℕ) (b : Bool) (k : KeyPath) (v : ValueHash) (ops : List Op)
    → bit_at p k ≡ b
    → Holds k v ops
    → Holds k v (with_bit p b ops)
unfolding with_bit
with_bit-Holds p b k v [] at m = m
with_bit-Holds p b k v ((j, w) ∷ ops) at (inl here) =
    let e : (bit_at p j == b) ≡ true =
      (==_iff (bit_at p j) b).1 (ap (bit_at p) (sym here.0) ∙ at) in
    rw e (inl here)
with_bit-Holds p b k v ((j, w) ∷ ops) at (inr later) = elim (Bool-cases (bit_at p j == b)) [
  | inl e ↦ rw e (inr (with_bit-Holds p b k v ops at later))
  | inr e ↦ rw e (with_bit-Holds p b k v ops at later)
]

pub Holds-below :
    (p : ℕ) (bits : Bits) (k : KeyPath) (v : ValueHash) (ops : List Op)
    → Holds k v (below p bits ops)
    → Holds k v ops
unfolding below
Holds-below p [] k v ops m = m
Holds-below p (b ∷ bs) k v ops m =
    Holds-with_bit p b k v ops (Holds-below (suc p) bs k v (with_bit p b ops) m)

-- The first bit of a slice, and the rest of it.
slice_first :
    (p n : ℕ) (b : Bool) (bs k : Bits)
    → b ∷ bs ≡ take (suc n) (drop p k)
    → (bit_at p k ≡ b) × (bs ≡ take n (drop (suc p) k))
slice_first zero n b bs [] e = cc e
slice_first zero n b bs (c ∷ k) e = (cc, cc)
slice_first (suc p) n b bs [] e = cc e
slice_first (suc p) n b bs (c ∷ k) e = slice_first p n b bs k e

-- A key that begins with the path stays below it.
pub below-Holds :
    (p : ℕ) (bits : Bits) (k : KeyPath) (v : ValueHash) (ops : List Op)
    → bits ≡ take (length bits) (drop p k)
    → Holds k v ops
    → Holds k v (below p bits ops)
unfolding below
below-Holds p [] k v ops e m = m
below-Holds p (b ∷ bs) k v ops e m =
    let (at, rest) = slice_first p (length bs) b bs k e in
    below-Holds (suc p) bs k v (with_bit p b ops) rest (with_bit-Holds p b k v ops at m)
