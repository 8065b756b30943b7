-- ===== src/Core/Update/Group.antt =====
-- Ascending keys with a common prefix split at the next bit (the comment on `build_trie` in
-- core/src/update.rs): first those with a zero there, then those with a one.
use nomt.Base.{
  ℕ, zero, suc, ◌+◌, ◌<◌, ◌≡◌, refl, sym, ap, ap₂, ◌∙◌, Bool, true, false, not, List, [], ◌∷◌, ◌++◌,
  Bits, bool_eq, ◌==◌, length, take, arith, take-suc, get_elem?-eq-get_or, Bool-cases, inl, inr,
  take_all,
}
use nomt.Core.Trie.{KeyPath}
use nomt.Core.Update.{Op, bits_ltb}
use nomt.Core.Update.Reference.{bit_at, with_bit, AllKeys, IsAscending, IsGroup}

-- Of two keys that agree on `p` bits, the greater has a one at `p` where the smaller has.
pub bit_of_greater :
    (p : ℕ) (x y : KeyPath)
    → take p x ≡ take p y
    → p < length x
    → p < length y
    → bits_ltb x y ≡ true
    → bit_at p x ≡ true
    → bit_at p y ≡ true
unfolding bits_ltb
bit_of_greater p [] y e hx hy lt one = absurd (omega arith)
bit_of_greater p (a ∷ x) [] e hx hy lt one = absurd (omega arith)
bit_of_greater zero (a ∷ x) (b ∷ y) e hx hy lt one = ground arith
bit_of_greater (suc p) (a ∷ x) (b ∷ y) e hx hy lt one =
    let head : a ≡ b = cc in
    let tail : take p x ≡ take p y = cc in
    bit_of_greater p x y tail (omega arith) (omega arith) (ground arith) one

pub bits_ltb_irrefl : (x : Bits) → bits_ltb x x ≡ false
unfolding bits_ltb
bits_ltb_irrefl [] = refl
bits_ltb_irrefl (true ∷ x) = bits_ltb_irrefl x
bits_ltb_irrefl (false ∷ x) = bits_ltb_irrefl x

module _ {P Q : KeyPath → Type 0} where
  AllKeys-map : ((k : KeyPath) → P k → Q k) → (ops : List Op) → AllKeys P ops → AllKeys Q ops
  AllKeys-map f [] h = tt
  AllKeys-map f ((k, v) ∷ ops) h = (f k h.0, AllKeys-map f ops h.1)

module _ {P Q R : KeyPath → Type 0} where
  AllKeys-zip :
      ((k : KeyPath) → P k → Q k → R k)
      → (ops : List Op) → AllKeys P ops
      → AllKeys Q ops
      → AllKeys R ops
  AllKeys-zip f [] h g = tt
  AllKeys-zip f ((k, v) ∷ ops) h g = (f k h.0 g.0, AllKeys-zip f ops h.1 g.1)

module _ (p : ℕ) (b : Bool) where
  pub AllKeys-with_bit :
      (P : KeyPath → Type 0) (ops : List Op) → AllKeys P ops → AllKeys P (with_bit p b ops)
  unfolding with_bit
  AllKeys-with_bit P [] h = tt
  AllKeys-with_bit P ((k, v) ∷ ops) h = elim (Bool-cases (bit_at p k == b)) [
    | inl e ↦ rw e (h.0, AllKeys-with_bit P ops h.1)
    | inr e ↦ rw e (AllKeys-with_bit P ops h.1)
  ]

  pub with_bit-bits : (ops : List Op) → AllKeys (λ k. bit_at p k ≡ b) (with_bit p b ops)
  unfolding with_bit
  with_bit-bits [] = tt
  with_bit-bits ((k, v) ∷ ops) = elim (Bool-cases (bit_at p k == b)) [
    | inl e ↦ rw e (ground arith, with_bit-bits ops)
    | inr e ↦ rw e (with_bit-bits ops)
  ]

  with_bit-IsAscending : (ops : List Op) → IsAscending ops → IsAscending (with_bit p b ops)
  unfolding with_bit
  with_bit-IsAscending [] h = tt
  with_bit-IsAscending ((k, v) ∷ ops) h = elim (Bool-cases (bit_at p k == b)) [
    | inl e ↦
        rw e (AllKeys-with_bit (λ j. bits_ltb k j ≡ true) ops h.0, with_bit-IsAscending ops h.1)
    | inr e ↦ rw e (with_bit-IsAscending ops h.1)
  ]

  with_bit_all : (ops : List Op) → AllKeys (λ k. bit_at p k ≡ b) ops → with_bit p b ops ≡ ops
  unfolding with_bit
  with_bit_all [] h = refl
  with_bit_all ((k, v) ∷ ops) h = ground (arith, h.0, with_bit_all ops h.1)

  with_bit_none : (ops : List Op) → AllKeys (λ k. bit_at p k ≡ not b) ops → with_bit p b ops ≡ []
  unfolding with_bit
  with_bit_none [] h = refl
  with_bit_none ((k, v) ∷ ops) h = ground (arith, h.0, with_bit_none ops h.1)

take-suc-bit_at :
    (p : ℕ) (k : KeyPath) → p < length k → take (suc p) k ≡ take p k ++ bit_at p k ∷ []
take-suc-bit_at p k h = take-suc p k (bit_at p k) (get_elem?-eq-get_or k p false h)

take-suc-prefix :
    (p f : ℕ) (prefix : Bits) (b : Bool) (k : KeyPath)
    → length k ≡ p + suc f
    → take p k ≡ prefix
    → bit_at p k ≡ b
    → take (suc p) k ≡ prefix ++ b ∷ []
take-suc-prefix p f prefix b k size s e =
    take-suc-bit_at p k (omega arith) ∙ ap₂ (λ x y. x ++ y ∷ []) s e

with_bit-shared :
    (f p : ℕ) (prefix : Bits) (b : Bool) (ops : List Op)
    → AllKeys (λ k. length k ≡ p + suc f) ops
    → AllKeys (λ k. take p k ≡ prefix) ops
    → AllKeys (λ k. take (suc p) k ≡ prefix ++ b ∷ []) (with_bit p b ops)
unfolding with_bit
with_bit-shared f p prefix b [] size s = tt
with_bit-shared f p prefix b ((k, v) ∷ ops) size s = elim (Bool-cases (bit_at p k == b)) [
  | inl e ↦ rw e (
    take-suc-prefix p f prefix b k size.0 s.0 (ground arith),
    with_bit-shared f p prefix b ops size.1 s.1,
  )
  | inr e ↦ rw e (with_bit-shared f p prefix b ops size.1 s.1)
]

-- Each half of a group is a group one bit further on.
pub with_bit-IsGroup :
    (f p : ℕ) (prefix : Bits) (b : Bool) (ops : List Op)
    → IsGroup (suc f) p prefix ops
    → IsGroup f (suc p) (prefix ++ b ∷ []) (with_bit p b ops)
with_bit-IsGroup f p prefix b ops g = record {
  sized =
      AllKeys-with_bit p b (λ k. length k ≡ suc p + f) ops
        (AllKeys-map (λ k e. omega arith) ops g.sized);
  shared = with_bit-shared f p prefix b ops g.sized g.shared;
  ascending = with_bit-IsAscending p b ops g.ascending;
}

-- Behind a key with a one at `p` all keys of the group have a one there.
ones_above :
    (f p : ℕ) (prefix : Bits) (k : KeyPath) (ops : List Op)
    → length k ≡ p + suc f
    → take p k ≡ prefix
    → bit_at p k ≡ true
    → AllKeys (λ j. length j ≡ p + suc f) ops
    → AllKeys (λ j. take p j ≡ prefix) ops
    → AllKeys (λ j. bits_ltb k j ≡ true) ops
    → AllKeys (λ j. bit_at p j ≡ true) ops
ones_above f p prefix k [] size s one sizes ss lts = tt
ones_above f p prefix k ((j, v) ∷ ops) size s one sizes ss lts = (
  bit_of_greater p k j (s ∙ sym ss.0) (omega arith) (omega (arith, sizes.0)) lts.0 one,
  ones_above f p prefix k ops size s one sizes.1 ss.1 lts.1,
)

-- A group is its keys with a zero at `p`, and then those with a one.
pub group_split :
    (f p : ℕ) (prefix : Bits) (ops : List Op)
    → IsGroup (suc f) p prefix ops
    → ops ≡ with_bit p false ops ++ with_bit p true ops
unfolding with_bit
group_split f p prefix [] g = refl
group_split f p prefix ((k, v) ∷ ops) g =
    let rest : IsGroup (suc f) p prefix ops = record {
      sized = g.sized.1;
      shared = g.shared.1;
      ascending = g.ascending.1;
    } in
    elim (Bool-cases (bit_at p k)) [
      | inl one ↦
          let ones =
            ones_above f p prefix k ops g.sized.0 g.shared.0 one g.sized.1 g.shared.1
              g.ascending.0 in
          rw (one, with_bit_none p false ops ones, with_bit_all p true ops ones) refl
      | inr zero_bit ↦ rw zero_bit (ap (λ t. (k, v) ∷ t) (group_split f p prefix ops rest))
    ]

-- With no more bits a group has at most one key.
pub group_end :
    (p : ℕ) (prefix : Bits) (a b : Op) (ops : List Op) → IsGroup 0 p prefix (a ∷ b ∷ ops) → ⊥
group_end p prefix (k, v) (j, w) ops g =
    let ek : k ≡ prefix = sym (take_all p k (omega (arith, g.sized.0))) ∙ g.shared.0 in
    let ej : j ≡ prefix = sym (take_all p j (omega (arith, g.sized.1.0))) ∙ g.shared.1.0 in
    cc (ek, ej, g.ascending.0.0, bits_ltb_irrefl prefix)
