-- ===== src/Core/MultiProof/Order.antt =====
-- The order of bit slices (`verify_range` of core/src/proof/multi_proof.rs).
use nomt.Base.{
  ℕ, zero, suc, ◌≤◌, ◌≡◌, refl, ap, Bool, true, false, [], ◌∷◌, ◌++◌, Bits, bool_eq, length, take,
  drop, get_elem?, some, arith,
}
use nomt.Core.Update.{shared_bits, bits_ltb}

-- Not above in the order of bit slices.
abbrev pub Le : Bits → Bits → Type 0
Le x y = bits_ltb y x ≡ false

pub ltb-Le : (x y : Bits) → bits_ltb x y ≡ true → Le x y
unfolding bits_ltb
ltb-Le [] [] e = refl
ltb-Le [] (b ∷ y) e = refl
ltb-Le (a ∷ x) [] e = absurd (cc)
ltb-Le (a ∷ x) (b ∷ y) e = ground (arith, ltb-Le x y)

pub ltb_trans : (x y z : Bits) → bits_ltb x y ≡ true → bits_ltb y z ≡ true → bits_ltb x z ≡ true
unfolding bits_ltb
ltb_trans [] [] z e f = f
ltb_trans [] (b ∷ y) [] e f = absurd (cc)
ltb_trans [] (b ∷ y) (c ∷ z) e f = refl
ltb_trans (a ∷ x) [] z e f = absurd (cc)
ltb_trans (a ∷ x) (b ∷ y) [] e f = absurd (cc)
ltb_trans (a ∷ x) (b ∷ y) (c ∷ z) e f = ground (arith, ltb_trans x y z)

-- A path between two that share `c` bits shares them as well, and lies between them below.
pub between :
    (c : ℕ) (x k z : Bits)
    → Le x k
    → Le k z
    → take c x ≡ take c z
    → c ≤ length x
    → c ≤ length z
    → (take c k ≡ take c x) × Le (drop c x) (drop c k) × Le (drop c k) (drop c z)
unfolding bits_ltb
between zero x k z l r e hx hz = (refl, l, r)
between (suc c) [] k z l r e hx hz = absurd (omega arith)
between (suc c) (a ∷ x) k [] l r e hx hz = absurd (omega arith)
between (suc c) (a ∷ x) [] (b ∷ z) l r e hx hz = absurd (cc)
between (suc c) (a ∷ x) (y ∷ k) (b ∷ z) l r e hx hz =
    let head : a ≡ b = cc in
    let tail : take c x ≡ take c z = cc in
    let same : y ≡ a = ground arith in
    let (t, l', r') =
      between c x k z (ground arith) (ground arith) tail (omega arith) (omega arith) in
    (ground (arith, t, same), l', r')

-- Where the bits that are shared end, the smaller of two paths has a zero, if it goes on at all,
-- and the greater a one.
pub shared_bits-ltb :
    (x z : Bits) (a : Bool)
    → bits_ltb x z ≡ true
    → get_elem? x (shared_bits x z) ≡ some a
    → (take (shared_bits x z) x ≡ take (shared_bits x z) z)
      × (a ≡ false)
      × (get_elem? z (shared_bits x z) ≡ some true)
unfolding bits_ltb shared_bits
shared_bits-ltb [] z a e at = absurd (cc)
shared_bits-ltb (b ∷ x) [] a e at = absurd (cc)
shared_bits-ltb (true ∷ x) (true ∷ z) a e at =
    let (same, zeroed, one) = shared_bits-ltb x z a e at in (ap (λ t. true ∷ t) same, zeroed, one)
shared_bits-ltb (false ∷ x) (false ∷ z) a e at =
    let (same, zeroed, one) = shared_bits-ltb x z a e at in (ap (λ t. false ∷ t) same, zeroed, one)
shared_bits-ltb (true ∷ x) (false ∷ z) a e at = absurd (cc)
shared_bits-ltb (false ∷ x) (true ∷ z) a e at = (refl, ground arith, refl)

-- A path above one with a one at bit `c` has a one there, if they share the bits before.
pub one_above :
    (c : ℕ) (x y : Bits)
    → take c x ≡ take c y
    → bits_ltb x y ≡ true
    → get_elem? x c ≡ some true
    → get_elem? y c ≡ some true
unfolding bits_ltb
one_above c [] y same e at = absurd (cc)
one_above zero (a ∷ x) [] same e at = absurd (cc)
one_above (suc c) (a ∷ x) [] same e at = absurd (cc)
one_above zero (a ∷ x) (b ∷ y) same e at = ground arith
one_above (suc c) (a ∷ x) (b ∷ y) same e at =
    let head : a ≡ b = cc in
    let tail : take c x ≡ take c y = cc in one_above c x y tail (ground arith) at

-- Paths that share their first bits are ordered by the rest.
pub ltb-drop :
    (n : ℕ) (x y : Bits)
    → take n x ≡ take n y
    → bits_ltb x y ≡ true
    → bits_ltb (drop n x) (drop n y) ≡ true
unfolding bits_ltb
ltb-drop zero x y same e = e
ltb-drop (suc n) [] [] same e = absurd (cc)
ltb-drop (suc n) [] (b ∷ y) same e = absurd (cc)
ltb-drop (suc n) (a ∷ x) [] same e = absurd (cc)
ltb-drop (suc n) (a ∷ x) (b ∷ y) same e =
    let head : a ≡ b = cc in
    let tail : take n x ≡ take n y = cc in ltb-drop n x y tail (ground arith)

pub take-suc_elem :
    (c : ℕ) (x : Bits) (b : Bool) → get_elem? x c ≡ some b → take (suc c) x ≡ take c x ++ b ∷ []
take-suc_elem c [] b e = absurd (cc)
take-suc_elem zero (a ∷ x) b e = ground arith
take-suc_elem (suc c) (a ∷ x) b e = ap (λ t. a ∷ t) (take-suc_elem c x b e)
