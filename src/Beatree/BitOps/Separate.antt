-- ===== src/Beatree/BitOps/Separate.antt =====
-- A separator lies between its keys (nomt/src/beatree/ops/bit_ops.rs).
use nomt.Base.{
  ℕ, zero, suc, ◌+◌, ◌-◌, ◌*◌, ◌/◌, ◌%◌, ◌≤◌, ◌<◌, ◌≡◌, refl, ap, ap₂, ◌∙◌, sym, true, false, [],
  ◌∷◌, ◌++◌, Bits, bool_eq, nat_eq, leb, length, take, drop, slice, replicate, some, arith, inl,
  inr, le→ltb-false, eq_or_ne, ne→nat_beq, length-drop, take-add, length-take, take-take_le,
}
use mathlib.Core.List.{append_assoc}
use native.Mathlib.Nat.{suc-add}
use nomt.Core.Update.{bits_ltb}
use nomt.Beatree.BitOps.{prefix_len, and_bits, high_mask, separate}

-- The bits up to the first that differs, and zeros.
cut_after : ℕ → Bits → Bits
cut_after n b = take n b ++ replicate (256 - n) false

prefix_len-less :
    (a b : Bits) → bits_ltb a b ≡ true → length a ≡ length b → prefix_len a b < length b
unfolding prefix_len bits_ltb
prefix_len-less [] [] e h = absurd (cc)
prefix_len-less [] (y ∷ ys) e h = absurd (omega arith)
prefix_len-less (x ∷ xs) [] e h = absurd (omega arith)
prefix_len-less (true ∷ xs) (true ∷ ys) e h =
    let r = prefix_len-less xs ys e (omega arith) in omega arith
prefix_len-less (false ∷ xs) (false ∷ ys) e h =
    let r = prefix_len-less xs ys e (omega arith) in omega arith
prefix_len-less (true ∷ xs) (false ∷ ys) e h = omega arith
prefix_len-less (false ∷ xs) (true ∷ ys) e h = omega arith

and_bits-zeros :
    (n : ℕ) (xs : Bits) → length xs ≡ n → and_bits xs (replicate n false) ≡ replicate n false
unfolding and_bits
and_bits-zeros zero [] h = refl
and_bits-zeros zero (x ∷ xs) h = absurd (omega arith)
and_bits-zeros (suc n) [] h = absurd (omega arith)
and_bits-zeros (suc n) (true ∷ xs) h = ap (λ t. false ∷ t) (and_bits-zeros n xs (omega arith))
and_bits-zeros (suc n) (false ∷ xs) h = ap (λ t. false ∷ t) (and_bits-zeros n xs (omega arith))

and_bits-mask :
    (r k : ℕ) (xs : Bits)
    → length xs ≡ r + k
    → and_bits xs (replicate r true ++ replicate k false) ≡ take r xs ++ replicate k false
unfolding and_bits
and_bits-mask zero k xs h = and_bits-zeros k xs (omega arith)
and_bits-mask (suc r) k [] h = absurd (omega arith)
and_bits-mask (suc r) k (true ∷ xs) h = ap (λ t. true ∷ t) (and_bits-mask r k xs (omega arith))
and_bits-mask (suc r) k (false ∷ xs) h = ap (λ t. false ∷ t) (and_bits-mask r k xs (omega arith))

replicate-add : (m n : ℕ) → replicate (m + n) false ≡ replicate m false ++ replicate n false
replicate-add zero n = ap (λ t. replicate t false) (omega arith)
replicate-add (suc m) n = rw suc-add (ap (λ t. false ∷ t) (replicate-add m n))

-- Above the lower key.
ltb-cut_after :
    (a b zs : Bits)
    → bits_ltb a b ≡ true
    → length a ≡ length b
    → bits_ltb a (take (prefix_len a b + 1) b ++ zs) ≡ true
unfolding prefix_len bits_ltb
ltb-cut_after [] [] zs e h = absurd (cc)
ltb-cut_after [] (y ∷ ys) zs e h = absurd (omega arith)
ltb-cut_after (x ∷ xs) [] zs e h = absurd (omega arith)
ltb-cut_after (true ∷ xs) (true ∷ ys) zs e h = rw suc-add (ltb-cut_after xs ys zs e (omega arith))
ltb-cut_after (false ∷ xs) (false ∷ ys) zs e h = rw suc-add (ltb-cut_after xs ys zs e (omega arith))
ltb-cut_after (true ∷ xs) (false ∷ ys) zs e h = absurd (cc)
ltb-cut_after (false ∷ xs) (true ∷ ys) zs e h = refl

-- Not above the upper key.
zeros_least : (k : ℕ) (ys : Bits) → k ≡ length ys → bits_ltb ys (replicate k false) ≡ false
unfolding bits_ltb
zeros_least zero [] h = refl
zeros_least zero (y ∷ ys) h = absurd (omega arith)
zeros_least (suc k) [] h = absurd (omega arith)
zeros_least (suc k) (true ∷ ys) h = refl
zeros_least (suc k) (false ∷ ys) h = zeros_least k ys (omega arith)

cut_after_below :
    (n k : ℕ) (ys : Bits) → n + k ≡ length ys → bits_ltb ys (take n ys ++ replicate k false) ≡ false
unfolding bits_ltb
cut_after_below zero k ys h = zeros_least k ys (omega arith)
cut_after_below (suc n) k [] h = absurd (omega arith)
cut_after_below (suc n) k (true ∷ ys) h = cut_after_below n k ys (omega arith)
cut_after_below (suc n) k (false ∷ ys) h = cut_after_below n k ys (omega arith)

-- A key between the two has more bits before its last zeros than the two have in common.
shorter_not_between :
    (a b t : Bits) (k : ℕ)
    → length a ≡ length t + k
    → length b ≡ length t + k
    → bits_ltb a (t ++ replicate k false) ≡ true
    → bits_ltb b (t ++ replicate k false) ≡ false
    → prefix_len a b < length t
unfolding prefix_len bits_ltb
shorter_not_between a b [] k la lb above below =
    let least = zeros_least k a (omega arith) in absurd (cc)
shorter_not_between [] b (z ∷ t) k la lb above below = absurd (omega arith)
shorter_not_between (x ∷ a) [] (z ∷ t) k la lb above below = absurd (omega arith)
shorter_not_between (true ∷ a) (false ∷ b) (z ∷ t) k la lb above below = omega arith
shorter_not_between (false ∷ a) (true ∷ b) (z ∷ t) k la lb above below = omega arith
shorter_not_between (true ∷ a) (true ∷ b) (true ∷ t) k la lb above below =
    let r = shorter_not_between a b t k (omega arith) (omega arith) above below in omega arith
shorter_not_between (false ∷ a) (false ∷ b) (false ∷ t) k la lb above below =
    let r = shorter_not_between a b t k (omega arith) (omega arith) above below in omega arith
shorter_not_between (true ∷ a) (true ∷ b) (false ∷ t) k la lb above below = absurd (cc)
shorter_not_between (false ∷ a) (false ∷ b) (true ∷ t) k la lb above below = absurd (cc)

module _ (b : Bits) (full remaining : ℕ) where
  -- The bytes that are copied, the byte that is masked, and the zeros.
  masked_byte :
      length b ≡ 256
      → full < 32
      → remaining < 8
      → take (full * 8) b
          ++ (and_bits (slice (full * 8) (full * 8 + 8) b) (high_mask remaining)
              ++ replicate (256 - (full * 8 + 8)) false)
        ≡ cut_after (full * 8 + remaining) b
  unfolding cut_after
  masked_byte size inside small =
      let byte : Bits = slice (full * 8) (full * 8 + 8) b in
      let mask = and_bits-mask remaining (8 - remaining) byte (
        omega (
          arith,
          size,
          length-drop {0} (full * 8) b,
          length-take {0} (full * 8 + 8 - full * 8) (drop (full * 8) b),
        )) in
      let high : take remaining byte ≡ take remaining (drop (full * 8) b) =
        take-take_le remaining (full * 8 + 8 - full * 8) (drop (full * 8) b) (omega arith) in
      ap (λ x. take (full * 8) b ++ (x ++ replicate (256 - (full * 8 + 8)) false))
        (mask ∙ ap (λ x. x ++ replicate (8 - remaining) false) high)
      ∙ ap (λ x. take (full * 8) b ++ x)
          (append_assoc (take remaining (drop (full * 8) b)) (replicate (8 - remaining) false)
            (replicate (256 - (full * 8 + 8)) false))
      ∙ sym (append_assoc (take (full * 8) b) (take remaining (drop (full * 8) b)) _)
      ∙ ap₂ (λ x y. x ++ y) (sym (take-add (full * 8) remaining b))
          (sym (replicate-add (8 - remaining) (256 - (full * 8 + 8)))
            ∙ ap (λ n. replicate n false) (omega arith))

separate-cut_after :
    (a b : Bits)
    → length b ≡ 256
    → prefix_len a b < 256
    → separate a b ≡ some (cut_after (prefix_len a b + 1) b)
unfolding separate cut_after
separate-cut_after a b size less =
    let n = prefix_len a b + 1 in
    let all : n / 8 * 8 + n % 8 ≡ n = omega arith in
    elim (eq_or_ne (n % 8) 0) [
      | inl whole ↦
          let even : n / 8 * 8 ≡ n = omega (arith, whole) in
          rw (le→ltb-false 32 (n / 8) (omega arith), whole) (ap (λ k. some (cut_after k b)) even)
      | inr partial ↦
          let inside : n / 8 < 32 = omega (arith, partial) in
          let below : leb 32 (n / 8) ≡ false = ground arith in
          rw (le→ltb-false 32 (n / 8) (omega arith), ne→nat_beq (n % 8) 0 partial, below)
            (ap some (
              masked_byte b (n / 8) (n % 8) size inside (omega arith)
              ∙ ap (λ k. cut_after k b) all))
    ]

-- For keys of 256 bits in order, separate does not panic, and its result lies above the lower key
-- and not above the upper; any key so between them, written as bits and zeros after them, has as
-- many bits before those zeros as the result, or more.
pub separate_between :
    (a b t : Bits) (k : ℕ)
    → length a ≡ 256
    → length b ≡ 256
    → bits_ltb a b ≡ true
    → length t + k ≡ 256
    → bits_ltb a (t ++ replicate k false) ≡ true
    → bits_ltb b (t ++ replicate k false) ≡ false
    → (s : Bits) × (n : ℕ) × (separate a b ≡ some (s ++ replicate (256 - n) false))
      × (length s ≡ n)
      × (bits_ltb a (s ++ replicate (256 - n) false) ≡ true)
      × (bits_ltb b (s ++ replicate (256 - n) false) ≡ false)
      × (n ≤ length t)
unfolding cut_after
separate_between a b t k la lb less whole above below =
    let n = prefix_len a b + 1 in
    let p = prefix_len-less a b less (omega arith) in
    (
      take n b,
      n,
      separate-cut_after a b lb (omega arith),
      omega (arith, length-take {0} n b),
      ltb-cut_after a b (replicate (256 - n) false) less (omega arith),
      cut_after_below n (256 - n) b (omega arith),
      let q = shorter_not_between a b t k (omega arith) (omega arith) above below in omega arith,
    )
