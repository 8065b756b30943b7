-- ===== src/Beatree/Examples/BitOps.antt =====
-- Tests of separators (nomt/src/beatree/ops/bit_ops.rs), and an instance of their theorem.
use nomt.Base.{
  ℕ, ◌-◌, ◌≤◌, ◌≡◌, refl, true, false, ◌∷◌, ◌++◌, Bits, length, replicate, some, bool_eq, list_eq,
}
use nomt.Core.Update.{bits_ltb}
use nomt.Beatree.BitOps.{prefix_len, and_bits, separate, separator_len, leading_zeros}
use nomt.Beatree.BitOps.Separate.{separate_between}

abbrev low_key : Bits
low_key = replicate 9 true ++ (false ∷ replicate 246 true)

abbrev high_key : Bits
high_key = replicate 10 true ++ (false ∷ replicate 245 true)

separated : separate low_key high_key ≡ some (replicate 10 true ++ replicate 246 false)
unfolding separate prefix_len and_bits
separated = refl

separated_len : separator_len (replicate 10 true ++ replicate 246 false) ≡ 10
unfolding separator_len leading_zeros
separated_len = refl

lower : bits_ltb low_key high_key ≡ true
unfolding bits_ltb
lower = refl

above_low : bits_ltb low_key ((replicate 11 true) ++ replicate 245 false) ≡ true
unfolding bits_ltb
above_low = refl

below_low : bits_ltb low_key (replicate 10 true ++ replicate 246 false) ≡ true
unfolding bits_ltb
below_low = refl

below_high : bits_ltb high_key (replicate 10 true ++ replicate 246 false) ≡ false
unfolding bits_ltb
below_high = refl

separate_between_example :
    (s : Bits) × (n : ℕ) × (separate low_key high_key ≡ some (s ++ replicate (256 - n) false))
    × (length s ≡ n)
    × (bits_ltb low_key (s ++ replicate (256 - n) false) ≡ true)
    × (bits_ltb high_key (s ++ replicate (256 - n) false) ≡ false)
    × (n ≤ 10)
separate_between_example =
    separate_between low_key high_key (replicate 10 true) 246 refl refl lower refl below_low
      below_high
