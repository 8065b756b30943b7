-- ===== src/Beatree/BitOps.antt =====
-- nomt/src/beatree/ops/bit_ops.rs: the separators of the keys of nodes. A key is the list of its 256
-- bits, the most significant first. `none` stands for a panic.
pub mod Separate
use nomt.Base.{
  ℕ, zero, suc, ◌+◌, ◌-◌, ◌*◌, ◌/◌, ◌%◌, Bool, true, false, ◌&&◌, List, [], ◌∷◌, ◌++◌, reverse,
  Bits, bool_eq, list_eq, nat_eq, ◌==◌, if◌then◌else◌, ltb, leb, length, take, slice, replicate,
  Option, none, some,
}

-- The common bits of two keys.
unfoldable pub prefix_len : Bits → Bits → ℕ
prefix_len [] ys = 0
prefix_len (x ∷ xs) [] = 0
prefix_len (x ∷ xs) (y ∷ ys) = let rest = prefix_len xs ys in if x == y then suc rest else 0

unfoldable pub and_bits : Bits → Bits → Bits
and_bits [] ys = []
and_bits (x ∷ xs) [] = []
and_bits (x ∷ xs) (y ∷ ys) = (x && y) ∷ and_bits xs ys

-- `!((1 << (8 - remaining)) - 1)`
abbrev pub high_mask : ℕ → Bits
high_mask remaining = replicate remaining true ++ replicate (8 - remaining) false

unfoldable pub separate : Bits → Bits → Option Bits
unfolding prefix_len and_bits
separate a b =
    let bit_len = prefix_len a b + 1 in
    let full_bytes = bit_len / 8 in
    let remaining = bit_len % 8 in
    let copied = take (full_bytes * 8) b in
    let byte = and_bits (slice (full_bytes * 8) (full_bytes * 8 + 8) b) (high_mask remaining) in
    if ltb 32 full_bytes
    then none
    else if remaining == 0
    then some (copied ++ replicate (256 - full_bytes * 8) false)
    else if leb 32 full_bytes
    then none
    else some (copied ++ (byte ++ replicate (256 - (full_bytes * 8 + 8)) false))

-- The zeros at the end of a key, from the last bit on.
unfoldable pub leading_zeros : Bits → ℕ
leading_zeros [] = 0
leading_zeros (b ∷ bs) = let rest = leading_zeros bs in if b then 0 else suc rest

unfoldable pub separator_len : Bits → ℕ
unfolding leading_zeros
separator_len key = if key == replicate 256 false then 1 else 256 - leading_zeros (reverse key)
