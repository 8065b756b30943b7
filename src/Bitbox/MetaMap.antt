-- ===== src/Bitbox/MetaMap.antt =====
-- nomt/src/bitbox/meta_map.rs: a byte for each bucket of the hash table. A byte is a number below
-- 256, a `u64` one below 2 ^ 64; `none` stands for a panic.
pub mod Laws
use nomt.Base.{
  ℕ, suc, ◌+◌, ◌*◌, ◌/◌, ◌%◌, ◌^◌, bit_and, Bool, true, false, not, List, [], ◌∷◌, Bytes, slice,
  nat_eq, ◌==◌, if◌then◌else◌, ltb, length, set, get_elem?, Option, none, some,
}
use Prim.Native.Nat.{bit_xor}
use mathlib.Core.Option

-- EMPTY
abbrev pub empty : ℕ
empty = 0b0000_0000

-- TOMBSTONE
abbrev pub tombstone : ℕ
tombstone = 0b0111_1111

-- FULL_MASK
abbrev pub full_mask : ℕ
full_mask = 0b1000_0000

unfoldable pub full_entry : ℕ → ℕ
full_entry hash = bit_xor (hash / 2 ^ 57 % 256) full_mask

pub record MetaMap : Type 0 where
  pub buckets : ℕ
  pub bitvec : Bytes

unfoldable pub from_bytes : Bytes → ℕ → Option MetaMap
from_bytes meta_bytes buckets =
    if length meta_bytes % 4096 == 0
    then some (record { buckets = buckets; bitvec = meta_bytes })
    else none

unfoldable pub count_full : Bytes → ℕ
count_full [] = 0
count_full (byte ∷ bytes) =
    let rest = count_full bytes in if not (bit_and byte full_mask == 0) then suc rest else rest

unfoldable pub full_count : MetaMap → ℕ
unfolding count_full
full_count m = count_full m.bitvec

-- A write to the byte of a bucket.
unfoldable pub write_bucket : MetaMap → ℕ → ℕ → Option MetaMap
write_bucket m bucket byte =
    if ltb bucket (length m.bitvec)
    then some (record m { bitvec = set m.bitvec bucket byte })
    else none

unfoldable pub set_full : MetaMap → ℕ → ℕ → Option MetaMap
unfolding write_bucket full_entry
set_full m bucket hash = write_bucket m bucket (full_entry hash)

unfoldable pub set_tombstone : MetaMap → ℕ → Option MetaMap
unfolding write_bucket
set_tombstone m bucket = write_bucket m bucket tombstone

unfoldable pub hint_empty : MetaMap → ℕ → Option Bool
hint_empty m bucket = Option.map (λ byte. byte == empty) (get_elem? m.bitvec bucket)

unfoldable pub hint_tombstone : MetaMap → ℕ → Option Bool
hint_tombstone m bucket = Option.map (λ byte. byte == tombstone) (get_elem? m.bitvec bucket)

unfoldable pub hint_not_match : MetaMap → ℕ → ℕ → Option Bool
unfolding full_entry
hint_not_match m bucket raw_hash =
    Option.map (λ byte. not (byte == full_entry raw_hash)) (get_elem? m.bitvec bucket)

unfoldable pub page_index : ℕ → ℕ
page_index bucket = bucket / 4096

unfoldable pub page_slice : MetaMap → ℕ → Option Bytes
page_slice m page_index =
    let start = page_index * 4096 in
    if ltb (length m.bitvec) (start + 4096)
    then none
    else some (slice start (start + 4096) m.bitvec)
