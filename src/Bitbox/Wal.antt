-- ===== src/Bitbox/Wal.antt =====
-- nomt/src/bitbox/wal: the log of the hash table's changes. A bitmap of 16 bytes is the list of its
-- bits, as in the module of page diffs; a `u64` is a number below 2 ^ 64.
pub mod Write
pub mod Read
pub mod Builder
pub mod Bitmap
pub mod Fields
pub mod RoundTrip
pub mod Log
pub mod Rounds
pub mod Cut
use nomt.Base.{
  ℕ, zero, suc, ◌+◌, ◌*◌, ◌/◌, ◌%◌, Bool, true, false, List, [], ◌∷◌, ◌++◌, Bits, Bytes,
  to_le_bytes, from_le_bytes, nat_eq, ◌==◌, if◌then◌else◌, take, drop,
}
use nomt.Merkle.PageDiff.{PageDiff}

-- WAL_ENTRY_TAG_START
abbrev pub tag_start : ℕ
tag_start = 1

-- WAL_ENTRY_TAG_END
abbrev pub tag_end : ℕ
tag_end = 2

-- WAL_ENTRY_TAG_CLEAR
abbrev pub tag_clear : ℕ
tag_clear = 3

-- WAL_ENTRY_TAG_UPDATE
abbrev pub tag_update : ℕ
tag_update = 4

-- `ElidedChildren` of merkle/mod.rs
pub record ElidedChildren : Type 0 where
  pub elided : ℕ

-- `ElidedChildren::from_bytes`
unfoldable pub elided_from_bytes : Bytes → ElidedChildren
elided_from_bytes raw = record { elided = from_le_bytes raw }

-- `ElidedChildren::to_bytes`
unfoldable pub elided_to_bytes : ElidedChildren → Bytes
elided_to_bytes e = to_le_bytes 8 e.elided

pub data WalEntry : Type 0 where
  update :
      (page_id : Bytes)
      → PageDiff
      → (changed_nodes : List Bytes) → ElidedChildren
      → (bucket : ℕ) → WalEntry
  clear : (bucket : ℕ) → WalEntry

-- The value of bits, the least significant first.
unfoldable pub bits_value : Bits → ℕ
bits_value [] = 0
bits_value (b ∷ bs) = (if b then 1 else 0) + 2 * bits_value bs

unfoldable pub bits_of : ℕ → ℕ → Bits
bits_of zero n = []
bits_of (suc w) n = (n % 2 == 1) ∷ bits_of w (n / 2)

-- The `n` bytes of a bitmap.
unfoldable pub bitmap_bytes : ℕ → Bits → Bytes
unfolding bits_value
bitmap_bytes zero bits = []
bitmap_bytes (suc n) bits = bits_value (take 8 bits) ∷ bitmap_bytes n (drop 8 bits)

unfoldable pub bitmap_of : Bytes → Bits
unfolding bits_of
bitmap_of [] = []
bitmap_of (byte ∷ bytes) = bits_of 8 byte ++ bitmap_of bytes
