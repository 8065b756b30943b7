-- ===== src/Store/Meta.antt =====
-- nomt/src/store/meta.rs: the metadata of the database and its bytes. A buffer is a list of
-- bytes, and `none` the failure of the assertion on its length.
pub mod RoundTrip
use nomt.Base.{
  copy_all, ℕ, zero, suc, ◌+◌, Bool, true, false, not, ◌&&◌, ◌||◌, List, [], ◌∷◌, ◌++◌, Bytes,
  to_le_bytes, from_le_bytes, slice, copy_at, nat_eq, bool_eq, list_eq, ◌==◌, if◌then◌else◌, ltb,
  length, Option, none, some, Result, ok, err,
}

-- MAGIC, the letters NOMT
abbrev pub magic_bytes : Bytes
magic_bytes = 78 ∷ 79 ∷ 77 ∷ 84 ∷ []

-- VERSION
abbrev pub supported_version : ℕ
supported_version = 1

abbrev pub meta_size : ℕ
meta_size = 64

pub record Meta : Type 0 where
  pub magic : Bytes
  pub version : ℕ
  pub ln_freelist_pn : ℕ
  pub ln_bump : ℕ
  pub bbn_freelist_pn : ℕ
  pub bbn_bump : ℕ
  pub sync_seqn : ℕ
  pub bitbox_num_pages : ℕ
  pub bitbox_seed : Bytes
  pub rollback_start_live : ℕ
  pub rollback_end_live : ℕ

unfoldable pub create_new : Bytes → ℕ → Meta
create_new bitbox_seed bitbox_num_pages = record {
  magic = magic_bytes;
  version = supported_version;
  ln_freelist_pn = 0;
  ln_bump = 1;
  bbn_freelist_pn = 0;
  bbn_bump = 1;
  sync_seqn = 0;
  bitbox_num_pages = bitbox_num_pages;
  bitbox_seed = bitbox_seed;
  rollback_start_live = 0;
  rollback_end_live = 0;
}

-- The copies of `encode_to` in order, each with its offset.
unfoldable pub fields : Meta → List (ℕ × Bytes)
fields m =
    (0, m.magic)
    ∷ (4, to_le_bytes 4 m.version)
    ∷ (8, to_le_bytes 4 m.ln_freelist_pn)
    ∷ (12, to_le_bytes 4 m.ln_bump)
    ∷ (16, to_le_bytes 4 m.bbn_freelist_pn)
    ∷ (20, to_le_bytes 4 m.bbn_bump)
    ∷ (24, to_le_bytes 4 m.sync_seqn)
    ∷ (28, to_le_bytes 4 m.bitbox_num_pages)
    ∷ (32, m.bitbox_seed)
    ∷ (48, to_le_bytes 8 m.rollback_start_live)
    ∷ (56, to_le_bytes 8 m.rollback_end_live)
    ∷ []

unfoldable pub encode_to : Meta → Bytes → Option Bytes
unfolding fields copy_all
encode_to m buf = if ltb (length buf) meta_size then none else some (copy_all (fields m) buf)

unfoldable pub decode : Bytes → Option Meta
decode buf =
    if ltb (length buf) meta_size
    then none
    else some (record {
      magic = slice 0 4 buf;
      version = from_le_bytes (slice 4 8 buf);
      ln_freelist_pn = from_le_bytes (slice 8 12 buf);
      ln_bump = from_le_bytes (slice 12 16 buf);
      bbn_freelist_pn = from_le_bytes (slice 16 20 buf);
      bbn_bump = from_le_bytes (slice 20 24 buf);
      sync_seqn = from_le_bytes (slice 24 28 buf);
      bitbox_num_pages = from_le_bytes (slice 28 32 buf);
      bitbox_seed = slice 32 48 buf;
      rollback_start_live = from_le_bytes (slice 48 56 buf);
      rollback_end_live = from_le_bytes (slice 56 64 buf);
    })

pub data MetaError : Type 0 where
  invalid_magic : Bytes → MetaError
  invalid_version : MetaError
  newer_version : ℕ → MetaError
  rollback_live_mismatch : ℕ → ℕ → MetaError

unfoldable pub magic_errors : Meta → List MetaError
magic_errors m = if m.magic == magic_bytes then [] else invalid_magic m.magic ∷ []

unfoldable pub version_errors : Meta → List MetaError
version_errors m =
    if ltb m.version 1
    then invalid_version ∷ []
    else if ltb supported_version m.version
    then newer_version m.version ∷ []
    else []

unfoldable pub rollback_errors : Meta → List MetaError
rollback_errors m =
    if (m.rollback_start_live == 0) == (m.rollback_end_live == 0)
    then []
    else rollback_live_mismatch m.rollback_start_live m.rollback_end_live ∷ []

-- The errors in the order in which they are pushed.
unfoldable pub errors : Meta → List MetaError
unfolding magic_errors version_errors rollback_errors
errors m = magic_errors m ++ (version_errors m ++ rollback_errors m)

unfoldable pub validate : Meta → Result (List MetaError) Meta
unfolding errors
validate m = if length (errors m) == 0 then ok m else err (errors m)
