-- ===== src/Store/Meta/RoundTrip.antt =====
-- `decode` after `encode_to`, and what a validated database is (nomt/src/store/meta.rs).
use nomt.Base.{
  copy_all, IsLaidOut, AllBack, copy_all-AllBack, length-copy_all, ℕ, ◌+◌, ◌^◌, ◌≤◌, ◌<◌, ◌≡◌, ◌↔◌,
  refl, sym, ap, ◌∙◌, Bytes, to_le_bytes, from_le_bytes, length-to_le_bytes,
  from_le_bytes-to_le_bytes, slice, length, nat_eq, bool_eq, list_eq, ==_iff, some, ok, arith,
  le→ltb-false,
}
use nomt.Store.Meta.{
  Meta, fields, encode_to, decode, validate, errors, magic_errors, version_errors, rollback_errors,
  magic_bytes,
}

-- The widths of the fields.
pub record IsMeta (m : Meta) : Type 0 where
  pub magic_size : length m.magic ≡ 4
  pub version_word : m.version < 2 ^ 32
  pub ln_freelist_word : m.ln_freelist_pn < 2 ^ 32
  pub ln_bump_word : m.ln_bump < 2 ^ 32
  pub bbn_freelist_word : m.bbn_freelist_pn < 2 ^ 32
  pub bbn_bump_word : m.bbn_bump < 2 ^ 32
  pub sync_seqn_word : m.sync_seqn < 2 ^ 32
  pub num_pages_word : m.bitbox_num_pages < 2 ^ 32
  pub seed_size : length m.bitbox_seed ≡ 16
  pub start_live_word : m.rollback_start_live < 2 ^ 64
  pub end_live_word : m.rollback_end_live < 2 ^ 64

module _ (m : Meta) (valid : IsMeta m) where
  fields-IsLaidOut : IsLaidOut 0 64 (fields m)
  unfolding fields to_le_bytes
  fields-IsLaidOut =
      let magic_end : 4 ≡ 0 + length m.magic = omega (arith, valid.magic_size) in
      let seed_end : 48 ≡ 32 + length m.bitbox_seed = omega (arith, valid.seed_size) in
      (
        refl,
        (
          magic_end,
          (refl, (refl, (refl, (refl, (refl, (refl, (refl, (seed_end, (refl, omega arith))))))))),
        ),
      )

  module _ (buf : Bytes) (fits : 64 ≤ length buf) where
    word_back :
        (w at n : ℕ)
        → n < 256 ^ w
        → slice at (at + length (to_le_bytes w n)) (copy_all (fields m) buf) ≡ to_le_bytes w n
        → from_le_bytes (slice at (at + w) (copy_all (fields m) buf)) ≡ n
    word_back w at n h e =
        ap (λ l. from_le_bytes (slice at (at + l) (copy_all (fields m) buf)))
          (sym (length-to_le_bytes w n))
        ∙ ap from_le_bytes e
        ∙ from_le_bytes-to_le_bytes w n h

    bytes_back :
        (at size : ℕ) (bytes : Bytes)
        → length bytes ≡ size
        → slice at (at + length bytes) (copy_all (fields m) buf) ≡ bytes
        → slice at (at + size) (copy_all (fields m) buf) ≡ bytes
    bytes_back at size bytes h e = ap (λ l. slice at (at + l) (copy_all (fields m) buf)) (sym h) ∙ e

    decoded : decode (copy_all (fields m) buf) ≡ some m
    unfolding decode fields
    decoded =
        let back : AllBack (copy_all (fields m) buf) (fields m) =
          copy_all-AllBack 0 64 (fields m) buf fields-IsLaidOut fits in
        let size : length (copy_all (fields m) buf) ≡ length buf =
          length-copy_all 0 64 (fields m) buf fields-IsLaidOut fits in
        let (b0, (b1, (b2, (b3, (b4, (b5, (b6, (b7, (b8, (b9, (b10, done))))))))))) = back in
        rw
          (
            le→ltb-false (length (copy_all (fields m) buf)) 64 (omega arith),
            bytes_back 0 4 m.magic valid.magic_size b0,
            word_back 4 4 m.version valid.version_word b1,
            word_back 4 8 m.ln_freelist_pn valid.ln_freelist_word b2,
            word_back 4 12 m.ln_bump valid.ln_bump_word b3,
            word_back 4 16 m.bbn_freelist_pn valid.bbn_freelist_word b4,
            word_back 4 20 m.bbn_bump valid.bbn_bump_word b5,
            word_back 4 24 m.sync_seqn valid.sync_seqn_word b6,
            word_back 4 28 m.bitbox_num_pages valid.num_pages_word b7,
            bytes_back 32 16 m.bitbox_seed valid.seed_size b8,
            word_back 8 48 m.rollback_start_live valid.start_live_word b9,
            word_back 8 56 m.rollback_end_live valid.end_live_word b10,
          )
          refl

-- Metadata whose fields have their widths are read back from any buffer of 64 bytes or more to
-- which they were written, and the buffer keeps its length.
pub decode-encode_to :
    (m : Meta) (buf : Bytes)
    → IsMeta m
    → 64 ≤ length buf
    → (out : Bytes) × (encode_to m buf ≡ some out)
      × (decode out ≡ some m)
      × (length out ≡ length buf)
unfolding encode_to
decode-encode_to m buf valid fits = (
  copy_all (fields m) buf,
  rw (le→ltb-false (length buf) 64 fits),
  decoded m valid buf fits,
  length-copy_all 0 64 (fields m) buf (fields-IsLaidOut m valid) fits,
)

-- Metadata are valid exactly if they bear the magic and the supported version, and the first and
-- last live records of the rollback are both nil or both not.
pub validate_iff :
    (m : Meta)
    → (validate m ≡ ok m) ↔ (
        (m.magic ≡ magic_bytes)
        × (m.version ≡ 1)
        × ((m.rollback_start_live ≡ 0) ↔ (m.rollback_end_live ≡ 0)))
unfolding validate errors magic_errors version_errors rollback_errors
validate_iff m = ground (arith, ==_iff m.magic magic_bytes)
