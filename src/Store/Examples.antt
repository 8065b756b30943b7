-- ===== src/Store/Examples.antt =====
-- New metadata, written to a page and read back, and a delta of three keys.
mod SegmentName
use nomt.Base.{none, ◌∷◌, [], ◌++◌, ℕ, ◌≡◌, ◌↔◌, refl, Bytes, some, ok, arith, replicate, length}
use nomt.Store.Meta.{Meta, create_new, encode_to, decode, validate, magic_bytes}
use nomt.Store.Delta.{Delta, encode, decode as decode_delta, has_key, to_erase, to_reinstate}
use nomt.Store.Delta.RoundTrip.{IsDelta, HasEntry, decode-encode}
use nomt.Store.Meta.RoundTrip.{IsMeta, decode-encode_to, validate_iff}

abbrev seed_bytes : Bytes
seed_bytes = replicate 16 7

abbrev fresh_meta : Meta
fresh_meta = record {
  magic = magic_bytes;
  version = 1;
  ln_freelist_pn = 0;
  ln_bump = 1;
  bbn_freelist_pn = 0;
  bbn_bump = 1;
  sync_seqn = 0;
  bitbox_num_pages = 64000;
  bitbox_seed = seed_bytes;
  rollback_start_live = 0;
  rollback_end_live = 0;
}

fresh_meta_run : create_new seed_bytes 64000 ≡ fresh_meta
unfolding create_new
fresh_meta_run = refl

fresh_meta-IsMeta : IsMeta fresh_meta
fresh_meta-IsMeta = record {
  magic_size = refl;
  version_word = omega arith;
  ln_freelist_word = omega arith;
  ln_bump_word = omega arith;
  bbn_freelist_word = omega arith;
  bbn_bump_word = omega arith;
  sync_seqn_word = omega arith;
  num_pages_word = omega arith;
  seed_size = refl;
  start_live_word = omega arith;
  end_live_word = omega arith;
}

decode-encode_to_example :
    (out : Bytes) × (encode_to fresh_meta (replicate 64 0) ≡ some out)
    × (decode out ≡ some fresh_meta)
    × (length out ≡ 64)
decode-encode_to_example =
    decode-encode_to fresh_meta (replicate 64 0) fresh_meta-IsMeta (omega arith)

validate_iff_example : (validate fresh_meta ≡ ok fresh_meta) ↔ (
    (magic_bytes ≡ magic_bytes)
    × (◌≡◌ {A = ℕ} 1 1)
    × ((fresh_meta.rollback_start_live ≡ 0) ↔ (fresh_meta.rollback_end_live ≡ 0)))
validate_iff_example = validate_iff fresh_meta

abbrev three_priors : Delta
three_priors = record {
  priors =
      (replicate 32 1, some (118 ∷ 49 ∷ []))
      ∷ (replicate 32 2, none)
      ∷ (replicate 32 3, some (118 ∷ 51 ∷ []))
      ∷ [];
}

three_priors-IsDelta : IsDelta three_priors
unfolding has_key to_erase to_reinstate
three_priors-IsDelta = record {
  fresh = (refl, refl, (refl, omega arith, refl, (refl, omega arith, refl, tt)));
  erase_word = omega arith;
  reinstate_word = omega arith;
}

decode-encode_example :
    (d : Delta) × (decode_delta (encode three_priors ++ (9 ∷ [])) ≡ ok (d, 9 ∷ []))
    × (HasEntry (replicate 32 2) none d.priors ↔ HasEntry (replicate 32 2) none three_priors.priors)
decode-encode_example =
    decode-encode three_priors (9 ∷ []) (replicate 32 2) none three_priors-IsDelta
