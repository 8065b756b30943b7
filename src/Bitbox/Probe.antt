-- ===== src/Bitbox/Probe.antt =====
-- nomt/src/bitbox/mod.rs: the buckets that are probed for a page, the allocation of a bucket for a
-- page, and the loading of a page. A loop that may not end takes fuel. The hash function of the
-- crate twox_hash is a parameter, and the pages in the file a function from their bucket.
pub mod Sequence
pub mod Reach
pub mod Allocate
pub mod Load
use nomt.Base.{
  Stop, panic, out_of_fuel, ℕ, zero, suc, ◌+◌, ◌-◌, ◌*◌, ◌%◌, ◌^◌, Bool, true, false, List, [], ◌∷◌,
  reverse, Bytes, slice, to_le_bytes, from_le_bytes, nat_eq, bool_eq, list_eq, ◌==◌, if◌then◌else◌,
  take, drop, Option, none, some, Result, ok, err, and_then,
}
use mathlib.Core.Option
use nomt.Core.PageId.{PageId, encode}
use nomt.Bitbox.MetaMap.{MetaMap, set_full, hint_empty, hint_tombstone, hint_not_match}

-- `PageId::encode`, as the 32 bytes that it returns.
unfoldable pub page_id_bytes : PageId → Bytes
page_id_bytes page_id = reverse (to_le_bytes 32 (encode page_id))

unfoldable pub hash_raw_page_id : (ℕ → Bytes → ℕ) → Bytes → Bytes → ℕ
hash_raw_page_id oneshot_with_seed page_id seed =
    oneshot_with_seed (from_le_bytes (reverse (take 8 seed))) page_id

unfoldable pub hash_page_id : (ℕ → Bytes → ℕ) → PageId → Bytes → ℕ
unfolding hash_raw_page_id page_id_bytes
hash_page_id oneshot_with_seed page_id seed =
    hash_raw_page_id oneshot_with_seed (page_id_bytes page_id) seed

pub record ProbeSequence : Type 0 where
  pub hash : ℕ
  pub bucket : ℕ
  pub step : ℕ

pub data ProbeResult : Type 0 where
  possible_hit : ℕ → ProbeResult
  empty : ℕ → ProbeResult
  tombstone : ℕ → ProbeResult

-- `ProbeSequence::new`, of the hash of the page; the length of the map is a divisor.
unfoldable pub probe_new : ℕ → MetaMap → Result Stop ProbeSequence
probe_new hash m =
    if m.buckets == 0
    then err panic
    else ok (record { hash = hash; bucket = hash % m.buckets; step = 0 })

-- The triangular probing at the head of the loop of `next`.
unfoldable pub advance : ℕ → ProbeSequence → ProbeSequence
advance len p = record p {
  bucket = (p.bucket + p.step) % 2 ^ 64 % len;
  step = (p.step + 1) % 2 ^ 64;
}

-- What a round of the loop returns of its bucket, or none where it goes on.
unfoldable pub probe_at : MetaMap → ℕ → ℕ → Option (Option ProbeResult)
probe_at m hash bucket = Option.bind (hint_empty m bucket) λ is_empty.
    if is_empty
    then some (some (ProbeResult.empty bucket))
    else Option.bind (hint_tombstone m bucket) λ is_tombstone.
      if is_tombstone
      then some (some (ProbeResult.tombstone bucket))
      else Option.bind (hint_not_match m bucket hash)
          λ other. if other then some none else some (some (ProbeResult.possible_hit bucket))

-- `ProbeSequence::next`
unfoldable pub next : ℕ → MetaMap → ProbeSequence → Result Stop (ProbeResult × ProbeSequence)
next zero m p = err out_of_fuel
next (suc fuel) m p =
    let q = advance m.buckets p in
    elim (probe_at m q.hash q.bucket) [
      | none ↦ err panic
      | some none ↦ next fuel m q
      | some (some r) ↦ ok (r, q)
    ]

-- The write of `allocate_bucket`.
unfoldable pub allocate_at : MetaMap → ℕ → ℕ → Result Stop (Option (ℕ × MetaMap))
allocate_at m bucket hash = elim (set_full m bucket hash) [
  | none ↦ err panic
  | some m' ↦ ok (some (bucket, m'))
]

-- The loop of `allocate_bucket`, of the attempts that are left.
unfoldable pub allocate_loop : ℕ → ℕ → MetaMap → ProbeSequence → Result Stop (Option (ℕ × MetaMap))
allocate_loop fuel zero m p = ok none
allocate_loop fuel (suc attempts) m p = elim (next fuel m p) [
  | err e ↦ err e
  | ok (ProbeResult.possible_hit bucket, q) ↦ allocate_loop fuel attempts m q
  | ok (ProbeResult.empty bucket, q) ↦ allocate_at m bucket q.hash
  | ok (ProbeResult.tombstone bucket, q) ↦ allocate_at m bucket q.hash
]

unfoldable pub allocate_bucket : ℕ → ℕ → MetaMap → Result Stop (Option (ℕ × MetaMap))
unfolding probe_new and_then
allocate_bucket fuel hash m = and_then (probe_new hash m) (allocate_loop fuel 9999 m)

-- The loop of `PageLoader::probe`: none for a fresh page, or the sequence at a possible hit.
unfoldable pub loader_probe : ℕ → MetaMap → ProbeSequence → Result Stop (Option ProbeSequence)
loader_probe zero m p = err out_of_fuel
loader_probe (suc fuel) m p = elim (next (suc fuel) m p) [
  | err e ↦ err e
  | ok (ProbeResult.possible_hit bucket, q) ↦ ok (some q)
  | ok (ProbeResult.empty bucket, q) ↦ ok none
  | ok (ProbeResult.tombstone bucket, q) ↦ loader_probe fuel m q
]

-- `PageLoad::try_complete`: whether the page bears the identifier.
unfoldable pub is_labelled : Bytes → Bytes → Bool
is_labelled page_id page = drop (4096 - 32) page == page_id

-- Probing and completing by turns, until the page is found or known to be fresh.
unfoldable pub load : (ℕ → Bytes) → Bytes → ℕ → MetaMap → ProbeSequence → Result Stop (Option ℕ)
load pages page_id zero m p = err out_of_fuel
load pages page_id (suc fuel) m p = elim (loader_probe (suc fuel) m p) [
  | err e ↦ err e
  | ok none ↦ ok none
  | ok (some q) ↦
      let more = load pages page_id fuel m q in
      if is_labelled page_id (pages q.bucket) then ok (some q.bucket) else more
]
