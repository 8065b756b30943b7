-- ===== src/Bitbox/Examples.antt =====
-- Tests of the hash table of pages (nomt/src/bitbox), and instances of its theorems.
mod Log
mod Recovery
use nomt.Base.{
  ℕ, ◌+◌, ◌%◌, ◌<◌, ◌≡◌, inl, inr, refl, true, [], ◌∷◌, ◌++◌, Bytes, replicate, length, Option,
  none, some, ok, arith, nat_eq, bool_eq, list_eq, ◌==◌, if◌then◌else◌,
}
use mathlib.Core.Option
use nomt.Bitbox.MetaMap.{
  MetaMap, full_entry, write_bucket, set_full, set_tombstone, from_bytes, full_count, count_full,
  hint_empty, hint_tombstone, hint_not_match,
}
use nomt.Bitbox.MetaMap.Laws.{full_count-set_full}
use nomt.Bitbox.Probe.{
  ProbeSequence, probe_new, advance, probe_at, next, allocate_at, allocate_loop, allocate_bucket,
  loader_probe, is_labelled, load,
}
use nomt.Bitbox.Probe.Sequence.{triangle, advance_times, probed-triangle}
use nomt.Bitbox.Probe.Reach.{Reaches, Reaches-kept}
use nomt.Bitbox.Probe.Allocate.{Allocated, allocate_bucket-Allocated}
use nomt.Bitbox.Probe.Load.{load_finds}

-- Five buckets of a map of a page: the second is full for a hash of zeros, the third a tombstone.
abbrev table : MetaMap
table = record { buckets = 5; bitvec = 0 ∷ 128 ∷ 127 ∷ replicate 4093 0 }

abbrev hash_6 : ℕ
hash_6 = 6

abbrev start : ProbeSequence
start = record { hash = 6; bucket = 1; step = 0 }

table_read : from_bytes (0 ∷ 128 ∷ 127 ∷ replicate 4093 0) 5 ≡ some table
unfolding from_bytes
table_read = refl

abbrev filled : MetaMap
filled = record { buckets = 5; bitvec = 0 ∷ 128 ∷ 128 ∷ replicate 4093 0 }

allocated : allocate_bucket 4 6 table ≡ ok (some (2, filled))
unfolding allocate_bucket probe_new allocate_loop next advance probe_at hint_empty hint_tombstone
    hint_not_match full_entry allocate_at set_full write_bucket Option.bind
allocated = refl

allocate_bucket-Allocated_example :
    (p : ProbeSequence) × (probe_new 6 filled ≡ ok p) × (p.hash ≡ 6) × Allocated table filled p 2
allocate_bucket-Allocated_example =
    allocate_bucket-Allocated 4 6 table 2 filled (omega arith) allocated

way_to_2 : Reaches filled start 1 2
unfolding advance full_entry
way_to_2 = (λ e. absurd (omega arith), (refl, refl))

full_4 :
    set_full filled 4 9
    ≡ some (record { buckets = 5; bitvec = 0 ∷ 128 ∷ 128 ∷ 0 ∷ 128 ∷ replicate 4091 0 })
unfolding set_full write_bucket full_entry
full_4 = refl

Reaches-kept_example :
    Reaches (record { buckets = 5; bitvec = 0 ∷ 128 ∷ 128 ∷ 0 ∷ 128 ∷ replicate 4091 0 }) start 1 2
Reaches-kept_example =
    Reaches-kept filled
      (record { buckets = 5; bitvec = 0 ∷ 128 ∷ 128 ∷ 0 ∷ 128 ∷ replicate 4091 0 }) start 1 2 4 9
      (omega arith) (λ e. absurd (omega arith)) (inl full_4) way_to_2

abbrev name : Bytes
name = replicate 32 7

-- The page of bucket 2 bears the name, the others bear zeros.
abbrev pages : ℕ → Bytes
pages c = if c == 2 then replicate 4064 0 ++ name else replicate 4096 0

labelled : is_labelled name (pages 2) ≡ true
unfolding is_labelled
labelled = refl

load_finds_example :
    (c : ℕ) × (load pages name 3 filled start ≡ ok (some c)) × (is_labelled name (pages c) ≡ true)
load_finds_example =
    load_finds pages name 3 filled start 1 2 (omega arith) (omega arith) way_to_2 labelled

start_new : probe_new 6 table ≡ ok start
unfolding probe_new
start_new = refl

probed-triangle_example :
    ((advance_times 5 3 start).bucket ≡ (6 + triangle 2) % 5)
    × ((advance_times 5 3 start).bucket < 5)
probed-triangle_example = probed-triangle 6 2 table start (omega arith) start_new

probed_4 : (advance_times 5 3 start).bucket ≡ 4
unfolding advance_times advance
probed_4 = refl

abbrev erased : MetaMap
erased = record { buckets = 5; bitvec = 0 ∷ 128 ∷ 127 ∷ replicate 4093 0 }

is_free : hint_tombstone table 2 ≡ some true
unfolding hint_tombstone
is_free = refl

set_2 : set_full table 2 6 ≡ some filled
unfolding set_full write_bucket full_entry
set_2 = refl

erase_2 : set_tombstone filled 2 ≡ some erased
unfolding set_tombstone write_bucket
erase_2 = refl

full_count-set_full_example :
    (full_count filled ≡ full_count table + 1) × (full_count erased ≡ full_count table)
full_count-set_full_example =
    full_count-set_full table filled erased 2 6 (omega arith) (inr is_free) set_2 erase_2
