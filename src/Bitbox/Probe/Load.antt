-- ===== src/Bitbox/Probe/Load.antt =====
-- A load comes to the bucket of its page (`PageLoader::probe` and `PageLoad::try_complete` of
-- nomt/src/bitbox/mod.rs).
use nomt.Base.{
  ℕ, zero, suc, ◌^◌, ◌<◌, ◌≡◌, ◌≢◌, ◌⊎◌, inl, inr, sym, ap, ◌∙◌, true, Bytes, nat_eq, none, some,
  arith, Bool-cases, Option-cases, ok,
}
use nomt.Bitbox.MetaMap.{MetaMap, full_entry}
use nomt.Bitbox.MetaMap.Laws.{full_entry_lem}
use nomt.Bitbox.Probe.{
  ProbeSequence, ProbeResult, advance, probe_at, next, loader_probe, is_labelled, load,
}
use nomt.Bitbox.Probe.Reach.{
  byte_of, Reaches, get_elem?-of_ne, probe_at-classify, classify, hash-advance,
}

-- What `next` returns on the way to a bucket: the bucket itself, or else a bucket before it, which
-- is not empty, and from which the way goes on.
abbrev Closer : MetaMap → ProbeSequence → ℕ → ℕ → ProbeResult → ProbeSequence → Type 0
Closer m p k b (ProbeResult.possible_hit c) q =
    (q.bucket ≡ b) ⊎ ((j : ℕ) × (j < k) × Reaches m q j b)
Closer m p k b (ProbeResult.empty c) q = ⊥
Closer m p k b (ProbeResult.tombstone c) q = (j : ℕ) × (j < k) × Reaches m q j b

Closer-later :
    (m : MetaMap) (p p' : ProbeSequence) (k b : ℕ) (r : ProbeResult) (q : ProbeSequence)
    → Closer m p' k b r q
    → Closer m p (suc k) b r q
Closer-later m p p' k b (ProbeResult.possible_hit c) q (inl e) = inl e
Closer-later m p p' k b (ProbeResult.possible_hit c) q (inr (j, l, t)) = inr (j, omega arith, t)
Closer-later m p p' k b (ProbeResult.empty c) q h = h
Closer-later m p p' k b (ProbeResult.tombstone c) q (j, l, t) = (j, omega arith, t)

next_on :
    (fuel : ℕ) (m : MetaMap) (p : ProbeSequence)
    → probe_at m (advance m.buckets p).hash (advance m.buckets p).bucket ≡ some none
    → next (suc fuel) m p ≡ next fuel m (advance m.buckets p)
unfolding next
next_on fuel m p e = ground (arith, e)

next_found :
    (fuel : ℕ) (m : MetaMap) (p : ProbeSequence) (r : ProbeResult)
    → probe_at m (advance m.buckets p).hash (advance m.buckets p).bucket ≡ some (some r)
    → next (suc fuel) m p ≡ ok (r, advance m.buckets p)
unfolding next
next_found fuel m p r e = ground (arith, e)

probe_at_full :
    (m : MetaMap) (hash c : ℕ)
    → hash < 2 ^ 64
    → byte_of m c ≡ full_entry hash
    → probe_at m hash c ≡ some (some (ProbeResult.possible_hit c))
probe_at_full m hash c small full =
    let big = full_entry_lem hash small in
    let nonzero : byte_of m c ≢ 0 = λ z. absurd (omega (arith, big, full, z)) in
    probe_at-classify m hash c (byte_of m c) (get_elem?-of_ne m.bitvec c nonzero)
    ∙ ground (arith, big, full)

-- Where a way leads to a bucket, `next` ends with more fuel than buckets before it, and comes
-- closer.
next-Closer :
    (fuel : ℕ) (m : MetaMap) (p : ProbeSequence) (k b : ℕ)
    → p.hash < 2 ^ 64
    → k < fuel
    → Reaches m p k b
    → (r : ProbeResult) × (q : ProbeSequence) × (next fuel m p ≡ ok (r, q))
      × (q.hash ≡ p.hash)
      × Closer m p k b r q
next-Closer zero m p k b small h way = absurd (omega arith)
next-Closer (suc fuel) m p zero b small h (there, full) =
    let p' = advance m.buckets p in
    (
      ProbeResult.possible_hit p'.bucket,
      p',
      next_found fuel m p (ProbeResult.possible_hit p'.bucket) (
          probe_at_full m p'.hash p'.bucket (rw hash-advance small)
            (rw there full ∙ ap full_entry (sym (hash-advance m.buckets p)))),
      hash-advance m.buckets p,
      inl there,
    )
next-Closer (suc fuel) m p (suc k) b small h (passed, later) =
    let p' = advance m.buckets p in
    let probed =
      probe_at-classify m p'.hash p'.bucket (byte_of m p'.bucket)
        (get_elem?-of_ne m.bitvec p'.bucket passed) in
    elim (Option-cases (classify p'.hash p'.bucket (byte_of m p'.bucket))) [
      | inl on ↦
          let (r, q, run, same, closer) =
            next-Closer fuel m p' k b (rw hash-advance small) (omega arith) later in
          (
            r,
            q,
            next_on fuel m p (probed ∙ ap some on) ∙ run,
            same ∙ hash-advance m.buckets p,
            Closer-later m p p' k b r q closer,
          )
      | inr (ProbeResult.possible_hit c, here) ↦ (
        ProbeResult.possible_hit c,
        p',
        next_found fuel m p (ProbeResult.possible_hit c) (probed ∙ ap some here),
        hash-advance m.buckets p,
        inr (k, omega arith, later),
      )
      | inr (ProbeResult.empty c, here) ↦ absurd (ground (arith, here))
      | inr (ProbeResult.tombstone c, here) ↦ (
        ProbeResult.tombstone c,
        p',
        next_found fuel m p (ProbeResult.tombstone c) (probed ∙ ap some here),
        hash-advance m.buckets p,
        (k, omega arith, later),
      )
    ]

sooner :
    (j k : ℕ) (m : MetaMap) (q : ProbeSequence) (b : ℕ)
    → j < k
    → (q.bucket ≡ b) ⊎ ((i : ℕ) × (i < j) × Reaches m q i b)
    → (q.bucket ≡ b) ⊎ ((i : ℕ) × (i < k) × Reaches m q i b)
sooner j k m q b h (inl e) = inl e
sooner j k m q b h (inr (i, l, t)) = inr (i, omega arith, t)

-- What `PageLoader::probe` returns on the way to a bucket.
abbrev Submits : ℕ → MetaMap → ProbeSequence → ℕ → ℕ → Type 0
Submits fuel m p k b =
    (q : ProbeSequence) × (loader_probe fuel m p ≡ ok (some q))
    × (q.hash ≡ p.hash)
    × ((q.bucket ≡ b) ⊎ ((j : ℕ) × (j < k) × Reaches m q j b))

loader_step :
    (fuel : ℕ) (m : MetaMap) (p : ProbeSequence) (k b : ℕ) (r : ProbeResult) (q : ProbeSequence)
    → next (suc fuel) m p ≡ ok (r, q)
    → q.hash ≡ p.hash
    → Closer m p k b r q
    → ((j : ℕ) → j < k → Reaches m q j b → Submits fuel m q j b)
    → Submits (suc fuel) m p k b
unfolding loader_probe
loader_step fuel m p k b (ProbeResult.possible_hit c) q run same closer again =
    (q, ground (arith, run), same, closer)
loader_step fuel m p k b (ProbeResult.empty c) q run same closer again = absurd closer
loader_step fuel m p k b (ProbeResult.tombstone c) q run same (j, l, on) again =
    let (q', run', same', closer) = again j l on in
    (q', ground (arith, run, run'), same' ∙ same, sooner j k m q' b l closer)

loader_probe-Closer :
    (fuel : ℕ) (m : MetaMap) (p : ProbeSequence) (k b : ℕ)
    → p.hash < 2 ^ 64
    → k < fuel
    → Reaches m p k b
    → Submits fuel m p k b
loader_probe-Closer zero m p k b small h way = absurd (omega arith)
loader_probe-Closer (suc fuel) m p k b small h way =
    let (r, q, run, same, closer) = next-Closer (suc fuel) m p k b small h way in
    loader_step fuel m p k b r q run same closer
      λ j l on. loader_probe-Closer fuel m q j b (rw same small) (omega arith) on

-- Where a way leads to the bucket of a page, a load with more fuel than buckets before it ends,
-- and finds a bucket whose page bears the identifier.
pub load_finds :
    (pages : ℕ → Bytes) (page_id : Bytes) (fuel : ℕ) (m : MetaMap) (p : ProbeSequence) (k b : ℕ)
    → p.hash < 2 ^ 64
    → k < fuel
    → Reaches m p k b
    → is_labelled page_id (pages b) ≡ true
    → (c : ℕ) × (load pages page_id fuel m p ≡ ok (some c)) × (is_labelled page_id (pages c) ≡ true)
unfolding load
load_finds pages page_id zero m p k b small h way label = absurd (omega arith)
load_finds pages page_id (suc fuel) m p k b small h way label =
    let (q, run, same, closer) = loader_probe-Closer (suc fuel) m p k b small h way in
    elim (Bool-cases (is_labelled page_id (pages q.bucket))) [
      | inl found ↦ (q.bucket, ground (arith, run, found), found)
      | inr other ↦ elim closer [
        | inl there ↦ absurd (ground (arith, ap pages there))
        | inr (j, l, on) ↦
            let (c, run', found) =
              load_finds pages page_id fuel m q j b (rw same small) (omega arith) on label in
            (c, ground (arith, run, other, run'), found)
      ]
    ]
