-- ===== src/Bitbox/Probe/Allocate.antt =====
-- The bucket that is allocated for a page, and the way to it (`allocate_bucket` of
-- nomt/src/bitbox/mod.rs).
use nomt.Base.{
  ℕ, zero, suc, ◌%◌, ◌^◌, ◌<◌, ◌≡◌, ◌≢◌, ◌⊎◌, inl, inr, refl, sym, ap, ◌∙◌, nat_eq, get_elem?, none,
  some, arith, eq_or_ne, Option-cases, Result-cases, ok, and_then,
}
use nomt.Bitbox.MetaMap.{MetaMap, full_entry, write_bucket, set_full}
use nomt.Bitbox.MetaMap.Laws.{full_entry_lem}
use nomt.Bitbox.Probe.{
  ProbeSequence, ProbeResult, advance, probe_new, probe_at, next, allocate_at, allocate_loop,
  allocate_bucket,
}
use nomt.Bitbox.Probe.Reach.{
  byte_of, Reaches, Grows, IsWrite, write_bucket-IsWrite, IsWrite-Grows, get_elem?_byte,
  probe_at-classify, probe_at-none, classify, hash-advance,
}

-- What `next` returned, and where: the round before the last started at `before`, and any way on
-- from there is a way on from `p`.
record Landed (m : MetaMap) (p : ProbeSequence) (r : ProbeResult) (q : ProbeSequence) : Type 0 where
  pub before : ProbeSequence
  pub last : advance m.buckets before ≡ q
  pub same_hash : before.hash ≡ p.hash
  pub found : probe_at m q.hash q.bucket ≡ some (some r)
  pub way :
      (m' : MetaMap) → Grows m m' → (k b : ℕ) → Reaches m' before k b → (j : ℕ) × Reaches m' p j b

-- A round that goes on passed a bucket that is not empty.
passed_nonempty : (m : MetaMap) (hash c : ℕ) → probe_at m hash c ≡ some none → byte_of m c ≢ 0
passed_nonempty m hash c e zeroed = elim (Option-cases (get_elem? m.bitvec c)) [
  | inl out ↦ absurd (ground (arith, probe_at-none m hash c out))
  | inr (v, at) ↦
      let (same, _) = get_elem?_byte m.bitvec c v at in
      absurd (ground (arith, probe_at-classify m hash c v at))
]

Reaches-suc :
    (m : MetaMap) (p : ProbeSequence) (n k b : ℕ)
    → m.buckets ≡ n
    → byte_of m (advance n p).bucket ≢ 0
    → Reaches m (advance n p) k b
    → Reaches m p (suc k) b
Reaches-suc m p n k b e passed later = rw e (passed, later)

next-Landed :
    (fuel : ℕ) (m : MetaMap) (p : ProbeSequence) (r : ProbeResult) (q : ProbeSequence)
    → next fuel m p ≡ ok (r, q)
    → Landed m p r q
unfolding next
next-Landed zero m p r q e = absurd (cc)
next-Landed (suc fuel) m p r q e =
    let p' = advance m.buckets p in
    elim (Option-cases (probe_at m p'.hash p'.bucket)) [
      | inl out ↦ absurd (ground (arith, out))
      | inr (none, on) ↦
          let t = next-Landed fuel m p' r q (ground (arith, on)) in
          record {
            before = t.before;
            last = t.last;
            same_hash = t.same_hash ∙ hash-advance m.buckets p;
            found = t.found;
            way = λ m' g k b reach.
                let (j, later) = t.way m' g k b reach in
                (
                  suc j,
                  Reaches-suc m' p m.buckets j b g.buckets
                      (g.nonempty p'.bucket (passed_nonempty m p'.hash p'.bucket on)) later,
                );
          }
      | inr (some r', here) ↦
          let same : ◌≡◌ {A = ProbeResult × ProbeSequence} (r', p') (r, q) = ground (arith, here) in
          record {
            before = p;
            last = ground arith;
            same_hash = refl;
            found = ground (arith, here);
            way = λ m' g k b reach. (k, reach);
          }
    ]

found_byte :
    (m : MetaMap) (hash c : ℕ) (r : ProbeResult)
    → probe_at m hash c ≡ some (some r)
    → classify hash c (byte_of m c) ≡ some r
found_byte m hash c r e = elim (Option-cases (get_elem? m.bitvec c)) [
  | inl out ↦ absurd (ground (arith, probe_at-none m hash c out))
  | inr (v, at) ↦
      let (same, _) = get_elem?_byte m.bitvec c v at in
      rw same (ground (arith, probe_at-classify m hash c v at))
]

-- The bucket that a result names is the one probed; it is free, or full for the hash.
abbrev Names : MetaMap → ℕ → ℕ → ProbeResult → Type 0
Names m hash c (ProbeResult.possible_hit b) = (b ≡ c) × (byte_of m c ≡ full_entry hash)
Names m hash c (ProbeResult.empty b) = (b ≡ c) × (byte_of m c ≡ 0)
Names m hash c (ProbeResult.tombstone b) = (b ≡ c) × (byte_of m c ≡ 127)

found-Names :
    (m : MetaMap) (hash c : ℕ) (r : ProbeResult)
    → probe_at m hash c ≡ some (some r)
    → Names m hash c r
found-Names m hash c (ProbeResult.possible_hit b) e = ground (arith, found_byte m hash c _ e)
found-Names m hash c (ProbeResult.empty b) e = ground (arith, found_byte m hash c _ e)
found-Names m hash c (ProbeResult.tombstone b) e = ground (arith, found_byte m hash c _ e)

-- The facts of a bucket `b` that was allocated for the hash of `p`.
pub record Allocated (m m' : MetaMap) (p : ProbeSequence) (b : ℕ) : Type 0 where
  pub free : (byte_of m b ≡ 0) ⊎ (byte_of m b ≡ 127)
  pub write : IsWrite m m' b (full_entry p.hash)
  pub way : (k : ℕ) × Reaches m' p k b

allocate_at-Allocated :
    (m : MetaMap) (p : ProbeSequence) (r : ProbeResult) (q : ProbeSequence) (c b : ℕ) (m' : MetaMap)
    → p.hash < 2 ^ 64
    → Landed m p r q
    → c ≡ q.bucket
    → (byte_of m q.bucket ≡ 0) ⊎ (byte_of m q.bucket ≡ 127)
    → allocate_at m c q.hash ≡ ok (some (b, m'))
    → Allocated m m' p b
unfolding allocate_at set_full
allocate_at-Allocated m p r q c b m' small t e is_free run =
    let same_hash : q.hash ≡ p.hash =
      ap (λ s. s.hash) (sym t.last) ∙ hash-advance m.buckets t.before ∙ t.same_hash in
    elim (Option-cases (write_bucket m c (full_entry q.hash))) [
      | inl out ↦ absurd (ground (arith, out))
      | inr (m'', wrote) ↦
          let same : ◌≡◌ {A = ℕ × MetaMap} (c, m'') (b, m') = ground (arith, wrote) in
          let w =
            write_bucket-IsWrite m m' b (full_entry p.hash)
              (ground (arith, wrote, same_hash, same)) in
          let nonzero : full_entry p.hash ≢ 0 =
            λ z. absurd (omega (arith, full_entry_lem p.hash small)) in
          let (k, reach) = t.way m' (IsWrite-Grows m m' b (full_entry p.hash) nonzero w) 0 b (
            ap (λ n. (advance n t.before).bucket) w.buckets
                ∙ ap (λ s. s.bucket) t.last
                ∙ ground (arith, same, e),
            w.reads ∙ ap full_entry (sym t.same_hash),
          ) in
          record { free = ground (arith, same, e, is_free); write = w; way = (k, reach) }
    ]

allocate_loop-Allocated :
    (fuel attempts : ℕ) (m : MetaMap) (p : ProbeSequence) (b : ℕ) (m' : MetaMap)
    → p.hash < 2 ^ 64
    → allocate_loop fuel attempts m p ≡ ok (some (b, m'))
    → Allocated m m' p b
unfolding allocate_loop
allocate_loop-Allocated fuel zero m p b m' small e = absurd (cc)
allocate_loop-Allocated fuel (suc attempts) m p b m' small e = elim (Result-cases (next fuel m p)) [
  | inl (stop, out) ↦ absurd (ground (arith, out))
  | inr ((ProbeResult.empty c, q), got) ↦
      let t = next-Landed fuel m p (ProbeResult.empty c) q got in
      let (same, at) = found-Names m q.hash q.bucket (ProbeResult.empty c) t.found in
      allocate_at-Allocated m p (ProbeResult.empty c) q c b m' small t same (inl at)
        (ground (arith, got))
  | inr ((ProbeResult.tombstone c, q), got) ↦
      let t = next-Landed fuel m p (ProbeResult.tombstone c) q got in
      let (same, at) = found-Names m q.hash q.bucket (ProbeResult.tombstone c) t.found in
      allocate_at-Allocated m p (ProbeResult.tombstone c) q c b m' small t same (inr at)
        (ground (arith, got))
  | inr ((ProbeResult.possible_hit c, q), got) ↦
      let t = next-Landed fuel m p (ProbeResult.possible_hit c) q got in
      let (same, at) = found-Names m q.hash q.bucket (ProbeResult.possible_hit c) t.found in
      let same_hash : q.hash ≡ p.hash =
        ap (λ s. s.hash) (sym t.last) ∙ hash-advance m.buckets t.before ∙ t.same_hash in
      let a =
        allocate_loop-Allocated fuel attempts m q b m' (rw same_hash small) (ground (arith, got)) in
      let nonzero : full_entry q.hash ≢ 0 =
        λ z. absurd (omega (arith, full_entry_lem p.hash small, z, ap full_entry same_hash)) in
      let g = IsWrite-Grows m m' b (full_entry q.hash) nonzero a.write in
      let (k, reach) = a.way in
      record {
        free = a.free;
        write = rw (← same_hash) a.write;
        way = t.way m' g (suc k) b (
            Reaches-suc m' t.before m.buckets k b g.buckets (g.nonempty _ (rw (t.last, at) nonzero))
              (rw t.last reach));
      }
]

-- A bucket that is allocated for the hash of a page was empty or a tombstone; only its byte is
-- written, it becomes full for the hash, and a load of the page from the start of its probe
-- sequence comes to it.
pub allocate_bucket-Allocated :
    (fuel hash : ℕ) (m : MetaMap) (b : ℕ) (m' : MetaMap)
    → hash < 2 ^ 64
    → allocate_bucket fuel hash m ≡ ok (some (b, m'))
    → (p : ProbeSequence) × (probe_new hash m' ≡ ok p) × (p.hash ≡ hash) × Allocated m m' p b
unfolding allocate_bucket and_then probe_new
allocate_bucket-Allocated fuel hash m b m' small e = elim (eq_or_ne m.buckets 0) [
  | inl z ↦ absurd (ground (arith, z))
  | inr n ↦
      let start : ProbeSequence = record { hash = hash; bucket = hash % m.buckets; step = 0 } in
      let a = allocate_loop-Allocated fuel 9999 m start b m' small (ground (arith, n)) in
      (start, rw a.write.buckets (ground arith), refl, a)
]
