-- ===== src/Bitbox/Probe/Reach.antt =====
-- Which buckets a probe sequence comes to, and that the changes of the meta map keep the way to a
-- page's bucket (nomt/src/bitbox/mod.rs).
use nomt.Base.{
  ℕ, zero, suc, ◌^◌, ◌<◌, ◌≡◌, ◌≢◌, ◌⊎◌, inl, inr, refl, sym, ◌∙◌, [], ◌∷◌, Bytes, nat_eq, ◌==◌,
  if◌then◌else◌, length, set, get_elem?, get_or, Option, none, some, arith, lt→ltb, lt_or_ge,
  get_or-set_self, get_or-set_ne, length-set, eq_or_ne,
}
use mathlib.Core.Option
use mathlib.Core.Path.{subst}
use nomt.Bitbox.MetaMap.{
  MetaMap, full_entry, write_bucket, set_full, set_tombstone, hint_empty, hint_tombstone,
  hint_not_match,
}
use nomt.Bitbox.MetaMap.Laws.{full_entry_lem}
use nomt.Bitbox.Probe.{ProbeSequence, ProbeResult, advance, probe_at}

-- The byte of a bucket; one out of range counts as empty.
abbrev pub byte_of : MetaMap → ℕ → ℕ
byte_of m c = get_or m.bitvec c 0

-- A load that starts behind `p` comes to bucket `b`, which is full for the hash, after `k` buckets
-- that are not empty.
abbrev pub Reaches : MetaMap → ProbeSequence → ℕ → ℕ → Type 0
Reaches m p zero b = ((advance m.buckets p).bucket ≡ b) × (byte_of m b ≡ full_entry p.hash)
Reaches m p (suc k) b =
    (byte_of m (advance m.buckets p).bucket ≢ 0) × Reaches m (advance m.buckets p) k b

-- The second map has the same number of buckets, and none is empty that was not.
pub record Grows (m m' : MetaMap) : Type 0 where
  pub buckets : m'.buckets ≡ m.buckets
  pub nonempty : (c : ℕ) → byte_of m c ≢ 0 → byte_of m' c ≢ 0

pub get_elem?-of_byte : (xs : Bytes) (c : ℕ) → c < length xs → get_elem? xs c ≡ some (get_or xs c 0)
get_elem?-of_byte [] c h = absurd (omega arith)
get_elem?-of_byte (x ∷ xs) zero h = refl
get_elem?-of_byte (x ∷ xs) (suc c) h = get_elem?-of_byte xs c (omega arith)

pub get_elem?-of_ne :
    (xs : Bytes) (c : ℕ) → get_or xs c 0 ≢ 0 → get_elem? xs c ≡ some (get_or xs c 0)
get_elem?-of_ne [] c h = absurd (h refl)
get_elem?-of_ne (x ∷ xs) zero h = refl
get_elem?-of_ne (x ∷ xs) (suc c) h = get_elem?-of_ne xs c h

-- What a round returns of a byte.
abbrev pub classify : ℕ → ℕ → ℕ → Option ProbeResult
classify hash bucket byte =
    if byte == 0
    then some (ProbeResult.empty bucket)
    else if byte == 127
    then some (ProbeResult.tombstone bucket)
    else if byte == full_entry hash
    then some (ProbeResult.possible_hit bucket)
    else none

pub probe_at-classify :
    (m : MetaMap) (hash c : ℕ) (v : ℕ)
    → get_elem? m.bitvec c ≡ some v
    → probe_at m hash c ≡ some (classify hash c v)
unfolding probe_at hint_empty hint_tombstone hint_not_match Option.bind
probe_at-classify m hash c v e = rw e (ground arith)

pub probe_at-none :
    (m : MetaMap) (hash c : ℕ) → get_elem? m.bitvec c ≡ none → probe_at m hash c ≡ none
unfolding probe_at hint_empty Option.bind
probe_at-none m hash c e = rw e refl

pub get_elem?_byte :
    (xs : Bytes) (c v : ℕ) → get_elem? xs c ≡ some v → (get_or xs c 0 ≡ v) × (c < length xs)
get_elem?_byte [] c v h = absurd (cc)
get_elem?_byte (x ∷ xs) zero v h = ground arith
get_elem?_byte (x ∷ xs) (suc c) v h = let (e, l) = get_elem?_byte xs c v h in (e, omega arith)

-- The facts that a write to the meta map leaves.
pub record IsWrite (m m' : MetaMap) (bucket byte : ℕ) : Type 0 where
  pub within : bucket < length m.bitvec
  pub buckets : m'.buckets ≡ m.buckets
  pub same_length : length m'.bitvec ≡ length m.bitvec
  pub reads : byte_of m' bucket ≡ byte
  pub others : (c : ℕ) → c ≢ bucket → byte_of m' c ≡ byte_of m c

pub write_bucket-IsWrite :
    (m m' : MetaMap) (bucket byte : ℕ)
    → write_bucket m bucket byte ≡ some m'
    → IsWrite m m' bucket byte
unfolding write_bucket
write_bucket-IsWrite m m' c v e = elim (lt_or_ge c (length m.bitvec)) [
  | inr out ↦ absurd (ground arith)
  | inl h ↦
      let same : record m { bitvec = set m.bitvec c v } ≡ m' = ground arith in
      subst (λ t. IsWrite m t c v) same
        (record {
          within = h;
          buckets = refl;
          same_length = length-set m.bitvec c v;
          reads = get_or-set_self m.bitvec c v 0 h;
          others = λ j n. get_or-set_ne m.bitvec c j v 0 (λ same. n (sym same));
        })
]

pub write_bucket_total :
    (m : MetaMap) (bucket byte : ℕ)
    → bucket < length m.bitvec
    → (m' : MetaMap) × (write_bucket m bucket byte ≡ some m')
unfolding write_bucket
write_bucket_total m c v h = (record m { bitvec = set m.bitvec c v }, rw (lt→ltb _ _ h) refl)

pub IsWrite-Grows :
    (m m' : MetaMap) (bucket byte : ℕ) → byte ≢ 0 → IsWrite m m' bucket byte → Grows m m'
IsWrite-Grows m m' c v n w = record {
  buckets = w.buckets;
  nonempty = λ j h. elim (eq_or_ne j c) [ inl e ↦ rw (e, w.reads) n | inr d ↦ rw (w.others j d) h ];
}

pub hash-advance : (n : ℕ) (p : ProbeSequence) → (advance n p).hash ≡ p.hash
unfolding advance
hash-advance n p = refl

-- A map that grows, and has the same byte for the bucket, keeps the way to it.
pub Reaches-Grows :
    (m m' : MetaMap) (p : ProbeSequence) (k b : ℕ)
    → Grows m m'
    → byte_of m' b ≡ byte_of m b
    → Reaches m p k b
    → Reaches m' p k b
Reaches-Grows m m' p zero b g same (there, full) = rw g.buckets (there, same ∙ full)
Reaches-Grows m m' p (suc k) b g same (passed, later) = rw g.buckets (
  g.nonempty (advance m.buckets p).bucket passed,
  Reaches-Grows m m' (advance m.buckets p) k b g same later,
)

-- Where another bucket than that of a page is made full or a tombstone, a load still comes to the
-- bucket of the page, after as many others.
pub Reaches-kept :
    (m m' : MetaMap) (p : ProbeSequence) (k b c hash : ℕ)
    → hash < 2 ^ 64
    → c ≢ b
    → (set_full m c hash ≡ some m') ⊎ (set_tombstone m c ≡ some m')
    → Reaches m p k b
    → Reaches m' p k b
unfolding set_full set_tombstone
Reaches-kept m m' p k b c hash h d (inl e) r =
    let w = write_bucket-IsWrite m m' c (full_entry hash) e in
    let nonzero : full_entry hash ≢ 0 = λ z. absurd (omega (arith, full_entry_lem hash h)) in
    Reaches-Grows m m' p k b (IsWrite-Grows m m' c (full_entry hash) nonzero w)
      (w.others b (λ same. d (sym same))) r
Reaches-kept m m' p k b c hash h d (inr e) r =
    let w = write_bucket-IsWrite m m' c 127 e in
    Reaches-Grows m m' p k b (IsWrite-Grows m m' c 127 (λ z. absurd (omega arith)) w)
      (w.others b (λ same. d (sym same))) r
