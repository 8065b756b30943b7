-- ===== src/Bitbox/MetaMap/Laws.antt =====
-- What a write to the meta map shows of its hints (nomt/src/bitbox/meta_map.rs).
use nomt.Base.{
  false, ℕ, zero, suc, ◌+◌, ◌/◌, ◌%◌, ◌^◌, ◌<◌, ◌≡◌, refl, ap, ◌∙◌, Bool, true, not, ◌&&◌, ◌⊎◌, inl,
  inr, Bytes, [], ◌∷◌, Option-cases, nat_eq, ◌==◌, if◌then◌else◌, length, set, get_elem?, some,
  arith, eq_or_ne, bit_and, get_elem?-set_self,
}
use Prim.Native.Nat.{bit_xor}
use nomt.Bitbox.MetaMap.{
  MetaMap, tombstone, full_mask, full_entry, write_bucket, set_full, set_tombstone, hint_empty,
  hint_tombstone, count_full, full_count,
}

-- What the mask makes of seven bits, checked for all of them.
masked : ℕ → Bool
masked zero = true
masked (suc x) =
    (bit_xor x full_mask == x + 128) && (not (bit_and (x + 128) full_mask == 0) && masked x)

masked_lem :
    (n x : ℕ)
    → x < n
    → masked n ≡ true
    → (bit_xor x full_mask ≡ x + 128) × ((bit_and (x + 128) full_mask == 0) ≡ false)
unfolding masked
masked_lem zero x l t = absurd (omega arith)
masked_lem (suc n) x l t = elim (eq_or_ne x n) [
  | inl here ↦ rw here (ground arith)
  | inr other ↦ masked_lem n x (omega arith) (ground arith)
]

all_masked : masked 128 ≡ true
unfolding masked
all_masked = refl

-- The byte of a full bucket is seven bits of the hash below a set bit, so that it is neither
-- empty nor a tombstone.
pub full_entry_lem : (hash : ℕ) → hash < 2 ^ 64 → full_entry hash ≡ hash / 2 ^ 57 + 128
unfolding full_entry
full_entry_lem hash h =
    let small : hash / 2 ^ 57 % 256 ≡ hash / 2 ^ 57 = omega arith in
    ap (λ x. bit_xor x full_mask) small
    ∙ (masked_lem 128 (hash / 2 ^ 57) (omega arith) all_masked).0

-- One for a full byte, and zero for another.
abbrev fullness : ℕ → ℕ
fullness byte = if bit_and byte full_mask == 0 then 0 else 1

fullness-full_entry : (hash : ℕ) → hash < 2 ^ 64 → fullness (full_entry hash) ≡ 1
fullness-full_entry hash h =
    rw (full_entry_lem hash h, (masked_lem 128 (hash / 2 ^ 57) (omega arith) all_masked).1) refl

count_full-set :
    (xs : Bytes) (i v w : ℕ)
    → get_elem? xs i ≡ some w
    → count_full (set xs i v) + fullness w ≡ count_full xs + fullness v
unfolding count_full
count_full-set [] i v w e = absurd (cc)
count_full-set (x ∷ xs) zero v w e = ground arith
count_full-set (x ∷ xs) (suc i) v w e = ground (arith, count_full-set xs i v w e)

free_fullness :
    (m : MetaMap) (bucket : ℕ)
    → (hint_empty m bucket ≡ some true) ⊎ (hint_tombstone m bucket ≡ some true)
    → (w : ℕ) × (get_elem? m.bitvec bucket ≡ some w) × (fullness w ≡ 0)
unfolding hint_empty hint_tombstone
free_fullness m b h = elim (Option-cases (get_elem? m.bitvec b)) [
  | inl out ↦ absurd (elim h [ inl e ↦ ground (arith, out, e) | inr e ↦ ground (arith, out, e) ])
  | inr (w, at) ↦ (
    w,
    at,
    elim h [
      | inl e ↦ let z : w ≡ 0 = ground (arith, at, e) in rw z refl
      | inr e ↦ let z : w ≡ 127 = ground (arith, at, e) in rw z refl
    ],
  )
]

write_bucket_lem :
    (m m' : MetaMap) (bucket byte : ℕ)
    → write_bucket m bucket byte ≡ some m'
    → m'.bitvec ≡ set m.bitvec bucket byte
unfolding write_bucket
write_bucket_lem m m' b v e = ground arith

get_elem?_lt : (xs : Bytes) (i v : ℕ) → get_elem? xs i ≡ some v → i < length xs
get_elem?_lt [] i v e = absurd (cc)
get_elem?_lt (x ∷ xs) zero v e = omega arith
get_elem?_lt (x ∷ xs) (suc i) v e = omega (arith, get_elem?_lt xs i v e)

-- A bucket that the hints call empty or a tombstone adds one to the count of full buckets when it
-- is made full, and takes the one off again when it is made a tombstone after that.
pub full_count-set_full :
    (m m' m'' : MetaMap) (bucket hash : ℕ)
    → hash < 2 ^ 64
    → (hint_empty m bucket ≡ some true) ⊎ (hint_tombstone m bucket ≡ some true)
    → set_full m bucket hash ≡ some m'
    → set_tombstone m' bucket ≡ some m''
    → (full_count m' ≡ full_count m + 1) × (full_count m'' ≡ full_count m)
unfolding full_count set_full set_tombstone
full_count-set_full m m' m'' b hash small free e1 e2 =
    let (w, at, zeroed) = free_fullness m b free in
    let first = write_bucket_lem m m' b (full_entry hash) e1 in
    let second = write_bucket_lem m' m'' b tombstone e2 in
    let c1 = count_full-set m.bitvec b (full_entry hash) w at in
    let l = get_elem?_lt m.bitvec b w at in
    let read = ap (λ t. get_elem? t b) first ∙ get_elem?-set_self m.bitvec b (full_entry hash) l in
    let c2 = count_full-set m'.bitvec b tombstone (full_entry hash) read in
    let f = fullness-full_entry hash small in
    let n1 = ap count_full first in
    let n2 = ap count_full second in
    (omega (arith, c1, n1, f, zeroed), omega (arith, c1, c2, n1, n2, f, zeroed))
