-- ===== src/Bitbox/Wal/Builder.antt =====
-- The builder of a log stays within its mapping (nomt/src/bitbox/wal/write.rs).
use nomt.Base.{
  ℕ, zero, suc, ◌+◌, ◌-◌, ◌*◌, ◌%◌, ◌^◌, min, ◌≤◌, ◌<◌, ◌≡◌, inl, inr, refl, ap, ap₂, ◌∙◌, sym,
  Bool, true, false, List, [], ◌∷◌, ◌++◌, Bytes, copy_at, nat_eq, leb, length, take, drop,
  replicate, some, arith, length-append, length-take, length-replicate, take-append_left,
  take-take_le, length-copy_at, lt_or_ge, Bool-cases, lt→ltb, le→ltb-false, le→leb, take-append,
}
use mathlib.Core.List.{append_assoc, append-nil}
use mathlib.Core.Option
use native.Mathlib.Nat.{pow-suc, mul_assoc, mul_comm}
use nomt.Bitbox.Wal.Write.{
  WalBlobBuilder, max_size, grow_size, remapped, remap, grow, store_at, write, write_all, as_slice,
}

-- The pieces one after the other.
unfoldable pub flatten : List Bytes → Bytes
flatten [] = []
flatten (bytes ∷ later) = bytes ++ flatten later

-- The end of the blob lies within the mapping, which is a whole number of pages and not empty.
pub record IsValid (b : WalBlobBuilder) : Type 0 where
  pub within : b.cur ≤ length b.memory
  pub pages : length b.memory % 4096 ≡ 0
  pub mapped : 0 < length b.memory

twice : (size fuel : ℕ) → size * 2 * 2 ^ fuel ≡ size * 2 ^ suc fuel
twice size fuel =
    mul_assoc size 2 (2 ^ fuel) ∙ ap (λ t. size * t) (mul_comm 2 (2 ^ fuel) ∙ sym (pow-suc 2 fuel))

grow_size_more :
    (fuel size least : ℕ)
    → size < least
    → size < max_size
    → grow_size (suc fuel) size least ≡ grow_size fuel (size * 2) least
unfolding grow_size
grow_size_more fuel size least small fits =
    rw (lt→ltb size least small, lt→ltb size max_size fits)
      (ap (λ t. grow_size fuel t least) (omega arith))

grow_size_lem :
    (fuel size least : ℕ)
    → max_size ≤ size * 2 ^ fuel
    → size % 4096 ≡ 0
    → least ≤ max_size
    → (r : ℕ) × (grow_size (suc fuel) size least ≡ some r)
      × (size ≤ r)
      × (least ≤ r)
      × (r % 4096 ≡ 0)
unfolding grow_size
grow_size_lem zero size least big pages l = (
  size,
  rw (le→ltb-false size max_size (omega arith)) (ground arith),
  omega arith,
  omega arith,
  pages,
)
grow_size_lem (suc fuel) size least big pages l = elim (lt_or_ge size least) [
  | inr enough ↦ (size, rw (le→ltb-false size least enough) refl, omega arith, enough, pages)
  | inl small ↦
      let (r, run, above, enough, whole) =
        grow_size_lem fuel (size * 2) least (rw (twice size fuel) big) (omega arith) l in
      (
        r,
        grow_size_more (suc fuel) size least small (omega arith) ∙ run,
        omega arith,
        enough,
        whole,
      )
]

-- A mapping that took the place of another, of at least `least` bytes, with the same blob.
pub record IsLarger (b b' : WalBlobBuilder) (least : ℕ) : Type 0 where
  pub cur : b'.cur ≡ b.cur
  pub large : least ≤ length b'.memory
  pub pages : length b'.memory % 4096 ≡ 0
  pub blob : take b.cur b'.memory ≡ take b.cur b.memory

-- A blob, and what was written behind it.
pub record Extends (b b' : WalBlobBuilder) (bytes : Bytes) : Type 0 where
  pub valid : IsValid b'
  pub cur : b'.cur ≡ b.cur + length bytes
  pub blob : as_slice b' ≡ as_slice b ++ bytes

pub store_at-Extends :
    (b b' : WalBlobBuilder) (bytes : Bytes) (least : ℕ)
    → b.cur ≤ length b.memory
    → 0 < length b'.memory
    → b.cur + length bytes ≤ least
    → IsLarger b b' least
    → (c : WalBlobBuilder) × (store_at bytes b' ≡ some c) × Extends b c bytes
unfolding store_at as_slice
store_at-Extends b b' bytes least within mapped fits larger =
    let enough : b.cur + length bytes ≤ length b'.memory = omega (arith, larger.large) in
    let size : length (copy_at b.cur bytes b'.memory) ≡ length b'.memory =
      length-copy_at b.cur bytes b'.memory enough in
    let before : length (take b.cur b'.memory) ≡ b.cur =
      omega (arith, length-take {0} b.cur b'.memory) in
    let rest : Bytes = drop (b.cur + length bytes) b'.memory in
    (
      record { memory = copy_at b.cur bytes b'.memory; cur = b.cur + length bytes },
      rw (larger.cur, le→ltb-false (length b'.memory) (b.cur + length bytes) enough) refl,
      record {
        valid = record { within = omega arith; pages = rw size larger.pages; mapped = omega arith };
        cur = refl;
        blob =
            ap₂ (λ n xs. take n xs)
              (sym (length-append (take b.cur b'.memory) bytes ∙ ap (λ n. n + length bytes) before))
              (sym (append_assoc (take b.cur b'.memory) bytes rest))
            ∙ take-append (take b.cur b'.memory ++ bytes) rest
            ∙ ap (λ t. t ++ bytes) larger.blob;
      },
    )

module _ (mremap mmap : ℕ → Bool) (given : (size : ℕ) → mmap size ≡ true) where
  remap-IsLarger :
      (b : WalBlobBuilder) (size : ℕ)
      → b.cur ≤ length b.memory
      → length b.memory ≤ size
      → size % 4096 ≡ 0
      → (b' : WalBlobBuilder) × (remap mremap mmap size b ≡ some b') × IsLarger b b' size
  unfolding remap remapped
  remap-IsLarger b size within more whole = elim (Bool-cases (mremap size)) [
    | inl grown ↦
        let new : length (remapped size b.memory) ≡ size = omega (
          arith,
          length-append {0} (take size b.memory) (replicate (size - length b.memory) 0),
          length-take {0} size b.memory,
          length-replicate {A = ℕ} (size - length b.memory) 0,
        ) in
        (
          record b { memory = remapped size b.memory },
          ground (arith, grown, whole),
          record {
            cur = refl;
            large = omega arith;
            pages = rw new whole;
            blob =
                take-append_left b.cur (take size b.memory) (replicate (size - length b.memory) 0)
                  (omega (arith, length-take {0} size b.memory))
                ∙ take-take_le b.cur size b.memory (omega arith);
          },
        )
    | inr kept ↦
        let new : length (copy_at 0 b.memory (replicate size 0)) ≡ size =
          length-copy_at 0 b.memory (replicate size 0)
            (omega (arith, length-replicate {A = ℕ} size 0))
          ∙ length-replicate {A = ℕ} size 0 in
        (
          record b { memory = copy_at 0 b.memory (replicate size 0) },
          ground (arith, kept, whole, given size),
          record {
            cur = refl;
            large = omega arith;
            pages = rw new whole;
            blob =
                take-append_left b.cur b.memory (drop (0 + length b.memory) (replicate size 0))
                  within;
          },
        )
  ]

  grow-IsLarger :
      (b : WalBlobBuilder) (least : ℕ)
      → IsValid b
      → length b.memory ≤ least
      → least < max_size
      → (b' : WalBlobBuilder) × (grow mremap mmap least b ≡ some b') × IsLarger b b' least
  unfolding grow Option.bind
  grow-IsLarger b least v more fits =
      let (r, sized, above, enough, whole) =
        grow_size_lem 37 (length b.memory) least (omega (arith, v.mapped)) v.pages (omega arith) in
      let (b', mapped, larger) =
        remap-IsLarger b (min r max_size) v.within (omega arith) (ground (arith, whole)) in
      let small : leb max_size (length b.memory) ≡ false = ground arith in
      (
        b',
        rw (small, sized) mapped,
        record {
          cur = larger.cur;
          large = omega (arith, larger.large);
          pages = larger.pages;
          blob = larger.blob;
        },
      )

  -- Where the system gives every mapping that it is asked for, and the blob does not grow to 128
  -- GiB, a write succeeds: the bytes stand behind the blob that was there, and the blob ends within
  -- the mapping, which is a whole number of pages.
  pub write-Extends :
      (b : WalBlobBuilder) (bytes : Bytes)
      → IsValid b
      → b.cur + length bytes < max_size
      → (b' : WalBlobBuilder) × (write mremap mmap bytes b ≡ some b') × Extends b b' bytes
  unfolding write Option.bind
  write-Extends b bytes v fits =
      let no_overflow : leb (2 ^ 64) (b.cur + length bytes) ≡ false = ground arith in
      elim (lt_or_ge (b.cur + length bytes) (length b.memory)) [
        | inl inside ↦
            let same : IsLarger b b (b.cur + length bytes) = record {
              cur = refl;
              large = omega arith;
              pages = v.pages;
              blob = refl;
            } in
            let (c, stored, extended) =
              store_at-Extends b b bytes (b.cur + length bytes) v.within v.mapped (omega arith)
                same in
            let stays : leb (length b.memory) (b.cur + length bytes) ≡ false = ground arith in
            (c, rw (no_overflow, stays) stored, extended)
        | inr beyond ↦
            let (b', grown, larger) = grow-IsLarger b (b.cur + length bytes) v beyond fits in
            let (c, stored, extended) =
              store_at-Extends b b' bytes (b.cur + length bytes) v.within
                (omega (arith, v.mapped, larger.large)) (omega arith) larger in
            (
              c,
              rw (no_overflow, le→leb (length b.memory) (b.cur + length bytes) beyond, grown)
                  stored,
              extended,
            )
      ]

  pub write_all-Extends :
      (b : WalBlobBuilder) (pieces : List Bytes)
      → IsValid b
      → b.cur + length (flatten pieces) < max_size
      → (b' : WalBlobBuilder) × (write_all mremap mmap pieces b ≡ some b')
        × Extends b b' (flatten pieces)
  unfolding write_all flatten Option.bind
  write_all-Extends b [] v fits =
      (b, refl, record { valid = v; cur = omega arith; blob = sym (append-nil (as_slice b)) })
  write_all-Extends b (bytes ∷ later) v fits =
      let size = length-append bytes (flatten later) in
      let (b', run, first) = write-Extends b bytes v (omega arith) in
      let (c, run', rest) = write_all-Extends b' later first.valid (omega (arith, first.cur)) in
      (
        c,
        rw run run',
        record {
          valid = rest.valid;
          cur = omega (arith, first.cur, rest.cur);
          blob =
              rest.blob
              ∙ ap (λ t. t ++ flatten later) first.blob
              ∙ append_assoc (as_slice b) bytes (flatten later);
        },
      )
