-- ===== src/Bitbox/Wal/Log.antt =====
-- A whole log, as a sync writes it and as the recovery reads it (nomt/src/bitbox/wal, and
-- `prepare_sync` and `recover` of nomt/src/bitbox/mod.rs).
use nomt.Base.{
  ℕ, suc, ◌+◌, ◌-◌, ◌*◌, ◌/◌, ◌%◌, ◌^◌, ◌≤◌, ◌<◌, ◌≡◌, refl, ap, ap₂, ◌∙◌, sym, Bool, true, List,
  [], ◌∷◌, ◌++◌, Bytes, to_le_bytes, from_le_bytes-to_le_bytes, length-to_le_bytes, nat_eq,
  if◌then◌else◌, ltb, length, replicate, none, some, ok, and_then, arith, length-append,
  length-replicate, copy_at, length-take,
}
use mathlib.Core.List.{append_assoc, append-nil}
use mathlib.Core.Option
use native.Mathlib.Nat.{min-eq_left}
use nomt.Merkle.PageDiff.{as_bytes}
use nomt.Bitbox.Wal.{
  tag_start, tag_end, tag_clear, tag_update, elided_to_bytes, WalEntry, update, clear, bitmap_bytes,
}
use nomt.Bitbox.Wal.Write.{
  WalBlobBuilder, max_size, store_at, pad, write_clear, write_update, write_entry, write_entries,
  reset, finalize, write_log, as_slice,
}
use nomt.Bitbox.Wal.Builder.{
  flatten, IsValid, IsLarger, Extends, store_at-Extends, write-Extends, write_all-Extends,
}
use nomt.Bitbox.Wal.Fields.{At, moved, moved-At, read_buf-At, read_byte-At}
use nomt.Bitbox.Wal.Read.{WalBlobReader, read_u32, read_start, reader_new, read_log}
use nomt.Bitbox.Wal.RoundTrip.{entry_bytes, entries_bytes, AreEntries, read_entries-At}

Extends-trans :
    (a b c : WalBlobBuilder) (xs ys : Bytes)
    → Extends a b xs
    → Extends b c ys
    → Extends a c (xs ++ ys)
Extends-trans a b c xs ys s t = record {
  valid = t.valid;
  cur = omega (arith, s.cur, t.cur, length-append {0} xs ys);
  blob = t.blob ∙ ap (λ z. z ++ ys) s.blob ∙ append_assoc (as_slice a) xs ys;
}

Extends-eq : (a b : WalBlobBuilder) (xs ys : Bytes) → xs ≡ ys → Extends a b xs → Extends a b ys
Extends-eq a b xs ys e t = rw (← e) t

entry_bytes-append : (e : WalEntry) (rest : Bytes) → entry_bytes e [] ++ rest ≡ entry_bytes e rest
entry_bytes-append (update page_id d nodes elided bucket) rest = simp append_assoc
entry_bytes-append (clear bucket) rest = simp append_assoc

entries_bytes-append :
    (es : List WalEntry) (rest : Bytes) → entries_bytes es [] ++ rest ≡ entries_bytes es rest
entries_bytes-append [] rest = refl
entries_bytes-append (e ∷ es) rest =
    ap (λ t. t ++ rest) (sym (entry_bytes-append e (entries_bytes es [])))
    ∙ append_assoc (entry_bytes e []) (entries_bytes es []) rest
    ∙ ap (λ t. entry_bytes e [] ++ t) (entries_bytes-append es rest)
    ∙ entry_bytes-append e (entries_bytes es rest)

padded : ℕ → ℕ
padded cur = (cur + 4096 - 1) / 4096 * 4096

pad-eq-store_at : (b : WalBlobBuilder) → pad b ≡ store_at (replicate (padded b.cur - b.cur) 0) b
unfolding pad store_at padded
pad-eq-store_at b =
    let zeros : Bytes = replicate (padded b.cur - b.cur) 0 in
    ap
      (λ t.
        if ltb (length b.memory) t
        then none
        else some (record { memory = copy_at b.cur zeros b.memory; cur = t }))
      (omega (arith, length-replicate {A = ℕ} (padded b.cur - b.cur) 0))

pad-Extends :
    (b : WalBlobBuilder)
    → IsValid b
    → (n : ℕ) × (c : WalBlobBuilder) × (pad b ≡ some c)
      × Extends b c (replicate n 0)
      × (c.cur % 4096 ≡ 0)
unfolding padded
pad-Extends b v =
    let len = padded b.cur in
    let zeros = length-replicate {A = ℕ} (len - b.cur) 0 in
    let fits : len ≤ length b.memory = omega (arith, v.within, v.pages) in
    let same : IsLarger b b len = record {
      cur = refl;
      large = fits;
      pages = v.pages;
      blob = refl;
    } in
    let (c, stored, extended) =
      store_at-Extends b b (replicate (len - b.cur) 0) len v.within v.mapped (omega arith) same in
    (len - b.cur, c, pad-eq-store_at b ∙ stored, extended, omega (arith, extended.cur))

module _ (mremap mmap : ℕ → Bool) (given : (size : ℕ) → mmap size ≡ true) where
  -- The bytes of the pieces, in the form in which an entry lists them.
  write_entry-Extends :
      (b : WalBlobBuilder) (e : WalEntry)
      → IsValid b
      → b.cur + length (entry_bytes e []) < max_size
      → (c : WalBlobBuilder) × (write_entry mremap mmap e b ≡ some c)
        × Extends b c (entry_bytes e [])
  unfolding write_entry write_update write_clear Option.bind flatten
  write_entry-Extends b (clear bucket) v fits =
      write_all-Extends mremap mmap given b ((tag_clear ∷ []) ∷ to_le_bytes 8 bucket ∷ []) v fits
  write_entry-Extends b (update page_id d nodes elided bucket) v fits =
      let head : List Bytes = (tag_update ∷ []) ∷ page_id ∷ bitmap_bytes 16 (as_bytes d) ∷ [] in
      let end : List Bytes = elided_to_bytes elided ∷ to_le_bytes 8 bucket ∷ [] in
      let whole : flatten head ++ (flatten nodes ++ flatten end)
          ≡ entry_bytes (update page_id d nodes elided bucket) [] =
        simp (append_assoc, append-nil) in
      let size = ap length whole in
      let split = length-append (flatten head) (flatten nodes ++ flatten end) in
      let split' = length-append (flatten nodes) (flatten end) in
      let (b1, run1, x1) = write_all-Extends mremap mmap given b head v (omega arith) in
      let (b2, run2, x2) =
        write_all-Extends mremap mmap given b1 nodes x1.valid (omega (arith, x1.cur)) in
      let (b3, run3, x3) =
        write_all-Extends mremap mmap given b2 end x2.valid (omega (arith, x1.cur, x2.cur)) in
      (
        b3,
        rw (run1, run2) run3,
        Extends-eq b b3 (flatten head ++ (flatten nodes ++ flatten end)) _ whole (
            Extends-trans b b1 b3 (flatten head) (flatten nodes ++ flatten end) x1
              (Extends-trans b1 b2 b3 (flatten nodes) (flatten end) x2 x3)),
      )

  write_entries-Extends :
      (b : WalBlobBuilder) (es : List WalEntry)
      → IsValid b
      → b.cur + length (entries_bytes es []) < max_size
      → (c : WalBlobBuilder) × (write_entries mremap mmap es b ≡ some c)
        × Extends b c (entries_bytes es [])
  unfolding write_entries Option.bind
  write_entries-Extends b [] v fits =
      (b, refl, record { valid = v; cur = omega arith; blob = sym (append-nil (as_slice b)) })
  write_entries-Extends b (e ∷ es) v fits =
      let whole = entry_bytes-append e (entries_bytes es []) in
      let size = ap length whole in
      let split = length-append (entry_bytes e []) (entries_bytes es []) in
      let (b1, run1, x1) = write_entry-Extends b e v (omega arith) in
      let (b2, run2, x2) = write_entries-Extends b1 es x1.valid (omega (arith, x1.cur)) in
      (
        b2,
        rw run1 run2,
        Extends-eq b b2 (entry_bytes e [] ++ entries_bytes es []) _ whole
            (Extends-trans b b1 b2 (entry_bytes e []) (entries_bytes es []) x1 x2),
      )

-- The bytes of a log: the start, the entries, the end, and zeros up to the end of the page.
log_bytes : ℕ → List WalEntry → ℕ → Bytes
log_bytes sync_seqn es n =
    tag_start ∷ to_le_bytes 4 sync_seqn ++ entries_bytes es (tag_end ∷ replicate n 0)

module _ (mremap mmap : ℕ → Bool) (given : (size : ℕ) → mmap size ≡ true) where
  write_log_lem :
      (b : WalBlobBuilder) (sync_seqn : ℕ) (es : List WalEntry)
      → IsValid b
      → length (entries_bytes es []) + 6 < max_size
      → (n : ℕ) × (c : WalBlobBuilder) × (write_log mremap mmap sync_seqn es b ≡ some c)
        × (as_slice c ≡ log_bytes sync_seqn es n)
        × (length (as_slice c) % 4096 ≡ 0)
  unfolding write_log reset finalize Option.bind flatten as_slice log_bytes
  write_log_lem b sync_seqn es v fits =
      let b0 : WalBlobBuilder = record b { cur = 0 } in
      let v0 : IsValid b0 = record { within = omega arith; pages = v.pages; mapped = v.mapped } in
      let start : List Bytes = (tag_start ∷ []) ∷ to_le_bytes 4 sync_seqn ∷ [] in
      let word = length-to_le_bytes 4 sync_seqn in
      let size : length (flatten start) ≡ 5 =
        ap (λ t. suc (length t)) (append-nil (to_le_bytes 4 sync_seqn)) ∙ omega (arith, word) in
      let (b1, run1, x1) = write_all-Extends mremap mmap given b0 start v0 (omega (arith, size)) in
      let (b2, run2, x2) =
        write_entries-Extends mremap mmap given b1 es x1.valid (omega (arith, x1.cur, size)) in
      let (b3, run3, x3) =
        write-Extends mremap mmap given b2 (tag_end ∷ []) x2.valid
          (omega (arith, x1.cur, x2.cur, size)) in
      let (n, c, run4, x4, whole) = pad-Extends b3 x3.valid in
      let joined =
        Extends-trans b0 b1 c (flatten start) (entries_bytes es [] ++ (tag_end ∷ replicate n 0)) x1
          (Extends-trans b1 b2 c (entries_bytes es []) (tag_end ∷ replicate n 0) x2
            (Extends-trans b2 b3 c (tag_end ∷ []) (replicate n 0) x3 x4)) in
      (
        n,
        c,
        rw (run1, run2, run3) run4,
        joined.blob
            ∙ ap₂ (λ s t. tag_start ∷ s ++ t) (append-nil (to_le_bytes 4 sync_seqn))
                (entries_bytes-append es (tag_end ∷ replicate n 0)),
        rw (length-take, min-eq_left joined.valid.within) whole,
      )

read_start-At :
    (file rest : Bytes) (sync_seqn : ℕ)
    → sync_seqn < 2 ^ 32
    → length file % 4096 ≡ 0
    → file ≡ tag_start ∷ to_le_bytes 4 sync_seqn ++ rest
    → (r : WalBlobReader) × (reader_new file ≡ ok r) × (r.sync_seqn ≡ sync_seqn) × At r rest
unfolding reader_new read_start read_u32 and_then
read_start-At file rest sync_seqn small whole e =
    let r0 : WalBlobReader = record { wal = file; offset = 0; sync_seqn = 0 } in
    let r1 = moved r0 1 in
    let tail : Bytes = to_le_bytes 4 sync_seqn ++ rest in
    let at0 : At r0 (tag_start ∷ tail) = record { before = e; within = omega arith } in
    let at1 = moved-At r0 1 (tag_start ∷ []) tail refl at0 in
    let word = length-to_le_bytes 4 sync_seqn in
    let at2 = moved-At r1 4 (to_le_bytes 4 sync_seqn) rest word at1 in
    let back = from_le_bytes-to_le_bytes 4 sync_seqn (omega arith) in
    (
      record { wal = file; offset = 0 + 1 + 4; sync_seqn = sync_seqn },
      rw
          (
            whole,
            read_byte-At r0 tag_start tail at0,
            read_buf-At r1 4 (to_le_bytes 4 sync_seqn) rest word at1,
            back,
          )
          refl,
      refl,
      record { before = at2.before; within = at2.within },
    )

module _ (mremap mmap : ℕ → Bool) (given : (size : ℕ) → mmap size ≡ true) where
  -- Where the system gives every mapping that it is asked for, the builder stands within a mapping of
  -- whole pages, the entries and six bytes more take less than 128 GiB, the sync number is below
  -- 2 ^ 32, the fields of the entries have their widths, no diff is that of a cleared page or has its
  -- spare bit set, and each update has as many nodes as its diff has bits: writing the log does not
  -- panic, whatever the builder held before, and the log is read back with its sync number and its
  -- entries, in one round for each entry and one for the end.
  pub read_log-write_log :
      (b : WalBlobBuilder) (sync_seqn : ℕ) (es : List WalEntry) (fuel : ℕ)
      → IsValid b
      → length (entries_bytes es []) + 6 < max_size
      → sync_seqn < 2 ^ 32
      → AreEntries es
      → length es < fuel
      → (c : WalBlobBuilder) × (write_log mremap mmap sync_seqn es b ≡ some c)
        × (read_log fuel (as_slice c) ≡ ok (sync_seqn, es))
  unfolding read_log and_then log_bytes
  read_log-write_log b sync_seqn es fuel v fits small valid enough =
      let (n, c, run, bytes, whole) = write_log_lem mremap mmap given b sync_seqn es v fits in
      let rest : Bytes = entries_bytes es (tag_end ∷ replicate n 0) in
      let (r, begun, number, at) = read_start-At (as_slice c) rest sync_seqn small whole bytes in
      (c, run, rw (begun, read_entries-At fuel r es (replicate n 0) enough valid at, number) refl)
