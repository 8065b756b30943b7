-- ===== src/Bitbox/Wal/RoundTrip.antt =====
-- A log is read back with the entries that were written (nomt/src/bitbox/wal).
use nomt.Base.{
  ℕ, zero, suc, ◌*◌, ◌^◌, ◌<◌, ◌≡◌, refl, ap, ◌∙◌, sym, false, List, [], ◌∷◌, ◌++◌, Bytes,
  to_le_bytes, from_le_bytes-to_le_bytes, length-to_le_bytes, nat_eq, length, take, drop, get_or,
  none, some, ok, and_then, arith, length-append, take-append, drop-append_past,
}
use nomt.Merkle.PageDiff.{PageDiff, as_bytes, from_bytes, count}
use nomt.Merkle.PageDiff.Apply.{IsDiff}
use nomt.Bitbox.Wal.{
  tag_end, tag_clear, tag_update, ElidedChildren, elided_from_bytes, elided_to_bytes, WalEntry,
  update, clear, bitmap_bytes,
}
use nomt.Bitbox.Wal.Bitmap.{bitmap_of-bitmap_bytes, length-bitmap_bytes}
use nomt.Bitbox.Wal.Builder.{flatten}
use nomt.Bitbox.Wal.Fields.{
  At, moved, AreNodes, moved-At, read_buf-At, read_byte-At, read_u64-At, read_nodes-At,
  length-flatten,
}
use nomt.Bitbox.Wal.Read.{WalBlobReader, diff_of, read_clear, read_update, read_entry, read_entries}

-- A diff of two words without the bits that no node has, the one of a cleared page included.
pub record IsWritable (d : PageDiff) : Type 0 where
  pub diff : IsDiff d
  pub no_spare : get_or d.high 62 false ≡ false
  pub not_cleared : get_or d.high 63 false ≡ false

diff_of-bytes : (d : PageDiff) → IsWritable d → diff_of (bitmap_bytes 16 (as_bytes d)) ≡ ok d
unfolding diff_of as_bytes from_bytes
diff_of-bytes d w =
    let size : length (d.low ++ d.high) ≡ 128 =
      length-append d.low d.high ∙ omega (arith, w.diff.low_word, w.diff.high_word) in
    let back = bitmap_of-bitmap_bytes 16 (d.low ++ d.high) (omega (arith, size)) in
    let low : take 64 (d.low ++ d.high) ≡ d.low =
      ap (λ n. take n (d.low ++ d.high)) (sym w.diff.low_word) ∙ take-append d.low d.high in
    let high : drop 64 (d.low ++ d.high) ≡ d.high =
      drop-append_past 64 d.low d.high w.diff.low_word in
    rw (back, low, high, w.no_spare, w.not_cleared) refl

-- Entries whose fields have their widths, and updates with a node for each bit of a diff that is
-- not cleared.
abbrev pub IsEntry : WalEntry → Type 0
IsEntry (update page_id d nodes elided bucket) =
    (length page_id ≡ 32)
    × IsWritable d
    × AreNodes nodes
    × (count d ≡ length nodes)
    × (elided.elided < 2 ^ 64)
    × (bucket < 2 ^ 64)
IsEntry (clear bucket) = bucket < 2 ^ 64

-- The bytes of an entry, and of a list of entries, before others.
abbrev pub entry_bytes : WalEntry → Bytes → Bytes
entry_bytes (update page_id d nodes elided bucket) rest =
    tag_update ∷ page_id
    ++ (bitmap_bytes 16 (as_bytes d)
        ++ (flatten nodes ++ (elided_to_bytes elided ++ (to_le_bytes 8 bucket ++ rest))))
entry_bytes (clear bucket) rest = tag_clear ∷ to_le_bytes 8 bucket ++ rest

abbrev pub entries_bytes : List WalEntry → Bytes → Bytes
entries_bytes [] rest = rest
entries_bytes (e ∷ es) rest = entry_bytes e (entries_bytes es rest)

read_clear-At :
    (r : WalBlobReader) (bucket : ℕ) (rest : Bytes)
    → bucket < 2 ^ 64
    → At r (to_le_bytes 8 bucket ++ rest)
    → read_clear r ≡ ok (some (clear bucket), moved r 8)
unfolding read_clear and_then
read_clear-At r bucket rest h at = rw (read_u64-At r bucket rest h at) refl

module _ (page_id : Bytes) (d : PageDiff) (nodes : List Bytes) (elided : ElidedChildren)
    (bucket : ℕ) where
  read_update-At :
      (r : WalBlobReader) (rest : Bytes)
      → IsEntry (update page_id d nodes elided bucket)
      → At r (
          page_id
          ++ (bitmap_bytes 16 (as_bytes d)
              ++ (flatten nodes ++ (elided_to_bytes elided ++ (to_le_bytes 8 bucket ++ rest)))))
      → (r' : WalBlobReader) × (read_update r
          ≡ ok (some (update page_id d nodes elided bucket), r'))
        × At r' rest
        × (r'.sync_seqn ≡ r.sync_seqn)
  unfolding read_update and_then elided_to_bytes elided_from_bytes
  read_update-At r rest (size, w, are, counted, small, fits) at =
      let at1 = moved-At r 32 page_id _ size at in
      let r1 = moved r 32 in
      let at2 =
        moved-At r1 16 (bitmap_bytes 16 (as_bytes d)) _ (length-bitmap_bytes 16 (as_bytes d)) at1 in
      let r2 = moved r1 16 in
      let at3 = moved-At r2 (length nodes * 32) (flatten nodes) _ (length-flatten nodes are) at2 in
      let r3 = moved r2 (length nodes * 32) in
      let at4 =
        moved-At r3 8 (to_le_bytes 8 elided.elided) _ (length-to_le_bytes 8 elided.elided) at3 in
      let r4 = moved r3 8 in
      let at5 = moved-At r4 8 (to_le_bytes 8 bucket) rest (length-to_le_bytes 8 bucket) at4 in
      let e1 = read_buf-At r 32 page_id _ size at in
      let e2 =
        read_buf-At r1 16 (bitmap_bytes 16 (as_bytes d)) _ (length-bitmap_bytes 16 (as_bytes d))
          at1 in
      let e3 = read_nodes-At r2 nodes _ are at2 in
      let e4 =
        read_buf-At r3 8 (to_le_bytes 8 elided.elided) _ (length-to_le_bytes 8 elided.elided) at3 in
      let e5 = read_u64-At r4 bucket rest fits at4 in
      let back = from_le_bytes-to_le_bytes 8 elided.elided (omega arith) in
      (moved r4 8, rw (e1, e2, diff_of-bytes d w, counted, e3, e4, e5, back) refl, at5, refl)

read_entry-At :
    (r : WalBlobReader) (e : WalEntry) (rest : Bytes)
    → IsEntry e
    → At r (entry_bytes e rest)
    → (r' : WalBlobReader) × (read_entry r ≡ ok (some e, r')) × At r' rest
unfolding read_entry and_then
read_entry-At r (update page_id d nodes elided bucket) rest valid at =
    let tail : Bytes =
      page_id
      ++ (bitmap_bytes 16 (as_bytes d)
          ++ (flatten nodes ++ (elided_to_bytes elided ++ (to_le_bytes 8 bucket ++ rest)))) in
    let (r', run, at', _) =
      read_update-At page_id d nodes elided bucket (moved r 1) rest valid
        (moved-At r 1 (tag_update ∷ []) tail refl at) in
    (r', rw (read_byte-At r tag_update tail at) run, at')
read_entry-At r (clear bucket) rest valid at =
    let tail : Bytes = to_le_bytes 8 bucket ++ rest in
    let at1 = moved-At r 1 (tag_clear ∷ []) tail refl at in
    (
      moved (moved r 1) 8,
      rw (read_byte-At r tag_clear tail at) (read_clear-At (moved r 1) bucket rest valid at1),
      moved-At (moved r 1) 8 (to_le_bytes 8 bucket) rest (length-to_le_bytes 8 bucket) at1,
    )

read_end-At :
    (r : WalBlobReader) (rest : Bytes) → At r (tag_end ∷ rest) → read_entry r ≡ ok (none, moved r 1)
unfolding read_entry and_then
read_end-At r rest at = rw (read_byte-At r tag_end rest at) refl

abbrev pub AreEntries : List WalEntry → Type 0
AreEntries [] = Unit
AreEntries (e ∷ es) = IsEntry e × AreEntries es

pub read_entries-At :
    (fuel : ℕ) (r : WalBlobReader) (es : List WalEntry) (rest : Bytes)
    → length es < fuel
    → AreEntries es
    → At r (entries_bytes es (tag_end ∷ rest))
    → read_entries fuel r ≡ ok es
unfolding read_entries and_then
read_entries-At zero r es rest h valid at = absurd (omega arith)
read_entries-At (suc fuel) r [] rest h valid at =
    let ended : read_entry r ≡ ok (none, moved r 1) = read_end-At r rest at in rw ended refl
read_entries-At (suc fuel) r (e ∷ es) rest h (here, valid) at =
    let (r', run, at') = read_entry-At r e (entries_bytes es (tag_end ∷ rest)) here at in
    rw (run, read_entries-At fuel r' es rest (omega arith) valid at') refl
