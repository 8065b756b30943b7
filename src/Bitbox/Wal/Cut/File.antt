-- ===== src/Bitbox/Wal/Cut/File.antt =====
-- A log whose file was cut short (nomt/src/bitbox/wal/read.rs).
use nomt.Base.{
  ℕ, zero, suc, ◌+◌, ◌-◌, ◌%◌, ◌<◌, ◌≡◌, refl, ap, ◌∙◌, false, List, [], ◌∷◌, ◌++◌, Bytes,
  from_le_bytes, slice, length, length-append, take, drop, get_or, get_or-append_left,
  take-append_left, drop-append_left, length-drop, take-append-drop, nat_eq, ◌==◌, Option, none,
  some, ok, err, and_then, leb, arith, ◌⊎◌, Bool-cases, eq_or_ne, ◌≢◌, ne→nat_beq, inl, inr,
  lt_or_ge, lt→ltb, le→ltb-false, le→leb,
}
use nomt.Merkle.PageDiff.{count}
use nomt.Bitbox.Wal.{
  tag_start, tag_clear, tag_update, tag_end, elided_from_bytes, WalEntry, update, clear,
}
use nomt.Bitbox.Wal.Read.{
  out_of_fuel, unknown_entry_tag, unexpected_tag_at_start, not_page_aligned, unexpected_end,
  WalBlobReader, read_byte, read_buf, read_u64, read_u32, read_nodes, diff_of, read_clear,
  read_update, read_entry, read_entries, read_start, reader_new, read_log,
}
use nomt.Bitbox.Wal.Rounds.{entries_after, read_entries-after}
use nomt.Bitbox.Wal.Cut.{Cuts, same-Cuts, ok-Cuts, err-Cuts, end-Cuts, if-Cuts, then-Cuts}

module _ (zs : Bytes) where
  abbrev longer : WalBlobReader → WalBlobReader
  longer r = record r { wal = r.wal ++ zs }

  abbrev with_longer : {A : Type 0} → A × WalBlobReader → A × WalBlobReader
  with_longer p = (p.0, longer (p.1))

  total : (r : WalBlobReader) → length (r.wal ++ zs) ≡ length r.wal + length zs
  total r = length-append r.wal zs

  read_byte-Cuts : (r : WalBlobReader) → Cuts with_longer (read_byte r) (read_byte (longer r))
  unfolding read_byte
  read_byte-Cuts r = elim (lt_or_ge r.offset (length r.wal)) [
    | inl inside ↦
        let here : leb (length r.wal) r.offset ≡ false = ground arith in
        let there : leb (length (r.wal ++ zs)) r.offset ≡ false =
          let more : r.offset < length (r.wal ++ zs) = omega (arith, total r) in ground arith in
        rw (here, there, get_or-append_left r.offset r.wal zs 0 inside)
          (ok-Cuts with_longer (get_or r.wal r.offset 0, record r { offset = r.offset + 1 }))
    | inr past ↦
        end-Cuts with_longer (read_byte r) (read_byte (longer r))
          (rw (le→leb (length r.wal) r.offset past) refl)
  ]

  read_buf-Cuts :
      (n : ℕ) (r : WalBlobReader) → Cuts with_longer (read_buf n r) (read_buf n (longer r))
  unfolding read_buf
  read_buf-Cuts n r = elim (lt_or_ge (length r.wal) (r.offset + n)) [
    | inl short ↦
        end-Cuts with_longer (read_buf n r) (read_buf n (longer r))
          (rw (lt→ltb (length r.wal) (r.offset + n) short) refl)
    | inr l ↦
        let same : slice r.offset (r.offset + n) (r.wal ++ zs)
            ≡ slice r.offset (r.offset + n) r.wal =
          ap (take (r.offset + n - r.offset)) (drop-append_left r.offset r.wal zs (omega arith))
          ∙ take-append_left (r.offset + n - r.offset) (drop r.offset r.wal) zs
              (omega (arith, length-drop {0} r.offset r.wal)) in
        rw
          (
            le→ltb-false (length r.wal) (r.offset + n) l,
            le→ltb-false (length (r.wal ++ zs)) (r.offset + n) (omega (arith, total r)),
            same,
          )
          (ok-Cuts with_longer
            (slice r.offset (r.offset + n) r.wal, record r { offset = r.offset + n }))
  ]

  read_u64-Cuts : (r : WalBlobReader) → Cuts with_longer (read_u64 r) (read_u64 (longer r))
  unfolding read_u64
  read_u64-Cuts r =
      then-Cuts with_longer with_longer (read_buf 8 r) (read_buf 8 (longer r)) _ _
        (read_buf-Cuts 8 r) (λ p. ok-Cuts with_longer (from_le_bytes (p.0), p.1))

  read_u32-Cuts : (r : WalBlobReader) → Cuts with_longer (read_u32 r) (read_u32 (longer r))
  unfolding read_u32
  read_u32-Cuts r =
      then-Cuts with_longer with_longer (read_buf 4 r) (read_buf 4 (longer r)) _ _
        (read_buf-Cuts 4 r) (λ p. ok-Cuts with_longer (from_le_bytes (p.0), p.1))

  read_nodes-Cuts :
      (n : ℕ) (r : WalBlobReader) → Cuts with_longer (read_nodes n r) (read_nodes n (longer r))
  unfolding read_nodes
  read_nodes-Cuts zero r = ok-Cuts with_longer ([], r)
  read_nodes-Cuts (suc n) r =
      then-Cuts with_longer with_longer (read_buf 32 r) (read_buf 32 (longer r)) _ _
        (read_buf-Cuts 32 r)
        λ p.
          then-Cuts with_longer with_longer (read_nodes n (p.1)) (read_nodes n (longer (p.1))) _ _
            (read_nodes-Cuts n (p.1)) (λ q. ok-Cuts with_longer (p.0 ∷ q.0, q.1))

  read_clear-Cuts : (r : WalBlobReader) → Cuts with_longer (read_clear r) (read_clear (longer r))
  unfolding read_clear
  read_clear-Cuts r =
      then-Cuts with_longer with_longer (read_u64 r) (read_u64 (longer r)) _ _ (read_u64-Cuts r)
        (λ p. ok-Cuts with_longer (some (clear (p.0)), p.1))

  read_update-Cuts : (r : WalBlobReader) → Cuts with_longer (read_update r) (read_update (longer r))
  unfolding read_update
  read_update-Cuts r =
      then-Cuts with_longer with_longer (read_buf 32 r) (read_buf 32 (longer r)) _ _
        (read_buf-Cuts 32 r)
        λ p1.
          then-Cuts with_longer with_longer (read_buf 16 (p1.1)) (read_buf 16 (longer (p1.1))) _ _
            (read_buf-Cuts 16 (p1.1))
            λ p2.
              then-Cuts (λ d. d) with_longer (diff_of (p2.0)) (diff_of (p2.0)) _ _
                (same-Cuts (diff_of (p2.0)))
                λ d.
                  then-Cuts with_longer with_longer (read_nodes (count d) (p2.1))
                    (read_nodes (count d) (longer (p2.1))) _ _ (read_nodes-Cuts (count d) (p2.1))
                    λ p3.
                      then-Cuts with_longer with_longer (read_buf 8 (p3.1))
                        (read_buf 8 (longer (p3.1))) _ _ (read_buf-Cuts 8 (p3.1))
                        λ p4.
                          then-Cuts with_longer with_longer (read_u64 (p4.1))
                            (read_u64 (longer (p4.1))) _ _ (read_u64-Cuts (p4.1))
                            λ p5. ok-Cuts with_longer (
                              some (update (p1.0) d (p3.0) (elided_from_bytes (p4.0)) (p5.0)),
                              p5.1,
                            )

  read_entry-Cuts : (r : WalBlobReader) → Cuts with_longer (read_entry r) (read_entry (longer r))
  unfolding read_entry
  read_entry-Cuts r =
      then-Cuts with_longer with_longer (read_byte r) (read_byte (longer r)) _ _ (read_byte-Cuts r)
        λ p. if-Cuts with_longer (p.0 == tag_end) _ _ _ _ (ok-Cuts with_longer (none, p.1)) (
          if-Cuts with_longer (p.0 == tag_clear) _ _ _ _ (read_clear-Cuts (p.1)) (
            if-Cuts with_longer (p.0 == tag_update) _ _ _ _ (read_update-Cuts (p.1))
              (err-Cuts with_longer _ (unknown_entry_tag (p.0)))))

  after-Cuts :
      (fuel : ℕ)
      → ((r : WalBlobReader) → Cuts (λ es. es) (read_entries fuel r) (read_entries fuel (longer r)))
      → (o : Option WalEntry) (r : WalBlobReader)
      → Cuts (λ es. es) (entries_after fuel (o, r)) (entries_after fuel (o, longer r))
  unfolding entries_after
  after-Cuts fuel later none r = ok-Cuts (λ es. es) []
  after-Cuts fuel later (some e) r =
      then-Cuts (λ es. es) (λ es. es) (read_entries fuel r) (read_entries fuel (longer r)) _ _
        (later r) (λ es. ok-Cuts (λ es. es) (e ∷ es))

  read_entries-Cuts :
      (fuel : ℕ) (r : WalBlobReader)
      → Cuts (λ es. es) (read_entries fuel r) (read_entries fuel (longer r))
  unfolding read_entries
  read_entries-Cuts zero r = err-Cuts (λ es. es) (err out_of_fuel) out_of_fuel
  read_entries-Cuts (suc fuel) r =
      rw (read_entries-after fuel r, read_entries-after fuel (longer r))
        (then-Cuts with_longer (λ es. es) (read_entry r) (read_entry (longer r))
          (entries_after fuel) (entries_after fuel) (read_entry-Cuts r)
          (λ p. after-Cuts fuel (read_entries-Cuts fuel) (p.0) (p.1)))

  read_start-Cuts : (r : WalBlobReader) → Cuts longer (read_start r) (read_start (longer r))
  unfolding read_start
  read_start-Cuts r =
      then-Cuts with_longer longer (read_byte r) (read_byte (longer r)) _ _ (read_byte-Cuts r) λ p.
        if-Cuts longer (p.0 == tag_start) _ _ _ _
          (then-Cuts with_longer longer (read_u32 (p.1)) (read_u32 (longer (p.1))) _ _
            (read_u32-Cuts (p.1)) (λ q. ok-Cuts longer (record (q.1) { sync_seqn = q.0 })))
          (err-Cuts longer _ (unexpected_tag_at_start (p.0)))

  opened : Bytes → WalBlobReader
  opened file = record { wal = file; offset = 0; sync_seqn = 0 }

  reader_new-Cuts :
      (file : Bytes)
      → length file % 4096 ≡ 0
      → Cuts longer (reader_new file) (reader_new (file ++ zs))
  unfolding reader_new opened
  reader_new-Cuts file whole = rw whole (elim (Bool-cases (length (file ++ zs) % 4096 == 0)) [
    | inl e ↦ rw e (read_start-Cuts (opened file))
    | inr e ↦ rw e (err-Cuts longer (read_start (opened file)) not_page_aligned)
  ])

  read_log-Cuts :
      (fuel : ℕ) (file : Bytes)
      → length file % 4096 ≡ 0
      → Cuts (λ v. v) (read_log fuel file) (read_log fuel (file ++ zs))
  unfolding read_log
  read_log-Cuts fuel file whole =
      then-Cuts longer (λ v. v) (reader_new file) (reader_new (file ++ zs)) _ _
        (reader_new-Cuts file whole)
        λ r.
          then-Cuts (λ es. es) (λ v. v) (read_entries fuel r) (read_entries fuel (longer r)) _ _
            (read_entries-Cuts fuel r) (λ es. ok-Cuts (λ v. v) (r.sync_seqn, es))

refuses-ragged :
    (fuel : ℕ) (file : Bytes) → length file % 4096 ≢ 0 → read_log fuel file ≡ err not_page_aligned
unfolding read_log reader_new and_then
refuses-ragged fuel file ragged = rw (ne→nat_beq (length file % 4096) 0 ragged) refl

-- Where a file is read as a log, what is left of it when it is cut short at any length is either
-- refused, because its length is not a whole number of pages or because it ends too early, or read
-- as the same log, with all its entries.
pub read_log-take :
    (fuel n sync_seqn : ℕ) (es : List WalEntry) (file : Bytes)
    → read_log fuel file ≡ ok (sync_seqn, es)
    → (read_log fuel (take n file) ≡ err not_page_aligned)
      ⊎ ((read_log fuel (take n file) ≡ err unexpected_end)
          ⊎ (read_log fuel (take n file) ≡ ok (sync_seqn, es)))
unfolding Cuts
read_log-take fuel n sync_seqn es file h = elim (eq_or_ne (length (take n file) % 4096) 0) [
  | inr ragged ↦ inl (refuses-ragged fuel (take n file) ragged)
  | inl whole ↦
      let run : read_log fuel (take n file ++ drop n file) ≡ ok (sync_seqn, es) =
        ap (read_log fuel) (take-append-drop n file) ∙ h in
      elim (read_log-Cuts (drop n file) fuel (take n file) whole (sync_seqn, es) run) [
        | inl e ↦ inr (inl e)
        | inr (v, e, same) ↦ inr (inr (e ∙ ap ok same))
      ]
]
