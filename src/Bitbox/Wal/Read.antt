-- ===== src/Bitbox/Wal/Read.antt =====
-- nomt/src/bitbox/wal/read.rs: the reader of a log. The file is its bytes.
use nomt.Base.{
  ℕ, zero, suc, ◌+◌, ◌%◌, List, [], ◌∷◌, Bytes, slice, from_le_bytes, nat_eq, ◌==◌, if◌then◌else◌,
  ltb, leb, length, get_or, Option, none, some, Result, ok, err, and_then, ok_or,
}
use nomt.Merkle.PageDiff.{PageDiff, from_bytes, count}
use nomt.Bitbox.Wal.{
  tag_start, tag_end, tag_clear, tag_update, elided_from_bytes, WalEntry, update, clear, bitmap_of,
}

-- The errors by their messages.
pub data WalError : Type 0 where
  not_page_aligned : WalError
  unexpected_end : WalError
  unexpected_tag_at_start : ℕ → WalError
  invalid_page_diff : WalError
  unknown_entry_tag : ℕ → WalError
  out_of_fuel : WalError

pub record WalBlobReader : Type 0 where
  pub wal : Bytes
  pub offset : ℕ
  pub sync_seqn : ℕ

unfoldable pub read_byte : WalBlobReader → Result WalError (ℕ × WalBlobReader)
read_byte r =
    if leb (length r.wal) r.offset
    then err unexpected_end
    else ok (get_or r.wal r.offset 0, record r { offset = r.offset + 1 })

unfoldable pub read_buf : ℕ → WalBlobReader → Result WalError (Bytes × WalBlobReader)
read_buf n r =
    if ltb (length r.wal) (r.offset + n)
    then err unexpected_end
    else ok (slice r.offset (r.offset + n) r.wal, record r { offset = r.offset + n })

unfoldable pub read_u64 : WalBlobReader → Result WalError (ℕ × WalBlobReader)
read_u64 r = and_then (read_buf 8 r) λ (buf, r). ok (from_le_bytes buf, r)

unfoldable pub read_u32 : WalBlobReader → Result WalError (ℕ × WalBlobReader)
read_u32 r = and_then (read_buf 4 r) λ (buf, r). ok (from_le_bytes buf, r)

unfoldable pub read_start : WalBlobReader → Result WalError WalBlobReader
read_start r = and_then (read_byte r) λ (entry_tag, r).
    if entry_tag == tag_start
    then and_then (read_u32 r) (λ (sync_seqn, r). ok (record r { sync_seqn = sync_seqn }))
    else err (unexpected_tag_at_start entry_tag)

-- `WalBlobReader::new`
unfoldable pub reader_new : Bytes → Result WalError WalBlobReader
reader_new file =
    if length file % 4096 == 0
    then read_start (record { wal = file; offset = 0; sync_seqn = 0 })
    else err not_page_aligned

-- The loop over the changed nodes.
unfoldable pub read_nodes : ℕ → WalBlobReader → Result WalError (List Bytes × WalBlobReader)
read_nodes zero r = ok ([], r)
read_nodes (suc n) r =
    and_then (read_buf 32 r)
      λ (node, r). and_then (read_nodes n r) λ (nodes, r). ok (node ∷ nodes, r)

unfoldable pub diff_of : Bytes → Result WalError PageDiff
diff_of bytes = ok_or (from_bytes (bitmap_of bytes)) invalid_page_diff

unfoldable pub read_clear : WalBlobReader → Result WalError (Option WalEntry × WalBlobReader)
read_clear r = and_then (read_u64 r) λ (bucket, r). ok (some (clear bucket), r)

unfoldable pub read_update : WalBlobReader → Result WalError (Option WalEntry × WalBlobReader)
read_update r = and_then (read_buf 32 r) λ (page_id, r). and_then (read_buf 16 r) λ (bytes, r).
    and_then (diff_of bytes) λ page_diff.
      and_then (read_nodes (count page_diff) r) λ (changed_nodes, r).
        and_then (read_buf 8 r) λ (elided, r). and_then (read_u64 r) λ (bucket, r).
          ok (some (update page_id page_diff changed_nodes (elided_from_bytes elided) bucket), r)

unfoldable pub read_entry : WalBlobReader → Result WalError (Option WalEntry × WalBlobReader)
read_entry r = and_then (read_byte r) λ (entry_tag, r).
    if entry_tag == tag_end
    then ok (none, r)
    else if entry_tag == tag_clear
    then read_clear r
    else if entry_tag == tag_update
    then read_update r
    else err (unknown_entry_tag entry_tag)

-- The entries up to the end, as the loop of `recover` reads them, of at most `fuel` rounds.
unfoldable pub read_entries : ℕ → WalBlobReader → Result WalError (List WalEntry)
read_entries zero r = err out_of_fuel
read_entries (suc fuel) r = and_then (read_entry r) λ (entry, r). elim entry [
  | none ↦ ok []
  | some e ↦ and_then (read_entries fuel r) λ entries. ok (e ∷ entries)
]

-- The sync number and the entries of a log, as `recover` reads them.
unfoldable pub read_log : ℕ → Bytes → Result WalError (ℕ × List WalEntry)
read_log fuel file =
    and_then (reader_new file)
      λ r. and_then (read_entries fuel r) λ entries. ok (r.sync_seqn, entries)
