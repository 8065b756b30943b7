-- ===== src/Bitbox/Examples/Recovery.antt =====
-- Tests of the recovery of the hash table (`recover` of nomt/src/bitbox/mod.rs) and of a log that was
-- cut short (nomt/src/bitbox/wal/read.rs), and instances of their theorems.
use nomt.Base.{
  ◌⊎◌, ℕ, ◌≡◌, refl, true, false, List, [], ◌∷◌, ◌++◌, Bytes, replicate, length, take, get_or, ok,
  err, Result, to_le_bytes, from_le_bytes, and_then,
}
use nomt.Merkle.PageDiff.{
  PageDiff, as_bytes, count, count_ones, from_bytes, unpack_changed_nodes, iter_ones, ones,
  unpack_loop, cleared, next_one, trailing_zeros,
}
use mathlib.Core.Option
use nomt.Bitbox.MetaMap.{
  set_full, set_tombstone, hint_not_match, page_slice, page_index, write_bucket, full_entry,
}
use nomt.Bitbox.Wal.{
  WalEntry, update, clear, tag_start, tag_end, bitmap_bytes, bits_value, bitmap_of, elided_to_bytes,
  elided_from_bytes,
}
use nomt.Bitbox.Wal.Builder.{flatten}
use nomt.Bitbox.Wal.RoundTrip.{entries_bytes}
use nomt.Bitbox.Wal.Cut.File.{read_log-take}
use nomt.Bitbox.Wal.Read.{
  not_page_aligned, unexpected_end, read_log, reader_new, read_start, read_u32, read_u64, read_buf,
  read_byte, read_entries, read_entry, read_clear, read_update, read_nodes, diff_of,
}
use nomt.Bitbox.Recover.{
  RecoverError, HtState, apply_entries, apply_entry, entry_meta, entry_pages, recovered_meta,
  recovered_page, data_page_index, write_page, note, is_member, finish, truncate_wal, recover,
  recover_loop, write_meta_pages,
}
use nomt.Bitbox.Recover.Crash.{recover_restarts}

-- The first node has changed.
abbrev diff : PageDiff
diff = record { low = true ∷ replicate 63 false; high = replicate 64 false }

abbrev entries : List WalEntry
entries =
    clear 9 ∷ update (replicate 32 3) diff (replicate 32 200 ∷ []) (record { elided = 6 }) 700 ∷ []

wal : Bytes
wal = tag_start ∷ to_le_bytes 4 77 ++ entries_bytes entries (tag_end ∷ replicate 3984 0)

wal_size : length wal ≡ 4096
unfolding wal to_le_bytes bitmap_bytes bits_value flatten elided_to_bytes as_bytes
wal_size = refl

wal_log : read_log 3 wal ≡ ok (77, entries)
unfolding wal to_le_bytes bitmap_bytes bits_value flatten elided_to_bytes as_bytes read_log
    reader_new read_start read_u32 read_u64 read_buf read_byte read_entries read_entry read_clear
    read_update read_nodes diff_of and_then from_le_bytes bitmap_of from_bytes count count_ones
    elided_from_bytes
wal_log = refl

-- An update of all the nodes of a page, which takes two pages of the log.
abbrev whole_page : List WalEntry
whole_page =
    update (replicate 32 3)
      (record { low = replicate 64 true; high = replicate 62 true ++ (false ∷ false ∷ []) })
      (replicate 126 (replicate 32 200)) (record { elided = 6 }) 700
    ∷ []

two_pages : Bytes
two_pages = tag_start ∷ to_le_bytes 4 77 ++ entries_bytes whole_page (tag_end ∷ replicate 4089 0)

two_pages_log : read_log 2 two_pages ≡ ok (77, whole_page)
unfolding two_pages to_le_bytes bitmap_bytes bits_value flatten elided_to_bytes as_bytes read_log
    reader_new read_start read_u32 read_u64 read_buf read_byte read_entries read_entry read_clear
    read_update read_nodes diff_of and_then from_le_bytes bitmap_of from_bytes count count_ones
    elided_from_bytes
two_pages_log = refl

two_pages_cut : read_log 2 (take 4096 two_pages) ≡ err unexpected_end
unfolding two_pages to_le_bytes bitmap_bytes bits_value flatten elided_to_bytes as_bytes read_log
    reader_new read_start read_u32 read_u64 read_buf read_byte read_entries read_entry read_clear
    read_update read_nodes diff_of and_then from_le_bytes bitmap_of from_bytes count count_ones
    elided_from_bytes
two_pages_cut = refl

read_log-take_example :
    (read_log 2 (take 4096 two_pages) ≡ err not_page_aligned)
    ⊎ ((read_log 2 (take 4096 two_pages) ≡ err unexpected_end)
        ⊎ (read_log 2 (take 4096 two_pages) ≡ ok (77, whole_page)))
read_log-take_example = read_log-take 2 4096 77 whole_page two_pages two_pages_log

abbrev begun : HtState
begun = record {
  meta_map = record { buckets = 4096; bitvec = replicate 4096 0 };
  pages = λ n. replicate 4096 0;
  changed_meta_page_ixs = [];
}

abbrev hash : Bytes → ℕ
hash page_id = 5

abbrev of_ok : Result RecoverError HtState → HtState
of_ok (ok s) = s
of_ok (err e) = begun

-- After both entries, and after the meta page.
stopped : HtState
stopped = of_ok (apply_entries 1 hash entries begun)

abbrev of_ok_end : Result RecoverError (HtState × Bytes) → HtState × Bytes
of_ok_end (ok s) = s
of_ok_end (err e) = (begun, wal)

finished : HtState × Bytes
finished = of_ok_end (recover 1 hash 3 77 wal begun)

log_emptied : finished.1 ≡ []
unfolding finished recover recover_loop finish truncate_wal write_meta_pages page_slice
    apply_entries apply_entry entry_meta entry_pages recovered_meta recovered_page set_full
    set_tombstone hint_not_match write_bucket full_entry note is_member page_index write_page
    data_page_index unpack_changed_nodes iter_ones ones unpack_loop cleared next_one trailing_zeros
    count count_ones elided_to_bytes to_le_bytes and_then Option.bind wal bitmap_bytes bits_value
    flatten as_bytes reader_new read_start read_u32 read_u64 read_buf read_byte read_entry
    read_clear read_update read_nodes diff_of from_le_bytes bitmap_of from_bytes elided_from_bytes
log_emptied = refl

stopped_after : apply_entries 1 hash (take 2 entries) begun ≡ ok stopped
unfolding stopped apply_entries apply_entry entry_meta entry_pages recovered_meta recovered_page
    set_full set_tombstone hint_not_match write_bucket full_entry note is_member page_index
    write_page data_page_index unpack_changed_nodes iter_ones ones unpack_loop cleared next_one
    trailing_zeros count count_ones elided_to_bytes to_le_bytes and_then Option.bind
stopped_after = refl

finished_after : recover 1 hash 3 77 wal begun ≡ ok finished
unfolding finished recover recover_loop finish truncate_wal write_meta_pages page_slice
    apply_entries apply_entry entry_meta entry_pages recovered_meta recovered_page set_full
    set_tombstone hint_not_match write_bucket full_entry note is_member page_index write_page
    data_page_index unpack_changed_nodes iter_ones ones unpack_loop cleared next_one trailing_zeros
    count count_ones elided_to_bytes to_le_bytes and_then Option.bind wal bitmap_bytes bits_value
    flatten as_bytes reader_new read_start read_u32 read_u64 read_buf read_byte read_entry
    read_clear read_update read_nodes diff_of from_le_bytes bitmap_of from_bytes elided_from_bytes
finished_after = refl

-- The page of the bucket: the node, the bitfield and the label.
page_after :
    (get_or (stopped.pages 701) 31 0
      ∷ get_or (stopped.pages 701) 4056 0
      ∷ get_or (stopped.pages 701) 4064 0
      ∷ [])
    ≡ 200 ∷ 6 ∷ 3 ∷ []
unfolding stopped apply_entries apply_entry entry_meta entry_pages recovered_meta recovered_page
    set_full set_tombstone hint_not_match write_bucket full_entry note is_member page_index
    write_page data_page_index unpack_changed_nodes iter_ones ones unpack_loop cleared next_one
    trailing_zeros count count_ones elided_to_bytes to_le_bytes and_then Option.bind
page_after = refl

recover_restarts_example :
    recover 1 hash 3 77 wal (record begun { pages = stopped.pages }) ≡ ok finished
recover_restarts_example =
    recover_restarts 1 hash 3 77 wal entries 2 begun stopped finished (λ n. refl) wal_log
      stopped_after finished_after
