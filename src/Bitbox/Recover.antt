-- ===== src/Bitbox/Recover.antt =====
-- `recover` of nomt/src/bitbox/mod.rs: the log applied to the file of the hash table. The file is
-- a function from page numbers to pages, and the log its bytes. Reading and writing them succeeds.
pub mod Overwrite
pub mod Pages
pub mod Replay
pub mod Restart
pub mod Widths
pub mod Crash
use nomt.Base.{
  ℕ, zero, suc, ◌+◌, ◌-◌, Bool, true, false, not, ◌||◌, List, [], ◌∷◌, Bytes, copy_at, nat_eq, ◌==◌,
  if◌then◌else◌, length, Option, none, some, Result, ok, err, and_then, ok_or,
}
use mathlib.Core.Option
use nomt.Merkle.PageDiff.{PageDiff, count, unpack_changed_nodes}
use nomt.Bitbox.MetaMap.{MetaMap, set_full, set_tombstone, hint_not_match, page_index, page_slice}
use nomt.Bitbox.Wal.{ElidedChildren, elided_to_bytes, WalEntry, update, clear}
use nomt.Bitbox.Wal.Read.{WalError, out_of_fuel, WalBlobReader, read_entry, reader_new}

pub data RecoverError : Type 0 where
  panicked : RecoverError
  mismatched_nodes : RecoverError
  bad_log : WalError → RecoverError

-- An error of the reader, passed on.
abbrev pub from_wal : {A : Type 0} → Result WalError A → Result RecoverError A
from_wal (err e) = err (bad_log e)
from_wal (ok a) = ok a

-- The meta map in memory, the pages of the file, and the set of changed meta pages.
pub record HtState : Type 0 where
  pub meta_map : MetaMap
  pub pages : ℕ → Bytes
  pub changed_meta_page_ixs : List ℕ

unfoldable pub is_member : ℕ → List ℕ → Bool
is_member x [] = false
is_member x (y ∷ ys) = x == y || is_member x ys

-- The insertion into the set.
unfoldable pub note : ℕ → List ℕ → List ℕ
unfolding is_member
note x xs = if is_member x xs then xs else x ∷ xs

unfoldable pub write_page : ℕ → Bytes → (ℕ → Bytes) → ℕ → Bytes
write_page pn page pages n = if n == pn then page else pages n

-- The diff, the label and the bitfield of the children, written into the page of a bucket.
unfoldable pub recovered_page :
    Bytes → PageDiff → List Bytes → ElidedChildren → Bytes → Option Bytes
unfolding unpack_changed_nodes elided_to_bytes
recovered_page page_id page_diff changed_nodes elided_children page =
    Option.map
      (λ page.
        copy_at (4096 - 32 - 8) (elided_to_bytes elided_children)
          (copy_at (4096 - 32) page_id page))
      (unpack_changed_nodes page_diff changed_nodes page)

-- `data_page_index`, where the data pages follow the meta pages.
unfoldable pub data_page_index : ℕ → ℕ → ℕ
data_page_index data_page_offset ix = data_page_offset + ix

-- The meta map and its changed pages after an update of a bucket.
unfoldable pub recovered_meta : ℕ → ℕ → MetaMap → List ℕ → Result RecoverError (MetaMap × List ℕ)
unfolding note
recovered_meta hash bucket m ixs =
    and_then (ok_or (hint_not_match m bucket hash) panicked) λ meta_map_changed.
      let changed =
        and_then (ok_or (set_full m bucket hash) panicked)
          (λ m. ok (m, note (page_index bucket) ixs)) in
      if meta_map_changed then changed else ok (m, ixs)

module _ (hash_raw_page_id : Bytes → ℕ) where
  -- The meta map and its changed pages after an entry.
  unfoldable pub entry_meta : WalEntry → MetaMap → List ℕ → Result RecoverError (MetaMap × List ℕ)
  unfolding recovered_meta note
  entry_meta (clear bucket) m ixs =
      and_then (ok_or (set_tombstone m bucket) panicked) λ m. ok (m, note (page_index bucket) ixs)
  entry_meta (update page_id page_diff changed_nodes elided_children bucket) m ixs =
      recovered_meta (hash_raw_page_id page_id) bucket m ixs

module _ (data_page_offset : ℕ) where
  -- The pages after an entry.
  unfoldable pub entry_pages : WalEntry → (ℕ → Bytes) → Result RecoverError (ℕ → Bytes)
  unfolding recovered_page write_page data_page_index
  entry_pages (clear bucket) pages = ok pages
  entry_pages (update page_id page_diff changed_nodes elided_children bucket) pages =
      let pn = data_page_index data_page_offset bucket in
      let page = recovered_page page_id page_diff changed_nodes elided_children (pages pn) in
      if not (count page_diff == length changed_nodes)
      then err mismatched_nodes
      else and_then (ok_or page panicked) (λ page. ok (write_page pn page pages))

-- The changed meta pages, written out, at the page numbers of `meta_bytes_index`.
unfoldable pub write_meta_pages : List ℕ → HtState → Result RecoverError HtState
unfolding write_page
write_meta_pages [] s = ok s
write_meta_pages (ix ∷ ixs) s =
    and_then (ok_or (page_slice s.meta_map ix) panicked)
      λ page. write_meta_pages ixs (record s { pages = write_page ix page s.pages })

-- `truncate_wal` of writeout.rs: what is left of the log.
unfoldable pub truncate_wal : Bytes → Bytes
truncate_wal wal = []

-- What follows the entries: the meta pages, and the truncation of the log.
unfoldable pub finish : Bytes → HtState → Result RecoverError (HtState × Bytes)
unfolding write_meta_pages truncate_wal
finish wal s = and_then (write_meta_pages s.changed_meta_page_ixs s) λ t. ok (t, truncate_wal wal)

module _ (data_page_offset : ℕ) (hash_raw_page_id : Bytes → ℕ) where
  unfoldable pub apply_entry : WalEntry → HtState → Result RecoverError HtState
  unfolding entry_meta entry_pages
  apply_entry e s =
      and_then (entry_meta hash_raw_page_id e s.meta_map s.changed_meta_page_ixs) λ (m, ixs).
        and_then (entry_pages data_page_offset e s.pages)
          λ pages. ok (record { meta_map = m; pages = pages; changed_meta_page_ixs = ixs })

  unfoldable pub apply_entries : List WalEntry → HtState → Result RecoverError HtState
  apply_entries [] s = ok s
  apply_entries (e ∷ es) s = and_then (apply_entry e s) (apply_entries es)

  -- The loop over the entries of the reader, of at most `fuel` rounds.
  unfoldable pub recover_loop : ℕ → WalBlobReader → HtState → Result RecoverError HtState
  recover_loop zero r s = err (bad_log out_of_fuel)
  recover_loop (suc fuel) r s = and_then (from_wal (read_entry r)) λ (entry, r). elim entry [
    | none ↦ ok s
    | some e ↦ and_then (apply_entry e s) (recover_loop fuel r)
  ]

  -- What is left of the table and of the log.
  unfoldable pub recover : ℕ → ℕ → Bytes → HtState → Result RecoverError (HtState × Bytes)
  unfolding recover_loop finish truncate_wal
  recover fuel sync_seqn wal s = and_then (from_wal (reader_new wal)) λ r.
      let applied =
        and_then (recover_loop fuel r (record s { changed_meta_page_ixs = [] })) (finish wal) in
      if r.sync_seqn == sync_seqn then applied else ok (s, truncate_wal wal)
