-- ===== src/Bitbox/Wal/Write.antt =====
-- nomt/src/bitbox/wal/write.rs: the builder of a log, in memory that the system maps. Whether the
-- system gives a mapping of a size, by growing the present one or as a new one, is a parameter;
-- `none` stands for a panic, and for a copy out of the mapping.
use nomt.Base.{
  ℕ, zero, suc, ◌+◌, ◌-◌, ◌*◌, ◌/◌, ◌%◌, ◌^◌, min, Bool, ◌&&◌, List, [], ◌∷◌, ◌++◌, Bytes,
  to_le_bytes, copy_at, nat_eq, ◌==◌, if◌then◌else◌, ltb, leb, length, take, replicate, Option,
  none, some,
}
use mathlib.Core.Option
use nomt.Merkle.PageDiff.{PageDiff, as_bytes}
use nomt.Bitbox.Wal.{
  tag_start, tag_end, tag_clear, tag_update, ElidedChildren, elided_to_bytes, bitmap_bytes,
  WalEntry, update, clear,
}

-- MAX_SIZE
abbrev pub max_size : ℕ
max_size = 2 ^ 37

-- PAGE_SIZE, of io/mod.rs
abbrev pub page_size : ℕ
page_size = 4096

-- The mapping by its bytes.
pub record WalBlobBuilder : Type 0 where
  pub memory : Bytes
  pub cur : ℕ

-- `with_initial_size`, where the mapping is given.
unfoldable pub with_initial_size : ℕ → WalBlobBuilder
with_initial_size size = record { memory = replicate size 0; cur = 0 }

-- The loop of `grow`.
unfoldable pub grow_size : ℕ → ℕ → ℕ → Option ℕ
grow_size zero new_size min_new_size = none
grow_size (suc fuel) new_size min_new_size =
    let more = grow_size fuel (min (new_size * 2) (2 ^ 64 - 1)) min_new_size in
    if ltb new_size min_new_size && ltb new_size max_size then more else some new_size

-- A mapping grown or shrunk in place.
unfoldable pub remapped : ℕ → Bytes → Bytes
remapped new_size memory = take new_size memory ++ replicate (new_size - length memory) 0

-- The copy into the mapping.
unfoldable pub store_at : Bytes → WalBlobBuilder → Option WalBlobBuilder
store_at bytes b =
    let new_cur = b.cur + length bytes in
    if ltb (length b.memory) new_cur
    then none
    else some (record { memory = copy_at b.cur bytes b.memory; cur = new_cur })

-- The bytes up to the end of the page are made zero.
unfoldable pub pad : WalBlobBuilder → Option WalBlobBuilder
pad b =
    let len = (b.cur + page_size - 1) / page_size * page_size in
    if ltb (length b.memory) len
    then none
    else some (record { memory = copy_at b.cur (replicate (len - b.cur) 0) b.memory; cur = len })

module _ (mremap mmap : ℕ → Bool) where
  -- `Mmap::resize`, and a new mapping where it does not succeed.
  unfoldable pub remap : ℕ → WalBlobBuilder → Option WalBlobBuilder
  unfolding remapped
  remap new_size b =
      if new_size % page_size == 0
      then if mremap new_size
        then some (record b { memory = remapped new_size b.memory })
        else if mmap new_size
        then some (record b { memory = copy_at 0 b.memory (replicate new_size 0) })
        else none
      else none

  unfoldable pub grow : ℕ → WalBlobBuilder → Option WalBlobBuilder
  grow min_new_size b =
      if leb max_size (length b.memory)
      then none
      else Option.bind (grow_size 38 (length b.memory) min_new_size)
          λ new_size. remap (min new_size max_size) b

  unfoldable pub write : Bytes → WalBlobBuilder → Option WalBlobBuilder
  write bytes b =
      let new_cur = b.cur + length bytes in
      if leb (2 ^ 64) new_cur
      then none
      else if leb (length b.memory) new_cur
      then Option.bind (grow new_cur b) (store_at bytes)
      else store_at bytes b

  -- Several writes, one after the other.
  unfoldable pub write_all : List Bytes → WalBlobBuilder → Option WalBlobBuilder
  write_all [] b = some b
  write_all (bytes ∷ later) b = Option.bind (write bytes b) (write_all later)

  unfoldable pub write_clear : ℕ → WalBlobBuilder → Option WalBlobBuilder
  unfolding write_all
  write_clear bucket_index = write_all ((tag_clear ∷ []) ∷ to_le_bytes 8 bucket_index ∷ [])

  unfoldable pub write_update :
      Bytes → PageDiff → List Bytes → ElidedChildren → ℕ → WalBlobBuilder → Option WalBlobBuilder
  unfolding write_all
  write_update page_id page_diff changed elided_children bucket_index b =
      Option.bind
        (write_all ((tag_update ∷ []) ∷ page_id ∷ bitmap_bytes 16 (as_bytes page_diff) ∷ []) b)
        λ b.
          Option.bind (write_all changed b)
            (write_all (elided_to_bytes elided_children ∷ to_le_bytes 8 bucket_index ∷ []))

  unfoldable pub reset : ℕ → WalBlobBuilder → Option WalBlobBuilder
  unfolding write_all
  reset sync_seqn b =
      write_all ((tag_start ∷ []) ∷ to_le_bytes 4 sync_seqn ∷ []) (record b { cur = 0 })

  unfoldable pub finalize : WalBlobBuilder → Option WalBlobBuilder
  finalize b = Option.bind (write (tag_end ∷ []) b) pad

  -- The call of the builder for a change, in `prepare_sync` of bitbox/mod.rs.
  unfoldable pub write_entry : WalEntry → WalBlobBuilder → Option WalBlobBuilder
  write_entry (update page_id d nodes elided bucket) = write_update page_id d nodes elided bucket
  write_entry (clear bucket) = write_clear bucket

  unfoldable pub write_entries : List WalEntry → WalBlobBuilder → Option WalBlobBuilder
  write_entries [] b = some b
  write_entries (e ∷ es) b = Option.bind (write_entry e b) (write_entries es)

  -- What `prepare_sync` does with the builder.
  unfoldable pub write_log : ℕ → List WalEntry → WalBlobBuilder → Option WalBlobBuilder
  write_log sync_seqn es b =
      Option.bind (reset sync_seqn b) λ b. Option.bind (write_entries es b) finalize

unfoldable pub as_slice : WalBlobBuilder → Bytes
as_slice b = take b.cur b.memory
