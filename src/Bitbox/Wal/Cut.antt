-- ===== src/Bitbox/Wal/Cut.antt =====
-- Runs of the reader of a log on a file that was cut short (nomt/src/bitbox/wal/read.rs).
pub mod File
use nomt.Base.{
  ℕ, zero, suc, ◌+◌, ◌-◌, ◌%◌, ◌≤◌, ◌<◌, ◌≡◌, refl, ap, ap₂, ◌∙◌, sym, Bool, true, false, List, [],
  ◌∷◌, ◌++◌, Bytes, from_le_bytes, slice, length, length-append, take, drop, get_or,
  get_or-append_left, take-append_left, drop-append_left, length-drop, take-append-drop, nat_eq,
  ◌==◌, Option, none, some, ok, err, and_then, and_then-ok, ok_inj, Result, ltb, leb, if◌then◌else◌,
  arith, ◌⊎◌, Bool-cases, eq_or_ne, ◌≢◌, ne→nat_beq, inl, inr, lt_or_ge, lt→ltb, le→ltb-false,
  le→leb,
}
use nomt.Merkle.PageDiff.{count}
use nomt.Bitbox.Wal.{
  tag_start, tag_clear, tag_update, tag_end, elided_from_bytes, WalEntry, update, clear,
}
use nomt.Bitbox.Wal.Read.{
  WalError, out_of_fuel, unknown_entry_tag, unexpected_tag_at_start, not_page_aligned,
  unexpected_end, WalBlobReader, read_byte, read_buf, read_u64, read_u32, read_nodes, diff_of,
  read_clear, read_update, read_entry, read_entries, read_start, reader_new, read_log,
}
use nomt.Bitbox.Wal.Rounds.{entries_after, read_entries-after}

-- Where a run on the longer file gives a value, that on the shorter gives the value that it comes
-- from, or meets the end of the file.
pub Cuts : {A : Type 0} → (A → A) → Result WalError A → Result WalError A → Type 0
Cuts {A = A} up short long =
    (v : A) → long ≡ ok v → (short ≡ err unexpected_end) ⊎ ((u : A) × (short ≡ ok u) × (up u ≡ v))

pub same-Cuts : {A : Type 0} (r : Result WalError A) → Cuts (λ a. a) r r
unfolding Cuts
same-Cuts r v e = inr (v, e, refl)

module _ {A : Type 0} (up : A → A) where
  pub ok-Cuts : (a : A) → Cuts up (ok a) (ok (up a))
  unfolding Cuts
  ok-Cuts a v e = inr (a, refl, ok_inj (up a) v e)

  pub err-Cuts : (short : Result WalError A) (e : WalError) → Cuts up short (err e)
  unfolding Cuts
  err-Cuts short e v h = absurd (cc)

  pub end-Cuts : (short long : Result WalError A) → short ≡ err unexpected_end → Cuts up short long
  unfolding Cuts
  end-Cuts short long e v h = inl e

  pub if-Cuts :
      (test : Bool) (x x' y y' : Result WalError A)
      → Cuts up x x'
      → Cuts up y y'
      → Cuts up (if test then x else y) (if test then x' else y')
  if-Cuts true x x' y y' c d = c
  if-Cuts false x x' y y' c d = d

  module _ {B : Type 0} (up' : B → B) where
    pub then-Cuts :
        (short long : Result WalError A) (f g : A → Result WalError B)
        → Cuts up short long
        → ((a : A) → Cuts up' (f a) (g (up a)))
        → Cuts up' (and_then short f) (and_then long g)
    unfolding Cuts and_then
    then-Cuts short long f g c d v h =
        let (a', run, rest) = and_then-ok long g h in
        elim (c a' run) [
          | inl e ↦ inl (rw e refl)
          | inr (a, e, same) ↦ elim (d a v (rw same rest)) [
            | inl e' ↦ inl (rw e e')
            | inr (b, e', same') ↦ inr (b, rw e e', same')
          ]
        ]
