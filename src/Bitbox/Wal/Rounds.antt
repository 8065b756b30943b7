-- ===== src/Bitbox/Wal/Rounds.antt =====
-- A round of the reading of a log (nomt/src/bitbox/wal/read.rs).
use nomt.Base.{ℕ, suc, ◌≡◌, refl, ap, List, [], ◌∷◌, Option, none, some, ok, and_then, Result}
use mathlib.Core.Path.{fun_ext}
use nomt.Bitbox.Wal.{WalEntry}
use nomt.Bitbox.Wal.Read.{WalError, WalBlobReader, read_entry, read_entries}

-- The entries, after an entry or the end is read.
unfoldable pub entries_after : ℕ → Option WalEntry × WalBlobReader → Result WalError (List WalEntry)
unfolding read_entries
entries_after fuel (none, next) = ok []
entries_after fuel (some e, next) = and_then (read_entries fuel next) λ entries. ok (e ∷ entries)

pub read_entries-after :
    (fuel : ℕ) (r : WalBlobReader)
    → read_entries (suc fuel) r ≡ and_then (read_entry r) (entries_after fuel)
unfolding read_entries entries_after
read_entries-after fuel r = ap (and_then (read_entry r)) (fun_ext go)
  where
    go :
        (x : Option WalEntry × WalBlobReader)
        → (let (entry, r) = x in
            elim entry [
              | none ↦ ok []
              | some e ↦ and_then (read_entries fuel r) λ entries. ok (e ∷ entries)
            ])
          ≡ entries_after fuel x
    go (none, next) = refl
    go (some e, next) = refl
