-- ===== src/Bitbox/Examples/Log.antt =====
-- Tests of the log of the hash table (nomt/src/bitbox/wal), and instances of its theorems.
use nomt.Base.{
  ℕ, ◌≡◌, refl, Bool, true, false, List, [], ◌∷◌, replicate, length, some, ok, arith, to_le_bytes,
}
use nomt.Merkle.PageDiff.{PageDiff, as_bytes, count, count_ones}
use nomt.Bitbox.Wal.{WalEntry, update, clear, bitmap_bytes, bits_value, elided_to_bytes}
use nomt.Bitbox.Wal.Write.{WalBlobBuilder, write, write_log, as_slice}
use nomt.Bitbox.Wal.Builder.{flatten, IsValid, Extends, write-Extends}
use nomt.Bitbox.Wal.RoundTrip.{entries_bytes, IsWritable}
use nomt.Bitbox.Wal.Read.{read_log}
use nomt.Bitbox.Wal.Log.{read_log-write_log}

abbrev fresh : WalBlobBuilder
fresh = record { memory = replicate 4096 0; cur = 0 }

abbrev given : ℕ → Bool
given size = true

abbrev refused : ℕ → Bool
refused size = false

fresh_size : length (replicate {A = ℕ} 4096 0) ≡ 4096
fresh_size = refl

fresh-IsValid : IsValid fresh
fresh-IsValid = record {
  within = omega (arith, fresh_size);
  pages = refl;
  mapped = omega (arith, fresh_size);
}

write-Extends_example :
    (b : WalBlobBuilder) × (write refused given (5 ∷ 6 ∷ []) fresh ≡ some b)
    × Extends fresh b (5 ∷ 6 ∷ [])
write-Extends_example =
    write-Extends refused given (λ size. refl) fresh (5 ∷ 6 ∷ []) fresh-IsValid (omega arith)

-- The first node has changed.
abbrev diff : PageDiff
diff = record { low = true ∷ replicate 63 false; high = replicate 64 false }

abbrev entries : List WalEntry
entries =
    clear 9 ∷ update (replicate 32 3) diff (replicate 32 200 ∷ []) (record { elided = 6 }) 700 ∷ []

one : count diff ≡ 1
unfolding count count_ones
one = refl

diff-IsWritable : IsWritable diff
diff-IsWritable = record {
  diff = record { low_word = refl; high_word = refl };
  no_spare = refl;
  not_cleared = refl;
}

bytes_small : length (entries_bytes entries []) ≡ 106
unfolding bitmap_bytes bits_value flatten elided_to_bytes to_le_bytes as_bytes
bytes_small = refl

read_log-write_log_example :
    (b : WalBlobBuilder) × (write_log refused given 77 entries fresh ≡ some b)
    × (read_log 3 (as_slice b) ≡ ok (77, entries))
read_log-write_log_example =
    read_log-write_log refused given (λ size. refl) fresh 77 entries 3 fresh-IsValid
      (omega (arith, bytes_small)) (omega arith)
      (omega arith, ((refl, diff-IsWritable, (refl, tt), one, omega arith, omega arith), tt))
      (omega arith)
