-- ===== src/Bitbox/Wal/Fields.antt =====
-- The fields of an entry are read back (nomt/src/bitbox/wal/read.rs).
use nomt.Base.{
  ℕ, zero, suc, ◌+◌, ◌*◌, ◌^◌, ◌≤◌, ◌<◌, ◌≡◌, refl, ap, ap₂, ◌∙◌, sym, false, List, [], ◌∷◌, ◌++◌,
  Bytes, slice, to_le_bytes, from_le_bytes-to_le_bytes, length-to_le_bytes, nat_eq, ltb, leb,
  length, take, drop, get_or, ok, and_then, arith, length-append, length-drop, take-append,
  drop-append_past, drop-drop, le→ltb-false,
}
use mathlib.Core.List.{append_assoc}
use nomt.Bitbox.Wal.Builder.{flatten}
use nomt.Bitbox.Wal.Read.{WalBlobReader, read_byte, read_buf, read_u64, read_nodes}

-- The reader stands before the bytes `xs`, the last of the log.
pub record At (r : WalBlobReader) (xs : Bytes) : Type 0 where
  pub before : drop r.offset r.wal ≡ xs
  pub within : r.offset ≤ length r.wal

abbrev pub moved : WalBlobReader → ℕ → WalBlobReader
moved r n = record r { offset = r.offset + n }

pub moved-At :
    (r : WalBlobReader) (n : ℕ) (bytes rest : Bytes)
    → length bytes ≡ n
    → At r (bytes ++ rest)
    → At (moved r n) rest
moved-At r n bytes rest size at =
    let total = ap length at.before ∙ length-append bytes rest in
    record {
      before =
          sym (drop-drop n r.offset r.wal)
          ∙ ap (drop n) at.before
          ∙ drop-append_past n bytes rest size;
      within = omega (arith, total, size, length-drop {0} r.offset r.wal);
    }

pub read_buf-At :
    (r : WalBlobReader) (n : ℕ) (bytes rest : Bytes)
    → length bytes ≡ n
    → At r (bytes ++ rest)
    → read_buf n r ≡ ok (bytes, moved r n)
unfolding read_buf
read_buf-At r n bytes rest size at =
    let total = ap length at.before ∙ length-append bytes rest in
    let fits : ltb (length r.wal) (r.offset + n) ≡ false =
      le→ltb-false (length r.wal) (r.offset + n)
        (omega (arith, total, size, at.within, length-drop {0} r.offset r.wal)) in
    let same : slice r.offset (r.offset + n) r.wal ≡ bytes =
      ap₂ (λ k xs. take k xs) (omega (arith, size)) at.before ∙ take-append bytes rest in
    rw fits (ap (λ t. ok (t, moved r n)) same)

get_or-drop_zero : (xs : Bytes) (i x : ℕ) (rest : Bytes) → drop i xs ≡ x ∷ rest → get_or xs i 0 ≡ x
get_or-drop_zero [] zero x rest e = absurd (cc)
get_or-drop_zero [] (suc i) x rest e = absurd (cc)
get_or-drop_zero (y ∷ ys) zero x rest e = ground arith
get_or-drop_zero (y ∷ ys) (suc i) x rest e = get_or-drop_zero ys i x rest e

pub read_byte-At :
    (r : WalBlobReader) (byte : ℕ) (rest : Bytes)
    → At r (byte ∷ rest)
    → read_byte r ≡ ok (byte, moved r 1)
unfolding read_byte
read_byte-At r byte rest at =
    let total = ap length at.before in
    let more : leb (length r.wal) r.offset ≡ false =
      let inside : r.offset < length r.wal = omega (arith, total, length-drop {0} r.offset r.wal) in
      ground arith in
    rw more (ap (λ t. ok (t, moved r 1)) (get_or-drop_zero r.wal r.offset byte rest at.before))

pub read_u64-At :
    (r : WalBlobReader) (n : ℕ) (rest : Bytes)
    → n < 2 ^ 64
    → At r (to_le_bytes 8 n ++ rest)
    → read_u64 r ≡ ok (n, moved r 8)
unfolding read_u64 and_then
read_u64-At r n rest h at =
    rw (read_buf-At r 8 (to_le_bytes 8 n) rest (length-to_le_bytes 8 n) at)
      (ap (λ t. ok (t, moved r 8)) (from_le_bytes-to_le_bytes 8 n (omega arith)))

-- The nodes of an update, each of 32 bytes.
abbrev pub AreNodes : List Bytes → Type 0
AreNodes [] = Unit
AreNodes (node ∷ nodes) = (length node ≡ 32) × AreNodes nodes

pub length-flatten :
    (nodes : List Bytes) → AreNodes nodes → length (flatten nodes) ≡ length nodes * 32
unfolding flatten
length-flatten [] h = refl
length-flatten (node ∷ nodes) (size, h) =
    omega (arith, length-append {0} node (flatten nodes), length-flatten nodes h)

pub read_nodes-At :
    (r : WalBlobReader) (nodes : List Bytes) (rest : Bytes)
    → AreNodes nodes
    → At r (flatten nodes ++ rest)
    → read_nodes (length nodes) r ≡ ok (nodes, moved r (length nodes * 32))
unfolding read_nodes flatten and_then
read_nodes-At r [] rest h at = ground arith
read_nodes-At r (node ∷ nodes) rest (size, h) at =
    let at' : At r (node ++ (flatten nodes ++ rest)) =
      rw (sym (append_assoc node (flatten nodes) rest)) at in
    rw
      (
        read_buf-At r 32 node (flatten nodes ++ rest) size at',
        read_nodes-At (moved r 32) nodes rest h
            (moved-At r 32 node (flatten nodes ++ rest) size at'),
      )
      (ground arith)
