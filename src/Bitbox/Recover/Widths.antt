-- ===== src/Bitbox/Recover/Widths.antt =====
-- The widths of what the reader of a log yields (nomt/src/bitbox/wal/read.rs).
use nomt.Base.{
  ℕ, zero, suc, ◌+◌, ◌-◌, ◌≡◌, ap, ◌∙◌, sym, List, [], ◌∷◌, Bytes, drop, slice, length, length-take,
  length-drop, nat_eq, ◌==◌, Option, none, some, ok, and_then-ok, ok_inj, if◌then◌else◌, arith, inl,
  inr, lt_or_ge, lt→ltb, le→ltb-false, ◌⊎◌, Bool, true, false,
}
use mathlib.Core.Path.{subst}
use nomt.Merkle.PageDiff.{count}
use nomt.Bitbox.Wal.{tag_clear, tag_update, tag_end, WalEntry, clear}
use nomt.Bitbox.Wal.Fields.{AreNodes}
use nomt.Bitbox.Wal.Read.{
  WalBlobReader, read_byte, read_buf, read_u64, read_nodes, diff_of, read_clear, read_update,
  read_entry, read_entries, reader_new, read_log,
}
use nomt.Bitbox.Wal.Rounds.{entries_after, read_entries-after}
use nomt.Bitbox.Recover.Replay.{HasWidths, HaveWidths}

read_buf_width :
    (n : ℕ) (r next : WalBlobReader) (bytes : Bytes)
    → read_buf n r ≡ ok (bytes, next)
    → length bytes ≡ n
unfolding read_buf
read_buf_width n r next bytes h = elim (lt_or_ge (length r.wal) (r.offset + n)) [
  | inl short ↦ absurd (ground (arith, lt→ltb (length r.wal) (r.offset + n) short))
  | inr l ↦
      let same : slice r.offset (r.offset + n) r.wal ≡ bytes =
        ground (arith, le→ltb-false (length r.wal) (r.offset + n) l) in
      rw (← same) (
        omega (
          arith,
          length-drop {0} r.offset r.wal,
          length-take {0} (r.offset + n - r.offset) (drop r.offset r.wal),
          l,
        ))
]

read_nodes-AreNodes :
    (n : ℕ) (r next : WalBlobReader) (nodes : List Bytes)
    → read_nodes n r ≡ ok (nodes, next)
    → AreNodes nodes
unfolding read_nodes
read_nodes-AreNodes zero r next nodes h = rw (← ap (λ x. x.0) (ok_inj ([], r) (nodes, next) h)) tt
read_nodes-AreNodes (suc n) r next nodes h =
    let ((node, r1), e1, h1) = and_then-ok (read_buf 32 r) _ h in
    let ((later, r2), e2, h2) = and_then-ok (read_nodes n r1) _ h1 in
    rw (← ap (λ x. x.0) (ok_inj (node ∷ later, r2) (nodes, next) h2))
      (read_buf_width 32 r r1 node e1, read_nodes-AreNodes n r1 r2 later e2)

OptionHasWidths : Option WalEntry → Type 0
OptionHasWidths none = Unit
OptionHasWidths (some e) = HasWidths e

read_update-HasWidths :
    (r next : WalBlobReader) (o : Option WalEntry)
    → read_update r ≡ ok (o, next)
    → OptionHasWidths o
unfolding read_update OptionHasWidths
read_update-HasWidths r next o h =
    let ((page_id, r1), e1, h1) = and_then-ok (read_buf 32 r) _ h in
    let ((bytes, r2), e2, h2) = and_then-ok (read_buf 16 r1) _ h1 in
    let (d, e3, h3) = and_then-ok (diff_of bytes) _ h2 in
    let ((nodes, r3), e4, h4) = and_then-ok (read_nodes (count d) r2) _ h3 in
    let ((elided, r4), e5, h5) = and_then-ok (read_buf 8 r3) _ h4 in
    let ((bucket, r5), e6, h6) = and_then-ok (read_u64 r4) _ h5 in
    subst OptionHasWidths (ap (λ x. x.0) (ok_inj _ (o, next) h6))
      (read_buf_width 32 r r1 page_id e1, read_nodes-AreNodes (count d) r2 r3 nodes e4)

read_clear-HasWidths :
    (r next : WalBlobReader) (o : Option WalEntry) → read_clear r ≡ ok (o, next) → OptionHasWidths o
unfolding read_clear OptionHasWidths
read_clear-HasWidths r next o h =
    let ((bucket, r1), e1, h1) = and_then-ok (read_u64 r) _ h in
    subst OptionHasWidths (ap (λ x. x.0) (ok_inj (some (clear bucket), r1) (o, next) h1)) tt

if_either : {A : Type 0} (test : Bool) (x y v : A) → (if test then x else y) ≡ v → (x ≡ v) ⊎ (y ≡ v)
if_either true x y v h = inl h
if_either false x y v h = inr h

read_entry-HasWidths :
    (r next : WalBlobReader) (o : Option WalEntry) → read_entry r ≡ ok (o, next) → OptionHasWidths o
unfolding read_entry OptionHasWidths
read_entry-HasWidths r next o h =
    let ((tag, r1), e1, h1) = and_then-ok (read_byte r) _ h in
    elim (if_either (tag == tag_end) _ _ _ h1) [
      | inl is_end ↦ subst OptionHasWidths (ap (λ x. x.0) (ok_inj (none, r1) (o, next) is_end)) tt
      | inr h2 ↦ elim (if_either (tag == tag_clear) _ _ _ h2) [
        | inl is_clear ↦ read_clear-HasWidths r1 next o is_clear
        | inr h3 ↦ elim (if_either (tag == tag_update) _ _ _ h3) [
          | inl is_update ↦ read_update-HasWidths r1 next o is_update
          | inr unknown ↦ absurd (cc)
        ]
      ]
    ]

entries-HaveWidths :
    (fuel : ℕ)
    → ((r : WalBlobReader) (es : List WalEntry) → read_entries fuel r ≡ ok es → HaveWidths es)
    → (o : Option WalEntry) (r : WalBlobReader) (es : List WalEntry) → OptionHasWidths o
    → entries_after fuel (o, r) ≡ ok es
    → HaveWidths es
unfolding entries_after OptionHasWidths
entries-HaveWidths fuel later none r es w h = subst HaveWidths (ok_inj [] es h) tt
entries-HaveWidths fuel later (some e) r es w h =
    let (fs, read, same) = and_then-ok (read_entries fuel r) _ h in
    subst HaveWidths (ok_inj (e ∷ fs) es same) (w, later r fs read)

pub read_entries-HaveWidths :
    (fuel : ℕ) (r : WalBlobReader) (es : List WalEntry)
    → read_entries fuel r ≡ ok es
    → HaveWidths es
unfolding read_entries
read_entries-HaveWidths zero r es h = absurd (cc)
read_entries-HaveWidths (suc fuel) r es h =
    let ((o, next), e, rest) =
      and_then-ok (read_entry r) (entries_after fuel) (sym (read_entries-after fuel r) ∙ h) in
    entries-HaveWidths fuel (read_entries-HaveWidths fuel) o next es
      (read_entry-HasWidths r next o e) rest

pub read_log-HaveWidths :
    (fuel sync_seqn : ℕ) (wal : Bytes) (es : List WalEntry)
    → read_log fuel wal ≡ ok (sync_seqn, es)
    → HaveWidths es
unfolding read_log
read_log-HaveWidths fuel sync_seqn wal es h =
    let (r, opened, rest) = and_then-ok (reader_new wal) _ h in
    let (fs, read, last) = and_then-ok (read_entries fuel r) _ rest in
    subst HaveWidths (ap (λ x. x.1) (ok_inj (r.sync_seqn, fs) (sync_seqn, es) last))
      (read_entries-HaveWidths fuel r fs read)
