-- ===== src/Bitbox/Recover/Crash.antt =====
-- A recovery that was interrupted, and the next one (`recover` of nomt/src/bitbox/mod.rs).
use nomt.Base.{
  ℕ, zero, suc, ◌≡◌, refl, ap, ◌∙◌, sym, true, nat_eq, nat_beq, ==_refl, List, [], ◌∷◌, Bytes, take,
  drop, take-append-drop, Option, none, some, ok, and_then, and_then-ok, ok_inj,
}
use mathlib.Core.Option
use mathlib.Core.Path.{fun_ext}
use nomt.Bitbox.Wal.{WalEntry}
use nomt.Bitbox.Wal.Read.{WalBlobReader, read_entry, read_entries, reader_new, read_log}
use nomt.Bitbox.Recover.{HtState, apply_entry, apply_entries, recover_loop, finish, recover}
use nomt.Bitbox.Recover.Overwrite.{inj_some, bind-some, run_again}
use nomt.Bitbox.Recover.Replay.{
  IsFile, get_byte_at, file_ext, steps, steps-append, HaveWidths, steps-Overwrites,
}
use nomt.Bitbox.Wal.Rounds.{entries_after, read_entries-after}
use nomt.Bitbox.Recover.Widths.{read_log-HaveWidths}
use nomt.Bitbox.Recover.Restart.{apply_entries-steps, apply_entries-moved}

HaveWidths-take : (k : ℕ) (es : List WalEntry) → HaveWidths es → HaveWidths (take k es)
HaveWidths-take zero es w = tt
HaveWidths-take (suc k) [] w = tt
HaveWidths-take (suc k) (e ∷ es) (w, ws) = (w, HaveWidths-take k es ws)

HaveWidths-drop : (k : ℕ) (es : List WalEntry) → HaveWidths es → HaveWidths (drop k es)
HaveWidths-drop zero es w = w
HaveWidths-drop (suc k) [] w = tt
HaveWidths-drop (suc k) (e ∷ es) (w, ws) = HaveWidths-drop k es ws

module _ (data_page_offset : ℕ) (hash : Bytes → ℕ) where
  -- Whether the rounds that follow apply the entries that they read.
  abbrev Applies : ℕ → Type 0
  Applies fuel =
      (r : WalBlobReader) (es : List WalEntry) (s : HtState)
      → read_entries fuel r ≡ ok es
      → recover_loop data_page_offset hash fuel r s ≡ apply_entries data_page_offset hash es s

  round :
      (fuel : ℕ)
      → Applies fuel
      → (o : Option WalEntry) (r next : WalBlobReader) (es : List WalEntry) (s : HtState)
      → read_entry r ≡ ok (o, next)
      → entries_after fuel (o, next) ≡ ok es
      → recover_loop data_page_offset hash (suc fuel) r s ≡ apply_entries data_page_offset hash es s
  unfolding entries_after recover_loop apply_entries and_then
  round fuel later none r next es s e h = rw (e, ← ok_inj [] es h) refl
  round fuel later (some x) r next es s e h =
      let (fs, read, same) = and_then-ok (read_entries fuel next) _ h in
      rw (e, ← ok_inj (x ∷ fs) es same)
        (ap (and_then (apply_entry data_page_offset hash x s)) (fun_ext λ t. later next fs t read))

  recover_loop-apply_entries : (fuel : ℕ) → Applies fuel
  unfolding read_entries
  recover_loop-apply_entries zero r es s h = absurd (cc)
  recover_loop-apply_entries (suc fuel) r es s h =
      let ((o, next), e, rest) =
        and_then-ok (read_entry r) (entries_after fuel) (sym (read_entries-after fuel r) ∙ h) in
      round fuel (recover_loop-apply_entries fuel) o r next es s e rest

  -- A log that is read to its end is applied entry by entry; the meta pages follow, and the log is
  -- made empty.
  recover-apply_entries :
      (fuel sync_seqn : ℕ) (wal : Bytes) (es : List WalEntry) (s : HtState)
      → read_log fuel wal ≡ ok (sync_seqn, es)
      → recover data_page_offset hash fuel sync_seqn wal s
        ≡ and_then
            (apply_entries data_page_offset hash es (record s { changed_meta_page_ixs = [] }))
            (finish wal)
  unfolding read_log recover and_then
  recover-apply_entries fuel sync_seqn wal es s h =
      let (r, opened, rest) = and_then-ok (reader_new wal) _ h in
      let (fs, read, last) = and_then-ok (read_entries fuel r) _ rest in
      let same = ok_inj (r.sync_seqn, fs) (sync_seqn, es) last in
      let test : nat_beq r.sync_seqn sync_seqn ≡ true =
        ap (λ n. nat_beq r.sync_seqn n) (sym (ap (λ x. x.0) same)) ∙ ==_refl r.sync_seqn in
      rw
        (
          opened,
          test,
          recover_loop-apply_entries fuel r fs (record s { changed_meta_page_ixs = [] }) read,
          ap (λ x. x.1) same,
        )
        refl

  -- Where the pages of the file have 4096 bytes, and the log is read to its end with the number of
  -- the sync: a recovery that stopped after any number of the entries, before it wrote a meta page,
  -- can be started again on the pages that it left and the meta map that it began with, and ends
  -- with the meta map, the pages and the emptied log of a recovery that did not stop.
  pub recover_restarts :
      (fuel sync_seqn : ℕ) (wal : Bytes) (es : List WalEntry) (k : ℕ) (s stopped : HtState)
      → (done : HtState × Bytes) → IsFile s.pages
      → read_log fuel wal ≡ ok (sync_seqn, es)
      → apply_entries data_page_offset hash (take k es) (record s { changed_meta_page_ixs = [] })
        ≡ ok stopped
      → recover data_page_offset hash fuel sync_seqn wal s ≡ ok done
      → recover data_page_offset hash fuel sync_seqn wal (record s { pages = stopped.pages })
        ≡ ok done
  unfolding and_then
  recover_restarts fuel sync_seqn wal es k s stopped done file logged partly whole =
      let widths = read_log-HaveWidths fuel sync_seqn wal es logged in
      let again : HtState = record s { pages = stopped.pages } in
      let clean : HtState = record s { changed_meta_page_ixs = [] } in
      let (t, applied, written) =
        and_then-ok (apply_entries data_page_offset hash es clean) _
          (sym (recover-apply_entries fuel sync_seqn wal es s logged) ∙ whole) in
      let op = steps data_page_offset (take k es) in
      let next = steps data_page_offset (drop k es) in
      let first = apply_entries-steps data_page_offset hash (take k es) clean stopped partly in
      let split : (pages : ℕ → Bytes)
          → steps data_page_offset es pages ≡ Option.bind (op pages) next =
        λ pages.
          ap (λ fs. steps data_page_offset fs pages) (sym (take-append-drop k es))
          ∙ steps-append data_page_offset (take k es) (drop k es) pages in
      let all = apply_entries-steps data_page_offset hash es clean t applied in
      let (m, first', second) = bind-some (op s.pages) next t.pages (sym (split s.pages) ∙ all) in
      let same : m ≡ stopped.pages = inj_some m stopped.pages (sym first' ∙ first) in
      let rerun =
        run_again IsFile get_byte_at op next
          (steps-Overwrites data_page_offset (take k es) (HaveWidths-take k es widths))
          (steps-Overwrites data_page_offset (drop k es) (HaveWidths-drop k es widths)) file_ext
          s.pages stopped.pages t.pages file first (rw (← same) second) in
      recover-apply_entries fuel sync_seqn wal es again logged
      ∙ rw
          (apply_entries-moved data_page_offset hash es clean t stopped.pages t.pages applied
            (split stopped.pages ∙ rerun))
          written
