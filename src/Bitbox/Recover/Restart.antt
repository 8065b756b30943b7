-- ===== src/Bitbox/Recover/Restart.antt =====
-- A recovery started again after one that did not end (`recover` of nomt/src/bitbox/mod.rs).
use nomt.Base.{
  ℕ, ◌≡◌, refl, ap, ap₂, ◌∙◌, List, [], ◌∷◌, Bytes, some, ok, err, and_then, and_then-ok, ok_inj,
  Result,
}
use mathlib.Core.Option
use mathlib.Core.Option.{none-ne-some}
use nomt.Bitbox.Wal.{WalEntry}
use nomt.Bitbox.Recover.{RecoverError, HtState, entry_pages, entry_meta, apply_entry, apply_entries}
use nomt.Bitbox.Recover.Overwrite.{inj_some, bind-some}
use nomt.Bitbox.Recover.Replay.{to_some, step, steps}

to_some_inv : {A : Type 0} (r : Result RecoverError A) (a : A) → to_some r ≡ some a → r ≡ ok a
to_some_inv (err e) a h = absurd (none-ne-some a h)
to_some_inv (ok b) a h = ap ok (inj_some b a h)

module _ (data_page_offset : ℕ) (hash : Bytes → ℕ) where
  record Split (e : WalEntry) (s t : HtState) : Type 0 where
    meta :
        entry_meta hash e s.meta_map s.changed_meta_page_ixs
        ≡ ok (t.meta_map, t.changed_meta_page_ixs)
    data_pages : entry_pages data_page_offset e s.pages ≡ ok t.pages

  apply_entry-Split :
      (e : WalEntry) (s t : HtState) → apply_entry data_page_offset hash e s ≡ ok t → Split e s t
  unfolding apply_entry
  apply_entry-Split e s t h =
      let (m, at_meta, rest) =
        and_then-ok (entry_meta hash e s.meta_map s.changed_meta_page_ixs) _ h in
      let (ixs_map, ixs) = m in
      let (pages, at_pages, last) = and_then-ok (entry_pages data_page_offset e s.pages) _ rest in
      let same = ok_inj _ t last in
      record {
        meta = at_meta ∙ ap (λ u. ok (u.meta_map, u.changed_meta_page_ixs)) same;
        data_pages = at_pages ∙ ap (λ u. ok u.pages) same;
      }

  -- An entry that applies, applied to other pages.
  apply_entry-moved :
      (e : WalEntry) (s t : HtState) (p q : ℕ → Bytes)
      → apply_entry data_page_offset hash e s ≡ ok t
      → step data_page_offset e p ≡ some q
      → apply_entry data_page_offset hash e (record s { pages = p }) ≡ ok (record t { pages = q })
  unfolding apply_entry step and_then
  apply_entry-moved e s t p q h k =
      let split = apply_entry-Split e s t h in
      rw (split.meta, to_some_inv (entry_pages data_page_offset e p) q k) refl

  pub apply_entries-steps :
      (es : List WalEntry) (s t : HtState)
      → apply_entries data_page_offset hash es s ≡ ok t
      → steps data_page_offset es s.pages ≡ some t.pages
  unfolding apply_entries steps step Option.bind
  apply_entries-steps [] s t h = ap (λ (u : HtState). some u.pages) (ok_inj s t h)
  apply_entries-steps (e ∷ es) s t h =
      let (u, first, rest) = and_then-ok (apply_entry data_page_offset hash e s) _ h in
      rw ((apply_entry-Split e s u first).data_pages) (apply_entries-steps es u t rest)

  pub apply_entries-moved :
      (es : List WalEntry) (s t : HtState) (p q : ℕ → Bytes)
      → apply_entries data_page_offset hash es s ≡ ok t
      → steps data_page_offset es p ≡ some q
      → apply_entries data_page_offset hash es (record s { pages = p })
        ≡ ok (record t { pages = q })
  unfolding apply_entries steps and_then
  apply_entries-moved [] s t p q h k =
      ap₂ (λ (u : HtState) (r : ℕ → Bytes). ok (record u { pages = r })) (ok_inj s t h)
        (inj_some p q k)
  apply_entries-moved (e ∷ es) s t p q h k =
      let (u, first, rest) = and_then-ok (apply_entry data_page_offset hash e s) _ h in
      let (r, first', rest') =
        bind-some (step data_page_offset e p) (steps data_page_offset es) q k in
      rw (apply_entry-moved e s u p r first first') (apply_entries-moved es u t r q rest rest')
