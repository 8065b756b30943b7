-- ===== src/Bitbox/Recover/Replay.antt =====
-- A recovery that was interrupted, and the next one (`recover` of nomt/src/bitbox/mod.rs).
use nomt.Base.{
  list_ext, ℕ, ◌+◌, ◌≡◌, refl, ◌∙◌, sym, Bool, not, true, List, [], ◌∷◌, ◌++◌, Bytes, length,
  nat_eq, ◌==◌, nat_beq_iff, nat_beq, if◌then◌else◌, Option-cases, Option, none, some, arith, inl,
  inr, Result, ok, err, and_then, ok_or, Bool-cases,
}
use mathlib.Core.Option
use mathlib.Core.Path.{fun_ext}
use nomt.Merkle.PageDiff.{count}
use nomt.Bitbox.Wal.{WalEntry, update, clear}
use nomt.Bitbox.Wal.Fields.{AreNodes}
use nomt.Bitbox.Recover.{
  RecoverError, panicked, mismatched_nodes, write_page, recovered_page, data_page_index,
  entry_pages,
}
use nomt.Bitbox.Recover.Overwrite.{
  wins, map-some, Written, Overwrites, some-Overwrites, none-Overwrites, then-Overwrites,
  eq-Overwrites,
}
use nomt.Bitbox.Recover.Pages.{IsPage, get_byte, recovered_page-Overwrites}

-- A file whose pages have their length.
abbrev pub IsFile : (ℕ → Bytes) → Type 0
IsFile pages = (n : ℕ) → IsPage (pages n)

abbrev pub get_byte_at : (ℕ → Bytes) → ℕ × ℕ → ℕ
get_byte_at pages (n, i) = get_byte (pages n) i

pub file_ext :
    (p q : ℕ → Bytes)
    → IsFile p
    → IsFile q
    → ((k : ℕ × ℕ) → get_byte_at p k ≡ get_byte_at q k)
    → p ≡ q
file_ext p q v w e = fun_ext λ n. list_ext 0 (p n) (q n) (v n ∙ sym (w n)) (λ i. e (n, i))

module _ (pn : ℕ) (op : Bytes → Option Bytes) (o : Overwrites IsPage get_byte op) where
  write_op : (ℕ → Bytes) → Option (ℕ → Bytes)
  write_op pages = Option.map (λ page. write_page pn page pages) (op (pages pn))

  over_at : ℕ × ℕ → Option ℕ
  over_at (n, i) = if n == pn then o.over i else none

  same_of : (a b : ℕ) → nat_beq a b ≡ true → a ≡ b
  same_of a b e = ground (arith, nat_beq_iff a b)

  write_page-Written :
      (p : ℕ → Bytes) (page : Bytes)
      → IsFile p
      → op (p pn) ≡ some page
      → Written IsFile get_byte_at over_at p (write_page pn page p)
  unfolding write_page over_at wins
  write_page-Written p page v run =
      let w = o.written (p pn) page (v pn) run in
      record {
        valid = λ n. elim (Bool-cases (n == pn)) [ inl e ↦ rw e w.valid | inr e ↦ rw e (v n) ];
        reads = λ k.
            let (n, i) = k in
            elim (Bool-cases (n == pn)) [
              | inl e ↦ rw (e, same_of n pn e) (w.reads i)
              | inr e ↦ rw e refl
            ];
      }

  write_op-Overwrites : Overwrites IsFile get_byte_at write_op
  unfolding write_op
  write_op-Overwrites = record {
    over = over_at;
    written = λ p q v e.
        let (page, run, same) = map-some (op (p pn)) (λ page. write_page pn page p) q e in
        rw (← same) (write_page-Written p page v run);
    again = λ p q r v w e.
        let (page, run, same) = map-some (op (p pn)) (λ page. write_page pn page p) q e in
        let (page', run') = o.again (p pn) page (r pn) (v pn) (w pn) run in
        (write_page pn page' r, rw run' refl);
  }

-- What is done to the pages by an entry, and by entries.
abbrev pub to_some : {A : Type 0} → Result RecoverError A → Option A
to_some (err e) = none
to_some (ok a) = some a

to_some-page :
    (pn : ℕ) (page : Option Bytes) (pages : ℕ → Bytes)
    → to_some (and_then (ok_or page panicked) (λ page. ok (write_page pn page pages)))
      ≡ Option.map (λ page. write_page pn page pages) page
unfolding and_then
to_some-page pn none pages = refl
to_some-page pn (some page) pages = refl

to_some-guard :
    {A : Type 0} (test : Bool) (r : Result RecoverError A)
    → test ≡ true
    → to_some (if not test then err mismatched_nodes else r) ≡ to_some r
to_some-guard test r e = rw e refl

unfoldable pub step : ℕ → WalEntry → (ℕ → Bytes) → Option (ℕ → Bytes)
step data_page_offset e pages = to_some (entry_pages data_page_offset e pages)

-- An update whose label and nodes have 32 bytes.
abbrev pub HasWidths : WalEntry → Type 0
HasWidths (update page_id d nodes elided bucket) = (length page_id ≡ 32) × AreNodes nodes
HasWidths (clear bucket) = Unit

abbrev pub HaveWidths : List WalEntry → Type 0
HaveWidths [] = Unit
HaveWidths (e ∷ es) = HasWidths e × HaveWidths es

module _ (data_page_offset : ℕ) where
  unfoldable pub steps : List WalEntry → (ℕ → Bytes) → Option (ℕ → Bytes)
  steps [] pages = some pages
  steps (e ∷ es) pages = Option.bind (step data_page_offset e pages) (steps es)

  pub steps-append :
      (es fs : List WalEntry) (pages : ℕ → Bytes)
      → steps (es ++ fs) pages ≡ Option.bind (steps es pages) (steps fs)
  unfolding steps Option.bind
  steps-append [] fs pages = refl
  steps-append (e ∷ es) fs pages = elim (Option-cases (step data_page_offset e pages)) [
    | inl e ↦ rw e refl
    | inr (q, e) ↦ rw e (steps-append es fs q)
  ]

  step-Overwrites :
      (e : WalEntry) → HasWidths e → Overwrites IsFile get_byte_at (step data_page_offset e)
  unfolding step entry_pages write_op data_page_index and_then
  step-Overwrites (clear bucket) w = some-Overwrites IsFile get_byte_at
  step-Overwrites (update page_id d nodes elided bucket) (size, are) =
      elim (Bool-cases (count d == length nodes)) [
        | inl same ↦
            let op = recovered_page page_id d nodes elided in
            let pn = data_page_offset + bucket in
            let o =
              recovered_page-Overwrites page_id d nodes elided size are
                (ground (arith, nat_beq_iff (count d) (length nodes))) in
            eq-Overwrites IsFile get_byte_at (write_op pn op o)
              (step data_page_offset (update page_id d nodes elided bucket))
              (λ pages v.
                to_some-guard (count d == length nodes)
                  (and_then (ok_or (op (pages pn)) panicked)
                    (λ page. ok (write_page pn page pages)))
                  same
                ∙ to_some-page pn (op (pages pn)) pages)
              (write_op-Overwrites pn op o)
        | inr differ ↦
            none-Overwrites IsFile get_byte_at
              (step data_page_offset (update page_id d nodes elided bucket))
              (λ pages v. rw differ refl)
      ]

  pub steps-Overwrites :
      (es : List WalEntry) → HaveWidths es → Overwrites IsFile get_byte_at (steps es)
  unfolding steps
  steps-Overwrites [] w = some-Overwrites IsFile get_byte_at
  steps-Overwrites (e ∷ es) (w, ws) =
      then-Overwrites IsFile get_byte_at (step data_page_offset e) (steps es) (step-Overwrites e w)
        (steps-Overwrites es ws)
