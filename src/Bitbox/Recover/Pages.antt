-- ===== src/Bitbox/Recover/Pages.antt =====
-- The pages that `recover` of nomt/src/bitbox/mod.rs writes, byte by byte.
use nomt.Base.{
  ℕ, ◌+◌, ◌-◌, ◌*◌, ◌≤◌, ◌≡◌, refl, ap, ◌∙◌, true, List, [], ◌∷◌, ◌++◌, Bytes, copy_at,
  length-copy_at, ltb, if◌then◌else◌, length, take, drop, get_or, get_or-append_left,
  get_or-append_right, get_or-take, get_or-drop, length-take, Option, none, some, arith, lt_or_ge,
  Option-cases, ==_refl, nat_beq, nat_eq, length-to_le_bytes, lt→ltb, le→ltb-false, inl, inr,
}
use mathlib.Core.Option
use nomt.Merkle.PageDiff.{PageDiff, count, iter_ones, unpack_loop, unpack_changed_nodes}
use nomt.Bitbox.Wal.{ElidedChildren, elided_to_bytes}
use nomt.Bitbox.Wal.Fields.{AreNodes}
use nomt.Bitbox.Recover.{recovered_page}
use nomt.Bitbox.Recover.Overwrite.{
  wins, inj_some, Overwrites, some-Overwrites, none-Overwrites, then-Overwrites, eq-Overwrites,
}

-- The bytes of a copy, at their places.
unfoldable copied_at : ℕ → Bytes → ℕ → Option ℕ
copied_at at bytes i =
    if ltb i at
    then none
    else if ltb i (at + length bytes)
    then some (get_or bytes (i - at) 0)
    else none

get_or-copy_at :
    (at : ℕ) (bytes page : Bytes) (i : ℕ)
    → at + length bytes ≤ length page
    → get_or (copy_at at bytes page) i 0 ≡ wins (copied_at at bytes i) (get_or page i 0)
unfolding copied_at wins
get_or-copy_at at bytes page i fits =
    let size = length-take {0} at page in
    let tail : Bytes = drop (at + length bytes) page in
    elim (lt_or_ge i at) [
      | inl h ↦ rw (lt→ltb i at h) (
          get_or-append_left i (take at page) (bytes ++ tail) 0 (omega (arith, size))
          ∙ get_or-take i at page 0 h)
      | inr h ↦
          let skip =
            get_or-append_right i (i - at) (take at page) (bytes ++ tail) 0 (omega (arith, size)) in
          elim (lt_or_ge i (at + length bytes)) [
            | inl k ↦
                rw (le→ltb-false i at h, lt→ltb i (at + length bytes) k)
                  (skip ∙ get_or-append_left (i - at) bytes tail 0 (omega arith))
            | inr k ↦
                rw (le→ltb-false i at h, le→ltb-false i (at + length bytes) k)
                  (skip
                    ∙ get_or-append_right (i - at) (i - at - length bytes) bytes tail 0
                        (omega arith)
                    ∙ get_or-drop (at + length bytes) (i - at - length bytes) page 0
                    ∙ ap (λ t. get_or page t 0) (omega arith))
          ]
    ]

abbrev pub IsPage : Bytes → Type 0
IsPage page = length page ≡ 4096

abbrev pub get_byte : Bytes → ℕ → ℕ
get_byte page i = get_or page i 0

pub copy_at-Overwrites :
    (at : ℕ) (bytes : Bytes)
    → at + length bytes ≤ 4096
    → Overwrites IsPage get_byte (λ page. some (copy_at at bytes page))
copy_at-Overwrites at bytes fits = record {
  over = copied_at at bytes;
  written = λ p q v e. rw (← inj_some (copy_at at bytes p) q e) (record {
    valid = length-copy_at at bytes p (omega (arith, v)) ∙ v;
    reads = λ i. get_or-copy_at at bytes p i (omega (arith, v));
  });
  again = λ p q r v w e. (copy_at at bytes r, refl);
}

unpack_loop-Overwrites :
    (is : List ℕ) (nodes : List Bytes)
    → AreNodes nodes
    → Overwrites IsPage get_byte (unpack_loop is nodes)
unfolding unpack_loop Option.bind
unpack_loop-Overwrites [] nodes are = some-Overwrites IsPage get_byte
unpack_loop-Overwrites (i ∷ is) [] are = some-Overwrites IsPage get_byte
unpack_loop-Overwrites (i ∷ is) (node ∷ nodes) (size, are) = elim (lt_or_ge 4096 (i * 32 + 32)) [
  | inl h ↦
      none-Overwrites IsPage get_byte (unpack_loop (i ∷ is) (node ∷ nodes))
        (λ page v. rw (lt→ltb (length page) (i * 32 + 32) (omega (arith, v))) refl)
  | inr h ↦
      eq-Overwrites IsPage get_byte
        (λ page. Option.bind (some (copy_at (i * 32) node page)) (unpack_loop is nodes))
        (unpack_loop (i ∷ is) (node ∷ nodes))
        (λ page v. rw (le→ltb-false (length page) (i * 32 + 32) (omega (arith, v))) refl)
        (then-Overwrites IsPage get_byte (λ page. some (copy_at (i * 32) node page))
          (unpack_loop is nodes) (copy_at-Overwrites (i * 32) node (omega (arith, size)))
          (unpack_loop-Overwrites is nodes are))
]

unpack_changed_nodes-Overwrites :
    (d : PageDiff) (nodes : List Bytes)
    → AreNodes nodes
    → count d ≡ length nodes
    → Overwrites IsPage get_byte (unpack_changed_nodes d nodes)
unfolding unpack_changed_nodes Option.bind
unpack_changed_nodes-Overwrites d nodes are same =
    let test : nat_beq (length nodes) (length nodes) ≡ true = ==_refl (length nodes) in
    elim (Option-cases (iter_ones d)) [
      | inl e ↦
          none-Overwrites IsPage get_byte (unpack_changed_nodes d nodes)
            (λ page v. rw (same, test, e) refl)
      | inr (is, e) ↦
          eq-Overwrites IsPage get_byte (unpack_loop is nodes) (unpack_changed_nodes d nodes)
            (λ page v. rw (same, test, e) refl) (unpack_loop-Overwrites is nodes are)
    ]

module _ (page_id : Bytes) (d : PageDiff) (nodes : List Bytes) (elided : ElidedChildren) where
  labelled : Bytes → Option Bytes
  labelled page =
      some (copy_at (4096 - 32 - 8) (elided_to_bytes elided) (copy_at (4096 - 32) page_id page))

  pub recovered_page-Overwrites :
      length page_id ≡ 32
      → AreNodes nodes
      → count d ≡ length nodes
      → Overwrites IsPage get_byte (recovered_page page_id d nodes elided)
  unfolding recovered_page labelled Option.bind elided_to_bytes
  recovered_page-Overwrites size are same =
      eq-Overwrites IsPage get_byte
        (λ page. Option.bind (unpack_changed_nodes d nodes page) labelled)
        (recovered_page page_id d nodes elided)
        (λ page v. elim (Option-cases (unpack_changed_nodes d nodes page)) [
          | inl e ↦ rw e refl
          | inr (q, e) ↦ rw e refl
        ])
        (then-Overwrites IsPage get_byte (unpack_changed_nodes d nodes) labelled
          (unpack_changed_nodes-Overwrites d nodes are same)
          (then-Overwrites IsPage get_byte (λ page. some (copy_at (4096 - 32) page_id page))
            (λ page. some (copy_at (4096 - 32 - 8) (elided_to_bytes elided) page))
            (copy_at-Overwrites (4096 - 32) page_id (omega (arith, size)))
            (copy_at-Overwrites (4096 - 32 - 8) (elided_to_bytes elided)
              (omega (arith, length-to_le_bytes 8 elided.elided)))))
