-- ===== src/Beatree/FreeList/Page/RoundTrip.antt =====
-- Free-list pages are read back as they were written
-- (nomt/src/beatree/allocator/free_list.rs).
use nomt.Base.{
  ℕ, suc, ◌+◌, ◌*◌, ◌^◌, ◌≤◌, ◌<◌, ◌≡◌, ◌≢◌, refl, sym, ap, ◌∙◌, List, [], ◌∷◌, reverse, Bytes,
  to_le_bytes, from_le_bytes, length-to_le_bytes, from_le_bytes-to_le_bytes, slice, copy_all,
  IsLaidOut, AllBack, copy_all-AllBack, length-copy_all, nat_eq, length, Option, some, arith,
  lt→ltb, le→ltb-false, ne→nat_beq, length-reverse,
}
use mathlib.Core.Option
use mathlib.Core.Path.{subst}
use mathlib.Core.List.{reverse-reverse}
use nomt.Beatree.FreeList.{PageNumber, Portion, of_portions, head_pn}
use nomt.Beatree.FreeList.Commit.{freelist_empty}
use nomt.Beatree.FreeList.Page.{
  prev_pn, item_count, item, decode_items, decode_free_list_page, item_fields, page_fields,
  encode_free_list_page, read_chain, read,
}

abbrev pub AllBelow : ℕ → List PageNumber → Type 0
AllBelow max_pn [] = Unit
AllBelow max_pn (pn ∷ pns) = (pn < max_pn) × AllBelow max_pn pns

item_fields-IsLaidOut :
    (i : ℕ) (pns : List PageNumber)
    → IsLaidOut (6 + i * 4) (6 + (i + length pns) * 4) (item_fields i pns)
unfolding item_fields to_le_bytes
item_fields-IsLaidOut i [] = omega arith
item_fields-IsLaidOut i (pn ∷ pns) =
    let next : 6 + suc i * 4 ≡ 6 + i * 4 + 4 = omega arith in
    let end : 6 + (suc i + length pns) * 4 ≡ 6 + (i + suc (length pns)) * 4 = omega arith in
    (
      refl,
      subst (λ a. IsLaidOut a (6 + (i + suc (length pns)) * 4) (item_fields (suc i) pns)) next
          (subst (λ e. IsLaidOut (6 + suc i * 4) e (item_fields (suc i) pns)) end
            (item_fields-IsLaidOut (suc i) pns)),
    )

word_at :
    (w at n : ℕ) (page : Bytes)
    → n < 256 ^ w
    → slice at (at + length (to_le_bytes w n)) page ≡ to_le_bytes w n
    → from_le_bytes (slice at (at + w) page) ≡ n
word_at w at n page h e =
    ap (λ l. from_le_bytes (slice at (at + l) page)) (sym (length-to_le_bytes w n))
    ∙ ap from_le_bytes e
    ∙ from_le_bytes-to_le_bytes w n h

decode_items-eq-some :
    (page : Bytes) (max_pn i : ℕ) (pns : List PageNumber)
    → max_pn ≤ 2 ^ 32
    → 6 + (i + length pns) * 4 ≤ length page
    → AllBelow max_pn pns
    → AllBack page (item_fields i pns)
    → decode_items page max_pn i (length pns) ≡ some pns
unfolding decode_items item item_fields Option.bind
decode_items-eq-some page max_pn i [] m fits below back = refl
decode_items-eq-some page max_pn i (pn ∷ pns) m fits (small, below) (here, back) =
    rw
      (
        le→ltb-false (length page) (6 + i * 4 + 4) (omega arith),
        word_at 4 (6 + i * 4) pn page (omega arith) here,
        lt→ltb pn max_pn small,
        decode_items-eq-some page max_pn (suc i) pns m (omega arith) below back,
      )
      refl

module _ (page : Bytes) (prev : PageNumber) (pns : List PageNumber) (max_pn : ℕ)
    (whole : length page ≡ 4096) (prev_word : prev < 2 ^ 32) (size : length pns ≤ 1022)
    (file : max_pn ≤ 2 ^ 32) (below : AllBelow max_pn pns) where
  page_fields-IsLaidOut : IsLaidOut 0 (6 + length pns * 4) (page_fields prev pns)
  unfolding page_fields to_le_bytes
  page_fields-IsLaidOut =
      let none_before : 0 + length pns ≡ length pns = omega arith in
      (
        refl,
        (
          refl,
          subst (λ n. IsLaidOut 6 (6 + n * 4) (item_fields 0 pns)) none_before
              (item_fields-IsLaidOut 0 pns),
        ),
      )

  written : Bytes
  written = copy_all (page_fields prev pns) page

  length-written : length written ≡ 4096
  unfolding written
  length-written =
      length-copy_all 0 (6 + length pns * 4) (page_fields prev pns) page page_fields-IsLaidOut
        (omega arith)
      ∙ whole

  decode-written : decode_free_list_page written max_pn ≡ some (prev, pns)
  unfolding decode_free_list_page prev_pn item_count written page_fields
  decode-written =
      let (head, (count, items)) =
        copy_all-AllBack 0 (6 + length pns * 4) (page_fields prev pns) page page_fields-IsLaidOut
          (omega arith) in
      rw
        (
          word_at 4 0 prev written (omega arith) head,
          word_at 2 4 (length pns) written (omega arith) count,
          decode_items-eq-some written max_pn 0 pns file (omega (arith, length-written)) below
              items,
        )
        refl

-- A page of at most 1022 items, each below the number of pages of the file, is read back from
-- whatever page of the pool it was written into.
pub decode_free_list_page-encode_free_list_page :
    (page : Bytes) (prev : PageNumber) (pns : List PageNumber) (max_pn : ℕ)
    → length page ≡ 4096
    → prev < 2 ^ 32
    → length pns ≤ 1022
    → max_pn ≤ 2 ^ 32
    → AllBelow max_pn pns
    → (out : Bytes) × (encode_free_list_page page prev pns ≡ some out)
      × (length out ≡ 4096)
      × (decode_free_list_page out max_pn ≡ some (prev, pns))
unfolding encode_free_list_page written
decode_free_list_page-encode_free_list_page page prev pns max_pn whole prev_word size file below = (
  written page prev pns max_pn whole prev_word size file below,
  rw (le→ltb-false (length page) (6 + length pns * 4) (omega arith)) refl,
  length-written page prev pns max_pn whole prev_word size file below,
  decode-written page prev pns max_pn whole prev_word size file below,
)

-- The page of the top portion, or none.
abbrev pub top_pn : List Portion → PageNumber
top_pn [] = freelist_empty
top_pn ((pn, pns) ∷ rest) = pn

-- The pages of the file hold the portions, each as `encode_free_list_page` writes it.
pub data IsStored (read_page : PageNumber → Option Bytes) (max_pn : ℕ) : List Portion → Type 0 where
  nothing : IsStored read_page max_pn []
  stored :
      (pn : PageNumber) (pns : List PageNumber) (rest : List Portion) (page : Bytes)
      → pn ≢ freelist_empty
      → top_pn rest < 2 ^ 32
      → length pns ≤ 1022
      → AllBelow max_pn (reverse pns)
      → length page ≡ 4096
      → read_page pn ≡ encode_free_list_page page (top_pn rest) (reverse pns)
      → IsStored read_page max_pn rest
      → IsStored read_page max_pn ((pn, pns) ∷ rest)

read_chain-eq-some :
    (read_page : PageNumber → Option Bytes) (max_pn : ℕ) (portions : List Portion)
    → max_pn ≤ 2 ^ 32
    → IsStored read_page max_pn portions
    → read_chain read_page max_pn (suc (length portions)) (top_pn portions) ≡ some portions
unfolding read_chain Option.bind
read_chain-eq-some read_page max_pn [] file IsStored.nothing = refl
read_chain-eq-some read_page max_pn ((pn, pns) ∷ rest) file
      (IsStored.stored _ _ _ page ne word size below whole at more) =
    let (out, encoded, wide, decoded) =
      decode_free_list_page-encode_free_list_page page (top_pn rest) (reverse pns) max_pn whole word
        (omega (arith, length-reverse {0} pns)) file below in
    rw
      (
        ne→nat_beq pn freelist_empty ne,
        at,
        encoded,
        decoded,
        read_chain-eq-some read_page max_pn rest file more,
        reverse-reverse pns,
      )
      refl

-- A list whose portions are all stored is read back from the page of its head, in as many pages
-- as it has portions and one round to end.
pub read-eq-of_portions :
    (read_page : PageNumber → Option Bytes) (max_pn : ℕ) (portions : List Portion)
    → max_pn ≤ 2 ^ 32
    → IsStored read_page max_pn portions
    → read read_page max_pn (suc (length portions)) (head_pn (of_portions portions))
      ≡ some (of_portions portions)
unfolding read head_pn of_portions
read-eq-of_portions read_page max_pn [] file all = refl
read-eq-of_portions read_page max_pn ((pn, pns) ∷ rest) file all =
    ap (Option.map of_portions) (read_chain-eq-some read_page max_pn ((pn, pns) ∷ rest) file all)
