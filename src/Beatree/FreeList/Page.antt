-- ===== src/Beatree/FreeList/Page.antt =====
-- The pages of the free list on disk (nomt/src/beatree/allocator/free_list.rs): the number of the
-- page below, the number of items, and the items, the bottom of the portion first. `none` is a
-- panic, or an error of the file.
pub mod RoundTrip
use nomt.Base.{
  ℕ, zero, suc, ◌+◌, ◌*◌, Bool, true, false, List, [], ◌∷◌, reverse, Bytes, to_le_bytes,
  from_le_bytes, slice, copy_all, nat_eq, ◌==◌, if◌then◌else◌, ltb, length, Option, none, some,
}
use mathlib.Core.Option
use nomt.Beatree.FreeList.{PageNumber, Portion, FreeList, of_portions}
use nomt.Beatree.FreeList.Commit.{freelist_empty}

unfoldable pub prev_pn : Bytes → PageNumber
prev_pn page = from_le_bytes (slice 0 4 page)

unfoldable pub item_count : Bytes → ℕ
item_count page = from_le_bytes (slice 4 6 page)

unfoldable pub item : Bytes → ℕ → Option PageNumber
item page i =
    let start = 6 + i * 4 in
    if ltb (length page) (start + 4)
    then none
    else some (from_le_bytes (slice start (start + 4) page))

-- The loop of `decode_free_list_page`, for the items from `i` on; each has to lie in the file.
unfoldable pub decode_items : Bytes → ℕ → ℕ → ℕ → Option (List PageNumber)
unfolding item
decode_items page max_pn i zero = some []
decode_items page max_pn i (suc n) = Option.bind (item page i) λ pn.
    let rest = Option.map (λ pns. pn ∷ pns) (decode_items page max_pn (suc i) n) in
    if ltb pn max_pn then rest else none

unfoldable pub decode_free_list_page : Bytes → ℕ → Option (PageNumber × List PageNumber)
unfolding prev_pn item_count decode_items
decode_free_list_page page max_pn =
    Option.map (λ pns. (prev_pn page, pns)) (decode_items page max_pn 0 (item_count page))

-- The writes of `set_item` from the item `i` on, and all writes in order, each with its offset.
unfoldable pub item_fields : ℕ → List PageNumber → List (ℕ × Bytes)
item_fields i [] = []
item_fields i (pn ∷ pns) = (6 + i * 4, to_le_bytes 4 pn) ∷ item_fields (suc i) pns

unfoldable pub page_fields : PageNumber → List PageNumber → List (ℕ × Bytes)
unfolding item_fields
page_fields prev pns = (0, to_le_bytes 4 prev) ∷ (4, to_le_bytes 2 (length pns)) ∷ item_fields 0 pns

-- Into a page from the pool, whose contents are not known.
unfoldable pub encode_free_list_page : Bytes → PageNumber → List PageNumber → Option Bytes
unfolding page_fields
encode_free_list_page page prev pns =
    if ltb (length page) (6 + length pns * 4)
    then none
    else some (copy_all (page_fields prev pns) page)

-- The loop of `FreeList::read`, on `fuel` pages at most, with the pages of the file.
unfoldable pub read_chain : (PageNumber → Option Bytes) → ℕ → ℕ → PageNumber → Option (List Portion)
unfolding decode_free_list_page
read_chain read_page max_pn zero pn = none
read_chain read_page max_pn (suc fuel) pn =
    let decoded = Option.bind (read_page pn) λ page.
      Option.bind (decode_free_list_page page max_pn) λ contents.
        Option.map (λ portions. (pn, reverse contents.1) ∷ portions)
          (read_chain read_page max_pn fuel contents.0) in
    if pn == freelist_empty then some [] else decoded

unfoldable pub read : (PageNumber → Option Bytes) → ℕ → ℕ → Option PageNumber → Option FreeList
unfolding read_chain
read read_page max_pn fuel head = elim head [
  | none ↦ some (of_portions [])
  | some pn ↦ Option.map of_portions (read_chain read_page max_pn fuel pn)
]
