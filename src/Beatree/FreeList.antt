-- ===== src/Beatree/FreeList.antt =====
-- nomt/src/beatree/allocator/free_list.rs: the free pages of a file, as a stack that is itself
-- stored in pages. A `Vec` that the code uses as a stack (`portions`, the pages of a portion,
-- `released_portions`) is a list with the top first.
pub mod Commit
pub mod Stack
pub mod Nth
pub mod Ends
pub mod Page
use nomt.Base.{
  ℕ, zero, suc, ◌+◌, ◌-◌, ◌*◌, ◌/◌, ◌%◌, min, Bool, true, false, not, ◌&&◌, List, [], ◌∷◌, ◌++◌,
  nat_eq, ◌==◌, if◌then◌else◌, ltb, length, drop, get_elem?, Option, none, some, reverse,
}
use mathlib.Core.Option

abbrev pub PageNumber : Type 0
PageNumber = ℕ

-- MAX_PNS_PER_PAGE, (4096 - 6) / 4
abbrev pub max_pns_per_page : ℕ
max_pns_per_page = 1022

abbrev pub Portion : Type 0
Portion = PageNumber × List PageNumber

pub record FreeList : Type 0 where
  pub portions : List Portion
  pub popped : Bool
  pub len : ℕ
  pub fragmented : Bool
  pub released_portions : List PageNumber

-- The number of pages, and whether the second portion lacks one.
unfoldable pub len_and_fragmented : List Portion → ℕ × Bool
len_and_fragmented [] = (0, false)
len_and_fragmented ((pn, pns) ∷ []) = (length pns, false)
len_and_fragmented ((pn, pns) ∷ (pn', pns') ∷ rest) =
    if length pns == 1
    then (length rest * max_pns_per_page + length pns' + 1, not (length pns' == max_pns_per_page))
    else ((length rest + 1) * max_pns_per_page + length pns, false)

-- What `FreeList::read` makes of the chain of decoded pages, from the head of the list down.
unfoldable pub of_portions : List Portion → FreeList
unfolding len_and_fragmented
of_portions portions =
    let (len, fragmented) = len_and_fragmented portions in
    record {
      portions = portions;
      popped = false;
      len = len;
      fragmented = fragmented;
      released_portions = [];
    }

unfoldable pub head_pn : FreeList → Option PageNumber
head_pn f = elim f.portions [ [] ↦ none | p ∷ rest ↦ some p.0 ]

unfoldable pub tracked_of : List Portion → List PageNumber
tracked_of [] = []
tracked_of ((pn, pns) ∷ rest) = tracked_of rest ++ pn ∷ reverse pns

-- The pages that `all_tracked_pages` collects into a set.
unfoldable pub all_tracked_pages : FreeList → List PageNumber
unfolding tracked_of
all_tracked_pages f = tracked_of f.portions

-- The results of `pop`: nothing left, a portion with no page (a panic), or a page.
pub data Popped : Type 0 where
  empty panic : Popped
  page : PageNumber → FreeList → Popped

unfoldable pub pop_from : List Portion → FreeList → Popped
pop_from [] f = Popped.empty
pop_from ((head, []) ∷ rest) f = Popped.panic
pop_from ((head, pn ∷ []) ∷ rest) f =
    Popped.page pn
      (record f { portions = rest; popped = true; released_portions = head ∷ f.released_portions })
pop_from ((head, pn ∷ pn' ∷ pns) ∷ rest) f =
    Popped.page pn (record f { portions = (head, pn' ∷ pns) ∷ rest; popped = true })

unfoldable pub pop : FreeList → Popped
unfolding pop_from
pop f = pop_from f.portions f

-- The loop of `discard`, with the number of items still to discard. It takes a portion in each
-- round, and ends at the latest when a portion is left with pages.
unfoldable pub discard_loop : List Portion → ℕ → FreeList → ℕ × FreeList
discard_loop [] left f = (0, record f { portions = [] })
discard_loop ((head, pns) ∷ rest) left f =
    let to_discard = min (length pns) left in
    let kept = drop to_discard pns in
    let all =
      discard_loop rest (left - to_discard)
        (record f { popped = true; released_portions = head ∷ f.released_portions }) in
    if left == 0
    then (0, record f { portions = (head, pns) ∷ rest })
    else if length kept == 0
    then (to_discard + all.0, all.1)
    else (to_discard, record f { portions = (head, kept) ∷ rest; popped = true })

-- The number of items discarded, and the list.
unfoldable pub discard : ℕ → FreeList → ℕ × FreeList
unfolding discard_loop
discard n f = discard_loop f.portions n f

-- `CleanFreeList::get_nth_pop`; `none` is an index out of bounds. The index `i` counts a
-- portion's pages from the bottom in the code, and `length - i - 1` is its place from the top.
unfoldable pub from_bottom : ℕ → List PageNumber → Option PageNumber
from_bottom i pns = if ltb i (length pns) then get_elem? pns (length pns - i - 1) else none

unfoldable pub page_at : List Portion → ℕ → ℕ → Option PageNumber
unfolding from_bottom
page_at portions offset i = elim (get_elem? portions (offset - 1)) [
  | none ↦ none
  | some p ↦ from_bottom i p.1
]

-- Where the portions below the head are full: item `n` of those pages, from the top.
unfoldable pub beyond : List Portion → ℕ → Option PageNumber
unfolding page_at
beyond portions n =
    page_at portions (2 + n / max_pns_per_page) (max_pns_per_page - n % max_pns_per_page - 1)

unfoldable pub nth_fragmented : List Portion → ℕ → Option PageNumber
unfolding beyond
nth_fragmented portions n =
    if n == 0
    then page_at portions 1 0
    else if ltb n max_pns_per_page
    then page_at portions 2 (max_pns_per_page - n - 1)
    else beyond portions n

unfoldable pub nth_whole : List Portion → ℕ → Option PageNumber
unfolding beyond
nth_whole [] n = none
nth_whole ((pn, pns) ∷ rest) n =
    if ltb n (length pns)
    then page_at ((pn, pns) ∷ rest) 1 (length pns - n - 1)
    else beyond ((pn, pns) ∷ rest) (n - length pns)

unfoldable pub get_nth_pop : FreeList → ℕ → Option PageNumber
unfolding nth_fragmented nth_whole
get_nth_pop f n = if f.fragmented then nth_fragmented f.portions n else nth_whole f.portions n
