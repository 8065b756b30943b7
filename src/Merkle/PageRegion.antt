-- ===== src/Merkle/PageRegion.antt =====
-- nomt/src/page_region.rs: the parts of the page tree that a worker may change or read.
pub mod Laws
use nomt.Base.{
  ℕ, Bool, true, false, not, ◌&&◌, ◌||◌, list_eq, nat_eq, ◌==◌, if◌then◌else◌, ltb, Option, none,
  some, Result, ok, err,
}
use nomt.Core.PageId.{
  PageId, root_page_id, child_page_id, parent_page_id, max_descendant, is_descendant_of, page_ltb,
  page_leb,
}

pub record PageRegion : Type 0 where
  pub path : PageId
  pub exclusive_min : Option PageId
  pub exclusive_max : PageId

unfoldable pub from_page_id : PageId → PageRegion
from_page_id page_id = record {
  path = page_id;
  exclusive_min = none;
  exclusive_max = max_descendant page_id;
}

-- `none` is a panic: the range is empty, or the page is at the greatest depth.
unfoldable pub from_page_id_descendants : PageId → ℕ → ℕ → Option PageRegion
unfolding child_page_id
from_page_id_descendants page_id min max =
    if ltb max min then none else elim (child_page_id page_id min) [
      | err e ↦ none
      | ok first ↦ elim (child_page_id page_id max) [
        | err e ↦ none
        | ok last ↦ some (record {
          path = page_id;
          exclusive_min = some first;
          exclusive_max = max_descendant last;
        })
      ]
    ]

unfoldable pub universe : PageRegion
unfolding from_page_id
universe = from_page_id root_page_id

-- The beginning of the exclusive range; its end is the field `exclusive_max`.
unfoldable pub exclusive_start : PageRegion → PageId
exclusive_start r = elim r.exclusive_min [ none ↦ r.path | some min ↦ min ]

unfoldable pub contains_exclusive : PageRegion → PageId → Bool
unfolding exclusive_start page_leb
contains_exclusive r page = page_leb (exclusive_start r) page && page_leb page r.exclusive_max

unfoldable pub non_exclusive_max : PageRegion → Option PageId
unfolding parent_page_id
non_exclusive_max r = elim r.exclusive_min [
  | none ↦ if r.path == root_page_id then none else some (parent_page_id r.path)
  | some min ↦ some r.path
]

unfoldable pub contains_non_exclusive : PageRegion → PageId → Bool
unfolding non_exclusive_max
contains_non_exclusive r page = elim (non_exclusive_max r) [
  | none ↦ false
  | some deepest ↦ (page == deepest) || is_descendant_of deepest page
]

-- `RegionContains::contains`
unfoldable pub contains : PageRegion → PageId → Bool
unfolding contains_exclusive contains_non_exclusive
contains r page = contains_exclusive r page || contains_non_exclusive r page

unfoldable pub encompasses : PageRegion → PageRegion → Bool
unfolding exclusive_start page_leb
encompasses a b =
    page_leb (exclusive_start a) (exclusive_start b) && page_leb b.exclusive_max a.exclusive_max

unfoldable pub excludes_unique : PageRegion → PageRegion → Bool
unfolding exclusive_start
excludes_unique a b =
    page_ltb a.exclusive_max (exclusive_start b) || page_ltb b.exclusive_max (exclusive_start a)
