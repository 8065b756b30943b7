-- ===== src/Merkle/PageRegion/Laws.antt =====
-- What the regions of nomt/src/page_region.rs guarantee to the workers that hold them.
use nomt.Base.{◌≡◌, ◌↔◌, refl, true, false, ◌&&◌, [], ◌∷◌, arith, list_eq, nat_eq}
use nomt.Core.PageId.{PageId, page_ltb, page_leb, is_descendant_of}
use nomt.Core.PageId.Order.{IsPage, is_descendant_of_iff}
use nomt.Merkle.PageRegion.{
  PageRegion, from_page_id, exclusive_start, contains_exclusive, encompasses, excludes_unique,
}

page_le_trans :
    (a b c : PageId) → page_ltb b a ≡ false → page_ltb c b ≡ false → page_ltb c a ≡ false
unfolding page_ltb
page_le_trans [] [] c p q = q
page_le_trans [] (j ∷ b) [] p q = refl
page_le_trans [] (j ∷ b) (k ∷ c) p q = refl
page_le_trans (i ∷ a) [] c p q = cc p
page_le_trans (i ∷ a) (j ∷ b) [] p q = cc q
page_le_trans (i ∷ a) (j ∷ b) (k ∷ c) p q = ground (arith, page_le_trans a b c)

page_ltb_irrefl : (a : PageId) → page_ltb a a ≡ false
unfolding page_ltb
page_ltb_irrefl [] = refl
page_ltb_irrefl (i ∷ a) = ground (arith, page_ltb_irrefl a)

-- The exclusive pages of the region of a page are its descendants, itself included.
from_page_id-exclusive :
    (page id : PageId)
    → IsPage page
    → IsPage id
    → (contains_exclusive (from_page_id page) id ≡ true) ↔ (is_descendant_of id page ≡ true)
unfolding contains_exclusive from_page_id
from_page_id-exclusive page id v w = ground (arith, is_descendant_of_iff id page w v)

-- Where a region excludes another, the test holds the other way round as well, and no page is
-- exclusive to both.
pub excludes_unique-disjoint :
    (a b : PageRegion) (id : PageId)
    → excludes_unique a b ≡ true
    → (excludes_unique b a ≡ true) × ((contains_exclusive a id && contains_exclusive b id) ≡ false)
unfolding excludes_unique contains_exclusive page_leb
excludes_unique-disjoint a b id e = ground (
  arith,
  page_le_trans (exclusive_start b) id a.exclusive_max,
  page_le_trans (exclusive_start a) id b.exclusive_max,
)

-- A region that encompasses another contains its exclusive pages exclusively.
encompasses-exclusive :
    (a b : PageRegion) (id : PageId)
    → encompasses a b ≡ true
    → contains_exclusive b id ≡ true
    → contains_exclusive a id ≡ true
unfolding encompasses contains_exclusive page_leb
encompasses-exclusive a b id e h = ground (
  arith,
  page_le_trans (exclusive_start a) (exclusive_start b) id,
  page_le_trans id b.exclusive_max a.exclusive_max,
)
