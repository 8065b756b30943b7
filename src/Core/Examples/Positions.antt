-- ===== src/Core/Examples/Positions.antt =====
-- Concrete positions and pages, at which the theorems are applied.
use nomt.Base.{
  length, ◌-◌, ◌/◌, ℕ, ◌+◌, ◌*◌, ◌%◌, ◌^◌, ◌≡◌, ◌↔◌, refl, Bool, true, false, not, [], ◌∷◌, ◌++◌,
  Bits, bit_value, some, ok, arith, replicate, take,
}
use nomt.Core.TriePos.{
  BitField, TriePosition, path_of, down, up, sibling, same_position, node_index_of, page_slice,
}
use nomt.Core.TriePos.Pages.{page_id, page_id-IsPage}
use nomt.Core.TriePos.Moves.{IsValid, down-IsValid, up-IsValid, same_position-node_index}
use nomt.Core.TriePos.Sibling.{sibling-IsValid}
use nomt.Core.PageId.{PageId, is_descendant_of, page_leb, max_descendant, encode, decode}
use nomt.Core.PageId.Order.{IsPage, is_descendant_of_iff}
use nomt.Core.PageId.Encoding.{described, encode-described, encode_collides}

abbrev number_from : ℕ → Bits → ℕ
number_from n [] = n
number_from n (b ∷ bs) = number_from (2 * n + bit_value b) bs

number_from-append_one :
    (n : ℕ) (bs : Bits) (b : Bool)
    → number_from n (bs ++ b ∷ []) ≡ 2 * number_from n bs + bit_value b
number_from-append_one n [] b = refl
number_from-append_one n (c ∷ bs) b = number_from-append_one (2 * n + bit_value c) bs b

instance abbrev big_endian : BitField
big_endian = record {
  load_be = number_from 0;
  load_be_one = λ b. omega arith;
  load_be_more = λ b c bs. number_from-append_one 0 (c ∷ bs) b;
}

abbrev page_bottom : TriePosition
page_bottom = record {
  path = true ∷ false ∷ true ∷ replicate 253 false;
  depth = 6;
  node_index = 102;
}

page_bottom-IsValid : IsValid page_bottom
unfolding node_index_of page_slice
page_bottom-IsValid = record { whole = refl; deep = omega arith; indexed = refl }

down-IsValid_example :
    (q : TriePosition) × (down true page_bottom ≡ some q)
    × IsValid q
    × (path_of q ≡ path_of page_bottom ++ true ∷ [])
down-IsValid_example = down-IsValid true page_bottom page_bottom-IsValid (omega arith)

up-IsValid_example :
    (q : TriePosition) × (up 2 page_bottom ≡ some q)
    × IsValid q
    × (path_of q ≡ take 4 (path_of page_bottom))
up-IsValid_example = up-IsValid 2 page_bottom page_bottom-IsValid (omega arith)

sibling-IsValid_example :
    (q : TriePosition) × (b : Bool) × (sibling page_bottom ≡ some q)
    × IsValid q
    × (path_of page_bottom ≡ take 5 page_bottom.path ++ b ∷ [])
    × (path_of q ≡ take 5 page_bottom.path ++ not b ∷ [])
sibling-IsValid_example = sibling-IsValid page_bottom page_bottom-IsValid (omega arith)

-- The same position, with other bits after its depth.
abbrev page_bottom_too : TriePosition
page_bottom_too = record {
  path = true ∷ false ∷ true ∷ false ∷ false ∷ false ∷ true ∷ replicate 249 true;
  depth = 6;
  node_index = 102;
}

page_bottom_too-IsValid : IsValid page_bottom_too
unfolding node_index_of page_slice
page_bottom_too-IsValid = record { whole = refl; deep = omega arith; indexed = refl }

same_position-node_index_example :
    (page_bottom.depth ≡ page_bottom_too.depth)
    × (page_bottom.node_index ≡ page_bottom_too.node_index)
unfolding same_position path_of
same_position-node_index_example =
    same_position-node_index page_bottom page_bottom_too page_bottom-IsValid page_bottom_too-IsValid
      refl

abbrev deep_id : PageId
deep_id = 3 ∷ 7 ∷ 63 ∷ []

deep_id-IsPage : IsPage deep_id
deep_id-IsPage = record {
  indices = (omega arith, (omega arith, (omega arith, tt)));
  shallow = omega arith;
}

abbrev upper_id : PageId
upper_id = 3 ∷ []

upper_id-IsPage : IsPage upper_id
upper_id-IsPage = record { indices = (omega arith, tt); shallow = omega arith }

is_descendant_of_iff_example :
    (is_descendant_of deep_id upper_id ≡ true)
    ↔ ((page_leb upper_id deep_id ≡ true) × (page_leb deep_id (max_descendant upper_id) ≡ true))
is_descendant_of_iff_example = is_descendant_of_iff deep_id upper_id deep_id-IsPage upper_id-IsPage

encode-described_example : encode (replicate 12 5) ≡ 64 * described 0 (replicate 12 5) % 2 ^ 256
encode-described_example = encode-described (replicate 12 5) (omega arith)

encode_collides_example : encode (0 ∷ replicate 41 7) ≡ encode (16 ∷ replicate 41 7)
encode_collides_example = encode_collides 0 (replicate 41 7) refl

-- The first child of the root comes back as the last one.
decode_run : decode (encode (0 ∷ [])) ≡ ok (63 ∷ [])
unfolding decode encode
decode_run = refl

page_id-IsPage_example :
    (id : PageId) × (page_id page_bottom ≡ some (some id)) × IsPage id × (length id ≡ (6 - 1) / 6)
page_id-IsPage_example = page_id-IsPage page_bottom page_bottom-IsValid (omega arith)
