-- ===== src/Core/TriePos.antt =====
-- core/src/trie_pos.rs: positions in the paged storage of the trie.
-- A position is the bits of a key, a depth, and the index of its node within a page of six
-- layers. `none` stands for a panic. The bits after the depth are kept, as in the code.
pub mod Index
pub mod Moves
pub mod Sibling
pub mod Pages
use nomt.Base.{
  ℕ, zero, suc, ◌+◌, ◌-◌, ◌*◌, ◌/◌, ◌%◌, ◌^◌, min, ◌≡◌, Bool, false, not, [], ◌∷◌, ◌++◌, Bits,
  bool_eq, list_eq, nat_eq, ◌==◌, if◌then◌else◌, length, replicate, take, drop, set, get_elem?,
  Option, none, some, ltb, bit_value,
}
use nomt.Core.Trie.{KeyPath}
use mathlib.Core.Option

-- DEPTH, of core/src/page.rs
abbrev pub page_layers : ℕ
page_layers = 6

-- `BitField::load_be` of the crate `bitvec`: the bits read as a number, the first bit the most
-- significant.
pub record BitField : Type 0 where
  pub load_be : Bits → ℕ
  pub load_be_one : (b : Bool) → load_be (b ∷ []) ≡ bit_value b
  pub load_be_more :
      (b c : Bool) (bs : Bits) → load_be ((c ∷ bs) ++ b ∷ []) ≡ 2 * load_be (c ∷ bs) + bit_value b

pub record TriePosition : Type 0 where
  pub path : Bits
  pub depth : ℕ
  pub node_index : ℕ

-- `TriePosition::path`, and the equality of positions, which compares paths alone.
unfoldable pub path_of : TriePosition → Bits
path_of p = take p.depth p.path

unfoldable pub same_position : TriePosition → TriePosition → Bool
unfolding path_of
same_position a b = path_of a == path_of b

-- The root position.
unfoldable pub new : TriePosition
new = record { path = replicate 256 false; depth = 0; node_index = 0 }

unfoldable pub is_root : TriePosition → Bool
is_root p = p.depth == 0

-- The slice of the path that lies in the last page.
unfoldable pub page_slice : Bits → ℕ → Bits
page_slice path depth =
    let prev_page_end = (depth - 1) / page_layers * page_layers in
    take (depth - prev_page_end) (drop prev_page_end path)

unfoldable pub last_page_path : Bits → ℕ → Option Bits
unfolding page_slice
last_page_path path depth = if depth == 0 then none else some (page_slice path depth)

unfoldable pub sibling_of_index : ℕ → ℕ
sibling_of_index node_index = if node_index % 2 == 0 then node_index + 1 else node_index - 1

-- The first two nodes of a page have no parent in it: the subtraction fails.
unfoldable pub parent_node_index : ℕ → Option ℕ
parent_node_index node_index = if ltb node_index 2 then none else some ((node_index - 2) / 2)

-- The loop of `up` within a page.
unfoldable pub parents : ℕ → ℕ → Option ℕ
unfolding parent_node_index
parents zero node_index = some node_index
parents (suc d) node_index = Option.bind (parent_node_index node_index) (parents d)

unfoldable pub depth_in_page : TriePosition → ℕ
depth_in_page p = if p.depth == 0 then 0 else p.depth - (p.depth - 1) / page_layers * page_layers

-- The index of the left child; `ChildNodeIndices` holds it.
unfoldable pub child_node_indices : TriePosition → Option ℕ
unfolding depth_in_page
child_node_indices p =
    let depth = depth_in_page p in
    if depth == 0
    then none
    else if ltb (page_layers - 1) depth
    then none
    else some (p.node_index * 2 + 2)

-- `ChildNodeIndices::right`
unfoldable pub right_of : ℕ → ℕ
right_of left = left + 1

unfoldable pub in_next_page : ℕ → Bool
in_next_page left = left == 0

unfoldable pub is_first_layer_in_page : TriePosition → Bool
is_first_layer_in_page p = p.node_index / 2 * 2 == 0

unfoldable pub down : Bool → TriePosition → Option TriePosition
unfolding child_node_indices right_of
down bit p =
    if p.depth == 256
    then none
    else Option.map
        (λ index. record { path = set p.path p.depth bit; depth = p.depth + 1; node_index = index })
        (if p.depth % page_layers == 0
          then some (bit_value bit)
          else Option.map (λ left. if bit then right_of left else left) (child_node_indices p))

unfoldable pub peek_last_bit : TriePosition → Option Bool
peek_last_bit p = if p.depth == 0 then none else get_elem? p.path (p.depth - 1)

unfoldable pub sibling : TriePosition → Option TriePosition
unfolding sibling_of_index
sibling p =
    if p.depth == 0
    then none
    else Option.map
        (λ bit. record p {
          path = set p.path (p.depth - 1) (not bit);
          node_index = sibling_of_index p.node_index;
        })
        (get_elem? p.path (p.depth - 1))

-- `bottom_node_index` of a node on the bottom layer, a 6-bit number, makes a `ChildPageIndex`.
unfoldable pub child_page_index : TriePosition → Option ℕ
child_page_index p = if ltb p.node_index 62 then none else some (p.node_index - 62)

-- The number of layers of pages down to a depth.
unfoldable pub page_depth : ℕ → ℕ
page_depth depth = (depth + page_layers - 1) / page_layers

unfoldable pub subtrie_contains : TriePosition → KeyPath → Bool
subtrie_contains p key = take p.depth key == take p.depth p.path

module _ ⦃bits : BitField⦄ where
  unfoldable pub node_index_of : Bits → ℕ
  node_index_of page_path =
      let depth = min page_layers (length page_path) in
      if depth == 0 then 0 else 2 ^ depth - 2 + bits.load_be (take depth page_path)

  unfoldable pub from_path_and_depth : KeyPath → ℕ → Option TriePosition
  unfolding last_page_path node_index_of
  from_path_and_depth path depth =
      if depth == 0
      then none
      else if ltb 256 depth
      then none
      else Option.map
          (λ page_path. record { path = path; depth = depth; node_index = node_index_of page_path })
          (last_page_path path depth)

  unfoldable pub from_bitslice : Bits → Option TriePosition
  unfolding from_path_and_depth
  from_bitslice slice =
      if ltb 256 (length slice)
      then none
      else from_path_and_depth (slice ++ replicate (256 - length slice) false) (length slice)

  unfoldable pub up : ℕ → TriePosition → Option TriePosition
  unfolding new page_depth parents last_page_path node_index_of
  up d p =
      if ltb p.depth d
      then none
      else let new_depth = p.depth - d in
        if new_depth == 0
        then some new
        else Option.map (λ index. record p { depth = new_depth; node_index = index })
            (if page_depth p.depth == page_depth new_depth
              then parents d p.node_index
              else Option.map node_index_of (last_page_path p.path new_depth))
