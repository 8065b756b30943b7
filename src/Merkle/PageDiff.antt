-- ===== src/Merkle/PageDiff.antt =====
-- nomt/src/page_diff.rs: which nodes of a page have changed, as two words of 64 bits. A `u64` is
-- the list of its bits, the least significant first, and 16 bytes those of two such words. `none`
-- stands for a panic.
pub mod Nodes
pub mod Apply
pub mod Changed
use nomt.Base.{
  ℕ, zero, suc, ◌+◌, ◌-◌, ◌*◌, ◌/◌, ◌%◌, Bool, true, false, not, ◌&&◌, ◌||◌, List, [], ◌∷◌, ◌++◌,
  map, Bits, Bytes, slice, copy_at, nat_eq, ◌==◌, if◌then◌else◌, ltb, length, take, drop, set,
  get_or, replicate, Option, none, some,
}
use mathlib.Core.Option

abbrev pub Node : Type 0
Node = Bytes

-- NODES_PER_PAGE, of core/src/page.rs
abbrev pub nodes_per_page : ℕ
nodes_per_page = 126

-- `changed_nodes`
pub record PageDiff : Type 0 where
  pub low : Bits
  pub high : Bits

-- The derived `Default`.
unfoldable pub default : PageDiff
default = record { low = replicate 64 false; high = replicate 64 false }

unfoldable pub changed : PageDiff → ℕ → Option Bool
changed d slot_index =
    if ltb slot_index 64
    then some (get_or d.low slot_index false)
    else if ltb slot_index 128
    then some (get_or d.high (slot_index - 64) false)
    else none

unfoldable pub from_bytes : Bits → Option PageDiff
from_bytes bytes =
    let diff : PageDiff = record { low = take 64 bytes; high = drop 64 bytes } in
    if get_or diff.high (126 - 64) false || get_or diff.high (127 - 64) false
    then none
    else some diff

unfoldable pub set_changed : ℕ → PageDiff → Option PageDiff
set_changed slot_index d =
    if not (ltb slot_index nodes_per_page)
    then none
    else if ltb slot_index 64
    then some (record { low = set d.low slot_index true; high = set d.high 63 false })
    else some (record { low = d.low; high = set (set d.high (slot_index - 64) true) 63 false })

unfoldable pub set_cleared : PageDiff → PageDiff
set_cleared d = record d { high = set d.high 63 true }

unfoldable pub cleared : PageDiff → Bool
cleared d = get_or d.high 63 false

unfoldable pub count_ones : Bits → ℕ
count_ones [] = 0
count_ones (b ∷ bs) = let rest = count_ones bs in if b then suc rest else rest

unfoldable pub count : PageDiff → ℕ
unfolding count_ones
count d = count_ones d.low + count_ones d.high

unfoldable pub as_bytes : PageDiff → Bits
as_bytes d = d.low ++ d.high

-- The length of the word where no bit is set.
unfoldable pub trailing_zeros : Bits → ℕ
trailing_zeros [] = 0
trailing_zeros (true ∷ bs) = 0
trailing_zeros (false ∷ bs) = suc (trailing_zeros bs)

-- `FastIterOnes::next`
unfoldable pub next_one : Bits → Option (ℕ × Bits)
unfolding trailing_zeros
next_one word = let x = trailing_zeros word in if x == 64 then none else some (x, set word x false)

-- What the iterator yields until it ends, of at most `fuel` items.
unfoldable pub ones : ℕ → Bits → List ℕ
unfolding next_one
ones zero word = []
ones (suc fuel) word = elim (next_one word) [ none ↦ [] | some (x, rest) ↦ x ∷ ones fuel rest ]

unfoldable pub iter_ones : PageDiff → Option (List ℕ)
unfolding ones cleared
iter_ones d = if cleared d then none else some (ones 64 d.low ++ map (λ i. i + 64) (ones 64 d.high))

unfoldable pub read_node : Bytes → ℕ → Option Node
read_node page node_index =
    if ltb (length page) (node_index * 32 + 32)
    then none
    else some (slice (node_index * 32) (node_index * 32 + 32) page)

unfoldable pub read_nodes : Bytes → List ℕ → Option (List Node)
unfolding read_node
read_nodes page [] = some []
read_nodes page (i ∷ is) =
    Option.bind (read_node page i) λ node. Option.map (λ nodes. node ∷ nodes) (read_nodes page is)

unfoldable pub pack_changed_nodes : PageDiff → Bytes → Option (List Node)
unfolding iter_ones read_nodes
pack_changed_nodes d page = Option.bind (iter_ones d) (read_nodes page)

-- The loop over the zip of the indices and the nodes.
unfoldable pub unpack_loop : List ℕ → List Node → Bytes → Option Bytes
unpack_loop [] nodes page = some page
unpack_loop (i ∷ is) [] page = some page
unpack_loop (i ∷ is) (node ∷ nodes) page =
    let rest = unpack_loop is nodes (copy_at (i * 32) node page) in
    if ltb (length page) (i * 32 + 32) then none else rest

unfoldable pub unpack_changed_nodes : PageDiff → List Node → Bytes → Option Bytes
unfolding count iter_ones unpack_loop
unpack_changed_nodes d nodes page =
    if not (count d == length nodes)
    then none
    else Option.bind (iter_ones d) λ is. unpack_loop is nodes page

unfoldable pub or_bits : Bits → Bits → Bits
or_bits [] ys = []
or_bits (x ∷ xs) [] = []
or_bits (x ∷ xs) (y ∷ ys) = (x || y) ∷ or_bits xs ys

unfoldable pub join : PageDiff → PageDiff → PageDiff
unfolding or_bits
join d diff = record { low = or_bits d.low diff.low; high = or_bits d.high diff.high }
