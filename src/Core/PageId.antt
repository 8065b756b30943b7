-- ===== src/Core/PageId.antt =====
-- core/src/page_id.rs: the identifiers of pages, as lists of child indices of six bits. The
-- 256-bit encoding is read as the number of which its bytes are the big-endian digits, and the
-- operations of `ruint::Uint<256, 4>` as those on numbers below 2 ^ 256.
pub mod Order
pub mod Encoding
use nomt.Base.{
  ℕ, zero, suc, ◌+◌, ◌-◌, ◌*◌, ◌/◌, ◌%◌, ◌^◌, Bool, true, false, not, ◌&&◌, List, [], ◌∷◌, ◌++◌,
  reverse, Bits, bool_eq, list_eq, nat_eq, ◌==◌, if◌then◌else◌, ltb, length, take, drop, init,
  get_elem?, replicate, Option, none, some, Result, ok, err, bit_value,
}
use nomt.Core.TriePos.{page_layers}

abbrev pub max_page_depth : ℕ
max_page_depth = 42

-- MAX_CHILD_INDEX
abbrev pub max_child_index : ℕ
max_child_index = 63

abbrev pub PageId : Type 0
PageId = List ℕ

abbrev pub root_page_id : PageId
root_page_id = []

-- `ChildPageIndex::new`
unfoldable pub child_page_index_new : ℕ → Option ℕ
child_page_index_new index = if ltb max_child_index index then none else some index

-- `none` is a panic.
unfoldable pub child_index_at_level : PageId → ℕ → Option ℕ
child_index_at_level id depth = get_elem? id depth

unfoldable pub depth : PageId → ℕ
depth id = length id

pub data ChildPageIdError : Type 0 where
  page_id_overflow : ChildPageIdError

unfoldable pub child_page_id : PageId → ℕ → Result ChildPageIdError PageId
child_page_id id child_index =
    if ltb (length id) max_page_depth then ok (id ++ child_index ∷ []) else err page_id_overflow

unfoldable pub parent_page_id : PageId → PageId
parent_page_id id = if id == root_page_id then root_page_id else init id

unfoldable pub is_descendant_of : PageId → PageId → Bool
is_descendant_of id [] = true
is_descendant_of [] (j ∷ other) = false
is_descendant_of (i ∷ id) (j ∷ other) = (i == j) && is_descendant_of id other

-- The loop that pushes the highest index, for the layers that are left.
unfoldable pub push_max : ℕ → PageId → PageId
push_max zero id = id
push_max (suc n) id = push_max n (id ++ max_child_index ∷ [])

unfoldable pub max_descendant : PageId → PageId
unfolding push_max
max_descendant id = push_max (max_page_depth - length id) id

-- The derived order: lexicographic, a proper prefix first.
unfoldable pub page_ltb : PageId → PageId → Bool
page_ltb [] [] = false
page_ltb [] (j ∷ b) = true
page_ltb (i ∷ a) [] = false
page_ltb (i ∷ a) (j ∷ b) = if i == j then page_ltb a b else ltb i j

unfoldable pub page_leb : PageId → PageId → Bool
unfolding page_ltb
page_leb a b = not (page_ltb b a)

-- The low six bits of a child index, the most significant first.
unfoldable pub child_bits : ℕ → Bits
child_bits i =
    (i / 32 % 2 == 1)
    ∷ (i / 16 % 2 == 1)
    ∷ (i / 8 % 2 == 1)
    ∷ (i / 4 % 2 == 1)
    ∷ (i / 2 % 2 == 1)
    ∷ (i % 2 == 1)
    ∷ []

unfoldable pub page_bits : PageId → Bits
unfolding child_bits
page_bits [] = []
page_bits (i ∷ id) = child_bits i ++ page_bits id

unfoldable pub min_key_path : PageId → Bits
unfolding page_bits
min_key_path id = page_bits id ++ replicate (256 - page_layers * length id) false

unfoldable pub max_key_path : PageId → Bits
unfolding page_bits
max_key_path id = page_bits id ++ replicate (256 - page_layers * length id) true

-- The loop of `encode` in words of `w` bits: add the limb plus one, then shift by six bits.
unfoldable pub encode_loop : ℕ → ℕ → PageId → ℕ
encode_loop w word [] = word
encode_loop w word (limb ∷ limbs) = encode_loop w ((word + (limb + 1)) * 64 % 2 ^ w) limbs

-- Short identifiers are encoded in a `u64`, longer ones in a `Uint<256, 4>`.
unfoldable pub encode : PageId → ℕ
unfolding encode_loop
encode id = if ltb (length id) 10 then encode_loop 64 0 id else encode_loop 256 0 id

-- A `Uint` with `n` limbs taken off, from the least significant: the limbs in the order of the
-- pushes, and what is left.
unfoldable pub decode_loop : ℕ → ℕ → List ℕ → List ℕ × ℕ
decode_loop zero uint path = (path, uint)
decode_loop (suc n) uint path =
    let rest = uint - 1 in decode_loop n (rest / 64) (path ++ rest % 64 ∷ [])

-- `256 - leading_zeros`: the length of a number in binary, found in `f` steps.
unfoldable pub bit_count : ℕ → ℕ → ℕ
bit_count zero n = 0
bit_count (suc f) n = let rest = bit_count f (n / 2) in if n == 0 then 0 else suc rest

pub data InvalidPageIdBytes : Type 0 where
  invalid_page_id_bytes : InvalidPageIdBytes

-- HIGHEST_ENCODED_42
abbrev pub highest_encoded_42 : ℕ
highest_encoded_42 = (64 ^ 43 - 64) / 63

unfoldable pub push_last : List ℕ × ℕ → List ℕ
push_last (path, uint) = if uint % 256 == 0 then path else path ++ (uint - 1) % 256 ∷ []

unfoldable pub decode : ℕ → Result InvalidPageIdBytes PageId
unfolding decode_loop bit_count push_last
decode uint =
    if ltb highest_encoded_42 uint
    then err invalid_page_id_bytes
    else let bits = bit_count 256 uint in
      if bits == 0
      then ok root_page_id
      else ok (reverse (push_last (decode_loop ((bits + 5) / 6 - 1) uint [])))

-- The page identifiers that a key path leads through: `PageIdsIterator`, with the bits of the key
-- that are left and the next identifier.
pub record PageIdsIterator : Type 0 where
  pub key_path : Bits
  pub page_id : Option PageId

unfoldable pub iterator_new : Bits → PageIdsIterator
iterator_new key_path = record { key_path = key_path; page_id = some root_page_id }

-- `Result::ok`
unfoldable pub ok_of : Result ChildPageIdError PageId → Option PageId
ok_of (ok id) = some id
ok_of (err e) = none

unfoldable pub bits_value : ℕ → Bits → ℕ
bits_value acc [] = acc
bits_value acc (b ∷ bits) = bits_value (2 * acc + bit_value b) bits

-- The byte 31 of the number, shifted right by two, is the first six bits of the key.
unfoldable pub iterator_next : PageIdsIterator → Option PageId × PageIdsIterator
unfolding child_page_id bits_value ok_of
iterator_next it = elim it.page_id [
  | none ↦ (none, it)
  | some prev ↦ (
    some prev,
    record {
      key_path = drop page_layers it.key_path ++ replicate page_layers false;
      page_id = ok_of (child_page_id prev (bits_value 0 (take page_layers it.key_path)));
    },
  )
]
