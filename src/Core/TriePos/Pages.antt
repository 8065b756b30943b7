-- ===== src/Core/TriePos/Pages.antt =====
-- The pages of positions (core/src/trie_pos.rs): the outer `none` stands for a panic.
use nomt.Base.{
  ℕ, zero, suc, ◌+◌, ◌-◌, ◌*◌, ◌/◌, ◌≤◌, ◌<◌, ◌≡◌, inl, inr, refl, Bool, true, false, [], ◌∷◌, ◌++◌,
  Bits, bit_value, nat_eq, ◌==◌, eq_or_ne, ne→nat_beq, nat_beq_iff, if◌then◌else◌, ltb, lt→ltb,
  le→ltb-false, length, take, drop, length-take, length-drop, length-append, Option, none, some, ok,
  err, arith,
}
use mathlib.Core.Option
use nomt.Core.TriePos.{BitField, TriePosition, path_of, is_root, page_layers, sibling_of_index}
use nomt.Core.TriePos.Moves.{IsValid, length-path_of}
use nomt.Core.Update.{shared_bits}
use nomt.Core.PageId.{PageId, root_page_id, child_page_index_new, child_page_id}
use nomt.Core.PageId.Order.{IsPage, AllIndices}

-- `sibling_child_page_index`, with `bottom_node_index` and `ChildPageIndex::new`.
unfoldable pub sibling_child_page_index : TriePosition → Option ℕ
unfolding child_page_index_new
sibling_child_page_index p =
    let index = sibling_of_index p.node_index in
    if ltb index 62 then none else child_page_index_new (index - 62)

unfoldable pub shared_depth : TriePosition → TriePosition → ℕ
shared_depth p other = shared_bits (path_of p) (path_of other)

module _ ⦃bits : BitField⦄ where
  -- The loop over the chunks of six bits of the path, `n` of them left from the `i`-th on.
  unfoldable pub page_id_loop : ℕ → ℕ → ℕ → Bits → PageId → Option (Option PageId)
  unfolding child_page_index_new child_page_id
  page_id_loop zero i depth path page_id = some (some page_id)
  page_id_loop (suc n) i depth path page_id =
      let deeper =
        Option.bind (child_page_index_new (bits.load_be (take page_layers path))) λ child_index.
          elim (child_page_id page_id child_index) [
            | err e ↦ none
            | ok next ↦ page_id_loop n (i + 1) depth (drop page_layers path) next
          ] in
      if (i + 1) * page_layers == depth then some (some page_id) else deeper

  unfoldable pub page_id : TriePosition → Option (Option PageId)
  unfolding is_root page_id_loop
  page_id p =
      if is_root p
      then some none
      else page_id_loop (length (path_of p) / page_layers) 0 p.depth (path_of p) root_page_id

  bit_value-le : (b : Bool) → bit_value b ≤ 1
  bit_value-le true = omega arith
  bit_value-le false = omega arith

  load_be-le : (chunk : Bits) → length chunk ≡ 6 → bits.load_be chunk ≤ 63
  load_be-le (a ∷ b ∷ c ∷ d ∷ e ∷ f ∷ []) size = omega (
    arith,
    bits.load_be_one a,
    bits.load_be_more b a [],
    bits.load_be_more c a (b ∷ []),
    bits.load_be_more d a (b ∷ c ∷ []),
    bits.load_be_more e a (b ∷ c ∷ d ∷ []),
    bits.load_be_more f a (b ∷ c ∷ d ∷ e ∷ []),
    bit_value-le a,
    bit_value-le b,
    bit_value-le c,
    bit_value-le d,
    bit_value-le e,
    bit_value-le f,
  )
  load_be-le [] size = absurd (omega arith)
  load_be-le (a ∷ []) size = absurd (omega arith)
  load_be-le (a ∷ b ∷ []) size = absurd (omega arith)
  load_be-le (a ∷ b ∷ c ∷ []) size = absurd (omega arith)
  load_be-le (a ∷ b ∷ c ∷ d ∷ []) size = absurd (omega arith)
  load_be-le (a ∷ b ∷ c ∷ d ∷ e ∷ []) size = absurd (omega arith)
  load_be-le (a ∷ b ∷ c ∷ d ∷ e ∷ f ∷ g ∷ bs) size = absurd (omega arith)

  AllIndices-append : (id : PageId) (i : ℕ) → AllIndices id → i ≤ 63 → AllIndices (id ++ i ∷ [])
  AllIndices-append [] i all h = (h, tt)
  AllIndices-append (j ∷ id) i all h = (all.0, AllIndices-append id i all.1 h)

  page_id_loop_lem :
      (n i depth : ℕ) (path : Bits) (id : PageId)
      → n * 6 ≤ length path
      → i + n ≡ depth / 6
      → i * 6 < depth
      → depth ≤ 256
      → length id ≡ i
      → AllIndices id
      → (id' : PageId) × (page_id_loop n i depth path id ≡ some (some id'))
        × IsPage id'
        × (length id' ≡ (depth - 1) / 6)
  unfolding page_id_loop child_page_index_new child_page_id Option.bind
  page_id_loop_lem zero i depth path id fits count above deep size all =
      (id, refl, record { indices = all; shallow = omega arith }, omega arith)
  page_id_loop_lem (suc n) i depth path id fits count above deep size all =
      elim (eq_or_ne ((i + 1) * 6) depth) [
        | inl end ↦ (
          id,
          rw ((nat_beq_iff ((i + 1) * 6) depth).1 end) refl,
          record { indices = all; shallow = omega arith },
          omega arith,
        )
        | inr more ↦
            let index : ℕ = bits.load_be (take 6 path) in
            let small : index ≤ 63 =
              load_be-le (take 6 path) (omega (arith, length-take {0} 6 path)) in
            let below : (i + 1) * 6 < depth = ground (arith, more) in
            let (id', found, page, deepness) =
              page_id_loop_lem n (i + 1) depth (drop 6 path) (id ++ index ∷ [])
                (omega (arith, length-drop {0} 6 path)) (omega arith) below deep
                (omega (arith, length-append {0} id (index ∷ [])))
                (AllIndices-append id index all small) in
            (
              id',
              rw
                  (
                    ne→nat_beq ((i + 1) * 6) depth more,
                    le→ltb-false 63 index small,
                    lt→ltb (length id) 42 (omega arith),
                  )
                  found,
              page,
              deepness,
            )
      ]

  -- A valid position below the root lies in a page, and its page is as many layers of six bits
  -- deep as fit above it.
  pub page_id-IsPage :
      (p : TriePosition)
      → IsValid p
      → 0 < p.depth
      → (id : PageId) × (page_id p ≡ some (some id)) × IsPage id × (length id ≡ (p.depth - 1) / 6)
  unfolding page_id is_root
  page_id-IsPage p valid pos =
      let size = length-path_of p valid in
      let (id, found, page, deepness) =
        page_id_loop_lem (length (path_of p) / 6) 0 p.depth (path_of p) [] (omega arith)
          (omega arith) (omega arith) valid.deep refl tt in
      (id, rw (ne→nat_beq p.depth 0 (omega arith)) found, page, deepness)
