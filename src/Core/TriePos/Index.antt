-- ===== src/Core/TriePos/Index.antt =====
-- The index of a node within its page, by recursion on the depth (core/src/trie_pos.rs).
use nomt.Base.{
  ℕ, zero, suc, ◌+◌, ◌-◌, ◌*◌, ◌/◌, ◌%◌, ◌^◌, ◌≤◌, ◌≡◌, ◌≢◌, sym, ap, ap₂, ◌∙◌, Bool, [], ◌∷◌, ◌++◌,
  Bits, length, take, drop, get_elem?, some, bit_value, arith, take-drop, take-suc, get_elem?-drop,
  length-take, length-drop, length-append, take_all,
}
use native.Mathlib.Nat.{pow-suc}
use nomt.Core.TriePos.{BitField, page_slice, node_index_of, page_layers}

-- `2 ^ n` at the depths of a page
pow_at_least_two : (n : ℕ) → 1 ≤ n → 2 ≤ 2 ^ n
pow_at_least_two zero h = absurd (omega arith)
pow_at_least_two (suc zero) h = omega arith
pow_at_least_two (suc (suc n)) h =
    omega (arith, pow-suc 2 (suc n), pow_at_least_two (suc n) (omega arith))

module _ ⦃bits : BitField⦄ where
  pub node_index_of-one : (b : Bool) → node_index_of (b ∷ []) ≡ bit_value b
  unfolding node_index_of
  node_index_of-one b = omega (arith, bits.load_be_one b)

  -- On at most six bits the whole slice is read.
  node_index_of-short :
      (c : Bool) (q : Bits)
      → length q ≤ 5
      → node_index_of (c ∷ q) ≡ 2 ^ suc (length q) - 2 + bits.load_be (c ∷ q)
  unfolding node_index_of
  node_index_of-short c q h = ground (arith, take_all (length q) q)

  pub node_index_of-append :
      (c b : Bool) (q : Bits)
      → length q ≤ 4
      → node_index_of ((c ∷ q) ++ b ∷ []) ≡ 2 * node_index_of (c ∷ q) + 2 + bit_value b
  node_index_of-append c b q h =
      let longer : length (q ++ b ∷ []) ≡ suc (length q) =
        omega (arith, length-append {0} q (b ∷ [])) in
      let doubled : 2 ^ suc (length (q ++ b ∷ [])) ≡ 2 * 2 ^ suc (length q) =
        rw longer (omega (arith, pow-suc 2 (suc (length q)))) in
      omega (
        arith,
        doubled,
        node_index_of-short c (q ++ b ∷ []) (omega arith),
        node_index_of-short c q (omega arith),
        bits.load_be_more b c q,
        pow_at_least_two (suc (length q)) (omega arith),
      )

take-suc-drop :
    (m n k : ℕ) (path : Bits) (b : Bool)
    → m + n ≡ k
    → get_elem? path k ≡ some b
    → take (suc n) (drop m path) ≡ take n (drop m path) ++ b ∷ []
take-suc-drop m n k path b e at =
    take-suc n (drop m path) b (get_elem?-drop m n path ∙ ap (get_elem? path) e ∙ at)

-- The slice of the last page starts at the same bit within a page, at the depth itself where a
-- page starts.
slice_ends :
    (depth : ℕ)
    → depth % page_layers ≢ 0
    → ((suc depth - 1) / page_layers * page_layers ≡ (depth - 1) / page_layers * page_layers)
      × (suc depth - (suc depth - 1) / page_layers * page_layers
          ≡ suc (depth - (depth - 1) / page_layers * page_layers))
      × ((depth - 1) / page_layers * page_layers + (depth - (depth - 1) / page_layers * page_layers)
          ≡ depth)
slice_ends depth mid = omega arith

-- Within a page, one more bit is one more bit of the slice.
page_slice-suc :
    (path : Bits) (depth : ℕ) (b : Bool)
    → depth % page_layers ≢ 0
    → get_elem? path depth ≡ some b
    → page_slice path (suc depth) ≡ page_slice path depth ++ b ∷ []
unfolding page_slice
page_slice-suc path depth b mid at =
    let (start, size, total) = slice_ends depth mid in
    ap₂ (λ n m. take n (drop m path)) size start
    ∙ take-suc-drop ((depth - 1) / page_layers * page_layers)
        (depth - (depth - 1) / page_layers * page_layers) depth path b total at

page_slice-start :
    (path : Bits) (depth : ℕ) (b : Bool)
    → depth % page_layers ≡ 0
    → get_elem? path depth ≡ some b
    → page_slice path (suc depth) ≡ b ∷ []
unfolding page_slice
page_slice-start path depth b first at =
    let start : (suc depth - 1) / page_layers * page_layers ≡ depth = omega arith in
    let size : suc depth - (suc depth - 1) / page_layers * page_layers ≡ 1 = omega arith in
    ap₂ (λ n m. take n (drop m path)) size start
    ∙ take-suc-drop depth 0 depth path b (omega arith) at

-- The slice depends on the bits above the depth alone.
page_slice-prefix :
    (path : Bits) (depth : ℕ)
    → page_slice path depth ≡ drop ((depth - 1) / page_layers * page_layers) (take depth path)
unfolding page_slice
page_slice-prefix path depth =
    let total : (depth - 1) / page_layers * page_layers
          + (depth - (depth - 1) / page_layers * page_layers)
        ≡ depth =
      omega arith in
    take-drop ((depth - 1) / page_layers * page_layers)
      (depth - (depth - 1) / page_layers * page_layers) path
    ∙ ap (λ n. drop ((depth - 1) / page_layers * page_layers) (take n path)) total

page_slice_ext :
    (path path' : Bits) (depth : ℕ)
    → take depth path ≡ take depth path'
    → page_slice path depth ≡ page_slice path' depth
page_slice_ext path path' depth e =
    page_slice-prefix path depth
    ∙ ap (drop ((depth - 1) / page_layers * page_layers)) e
    ∙ sym (page_slice-prefix path' depth)

length-page_slice :
    (path : Bits) (depth : ℕ)
    → depth ≤ length path
    → length (page_slice path depth) ≡ depth - (depth - 1) / page_layers * page_layers
unfolding page_slice
length-page_slice path depth h = omega (
  arith,
  length-take {0} (depth - (depth - 1) / page_layers * page_layers)
      (drop ((depth - 1) / page_layers * page_layers) path),
  length-drop {0} ((depth - 1) / page_layers * page_layers) path,
)

module _ ⦃bits : BitField⦄ where
  abbrev pub index_at : Bits → ℕ → ℕ
  index_at path depth = node_index_of (page_slice path depth)

  pub index_at_ext :
      (path path' : Bits) (depth : ℕ)
      → take depth path ≡ take depth path'
      → index_at path depth ≡ index_at path' depth
  index_at_ext path path' depth e = ap node_index_of (page_slice_ext path path' depth e)

  pub index_at-start :
      (path : Bits) (depth : ℕ) (b : Bool)
      → depth % page_layers ≡ 0
      → get_elem? path depth ≡ some b
      → index_at path (suc depth) ≡ bit_value b
  index_at-start path depth b first at =
      ap node_index_of (page_slice-start path depth b first at) ∙ node_index_of-one b

  node_index_of_step :
      (q : Bits) (b : Bool)
      → 1 ≤ length q
      → length q ≤ 5
      → node_index_of (q ++ b ∷ []) ≡ 2 * node_index_of q + 2 + bit_value b
  node_index_of_step [] b h k = absurd (omega arith)
  node_index_of_step (c ∷ q) b h k = node_index_of-append c b q (omega arith)

  pub index_at-suc :
      (path : Bits) (depth : ℕ) (b : Bool)
      → depth % page_layers ≢ 0
      → get_elem? path depth ≡ some b
      → depth ≤ length path
      → index_at path (suc depth) ≡ 2 * index_at path depth + 2 + bit_value b
  index_at-suc path depth b mid at fits =
      let size = length-page_slice path depth fits in
      ap node_index_of (page_slice-suc path depth b mid at)
      ∙ node_index_of_step (page_slice path depth) b (omega arith) (omega arith)
