-- ===== src/Core/TriePos/Moves.antt =====
-- The moves of a position keep its node index that of its path (core/src/trie_pos.rs).
use nomt.Base.{
  ℕ, zero, suc, ◌+◌, ◌-◌, ◌*◌, ◌%◌, ◌≤◌, ◌<◌, ◌≡◌, ◌≢◌, refl, sym, ap, ◌∙◌, Bool, true, false, [],
  ◌∷◌, ◌++◌, Bits, if◌then◌else◌, length, take, set, get_elem?, some, bit_value, arith,
  take-suc-set, take-set_ge, length-set, get_elem?-set_self, nat_eq, ◌==◌, inl, inr, Bool-cases,
  take-take_le, get_elem?_total, length-take, list_eq, bool_eq, ==_iff,
}
use mathlib.Core.Option
use native.Mathlib.Nat.{add-zero, add-suc}
use native.Mathlib.Numerals.{add-one}
use nomt.Core.TriePos.{
  BitField, TriePosition, path_of, new, down, up, parent_node_index, parents, child_node_indices,
  page_depth, page_layers, node_index_of, page_slice, same_position,
}
use nomt.Core.TriePos.Index.{index_at, index_at_ext, index_at-start, index_at-suc}

module _ ⦃bits : BitField⦄ where
  -- The stored index is the one that the path determines.
  pub record IsValid (p : TriePosition) : Type 0 where
    pub whole : length p.path ≡ 256
    pub deep : p.depth ≤ 256
    pub indexed : p.node_index ≡ index_at p.path p.depth

  pub new-IsValid : IsValid new
  unfolding new page_slice node_index_of
  new-IsValid = record { whole = refl; deep = omega arith; indexed = refl }

children_in_page :
    (p : TriePosition)
    → p.depth % page_layers ≢ 0
    → child_node_indices p ≡ some (p.node_index * 2 + 2)
unfolding child_node_indices
children_in_page p mid = ground arith

-- The index that `down` computes.
down_index : Bool → TriePosition → ℕ
down_index bit p =
    if p.depth % page_layers == 0 then bit_value bit else p.node_index * 2 + 2 + bit_value bit

down_moved : Bool → TriePosition → TriePosition
unfolding down_index
down_moved bit p = record {
  path = set p.path p.depth bit;
  depth = p.depth + 1;
  node_index = down_index bit p;
}

down-eq-some : (b : Bool) (p : TriePosition) → p.depth < 256 → down b p ≡ some (down_moved b p)
unfolding down down_moved
down-eq-some true p h = ground (arith, children_in_page p)
down-eq-some false p h = ground (arith, children_in_page p)

module _ ⦃bits : BitField⦄ (b : Bool) (p : TriePosition) (valid : IsValid p)
    (room : p.depth < 256) where
  down_index-eq-index_at : down_index b p ≡ index_at (set p.path p.depth b) (suc p.depth)
  unfolding down_index
  down_index-eq-index_at =
      let at : get_elem? (set p.path p.depth b) p.depth ≡ some b =
        get_elem?-set_self p.path p.depth b (omega (arith, valid.whole)) in
      let size = length-set p.path p.depth b in
      let same : index_at (set p.path p.depth b) p.depth ≡ index_at p.path p.depth =
        index_at_ext (set p.path p.depth b) p.path p.depth
          (take-set_ge p.path p.depth p.depth b (omega arith)) in
      ground (
        arith,
        valid.indexed,
        valid.whole,
        size,
        same,
        index_at-start (set p.path p.depth b) p.depth b,
        index_at-suc (set p.path p.depth b) p.depth b,
        at,
      )

  -- Going down by a bit from a valid position above depth 256 succeeds, gives a valid position,
  -- and appends the bit to the path.
  pub down-IsValid :
      (q : TriePosition) × (down b p ≡ some q) × IsValid q × (path_of q ≡ path_of p ++ b ∷ [])
  unfolding down_moved path_of
  down-IsValid = (
    down_moved b p,
    down-eq-some b p room,
    record {
      whole = length-set p.path p.depth b ∙ valid.whole;
      deep = omega arith;
      indexed = rw add-one down_index-eq-index_at;
    },
    rw add-one (take-suc-set p.path p.depth b (omega (arith, valid.whole))),
  )

module _ ⦃bits : BitField⦄ where
  -- The index at a depth is even or odd by the last bit alone.
  pub index_at-parity :
      (path path' : Bits) (depth : ℕ) (b c : Bool)
      → length path ≡ length path'
      → depth ≤ length path
      → take depth path ≡ take depth path'
      → get_elem? path depth ≡ some b
      → get_elem? path' depth ≡ some c
      → (n : ℕ) × (index_at path (suc depth) ≡ 2 * n + bit_value b)
        × (index_at path' (suc depth) ≡ 2 * n + bit_value c)
  index_at-parity path path' depth b c size fits same at at' =
      elim (Bool-cases (depth % page_layers == 0)) [
        | inl first ↦
            let e : depth % page_layers ≡ 0 = ground arith in
            (
              0,
              omega (arith, index_at-start path depth b e at),
              omega (arith, index_at-start path' depth c e at'),
            )
        | inr mid ↦
            let e : depth % page_layers ≢ 0 = ground arith in
            let common = index_at_ext path path' depth same in
            (
              index_at path depth + 1,
              omega (arith, index_at-suc path depth b e at fits),
              omega (arith, common, index_at-suc path' depth c e at' (omega arith)),
            )
      ]

  parent_of_child : (n : ℕ) (b : Bool) → parent_node_index (2 * n + 2 + bit_value b) ≡ some n
  unfolding parent_node_index
  parent_of_child n true = ground arith
  parent_of_child n false = ground arith

  parents-index_at :
      (path : Bits) (d n : ℕ)
      → 1 ≤ n
      → n + d ≤ length path
      → page_depth (n + d) ≡ page_depth n
      → parents d (index_at path (n + d)) ≡ some (index_at path n)
  unfolding parents Option.bind page_depth
  parents-index_at path zero n pos fits same = rw add-zero
  parents-index_at path (suc d) n pos fits same =
      let (b, at) = get_elem?_total path (n + d) (omega arith) in
      let mid : (n + d) % page_layers ≢ 0 = omega arith in
      let step = index_at-suc path (n + d) b mid at (omega arith) in
      let back : parent_node_index (index_at path (suc (n + d))) ≡ some (index_at path (n + d)) =
        ap parent_node_index step ∙ parent_of_child (index_at path (n + d)) b in
      rw (add-suc, back) (parents-index_at path d n pos (omega arith) (omega arith))

  -- Where `up` does not reach the root.
  up_moved : ℕ → TriePosition → TriePosition
  up_moved d p = record p { depth = p.depth - d; node_index = index_at p.path (p.depth - d) }

  up-eq-some : (d : ℕ) (p : TriePosition) → IsValid p → d < p.depth → up d p ≡ some (up_moved d p)
  unfolding up up_moved
  up-eq-some d p valid h =
      let back : p.depth - d + d ≡ p.depth = omega arith in
      ground (
        arith,
        valid.indexed,
        valid.whole,
        valid.deep,
        parents-index_at p.path d (p.depth - d),
        ap (index_at p.path) back,
        ap page_depth back,
      )

  up_root : (p : TriePosition) → up p.depth p ≡ some new
  unfolding up
  up_root p = ground arith

  -- Going up by at most the depth of a valid position succeeds, gives a valid position, and
  -- drops that many bits from the end of the path.
  pub up-IsValid :
      (d : ℕ) (p : TriePosition)
      → IsValid p
      → d ≤ p.depth
      → (q : TriePosition) × (up d p ≡ some q)
        × IsValid q
        × (path_of q ≡ take (p.depth - d) (path_of p))
  unfolding path_of
  up-IsValid d p valid h = elim (Bool-cases (d == p.depth)) [
    | inl all ↦
        let e : d ≡ p.depth = ground arith in
        let none_left : p.depth - d ≡ 0 = omega arith in
        (new, rw e (up_root p), new-IsValid, unfold new in rw none_left)
    | inr part ↦
        let below : d < p.depth = ground arith in
        (
          up_moved d p,
          up-eq-some d p valid below,
          unfold up_moved in
              record { whole = valid.whole; deep = omega (arith, valid.deep); indexed = refl },
          unfold up_moved in sym (take-take_le (p.depth - d) p.depth p.path (omega arith)),
        )
  ]

  pub length-path_of : (p : TriePosition) → IsValid p → length (path_of p) ≡ p.depth
  unfolding path_of
  length-path_of p valid = omega (arith, length-take {0} p.depth p.path, valid.whole, valid.deep)

  -- Valid positions that the code takes for equal, by their paths, have the same depth and the
  -- same node index, whatever the bits after their depth.
  pub same_position-node_index :
      (p q : TriePosition)
      → IsValid p
      → IsValid q
      → same_position p q ≡ true
      → (p.depth ≡ q.depth) × (p.node_index ≡ q.node_index)
  same_position-node_index p q vp vq same =
      let e : path_of p ≡ path_of q =
        unfold same_position in (==_iff (path_of p) (path_of q)).0 same in
      let d : p.depth ≡ q.depth = sym (length-path_of p vp) ∙ ap length e ∙ length-path_of q vq in
      (
        d,
        vp.indexed
            ∙ index_at_ext p.path q.path p.depth
                (unfold path_of in e ∙ ap (λ n. take n q.path) (sym d))
            ∙ ap (index_at q.path) d
            ∙ sym vq.indexed,
      )
