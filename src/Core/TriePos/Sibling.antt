-- ===== src/Core/TriePos/Sibling.antt =====
-- Moves to the sibling (`TriePosition::sibling` of core/src/trie_pos.rs).
use nomt.Base.{
  ℕ, suc, ◌+◌, ◌-◌, ◌*◌, ◌<◌, ◌≡◌, sym, ap, ◌∙◌, Bool, true, false, not, [], ◌∷◌, ◌++◌, Bits,
  length, take, set, get_elem?, some, bit_value, arith, take-suc, take-suc-set, take-set_ge,
  length-set, get_elem?-set_self, nat_eq, get_elem?_total, list_eq, bool_eq,
}
use nomt.Core.TriePos.{BitField, TriePosition, path_of, sibling, sibling_of_index}
use nomt.Core.TriePos.Index.{index_at}
use nomt.Core.TriePos.Moves.{IsValid, index_at-parity}

-- The flip of the last bit changes the index to its neighbour's.
sibling_of_index-flip :
    (n : ℕ) (b : Bool) → sibling_of_index (2 * n + bit_value b) ≡ 2 * n + bit_value (not b)
unfolding sibling_of_index
sibling_of_index-flip n true = ground arith
sibling_of_index-flip n false = ground arith

module _ ⦃bits : BitField⦄ where
  sibling_moved : Bool → TriePosition → TriePosition
  sibling_moved b p = record p {
    path = set p.path (p.depth - 1) (not b);
    node_index = sibling_of_index p.node_index;
  }

  flipped_index :
      (path : Bits) (d : ℕ) (b : Bool)
      → d < length path
      → get_elem? path d ≡ some b
      → sibling_of_index (index_at path (suc d)) ≡ index_at (set path d (not b)) (suc d)
  flipped_index path d b fits at =
      let (n, here, there) =
        index_at-parity path (set path d (not b)) d b (not b) (sym (length-set path d (not b)))
          (omega arith) (sym (take-set_ge path d d (not b) (omega arith))) at
          (get_elem?-set_self path d (not b) fits) in
      ap sibling_of_index here ∙ sibling_of_index-flip n b ∙ sym there

  sibling_moved-IsValid :
      (p : TriePosition) (b : Bool)
      → IsValid p
      → 0 < p.depth
      → get_elem? p.path (p.depth - 1) ≡ some b
      → IsValid (sibling_moved b p)
  unfolding sibling_moved
  sibling_moved-IsValid p b valid pos at =
      let e : suc (p.depth - 1) ≡ p.depth = omega arith in
      let flip = flipped_index p.path (p.depth - 1) b (omega (arith, valid.whole, valid.deep)) at in
      record {
        whole = length-set p.path (p.depth - 1) (not b) ∙ valid.whole;
        deep = valid.deep;
        indexed =
            ap sibling_of_index (valid.indexed ∙ ap (index_at p.path) (sym e))
            ∙ flip
            ∙ ap (index_at (set p.path (p.depth - 1) (not b))) e;
      }

  -- Moving to the sibling of a valid position below the root succeeds, gives a valid position,
  -- and flips the last bit of the path, keeping the rest.
  pub sibling-IsValid :
      (p : TriePosition)
      → IsValid p
      → 0 < p.depth
      → (q : TriePosition) × (b : Bool) × (sibling p ≡ some q)
        × IsValid q
        × (path_of p ≡ take (p.depth - 1) p.path ++ b ∷ [])
        × (path_of q ≡ take (p.depth - 1) p.path ++ not b ∷ [])
  unfolding path_of
  sibling-IsValid p valid pos =
      let e : suc (p.depth - 1) ≡ p.depth = omega arith in
      let fits : p.depth - 1 < length p.path = omega (arith, valid.whole, valid.deep) in
      let (b, at) = get_elem?_total p.path (p.depth - 1) fits in
      (
        sibling_moved b p,
        b,
        unfold sibling sibling_moved in ground arith,
        sibling_moved-IsValid p b valid pos at,
        ap (λ n. take n p.path) (sym e) ∙ take-suc (p.depth - 1) p.path b at,
        unfold sibling_moved in
            (ap (λ n. take n (set p.path (p.depth - 1) (not b))) (sym e)
              ∙ take-suc-set p.path (p.depth - 1) (not b) fits),
      )
