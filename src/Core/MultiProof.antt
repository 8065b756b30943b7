-- ===== src/Core/MultiProof.antt =====
-- core/src/proof/multi_proof.rs: proofs of several paths of the trie at once, which share the
-- siblings above them. A range of indices is the pair of its bounds, and the vectors that
-- `verify_range` pushes to are part of its result, in the order of the pushes. The std's binary
-- searches over a sorted slice are scans for the place that they find.
pub mod Questions
pub mod Order
pub mod Halves
pub mod Steps
pub mod Siblings
pub mod Proves
pub mod Range
pub mod Sound
pub mod Answers
pub mod Fuel
use nomt.Base.{
  ℕ, zero, suc, ◌+◌, ◌-◌, Bool, true, false, not, ◌&&◌, List, [], ◌∷◌, ◌++◌, reverse, Bits, bool_eq,
  list_eq, nat_eq, ◌==◌, if◌then◌else◌, ltb, leb, length, take, drop, get_elem?, last?, slice,
  Option, none, some, Result, ok, err, and_then, Stop, panic, out_of_fuel, ok_or,
}
use mathlib.Core.Option
use nomt.Core.Trie.{Node, KeyPath, LeafData, NodeHasher, terminator_node, leaf_eq}
use nomt.Core.TriePos.{new}
use nomt.Core.Update.{shared_bits, bits_ltb}
use nomt.Core.PathProof.{
  PathProofTerminal, terminal_path, terminal_node, as_leaf_option, has_terminal, other_key,
  hash_path, KeyOutOfScope, key_out_of_scope,
}

pub record MultiPathProof : Type 0 where
  pub terminal : PathProofTerminal
  pub depth : ℕ

pub record MultiProof : Type 0 where
  pub paths : List MultiPathProof
  pub siblings : List Node

pub data MultiProofVerificationError : Type 0 where
  root_mismatch paths_out_of_order too_many_siblings : MultiProofVerificationError

pub record VerifiedMultiPath : Type 0 where
  pub terminal : PathProofTerminal
  pub depth : ℕ
  pub unique_siblings : ℕ × ℕ

pub record VerifiedBisection : Type 0 where
  pub start_depth : ℕ
  pub common_siblings : ℕ × ℕ

pub record VerifiedMultiProof : Type 0 where
  pub inner : List VerifiedMultiPath
  pub bisections : List VerifiedBisection
  pub siblings : List Node
  pub root : Node

-- The loop of `verify` over the paths: each must follow the one before it.
unfoldable pub in_path_order : List MultiPathProof → Bool
unfolding terminal_path bits_ltb
in_path_order [] = true
in_path_order (p ∷ []) = true
in_path_order (p ∷ (q ∷ ps)) =
    let rest = in_path_order (q ∷ ps) in
    bits_ltb (terminal_path p.terminal) (terminal_path q.terminal) && rest

-- The binary search of `verify_range`: the first path with the bit set. A path without that bit
-- panics.
unfoldable pub bisect_index : ℕ → List MultiPathProof → Option ℕ
unfolding terminal_path
bisect_index i [] = some 0
bisect_index i (p ∷ ps) =
    Option.bind (get_elem? (terminal_path p.terminal) i)
      λ bit. if bit then some 0 else Option.map suc (bisect_index i ps)

-- `&xs[start..]`
unfoldable pub slice_from : {A : Type 0} → ℕ → List A → Result Stop (List A)
slice_from start xs = if ltb (length xs) start then err panic else ok (drop start xs)

-- What `verify_range` returns, and what it has pushed.
pub record Ranged : Type 0 where
  pub node : Node
  pub siblings_used : ℕ
  pub verified_paths : List VerifiedMultiPath
  pub verified_bisections : List VerifiedBisection

unfoldable pub root_path : VerifiedMultiPath
unfolding new
root_path = record {
  terminal = PathProofTerminal.terminator new;
  depth = 0;
  unique_siblings = (0, 0);
}

-- The last path of a range that starts with `p`.
unfoldable pub last_path : MultiPathProof → List MultiPathProof → MultiPathProof
last_path p [] = p
last_path p (q ∷ ps) = last_path q ps

-- What is pushed for the siblings that a range shares.
unfoldable pub bisection_of : ℕ → ℕ → ℕ → List VerifiedBisection
bisection_of start_depth sibling_offset common_bits =
    if ltb 0 common_bits
    then record {
      start_depth = start_depth;
      common_siblings = (sibling_offset, sibling_offset + common_bits);
    }
      ∷ []
    else []

module _ (h : NodeHasher) where
  -- A range of one path.
  unfoldable pub verify_single : ℕ → MultiPathProof → List Node → ℕ → Result Stop Ranged
  unfolding terminal_path terminal_node hash_path
  verify_single start_depth p siblings sibling_offset =
      let unique_len = p.depth - start_depth in
      let path = slice start_depth (start_depth + unique_len) (terminal_path p.terminal) in
      if ltb p.depth start_depth
      then err panic
      else if ltb (length (terminal_path p.terminal)) p.depth
      then err panic
      else if ltb (length siblings) unique_len
      then err panic
      else ok (record {
        node = hash_path h (terminal_node h p.terminal) path (reverse (take unique_len siblings));
        siblings_used = unique_len;
        verified_paths =
            record {
              terminal = p.terminal;
              depth = p.depth;
              unique_siblings = (sibling_offset, sibling_offset + unique_len);
            }
            ∷ [];
        verified_bisections = [];
      })

  -- The end of a range of several paths: the node over its two halves.
  unfoldable pub join_halves : ℕ → Bits → List Node → ℕ → ℕ → Ranged → Ranged → Ranged
  unfolding hash_path bisection_of
  join_halves start_depth path siblings sibling_offset common_bits left right =
      let parent = h.hash_internal (record { left = left.node; right = right.node }) in
      record {
        node = hash_path h parent (take common_bits path) (reverse (take common_bits siblings));
        siblings_used = common_bits + left.siblings_used + right.siblings_used;
        verified_paths = left.verified_paths ++ right.verified_paths;
        verified_bisections =
            bisection_of start_depth sibling_offset common_bits
            ++ (left.verified_bisections ++ right.verified_bisections);
      }

  -- The two recursive calls, by `recurse`, at the bisection that was found.
  unfoldable pub verify_halves :
      (ℕ → List MultiPathProof → List Node → ℕ → Result Stop Ranged)
      → ℕ
      → Bits
      → ℕ
      → ℕ
      → List MultiPathProof
      → List Node
      → ℕ
      → Result Stop Ranged
  unfolding join_halves slice_from
  verify_halves recurse start_depth start_path common_bits bisect_idx paths siblings
        sibling_offset =
      let uncommon_start_len = start_depth + common_bits + 1 in
      let left_offset = sibling_offset + common_bits in
      and_then (slice_from common_bits siblings) λ left_siblings.
        and_then (recurse uncommon_start_len (take bisect_idx paths) left_siblings left_offset)
          λ left.
            and_then (slice_from (common_bits + left.siblings_used) siblings) λ right_siblings.
              and_then
                (recurse uncommon_start_len (drop bisect_idx paths) right_siblings
                  (left_offset + left.siblings_used))
                λ right. ok (
                  join_halves start_depth start_path siblings sibling_offset common_bits left right)

  -- Of at most `fuel` bisections one in the other.
  unfoldable pub verify_range : ℕ → ℕ → List MultiPathProof → List Node → ℕ → Result Stop Ranged
  unfolding verify_single verify_halves last_path slice_from bisect_index shared_bits terminal_path
  verify_range fuel start_depth [] siblings sibling_offset = ok (record {
    node = terminator_node;
    siblings_used = 0;
    verified_paths = root_path ∷ [];
    verified_bisections = [];
  })
  verify_range fuel start_depth (p ∷ []) siblings sibling_offset =
      verify_single start_depth p siblings sibling_offset
  verify_range zero start_depth (p ∷ (q ∷ ps)) siblings sibling_offset = err out_of_fuel
  verify_range (suc fuel) start_depth (p ∷ (q ∷ ps)) siblings sibling_offset =
      and_then (slice_from start_depth (terminal_path p.terminal)) λ start_path.
        and_then (slice_from start_depth (terminal_path (last_path q ps).terminal)) λ end_path.
          let common_bits = shared_bits start_path end_path in
          and_then (ok_or (bisect_index (start_depth + common_bits) (p ∷ (q ∷ ps))) panic)
            λ bisect_idx.
              verify_halves (verify_range fuel) start_depth start_path common_bits bisect_idx
                (p ∷ (q ∷ ps)) siblings sibling_offset

  -- The tests of `verify` behind the hashing.
  unfoldable pub check_root :
      MultiProof → Node → Ranged → Result MultiProofVerificationError VerifiedMultiProof
  check_root multi_proof root ranged =
      if not (root == ranged.node)
      then err root_mismatch
      else if not (ranged.siblings_used == length multi_proof.siblings)
      then err too_many_siblings
      else ok (record {
        inner = ranged.verified_paths;
        bisections = ranged.verified_bisections;
        siblings = multi_proof.siblings;
        root = root;
      })

  unfoldable pub verify :
      MultiProof → Node → Result Stop (Result MultiProofVerificationError VerifiedMultiProof)
  unfolding in_path_order verify_range check_root
  verify multi_proof root =
      let paths = multi_proof.paths in
      if in_path_order paths
      then and_then (verify_range (length paths) 0 paths multi_proof.siblings 0)
          (λ ranged. ok (check_root multi_proof root ranged))
      else ok (err paths_out_of_order)
