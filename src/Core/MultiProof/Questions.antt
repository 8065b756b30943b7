-- ===== src/Core/MultiProof/Questions.antt =====
-- What a verified multi-proof is asked (`VerifiedMultiProof` of core/src/proof/multi_proof.rs).
use nomt.Base.{
  ℕ, ◌+◌, Bool, List, [], ◌∷◌, Bits, bool_eq, list_eq, nat_eq, ◌==◌, if◌then◌else◌, take, get_elem?,
  Option, some, Result, ok, err, and_then,
}
use mathlib.Core.Option
use nomt.Core.Trie.{KeyPath, LeafData, leaf_eq}
use nomt.Core.Update.{bits_ltb}
use nomt.Core.PathProof.{
  terminal_path, as_leaf_option, has_terminal, other_key, KeyOutOfScope, key_out_of_scope,
}
use nomt.Core.MultiProof.{VerifiedMultiPath, VerifiedMultiProof}

-- The part of the path of a terminal that a verified path proves.
unfoldable pub proven_path : VerifiedMultiPath → Bits
unfolding terminal_path
proven_path v = take v.depth (terminal_path v.terminal)

-- The binary search of `find_index_for`.
unfoldable pub search_index : List VerifiedMultiPath → KeyPath → Result KeyOutOfScope ℕ
unfolding proven_path bits_ltb
search_index [] key = err key_out_of_scope
search_index (v ∷ vs) key =
    let later = and_then (search_index vs key) (λ index. ok (index + 1)) in
    if bits_ltb (proven_path v) (take v.depth key)
    then later
    else if proven_path v == take v.depth key
    then ok 0
    else err key_out_of_scope

unfoldable pub find_index_for : VerifiedMultiProof → KeyPath → Result KeyOutOfScope ℕ
unfolding search_index
find_index_for m key_path = search_index m.inner key_path

-- `confirm_value_inner` and `confirm_nonexistence_inner`, of the path at the index; `none` stands
-- for an index out of bounds.
unfoldable pub confirm_value_inner : VerifiedMultiProof → LeafData → ℕ → Option Bool
unfolding has_terminal as_leaf_option
confirm_value_inner m expected_leaf index =
    Option.map (λ v. has_terminal (as_leaf_option v.terminal) expected_leaf)
      (get_elem? m.inner index)

unfoldable pub confirm_nonexistence_inner : VerifiedMultiProof → KeyPath → ℕ → Option Bool
unfolding other_key as_leaf_option
confirm_nonexistence_inner m key_path index =
    Option.map (λ v. other_key (as_leaf_option v.terminal) key_path) (get_elem? m.inner index)

unfoldable pub in_scope_of : VerifiedMultiPath → KeyPath → Bool
unfolding proven_path
in_scope_of v key_path = proven_path v == take v.depth key_path

unfoldable pub confirm_value_with_index :
    VerifiedMultiProof → LeafData → ℕ → Option (Result KeyOutOfScope Bool)
unfolding in_scope_of confirm_value_inner
confirm_value_with_index m expected_leaf index = Option.bind (get_elem? m.inner index) λ v.
    if in_scope_of v expected_leaf.key_path
    then Option.map ok (confirm_value_inner m expected_leaf index)
    else some (err key_out_of_scope)

unfoldable pub confirm_nonexistence_with_index :
    VerifiedMultiProof → KeyPath → ℕ → Option (Result KeyOutOfScope Bool)
unfolding in_scope_of confirm_nonexistence_inner
confirm_nonexistence_with_index m key_path index = Option.bind (get_elem? m.inner index) λ v.
    if in_scope_of v key_path
    then Option.map ok (confirm_nonexistence_inner m key_path index)
    else some (err key_out_of_scope)

unfoldable pub confirm_value : VerifiedMultiProof → LeafData → Option (Result KeyOutOfScope Bool)
unfolding find_index_for confirm_value_inner
confirm_value m expected_leaf = elim (find_index_for m expected_leaf.key_path) [
  | err e ↦ some (err e)
  | ok index ↦ Option.map ok (confirm_value_inner m expected_leaf index)
]

unfoldable pub confirm_nonexistence :
    VerifiedMultiProof → KeyPath → Option (Result KeyOutOfScope Bool)
unfolding find_index_for confirm_nonexistence_inner
confirm_nonexistence m key_path = elim (find_index_for m key_path) [
  | err e ↦ some (err e)
  | ok index ↦ Option.map ok (confirm_nonexistence_inner m key_path index)
]
