-- ===== src/Core/Examples.antt =====
-- Concrete runs: a hasher that keeps its input, three keys of two bits, a proof of one of them and
-- an update through it, at which the theorems are applied.
mod Positions
mod Multi
use nomt.Base.{
  none, ◌≡◌, ◌↔◌, ◌⊎◌, refl, ap, true, false, not, List, [], ◌∷◌, ◌++◌, some, ok, replicate,
  get_elem?, take,
}
use nomt.Core.Trie.{
  Node, NodeKind, LeafData, InternalData, NodeHasher, IsLabelled, Collision, terminator_node,
}
use nomt.Core.Hasher.{BinaryHash}
use nomt.Core.Update.{Change, leaf_ops_spliced, Op, build_trie, leaf_node, shared_bits, bits_ltb}
use nomt.Core.Update.Reference.{sub_trie, with_bit, IsGroup}
use nomt.Core.Update.Correct.{build_trie-eq-sub_trie}
use nomt.Core.PathProof.{
  terminal_node, PathProof, PathProofTerminal, VerifiedPathProof, verify, confirm_value,
  confirm_nonexistence,
}
use nomt.Core.PathProof.Descent.{Holds, HoldsKey, IsOnPath, IsInTrie, below}
use nomt.Core.VerifyUpdate.{UpdateOutcome, check_paths, verify_update}
use nomt.Core.VerifyUpdate.Single.{verify_update-eq-sub_trie}
use nomt.Core.PathProof.Sound.{Clash, confirm_value_sound, confirm_nonexistence_sound}

abbrev kind_by_head : Node → NodeKind
kind_by_head [] = NodeKind.terminator
kind_by_head (true ∷ n) = NodeKind.leaf
kind_by_head (false ∷ []) = NodeKind.terminator
kind_by_head (false ∷ true ∷ n) = NodeKind.internal
kind_by_head (false ∷ false ∷ n) = NodeKind.terminator

abbrev plain_hasher : NodeHasher
plain_hasher = record {
  hash_leaf = λ d. true ∷ (d.key_path ++ d.value_hash);
  hash_internal = λ d. false ∷ true ∷ (d.left ++ d.right);
  node_kind = kind_by_head;
}

plain_hasher-IsLabelled : IsLabelled plain_hasher
unfolding terminator_node
plain_hasher-IsLabelled = record {
  leaf_kind = λ d. refl;
  internal_kind = λ d. refl;
  terminator_kind = refl;
}

abbrev three_keys : List Op
three_keys =
    (false ∷ false ∷ [], true ∷ [])
    ∷ (false ∷ true ∷ [], false ∷ [])
    ∷ (true ∷ false ∷ [], true ∷ true ∷ [])
    ∷ []

three_keys-IsGroup : IsGroup 2 0 [] three_keys
unfolding bits_ltb
three_keys-IsGroup = record {
  sized = (refl, (refl, (refl, tt)));
  shared = (refl, (refl, (refl, tt)));
  ascending = ((refl, (refl, tt)), ((refl, tt), (tt, tt)));
}

abbrev middle_leaf : LeafData
middle_leaf = record { key_path = false ∷ true ∷ []; value_hash = false ∷ [] }

abbrev middle_proof : PathProof
middle_proof = record {
  terminal = PathProofTerminal.leaf middle_leaf;
  siblings =
      plain_hasher.hash_leaf
        (record { key_path = true ∷ false ∷ []; value_hash = true ∷ true ∷ [] })
      ∷ plain_hasher.hash_leaf (record { key_path = false ∷ false ∷ []; value_hash = true ∷ [] })
      ∷ [];
}

abbrev middle_verified : VerifiedPathProof
middle_verified = record {
  key_path = false ∷ true ∷ [];
  terminal = some middle_leaf;
  siblings = middle_proof.siblings;
  root = sub_trie plain_hasher 2 0 three_keys;
}

middle_accepted :
    verify plain_hasher middle_proof (false ∷ true ∷ []) (sub_trie plain_hasher 2 0 three_keys)
    ≡ ok middle_verified
unfolding verify sub_trie with_bit leaf_node
middle_accepted = refl

confirm_value_sound_example :
    ((true ≡ true) ↔ Holds (false ∷ true ∷ []) (false ∷ []) three_keys)
    ⊎ Clash plain_hasher plain_hasher-IsLabelled 2 three_keys three_keys-IsGroup middle_proof
        (false ∷ true ∷ [])
        middle_verified
        middle_accepted
unfolding confirm_value
confirm_value_sound_example =
    confirm_value_sound plain_hasher plain_hasher-IsLabelled 2 three_keys three_keys-IsGroup
      middle_proof (false ∷ true ∷ []) middle_verified middle_accepted middle_leaf true refl

confirm_nonexistence_sound_example :
    ((false ≡ true) ↔ (¬ HoldsKey (false ∷ true ∷ []) three_keys))
    ⊎ Clash plain_hasher plain_hasher-IsLabelled 2 three_keys three_keys-IsGroup middle_proof
        (false ∷ true ∷ [])
        middle_verified
        middle_accepted
unfolding confirm_nonexistence
confirm_nonexistence_sound_example =
    confirm_nonexistence_sound plain_hasher plain_hasher-IsLabelled 2 three_keys three_keys-IsGroup
      middle_proof (false ∷ true ∷ []) middle_verified middle_accepted (false ∷ true ∷ []) false
      refl

build_trie-eq-sub_trie_example :
    (build_trie plain_hasher 0 three_keys).0 ≡ sub_trie plain_hasher 2 0 three_keys
build_trie-eq-sub_trie_example =
    build_trie-eq-sub_trie plain_hasher 2 0 [] three_keys three_keys-IsGroup

-- The root that the code computes for the three keys.
build_trie_run :
    (build_trie plain_hasher 0 three_keys).0
    ≡ plain_hasher.hash_internal (record {
      left = plain_hasher.hash_internal (record {
        left = true ∷ false ∷ false ∷ true ∷ [];
        right = true ∷ false ∷ true ∷ false ∷ [];
      });
      right = true ∷ true ∷ false ∷ true ∷ true ∷ [];
    })
unfolding build_trie shared_bits
build_trie_run = refl

-- A hash that keeps the first 256 bits of its input.
abbrev first_bits : BinaryHash
first_bits = record { hash = λ input. take 256 (input ++ replicate 256 false) }

abbrev some_leaf : LeafData
some_leaf = record { key_path = replicate 256 false; value_hash = replicate 256 true }

abbrev some_pair : InternalData
some_pair = record { left = replicate 256 true; right = replicate 256 false }

-- The middle key gets another value.
abbrev three_keys_after : List Op
three_keys_after =
    (false ∷ false ∷ [], true ∷ [])
    ∷ (false ∷ true ∷ [], true ∷ [])
    ∷ (true ∷ false ∷ [], true ∷ true ∷ [])
    ∷ []

three_keys_after-IsGroup : IsGroup 2 0 [] three_keys_after
unfolding bits_ltb
three_keys_after-IsGroup = record {
  sized = (refl, (refl, (refl, tt)));
  shared = (refl, (refl, (refl, tt)));
  ascending = ((refl, (refl, tt)), ((refl, tt), (tt, tt)));
}

abbrev middle_change : List Change
middle_change = (false ∷ true ∷ [], some (true ∷ [])) ∷ []

middle_checked :
    check_paths
      (sub_trie plain_hasher 2 0 three_keys)
      none
      (record { inner = middle_verified; ops = middle_change } ∷ [])
    ≡ none
unfolding check_paths sub_trie with_bit leaf_node
middle_checked = refl

verify_update-eq-sub_trie_example :
    (verify_update plain_hasher
        (sub_trie plain_hasher 2 0 three_keys)
        (record { inner = middle_verified; ops = middle_change } ∷ [])
      ≡ UpdateOutcome.root (sub_trie plain_hasher 2 0 three_keys_after))
    ⊎ Collision plain_hasher
        (λ a. ⊥)
        (λ b. ⊥)
        (IsOnPath plain_hasher
          (plain_hasher.hash_leaf middle_leaf)
          (false ∷ true ∷ [])
          middle_proof.siblings)
        (IsInTrie plain_hasher 2 0 three_keys)
unfolding with_bit below leaf_ops_spliced bits_ltb terminal_node
verify_update-eq-sub_trie_example =
    verify_update-eq-sub_trie plain_hasher 2 three_keys three_keys_after middle_proof
      (false ∷ true ∷ []) middle_verified middle_change plain_hasher-IsLabelled three_keys-IsGroup
      three_keys_after-IsGroup middle_accepted middle_checked (refl, (refl, tt)) refl
