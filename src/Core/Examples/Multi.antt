-- ===== src/Core/Examples/Multi.antt =====
-- A proof of two of the three keys at once (core/src/proof/multi_proof.rs), at which the theorems
-- are applied.
use nomt.Base.{
  ◌≡◌, ◌≢◌, ◌↔◌, ◌⊎◌, refl, true, false, [], ◌∷◌, ok, err, arith, out_of_fuel, and_then,
}
use mathlib.Core.Option
use nomt.Core.Trie.{LeafData, terminator_node}
use nomt.Core.Update.{leaf_node}
use nomt.Core.Update.Reference.{sub_trie, with_bit}
use nomt.Core.PathProof.{PathProofTerminal, terminal_path}
use nomt.Core.PathProof.Descent.{Holds, HoldsKey}
use nomt.Core.MultiProof.{MultiProof, VerifiedMultiProof, verify}
use nomt.Core.MultiProof.Questions.{confirm_value, confirm_nonexistence}
use nomt.Core.MultiProof.Sound.{AreShort}
use nomt.Core.MultiProof.Answers.{
  IsAnswered, verify-IsAnswered, HasClash, confirm_value_answers, confirm_nonexistence_answers,
}
use nomt.Core.MultiProof.Fuel.{verify_ends}
use nomt.Core.Examples.{
  plain_hasher, plain_hasher-IsLabelled, three_keys, three_keys-IsGroup, middle_leaf,
}

abbrev first_leaf : LeafData
first_leaf = record { key_path = false ∷ false ∷ []; value_hash = true ∷ [] }

abbrev last_leaf : LeafData
last_leaf = record { key_path = true ∷ false ∷ []; value_hash = true ∷ true ∷ [] }

-- The first and the last key, with the middle leaf as their only sibling.
abbrev outer_proof : MultiProof
outer_proof = record {
  paths =
      record { terminal = PathProofTerminal.leaf first_leaf; depth = 2 }
      ∷ record { terminal = PathProofTerminal.leaf last_leaf; depth = 1 }
      ∷ [];
  siblings = plain_hasher.hash_leaf middle_leaf ∷ [];
}

abbrev outer_verified : VerifiedMultiProof
outer_verified = record {
  inner =
      record { terminal = PathProofTerminal.leaf first_leaf; depth = 2; unique_siblings = (0, 1) }
      ∷ record { terminal = PathProofTerminal.leaf last_leaf; depth = 1; unique_siblings = (1, 1) }
      ∷ [];
  bisections = [];
  siblings = outer_proof.siblings;
  root = sub_trie plain_hasher 2 0 three_keys;
}

outer_accepted :
    verify plain_hasher outer_proof (sub_trie plain_hasher 2 0 three_keys) ≡ ok (ok outer_verified)
unfolding verify sub_trie with_bit leaf_node and_then Option.bind
outer_accepted = refl

outer_short : AreShort outer_proof.paths
unfolding terminal_path
outer_short = omega arith

verify-IsAnswered_example :
    IsAnswered plain_hasher outer_verified (sub_trie plain_hasher 2 0 three_keys) 1
verify-IsAnswered_example =
    verify-IsAnswered plain_hasher outer_proof (sub_trie plain_hasher 2 0 three_keys) outer_verified
      outer_short outer_accepted 1 (omega arith)

confirm_value_answers_example :
    ((true ≡ true) ↔ Holds (true ∷ false ∷ []) (true ∷ true ∷ []) three_keys)
    ⊎ HasClash plain_hasher plain_hasher-IsLabelled 2 three_keys three_keys-IsGroup outer_proof
        outer_verified outer_short outer_accepted
        (true ∷ false ∷ [])
unfolding confirm_value and_then
confirm_value_answers_example =
    confirm_value_answers plain_hasher plain_hasher-IsLabelled 2 three_keys three_keys-IsGroup
      outer_proof outer_verified outer_short outer_accepted last_leaf true refl

confirm_nonexistence_answers_example :
    ((true ≡ true) ↔ (¬ HoldsKey (true ∷ true ∷ []) three_keys))
    ⊎ HasClash plain_hasher plain_hasher-IsLabelled 2 three_keys three_keys-IsGroup outer_proof
        outer_verified outer_short outer_accepted
        (true ∷ true ∷ [])
unfolding confirm_nonexistence and_then
confirm_nonexistence_answers_example =
    confirm_nonexistence_answers plain_hasher plain_hasher-IsLabelled 2 three_keys
      three_keys-IsGroup outer_proof outer_verified outer_short outer_accepted (true ∷ true ∷ [])
      true refl

verify_ends_example : verify plain_hasher outer_proof terminator_node ≢ err out_of_fuel
verify_ends_example = verify_ends plain_hasher outer_proof terminator_node
