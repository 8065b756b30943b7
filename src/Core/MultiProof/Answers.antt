-- ===== src/Core/MultiProof/Answers.antt =====
-- The answers of a verified multi-proof are those of path proofs against the same root, and so they
-- are true of the trie (core/src/proof/multi_proof.rs).
use nomt.Base.{
  ℕ, suc, min, ◌≤◌, ◌<◌, ◌≡◌, ◌⊎◌, ◌↔◌, inl, inr, refl, sym, ap, ◌∙◌, Bool, true, List, [], ◌∷◌,
  reverse, Bits, bool_eq, list_eq, nat_eq, ◌==◌, ==_iff, length, take, get_elem?, Option, some,
  arith, length-take, ok, and_then, le→ltb-false, Result-cases, Bool-cases, get_elem?_total,
}
use mathlib.Core.Option
use nomt.Core.Trie.{Node, KeyPath, LeafData, NodeHasher, IsLabelled, Collision}
use nomt.Core.Update.{Op, bits_ltb}
use nomt.Core.Update.Reference.{sub_trie, IsGroup}
use nomt.Core.PathProof.{
  PathProofTerminal, VerifiedPathProof, terminal_path, terminal_node, as_leaf_option, has_terminal,
  other_key, in_scope, hash_path, KeyOutOfScope, key_out_of_scope,
}
use nomt.Core.PathProof
use nomt.Core.PathProof.Descent.{Holds, HoldsKey, IsOnPath, IsInTrie, hash_path-eq-hash_down}
use nomt.Core.PathProof.Sound.{confirm_value_sound, confirm_nonexistence_sound}
use nomt.Core.MultiProof.{MultiProof, VerifiedMultiPath, VerifiedMultiProof, verify}
use nomt.Core.MultiProof.Questions.{
  proven_path, search_index, find_index_for, in_scope_of, confirm_value_inner,
  confirm_nonexistence_inner, confirm_value_with_index, confirm_nonexistence_with_index,
  confirm_value, confirm_nonexistence,
}
use nomt.Core.MultiProof.Proves.{Proves}
use nomt.Core.MultiProof.Sound.{AreShort, MadeFor, proven}

-- The path proof that the siblings of a verified path make up.
abbrev proof_of : VerifiedMultiPath → List Node → PathProof.PathProof
proof_of v siblings = record { terminal = v.terminal; siblings = siblings }

abbrev verified_of : Node → VerifiedMultiPath → List Node → VerifiedPathProof
verified_of root v siblings = record {
  key_path = take (length siblings) (terminal_path v.terminal);
  terminal = as_leaf_option v.terminal;
  siblings = siblings;
  root = root;
}

verify-Proves :
    (h : NodeHasher) (S : PathProofTerminal → List Node → Type 0) (root : Node)
    (v : VerifiedMultiPath)
    → length (terminal_path v.terminal) ≤ 256
    → (t : Proves h S 0 root v)
    → PathProof.verify h (proof_of v t.siblings) (terminal_path v.terminal) root
      ≡ ok (verified_of root v t.siblings)
unfolding PathProof.verify
verify-Proves h S root v short t =
    let path = terminal_path v.terminal in
    let count = length t.siblings in
    let fits : count ≤ min (length path) 256 = omega (arith, t.depth, t.fits) in
    let size : length (take count path) ≡ count = omega (arith, length-take {0} count path) in
    let hashed : hash_path h (terminal_node h v.terminal) (take count path) (reverse t.siblings)
        ≡ root =
      hash_path-eq-hash_down h (terminal_node h v.terminal) (take count path) t.siblings size
      ∙ t.hashed in
    rw
      (
        le→ltb-false (min (length path) 256) count fits,
        (==_iff (hash_path h (terminal_node h v.terminal) (take count path) (reverse t.siblings))
              root).1
            hashed,
      )
      refl

-- The scopes of a verified path and of its path proof are the same.
scope_of :
    (h : NodeHasher) (S : PathProofTerminal → List Node → Type 0) (root : Node)
    (v : VerifiedMultiPath) (t : Proves h S 0 root v) (key : KeyPath)
    → in_scope_of v key ≡ in_scope (verified_of root v t.siblings) key
unfolding in_scope_of in_scope proven_path
scope_of h S root v t key =
    let path = terminal_path v.terminal in
    let depth : v.depth ≡ length t.siblings = omega (arith, t.depth) in
    let size : length (take (length t.siblings) path) ≡ length t.siblings =
      omega (arith, length-take {0} (length t.siblings) path, t.fits, t.depth) in
    rw (depth, size) refl

module _ (h : NodeHasher) (S : PathProofTerminal → List Node → Type 0) (root : Node)
    (m : VerifiedMultiProof) (i : ℕ) (v : VerifiedMultiPath) (at : get_elem? m.inner i ≡ some v)
    (t : Proves h S 0 root v) where
  value-at :
      (leaf : LeafData)
      → confirm_value_with_index m leaf i
        ≡ some (PathProof.confirm_value (verified_of root v t.siblings) leaf)
  unfolding confirm_value_with_index PathProof.confirm_value Option.bind confirm_value_inner
  value-at leaf =
      let scope = scope_of h S root v t leaf.key_path in
      elim (Bool-cases (in_scope_of v leaf.key_path)) [
        | inl inside ↦ rw (at, inside, sym scope ∙ inside) refl
        | inr outside ↦ rw (at, outside, sym scope ∙ outside) refl
      ]

  absence-at :
      (key : KeyPath)
      → confirm_nonexistence_with_index m key i
        ≡ some (PathProof.confirm_nonexistence (verified_of root v t.siblings) key)
  unfolding confirm_nonexistence_with_index PathProof.confirm_nonexistence Option.bind
      confirm_nonexistence_inner
  absence-at key =
      let scope = scope_of h S root v t key in
      elim (Bool-cases (in_scope_of v key)) [
        | inl inside ↦ rw (at, inside, sym scope ∙ inside) refl
        | inr outside ↦ rw (at, outside, sym scope ∙ outside) refl
      ]

-- A path proof against the root that answers as the path at the index does.
pub record IsAnswered (h : NodeHasher) (m : VerifiedMultiProof) (root : Node) (i : ℕ) : Type 0 where
  pub proof : PathProof.PathProof
  pub path : Bits
  pub verified : VerifiedPathProof
  pub accepted : PathProof.verify h proof path root ≡ ok verified
  pub value :
      (leaf : LeafData)
      → confirm_value_with_index m leaf i ≡ some (PathProof.confirm_value verified leaf)
  pub absence :
      (key : KeyPath)
      → confirm_nonexistence_with_index m key i ≡ some (PathProof.confirm_nonexistence verified key)

module _ (h : NodeHasher) (mp : MultiProof) (root : Node) (m : VerifiedMultiProof)
    (short : AreShort mp.paths) (accepted : verify h mp root ≡ ok (ok m)) where
  -- For each path of an accepted multi-proof there is a path proof that is accepted against the
  -- same root, and whose verified form answers each question for a value or an absence as the
  -- multi-proof does for the index of the path.
  pub verify-IsAnswered : (i : ℕ) → i < length m.inner → IsAnswered h m root i
  verify-IsAnswered i within =
      let (v, at) = get_elem?_total m.inner i within in
      let (small, t) = proven h mp root m short accepted i v at in
      record {
        proof = proof_of v t.siblings;
        path = terminal_path v.terminal;
        verified = verified_of root v t.siblings;
        accepted = verify-Proves h (MadeFor h mp) root v small t;
        value = value-at h (MadeFor h mp) root m i v at t;
        absence = absence-at h (MadeFor h mp) root m i v at t;
      }

search_index-at :
    (vs : List VerifiedMultiPath) (key : KeyPath) (i : ℕ)
    → search_index vs key ≡ ok i
    → (i < length vs)
      × (v : VerifiedMultiPath) × (get_elem? vs i ≡ some v)
      × (in_scope_of v key ≡ true)
unfolding search_index in_scope_of and_then
search_index-at [] key i e = absurd (cc)
search_index-at (v ∷ vs) key i e = elim (Bool-cases (bits_ltb (proven_path v) (take v.depth key))) [
  | inl lower ↦ elim (Result-cases (search_index vs key)) [
    | inl (s, out) ↦ absurd (ground (arith, lower, out))
    | inr (j, found) ↦
        let (within, w, at, scope) = search_index-at vs key j found in
        let next : i ≡ suc j = ground (arith, lower, found) in
        (omega (arith, next), w, ap (get_elem? (v ∷ vs)) next ∙ at, scope)
  ]
  | inr other ↦ elim (Bool-cases (proven_path v == take v.depth key)) [
    | inl same ↦
        let here : i ≡ 0 = ground (arith, other, same) in
        (omega (arith, here), v, ap (get_elem? (v ∷ vs)) here, same)
    | inr differs ↦ absurd (ground (arith, other, differs))
  ]
]

-- An answer of `confirm_value` is one by the index that the search has found.
confirm_value-index :
    (m : VerifiedMultiProof) (leaf : LeafData) (b : Bool)
    → confirm_value m leaf ≡ some (ok b)
    → (i : ℕ) × (v : VerifiedMultiPath) × (get_elem? m.inner i ≡ some v)
      × (in_scope_of v leaf.key_path ≡ true)
      × (confirm_value_with_index m leaf i ≡ some (ok b))
unfolding confirm_value confirm_value_with_index Option.bind confirm_value_inner find_index_for
confirm_value-index m leaf b e = elim (Result-cases (search_index m.inner leaf.key_path)) [
  | inl (s, out) ↦ absurd (ground (arith, out))
  | inr (i, found) ↦
      let (within, v, at, scope) = search_index-at m.inner leaf.key_path i found in
      (i, v, at, scope, rw (at, scope) (ground (arith, found, at)))
]

confirm_nonexistence-index :
    (m : VerifiedMultiProof) (key : KeyPath) (b : Bool)
    → confirm_nonexistence m key ≡ some (ok b)
    → (i : ℕ) × (v : VerifiedMultiPath) × (get_elem? m.inner i ≡ some v)
      × (in_scope_of v key ≡ true)
      × (confirm_nonexistence_with_index m key i ≡ some (ok b))
unfolding confirm_nonexistence confirm_nonexistence_with_index Option.bind
    confirm_nonexistence_inner find_index_for
confirm_nonexistence-index m key b e = elim (Result-cases (search_index m.inner key)) [
  | inl (s, out) ↦ absurd (ground (arith, out))
  | inr (i, found) ↦
      let (within, v, at, scope) = search_index-at m.inner key i found in
      (i, v, at, scope, rw (at, scope) (ground (arith, found, at)))
]

some_same : {A : Type 0} (a b : A) → ◌≡◌ {A = Option A} (some a) (some b) → a ≡ b
some_same a b e = ground arith

module _ (h : NodeHasher) (labelled : IsLabelled h) (f : ℕ) (ops : List Op)
    (group : IsGroup f 0 [] ops) (mp : MultiProof) (m : VerifiedMultiProof)
    (short : AreShort mp.paths) (accepted : verify h mp (sub_trie h f 0 ops) ≡ ok (ok m)) where
  -- The path of the multi-proof whose scope holds the key: on the way from its terminal to the
  -- root, over the siblings that the multi-proof holds for it, a leaf or a pair of nodes is hashed
  -- that differs from one of the trie and has the same hash.
  pub record HasClash (key : KeyPath) : Type 0 where
    pub index : ℕ
    pub path : VerifiedMultiPath
    pub stands : get_elem? m.inner index ≡ some path
    pub scope : in_scope_of path key ≡ true
    pub siblings : List Node
    pub made : MadeFor h mp path.terminal siblings
    pub count : path.depth ≡ length siblings
    pub clash :
        Collision h
          (λ a. path.terminal ≡ PathProofTerminal.leaf a)
          (λ leaf. Holds leaf.key_path leaf.value_hash ops)
          (IsOnPath h
            (terminal_node h path.terminal)
            (take (length siblings) (terminal_path path.terminal))
            siblings)
          (IsInTrie h f 0 ops)

  HasClash-of :
      (i : ℕ) (v : VerifiedMultiPath)
      → get_elem? m.inner i ≡ some v
      → (key : KeyPath) → in_scope_of v key ≡ true
      → (t : Proves h (MadeFor h mp) 0 (sub_trie h f 0 ops) v)
      → Collision h
          (λ a. v.terminal ≡ PathProofTerminal.leaf a)
          (λ leaf. Holds leaf.key_path leaf.value_hash ops)
          (IsOnPath h
            (terminal_node h v.terminal)
            (take (length t.siblings) (terminal_path v.terminal))
            t.siblings)
          (IsInTrie h f 0 ops)
      → HasClash key
  HasClash-of i v at key scope t clash = record {
    index = i;
    path = v;
    stands = at;
    scope = scope;
    siblings = t.siblings;
    made = t.made;
    count = omega (arith, t.depth);
    clash = clash;
  }

  -- Against the root of the reference trie of `ops`, where an accepted multi-proof answers for the
  -- key of a leaf, it answers `true` exactly if the operations hold that key with that value, or
  -- else the multi-proof has a path with the key in its scope, on whose way to the root, over the
  -- siblings that the multi-proof holds for it, a leaf or a pair of nodes is hashed that differs
  -- from one of the trie and has the same hash.
  pub confirm_value_answers :
      (leaf : LeafData) (b : Bool)
      → confirm_value m leaf ≡ some (ok b)
      → ((b ≡ true) ↔ Holds leaf.key_path leaf.value_hash ops) ⊎ HasClash leaf.key_path
  confirm_value_answers leaf b answer =
      let (i, v, at, scope, by_index) = confirm_value-index m leaf b answer in
      let (small, t) = proven h mp (sub_trie h f 0 ops) m short accepted i v at in
      let same : PathProof.confirm_value (verified_of (sub_trie h f 0 ops) v t.siblings) leaf
          ≡ ok b =
        some_same _ _
          (sym (value-at h (MadeFor h mp) (sub_trie h f 0 ops) m i v at t leaf) ∙ by_index) in
      elim (confirm_value_sound h labelled f ops group (proof_of v t.siblings)
        (terminal_path v.terminal) (verified_of (sub_trie h f 0 ops) v t.siblings)
        (verify-Proves h (MadeFor h mp) (sub_trie h f 0 ops) v small t) leaf b same) [
          | inl r ↦ inl r
          | inr c ↦ inr (HasClash-of i v at leaf.key_path scope t c)
        ]

  -- Likewise for the absence of a key: the answer is `true` exactly if the operations do not hold
  -- the key, or else the multi-proof has a path with the key in its scope and such a clash on its
  -- way to the root.
  pub confirm_nonexistence_answers :
      (key : KeyPath) (b : Bool)
      → confirm_nonexistence m key ≡ some (ok b)
      → ((b ≡ true) ↔ (¬ HoldsKey key ops)) ⊎ HasClash key
  confirm_nonexistence_answers key b answer =
      let (i, v, at, scope, by_index) = confirm_nonexistence-index m key b answer in
      let (small, t) = proven h mp (sub_trie h f 0 ops) m short accepted i v at in
      let same : PathProof.confirm_nonexistence (verified_of (sub_trie h f 0 ops) v t.siblings) key
          ≡ ok b =
        some_same _ _
          (sym (absence-at h (MadeFor h mp) (sub_trie h f 0 ops) m i v at t key) ∙ by_index) in
      elim (confirm_nonexistence_sound h labelled f ops group (proof_of v t.siblings)
        (terminal_path v.terminal) (verified_of (sub_trie h f 0 ops) v t.siblings)
        (verify-Proves h (MadeFor h mp) (sub_trie h f 0 ops) v small t) key b same) [
          | inl r ↦ inl r
          | inr c ↦ inr (HasClash-of i v at key scope t c)
        ]
