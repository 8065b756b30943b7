-- ===== src/Core/PathProof/Sound.antt =====
-- What a verified path proof shows of the reference trie (core/src/proof/path_proof.rs).
use nomt.Base.{
  ℕ, ◌≤◌, ◌≡◌, refl, sym, ap, ◌∙◌, Bool, true, not, List, [], ◌∷◌, reverse, Bits, bool_eq, list_eq,
  ◌==◌, ==_iff, length, take, arith, inl, inr, ◌⊎◌, ◌↔◌, ok, Bool-cases, length-take,
}
use mathlib.Core.Path.{subst}
use nomt.Core.Trie.{
  Node, KeyPath, LeafData, NodeHasher, IsLabelled, Collision, Collision-map, leaf_eq,
}
use nomt.Core.Update.{Op}
use nomt.Core.Update.Reference.{sub_trie, IsGroup}
use nomt.Core.PathProof.{
  PathProof, PathProofTerminal, VerifiedPathProof, verify, confirm_value, confirm_nonexistence,
  hash_path, terminal_node, as_leaf_option, has_terminal, other_key, in_scope,
}
use nomt.Core.PathProof.Members.{Holds-below, below-Holds}
use nomt.Core.PathProof.Descent.{
  Holds, HoldsKey, IsOnPath, IsInTrie, below, hash_path-eq-hash_down, EndsAt, descent, end_leaf,
  end_terminator,
}

-- The facts that an accepted proof carries.
pub record IsVerified (h : NodeHasher) (p : PathProof) (key : Bits) (root : Node)
    (v : VerifiedPathProof) : Type 0 where
  pub path : v.key_path ≡ take (length p.siblings) key
  pub fits : length p.siblings ≤ length key
  pub terminal : v.terminal ≡ as_leaf_option p.terminal
  pub hashed : hash_path h (terminal_node h p.terminal) v.key_path (reverse p.siblings) ≡ root

pub verify-IsVerified :
    (h : NodeHasher) (p : PathProof) (key : Bits) (root : Node) (v : VerifiedPathProof)
    → verify h p key root ≡ ok v
    → IsVerified h p key root v
unfolding verify
verify-IsVerified h p key root v e = ground (
  arith,
  ==_iff
      (hash_path h (terminal_node h p.terminal) (take (length p.siblings) key) (reverse p.siblings))
      root,
)

same_entry :
    (d leaf : LeafData)
    → Holds leaf.key_path leaf.value_hash ((d.key_path, d.value_hash) ∷ [])
    → d ≡ leaf
same_entry d leaf (inl (ek, ev)) = ground (arith, ek, ev)
same_entry d leaf (inr m) = elim m [ ]

confirm_value-answer :
    (v : VerifiedPathProof) (leaf : LeafData) (b : Bool)
    → confirm_value v leaf ≡ ok b
    → (in_scope v leaf.key_path ≡ true) × (has_terminal v.terminal leaf ≡ b)
unfolding confirm_value
confirm_value-answer v leaf b e = ground arith

confirm_nonexistence-answer :
    (v : VerifiedPathProof) (k : KeyPath) (b : Bool)
    → confirm_nonexistence v k ≡ ok b
    → (in_scope v k ≡ true) × (other_key v.terminal k ≡ b)
unfolding confirm_nonexistence
confirm_nonexistence-answer v k b e = ground arith

module _ (h : NodeHasher) (labelled : IsLabelled h) (ops : List Op) (path : Bits) where
  -- The leaf of a proof has the hash of another leaf of the trie.
  abbrev LeafClash : PathProofTerminal → Type 0
  LeafClash t =
      Collision h (λ a. t ≡ PathProofTerminal.leaf a) (λ m. Holds m.key_path m.value_hash ops)
        (λ i. ⊥) (λ j. ⊥)

  leaf_clash :
      (d : LeafData)
      → Collision h
          (λ a. a ≡ d)
          (λ m. Holds m.key_path m.value_hash (below 0 path ops))
          (λ i. ⊥)
          (λ j. ⊥)
      → LeafClash (PathProofTerminal.leaf d)
  leaf_clash d c =
      Collision-map h (λ a e. ap PathProofTerminal.leaf (sym e))
        (λ m held. Holds-below 0 path m.key_path m.value_hash ops held) (λ i none_left. none_left)
        (λ j none_left. none_left) c

  value_at_end :
      (t : PathProofTerminal) (leaf : LeafData)
      → path ≡ take (length path) leaf.key_path
      → EndsAt h labelled (terminal_node h t) (below 0 path ops)
      → ((has_terminal (as_leaf_option t) leaf ≡ true) ↔ Holds leaf.key_path leaf.value_hash ops)
        ⊎ LeafClash t
  unfolding terminal_node as_leaf_option has_terminal
  value_at_end (PathProofTerminal.leaf d) leaf scope r =
      elim (end_leaf h labelled d (below 0 path ops) r) [
        | inl alone ↦ inl (
          λ same.
              let e : d ≡ leaf = (==_iff d leaf).0 same in
              Holds-below 0 path leaf.key_path leaf.value_hash ops (
                rw alone (
                  inl (
                    ap (λ (l : LeafData). l.key_path) (sym e),
                    ap (λ (l : LeafData). l.value_hash) (sym e),
                  ))),
          λ m.
              let m' = below-Holds 0 path leaf.key_path leaf.value_hash ops scope m in
              (==_iff d leaf).1
                (same_entry d leaf (subst (Holds leaf.key_path leaf.value_hash) alone m')),
        )
        | inr c ↦ inr (leaf_clash d c)
      ]
  value_at_end (PathProofTerminal.terminator position) leaf scope r =
      let empty = end_terminator h labelled (below 0 path ops) r in
      inl (
        λ same. cc same,
        λ m. absurd (
            subst (Holds leaf.key_path leaf.value_hash) empty
              (below-Holds 0 path leaf.key_path leaf.value_hash ops scope m)),
      )

  key_at_end :
      (t : PathProofTerminal) (key : KeyPath)
      → path ≡ take (length path) key
      → EndsAt h labelled (terminal_node h t) (below 0 path ops)
      → ((other_key (as_leaf_option t) key ≡ true) ↔ (¬ HoldsKey key ops)) ⊎ LeafClash t
  unfolding terminal_node as_leaf_option other_key
  key_at_end (PathProofTerminal.leaf d) key scope r =
      elim (end_leaf h labelled d (below 0 path ops) r) [
        | inl alone ↦ inl (
          λ other m.
              let m' : Holds key m.0 ((d.key_path, d.value_hash) ∷ []) =
                subst (Holds key m.0) alone (below-Holds 0 path key m.0 ops scope m.1) in
              elim m' [
                | inl here ↦
                    let e : (d.key_path == key) ≡ true = (==_iff d.key_path key).1 (sym here.0) in
                    cc (ap not e, other)
                | inr none_left ↦ none_left
              ],
          λ absent. elim (Bool-cases (d.key_path == key)) [
            | inl same ↦ absurd (
                absent (
                  d.value_hash,
                  Holds-below 0 path key d.value_hash ops
                      (rw alone (inl (sym ((==_iff d.key_path key).0 same), refl))),
                ))
            | inr other ↦ ap not other
          ],
        )
        | inr c ↦ inr (leaf_clash d c)
      ]
  key_at_end (PathProofTerminal.terminator position) key scope r =
      let empty = end_terminator h labelled (below 0 path ops) r in
      inl (
        λ same m. subst (Holds key m.0) empty (below-Holds 0 path key m.0 ops scope m.1),
        λ absent. refl,
      )

module _ (h : NodeHasher) (labelled : IsLabelled h) (f : ℕ) (ops : List Op)
    (group : IsGroup f 0 [] ops) (p : PathProof) (key : Bits) (v : VerifiedPathProof)
    (accepted : verify h p key (sub_trie h f 0 ops) ≡ ok v) where
  verified : IsVerified h p key (sub_trie h f 0 ops) v
  verified = verify-IsVerified h p key (sub_trie h f 0 ops) v accepted

  path_length : length v.key_path ≡ length p.siblings
  path_length =
      omega (arith, ap length verified.path, length-take {0} (length p.siblings) key, verified.fits)

  -- The proof hashes a leaf or a pair of nodes that collides with another one of the trie.
  abbrev pub Clash : Type 0
  Clash =
      Collision h (λ a. p.terminal ≡ PathProofTerminal.leaf a)
        (λ m. Holds m.key_path m.value_hash ops)
        (IsOnPath h (terminal_node h p.terminal) v.key_path p.siblings) (IsInTrie h f 0 ops)

  path_clash :
      Collision h
        (λ a. ⊥)
        (λ b. ⊥)
        (IsOnPath h (terminal_node h p.terminal) v.key_path p.siblings)
        (IsInTrie h f 0 ops)
      → Clash
  path_clash c = Collision-map h (λ a x. absurd x) (λ b x. absurd x) (λ i x. x) (λ j x. x) c

  end_clash : LeafClash h labelled ops v.key_path p.terminal → Clash
  end_clash c = Collision-map h (λ a x. x) (λ b x. x) (λ i x. absurd x) (λ j x. absurd x) c

  path_end : EndsAt h labelled (terminal_node h p.terminal) (below 0 v.key_path ops) ⊎ Clash
  path_end =
      let reached : EndsAt h labelled (terminal_node h p.terminal) (below 0 v.key_path ops)
          ⊎ Collision h (λ a. ⊥) (λ b. ⊥)
              (IsOnPath h (terminal_node h p.terminal) v.key_path p.siblings) (IsInTrie h f 0 ops) =
        descent h labelled (terminal_node h p.terminal) v.key_path p.siblings f 0 [] ops path_length
          group
          (sym (
              hash_path-eq-hash_down h (terminal_node h p.terminal) v.key_path p.siblings
                path_length)
            ∙ verified.hashed) in
      elim reached [ inl r ↦ inl r | inr c ↦ inr (path_clash c) ]

  widen : {A : Type 0} → A ⊎ LeafClash h labelled ops v.key_path p.terminal → A ⊎ Clash
  widen (inl a) = inl a
  widen (inr c) = inr (end_clash c)

  scope_of : (k : KeyPath) → in_scope v k ≡ true → v.key_path ≡ take (length v.key_path) k
  unfolding in_scope
  scope_of k e = (==_iff v.key_path (take (length v.key_path) k)).0 e

  -- Against the root of the reference trie of `ops`, where an accepted proof answers for the key
  -- of a leaf, it answers `true` exactly if the operations hold that key with that value, or
  -- else the proof hashes a leaf or a pair of nodes that differs from one of the trie and has the
  -- same hash.
  pub confirm_value_sound :
      (leaf : LeafData) (b : Bool)
      → confirm_value v leaf ≡ ok b
      → ((b ≡ true) ↔ Holds leaf.key_path leaf.value_hash ops) ⊎ Clash
  confirm_value_sound leaf b answer =
      let (scope, found) = confirm_value-answer v leaf b answer in
      elim path_end [
        | inl r ↦
            subst (λ x. ((x ≡ true) ↔ Holds leaf.key_path leaf.value_hash ops) ⊎ Clash)
              (ap (λ t. has_terminal t leaf) (sym verified.terminal) ∙ found)
              (widen (
                value_at_end h labelled ops v.key_path p.terminal leaf
                  (scope_of leaf.key_path scope) r))
        | inr c ↦ inr c
      ]

  -- Likewise for the absence of a key: the answer is `true` exactly if the operations do not hold
  -- the key, or else the proof hashes a leaf or a pair of nodes that differs from one of the trie
  -- and has the same hash.
  pub confirm_nonexistence_sound :
      (k : KeyPath) (b : Bool)
      → confirm_nonexistence v k ≡ ok b
      → ((b ≡ true) ↔ (¬ HoldsKey k ops)) ⊎ Clash
  confirm_nonexistence_sound k b answer =
      let (scope, found) = confirm_nonexistence-answer v k b answer in
      elim path_end [
        | inl r ↦
            subst (λ x. ((x ≡ true) ↔ (¬ HoldsKey k ops)) ⊎ Clash)
              (ap (λ t. other_key t k) (sym verified.terminal) ∙ found)
              (widen (key_at_end h labelled ops v.key_path p.terminal k (scope_of k scope) r))
        | inr c ↦ inr c
      ]
