-- ===== src/Core/VerifyUpdate/Single.antt =====
-- An update through a single verified path (`verify_update` of core/src/proof/path_proof.rs).
use nomt.Base.{
  ℕ, zero, suc, ◌+◌, ◌≡◌, ◌⊎◌, inl, inr, sym, ap, ap₂, ◌∙◌, Bool, true, false, not, List, [], ◌∷◌,
  ◌++◌, reverse, Bits, list_eq, bool_eq, length, length-take, take, take_all, arith, length-reverse,
  none, some, ok,
}
use mathlib.Core.Path.{subst}
use nomt.Core.Trie.{Node, NodeHasher, InternalData, IsLabelled, Collision, Collision-map}
use nomt.Core.Update.{Op, Change, leaf_ops_spliced, build_trie, join_nodes}
use nomt.Core.Update.Reference.{with_bit, sub_trie, IsGroup}
use nomt.Core.Update.Group.{with_bit-IsGroup}
use nomt.Core.Update.Correct.{build_trie-eq-sub_trie}
use nomt.Core.PathProof.{PathProof, VerifiedPathProof, verify, terminal_node}
use nomt.Core.PathProof.Descent.{
  below, hash_down, hash_path-eq-hash_down, IsOnPath, IsInTrie, children_of_root,
}
use nomt.Core.PathProof.Sound.{verify-IsVerified}
use nomt.Core.VerifyUpdate.{
  PathUpdate, UpdateOutcome, climb_path, update_path, update_paths, check_paths, up_layers_of,
  next_path, last_pending, verify_update,
}
use nomt.Core.VerifyUpdate.Climb.{climb_path-eq-climb_down, RootsBeside, bottom}

module _ (h : NodeHasher) (labelled : IsLabelled h) where
  abbrev Beside : ℕ → ℕ → Node → Bits → List Node → List Op → Type 0
  Beside n p node bits siblings ops =
      RootsBeside h n p bits siblings ops
      ⊎ Collision h (λ a. ⊥) (λ b. ⊥) (IsOnPath h node bits siblings) (IsInTrie h n p ops)

  Beside-above :
      (node : Node) (b : Bool) (bs : Bits) (s : Node) (ss : List Node) (n p : ℕ) (ops : List Op)
      → (n' : ℕ) → n ≡ suc n'
      → ((b : Bool) (i : InternalData)
          → IsInTrie h n' (suc p) (with_bit p b ops) i
          → IsInTrie h n p ops i)
      → s ≡ sub_trie h n' (suc p) (with_bit p (not b) ops)
      → Beside n' (suc p) node bs ss (with_bit p b ops)
      → Beside n p node (b ∷ bs) (s ∷ ss) ops
  Beside-above node b bs s ss n p ops n' e up here (inl r) =
      inl (subst (λ m. RootsBeside h m p (b ∷ bs) (s ∷ ss) ops) (sym e) (here, r))
  Beside-above node b bs s ss n p ops n' e up here (inr c) =
      inr (Collision-map h (λ a x. x) (λ b x. x) (λ i x. inr x) (up b) c)

  -- The siblings of a path that hashes to the root are the roots beside it.
  siblings_of_path :
      (node : Node) (bits : Bits) (siblings : List Node) (n p : ℕ) (prefix : Bits) (ops : List Op)
      → length bits ≡ length siblings
      → IsGroup n p prefix ops
      → hash_down h node bits siblings ≡ sub_trie h n p ops
      → Beside n p node bits siblings ops
  unfolding hash_down
  siblings_of_path node [] siblings n p prefix ops l g e = inl tt
  siblings_of_path node (b ∷ bs) [] n p prefix ops l g e = absurd (omega arith)
  siblings_of_path node (true ∷ bs) (s ∷ ss) n p prefix ops l g e =
      elim (children_of_root h labelled n p ops (join_nodes true s (hash_down h node bs ss)) e) [
        | inl (n', en, left, right, up) ↦
            Beside-above node true bs s ss n p ops n' en up (unfold join_nodes in left) (
              siblings_of_path node bs ss n' (suc p) (prefix ++ true ∷ []) (with_bit p true ops)
                (omega arith)
                (with_bit-IsGroup n' p prefix true ops (subst (λ m. IsGroup m p prefix ops) en g))
                (unfold join_nodes in right))
        | inr c ↦ inr (Collision-map h (λ a x. x) (λ b x. x) (λ i x. inl x) (λ j x. x) c)
      ]
  siblings_of_path node (false ∷ bs) (s ∷ ss) n p prefix ops l g e =
      elim (children_of_root h labelled n p ops (join_nodes false s (hash_down h node bs ss)) e) [
        | inl (n', en, left, right, up) ↦
            Beside-above node false bs s ss n p ops n' en up (unfold join_nodes in right) (
              siblings_of_path node bs ss n' (suc p) (prefix ++ false ∷ []) (with_bit p false ops)
                (omega arith)
                (with_bit-IsGroup n' p prefix false ops (subst (λ m. IsGroup m p prefix ops) en g))
                (unfold join_nodes in left))
        | inr c ↦ inr (Collision-map h (λ a x. x) (λ b x. x) (λ i x. inl x) (λ j x. x) c)
      ]

-- The operations agree beside a path.
abbrev pub SameBeside : ℕ → Bits → List Op → List Op → Type 0
SameBeside p [] before after = Unit
SameBeside p (b ∷ bs) before after =
    (with_bit p (not b) before ≡ with_bit p (not b) after)
    × SameBeside (suc p) bs (with_bit p b before) (with_bit p b after)

same_roots :
    (h : NodeHasher) (n p : ℕ) (bits : Bits) (siblings : List Node) (before after : List Op)
    → SameBeside p bits before after
    → RootsBeside h n p bits siblings before
    → RootsBeside h n p bits siblings after
same_roots h n p [] siblings before after same r = tt
same_roots h n p (b ∷ bs) [] before after same r = r
same_roots h zero p (b ∷ bs) (s ∷ ss) before after same r = r
same_roots h (suc n) p (b ∷ bs) (s ∷ ss) before after (here, same) (root, r) = (
  root ∙ ap (sub_trie h n (suc p)) here,
  same_roots h n (suc p) bs ss (with_bit p b before) (with_bit p b after) same r,
)

verify-siblings :
    (h : NodeHasher) (p : PathProof) (key : Bits) (root : Node) (v : VerifiedPathProof)
    → verify h p key root ≡ ok v
    → v.siblings ≡ p.siblings
unfolding verify
verify-siblings h p key root v e = ground arith

-- The last path goes up to the root.
verify_update-one :
    (h : NodeHasher) (root : Node) (path : PathUpdate)
    → check_paths root none (path ∷ []) ≡ none
    → verify_update h root (path ∷ [])
      ≡ UpdateOutcome.root
          (climb_path h
            (take (length path.inner.key_path) (reverse path.inner.key_path))
            (reverse path.inner.siblings)
            (build_trie h
              (length path.inner.key_path)
              (leaf_ops_spliced path.inner.terminal path.ops)).0
            (length path.inner.key_path)
            []).0
unfolding verify_update update_paths update_path up_layers_of next_path last_pending
verify_update-one h root path fine =
    ap
      (λ o. elim o [
        | some e ↦ UpdateOutcome.failed e
        | none ↦ last_pending (update_paths h (path ∷ []) [])
      ])
      fine

module _ (h : NodeHasher) (labelled : IsLabelled h) (n : ℕ) (after : List Op)
    (group : IsGroup n 0 [] after) (path : PathUpdate)
    (sized : length path.inner.key_path ≡ length path.inner.siblings)
    (changed : below 0 path.inner.key_path after
      ≡ leaf_ops_spliced path.inner.terminal path.ops) where
  climbed :
      RootsBeside h n 0 path.inner.key_path path.inner.siblings after
      → (climb_path h
          (take (length path.inner.key_path) (reverse path.inner.key_path))
          (reverse path.inner.siblings)
          (build_trie h
            (length path.inner.key_path)
            (leaf_ops_spliced path.inner.terminal path.ops)).0
          (length path.inner.key_path)
          []).0
        ≡ sub_trie h n 0 after
  climbed beside =
      let bits : Bits = path.inner.key_path in
      let r = bottom h labelled n 0 [] bits path.inner.siblings after group beside in
      let deep : 0 + length bits ≡ length bits = omega arith in
      let ops : List Op = leaf_ops_spliced path.inner.terminal path.ops in
      let end_group : IsGroup r.left (length bits) r.prefix ops =
        subst (λ os. IsGroup r.left (length bits) r.prefix os) changed
          (subst (λ d. IsGroup r.left d r.prefix (below 0 bits after)) deep r.group) in
      let end_root : (build_trie h (length bits) ops).0
          ≡ sub_trie h r.left (0 + length bits) (below 0 bits after) =
        build_trie-eq-sub_trie h r.left (length bits) r.prefix ops end_group
        ∙ ap₂ (sub_trie h r.left) (sym deep) (sym changed) in
      ap
        (λ t.
          (climb_path h t (reverse path.inner.siblings) (build_trie h (length bits) ops).0
            (length bits) []).0)
        (take_all (length bits) (reverse bits) (omega (arith, length-reverse {0} bits)))
      ∙ climb_path-eq-climb_down h (build_trie h (length bits) ops).0 (length bits) bits
          path.inner.siblings sized
      ∙ r.climbs (build_trie h (length bits) ops).0 end_root

-- Where a proof is accepted against the root of the reference trie of the operations before, the
-- checks of an update through it pass, and the operations after agree with those before beside
-- the path and are the spliced ones below it, `verify_update` returns the root of the reference
-- trie of the operations after, or else the proof hashes a pair of nodes that differs from one of
-- the trie before and has the same hash.
pub verify_update-eq-sub_trie :
    (h : NodeHasher) (n : ℕ) (before after : List Op) (p : PathProof) (key : Bits)
    → (v : VerifiedPathProof) (ops : List Change) → IsLabelled h
    → IsGroup n 0 [] before
    → IsGroup n 0 [] after
    → verify h p key (sub_trie h n 0 before) ≡ ok v
    → check_paths (sub_trie h n 0 before) none (record { inner = v; ops = ops } ∷ []) ≡ none
    → SameBeside 0 v.key_path before after
    → below 0 v.key_path after ≡ leaf_ops_spliced v.terminal ops
    → (verify_update h (sub_trie h n 0 before) (record { inner = v; ops = ops } ∷ [])
        ≡ UpdateOutcome.root (sub_trie h n 0 after))
      ⊎ Collision h
          (λ a. ⊥)
          (λ b. ⊥)
          (IsOnPath h (terminal_node h p.terminal) v.key_path p.siblings)
          (IsInTrie h n 0 before)
verify_update-eq-sub_trie h n before after p key v ops labelled g g' accepted fine same changed =
    let facts = verify-IsVerified h p key (sub_trie h n 0 before) v accepted in
    let kept = verify-siblings h p key (sub_trie h n 0 before) v accepted in
    let sized : length v.key_path ≡ length p.siblings =
      omega (arith, ap length facts.path, length-take {0} (length p.siblings) key, facts.fits) in
    let hashed : hash_down h (terminal_node h p.terminal) v.key_path p.siblings
        ≡ sub_trie h n 0 before =
      sym (hash_path-eq-hash_down h (terminal_node h p.terminal) v.key_path p.siblings sized)
      ∙ facts.hashed in
    let beside : Beside h labelled n 0 (terminal_node h p.terminal) v.key_path p.siblings before =
      siblings_of_path h labelled (terminal_node h p.terminal) v.key_path p.siblings n 0 [] before
        sized g hashed in
    elim beside [
      | inl r ↦
          let path : PathUpdate = record { inner = v; ops = ops } in
          inl (
            verify_update-one h (sub_trie h n 0 before) path fine
            ∙ ap UpdateOutcome.root (
                climbed h labelled n after g' path (sized ∙ ap length (sym kept)) changed (
                  subst (λ ss. RootsBeside h n 0 v.key_path ss after) (sym kept)
                    (same_roots h n 0 v.key_path p.siblings before after same r))))
      | inr c ↦ inr c
    ]
