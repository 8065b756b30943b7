-- ===== src/Core/MultiProof/Sound.antt =====
-- An accepted multi-proof is worth an accepted path proof for each of its paths
-- (core/src/proof/multi_proof.rs).
use nomt.Base.{
  ℕ, zero, suc, ◌≤◌, ◌≡◌, inl, inr, refl, sym, ap, ◌∙◌, true, List, [], ◌∷◌, bool_eq, list_eq,
  nat_eq, ◌==◌, ==_iff, length, get_elem?, some, arith, ok, and_then, ok_inj, Result-cases,
  Bool-cases,
}
use mathlib.Core.Path.{subst}
use nomt.Core.Trie.{Node, NodeHasher, terminator_node}
use nomt.Core.TriePos.{new, path_of}
use nomt.Core.Update.{bits_ltb}
use nomt.Core.PathProof.{PathProofTerminal, terminal_path, terminal_node}
use nomt.Core.PathProof.Descent.{hash_down}
use nomt.Core.MultiProof.{
  MultiPathProof, MultiProof, VerifiedMultiPath, VerifiedMultiProof, Ranged, in_path_order,
  verify_range, root_path, check_root, verify,
}
use nomt.Core.MultiProof.Halves.{Ascends, AllPaths}
use nomt.Core.MultiProof.Proves.{AllVerified, Proves}
use nomt.Core.MultiProof.Siblings.{SiblingsOf, of_root}
use nomt.Core.MultiProof.Range.{verify_range-Shown}

-- Keys have 256 bits, and positions at most as many.
abbrev pub AreShort : List MultiPathProof → Type 0
AreShort = AllPaths (λ p. length (terminal_path p.terminal) ≤ 256)

pub in_path_order-Ascends : (ps : List MultiPathProof) → in_path_order ps ≡ true → Ascends 0 ps
unfolding in_path_order
in_path_order-Ascends [] e = tt
in_path_order-Ascends (p ∷ []) e = tt
in_path_order-Ascends (p ∷ (q ∷ ps)) e =
    elim (Bool-cases (bits_ltb (terminal_path p.terminal) (terminal_path q.terminal))) [
      | inl lower ↦ (lower, in_path_order-Ascends (q ∷ ps) (ground (arith, lower)))
      | inr other ↦ absurd (ground (arith, other))
    ]

AllVerified-at :
    (P : VerifiedMultiPath → Type 0) (vs : List VerifiedMultiPath) (i : ℕ) (v : VerifiedMultiPath)
    → AllVerified P vs
    → get_elem? vs i ≡ some v
    → P v
AllVerified-at P [] i v all e = absurd (cc)
AllVerified-at P (w ∷ vs) zero v (x, all) e = subst P (ground arith) x
AllVerified-at P (w ∷ vs) (suc i) v (x, all) e = AllVerified-at P vs i v all e

check_root-ok :
    (h : NodeHasher) (mp : MultiProof) (root : Node) (r : Ranged) (m : VerifiedMultiProof)
    → check_root h mp root r ≡ ok m
    → (r.node ≡ root) × (m.inner ≡ r.verified_paths)
unfolding check_root
check_root-ok h mp root r m e = elim (Bool-cases (root == r.node)) [
  | inr other ↦ absurd (ground (arith, other))
  | inl same ↦ elim (Bool-cases (r.siblings_used == length mp.siblings)) [
    | inr many ↦ absurd (ground (arith, same, many))
    | inl used ↦ (sym ((==_iff root r.node).0 same), ground (arith, same, used))
  ]
]

-- What the checks of `verify` have let through.
record Checked (h : NodeHasher) (mp : MultiProof) (root : Node) (m : VerifiedMultiProof)
    : Type 0 where
  pub ranged : Ranged
  pub order : Ascends 0 mp.paths
  pub ran : verify_range h (length mp.paths) 0 mp.paths mp.siblings 0 ≡ ok ranged
  pub root_eq : ranged.node ≡ root
  pub inner : m.inner ≡ ranged.verified_paths

verify-Checked :
    (h : NodeHasher) (mp : MultiProof) (root : Node) (m : VerifiedMultiProof)
    → verify h mp root ≡ ok (ok m)
    → Checked h mp root m
unfolding verify and_then
verify-Checked h mp root m e = elim (Bool-cases (in_path_order mp.paths)) [
  | inr other ↦ absurd (ground (arith, other))
  | inl order ↦ elim (Result-cases (verify_range h (length mp.paths) 0 mp.paths mp.siblings 0)) [
    | inl (s, stopped) ↦ absurd (ground (arith, order, stopped))
    | inr (r, ran) ↦
        let run : check_root h mp root r ≡ ok m = ground (arith, order, ran) in
        let (root_eq, inner) = check_root-ok h mp root r m run in
        record {
          ranged = r;
          order = in_path_order-Ascends mp.paths order;
          ran = ran;
          root_eq = root_eq;
          inner = inner;
        }
  ]
]

empty_range : Ranged
unfolding root_path
empty_range = record {
  node = terminator_node;
  siblings_used = 0;
  verified_paths = root_path ∷ [];
  verified_bisections = [];
}

verify_range-empty :
    (h : NodeHasher) (siblings : List Node) (fuel : ℕ)
    → verify_range h fuel 0 [] siblings 0 ≡ ok empty_range
unfolding verify_range empty_range
verify_range-empty h siblings zero = refl
verify_range-empty h siblings (suc fuel) = refl

empty_shown :
    (h : NodeHasher) (fuel : ℕ) (siblings : List Node)
    → AllVerified
        (λ v.
          (length (terminal_path v.terminal) ≤ 256)
          × Proves h (SiblingsOf h fuel 0 [] siblings 0) 0 empty_range.node v)
        empty_range.verified_paths
unfolding empty_range root_path terminal_node hash_down terminal_path path_of new
empty_shown h fuel siblings = (
  (
    omega arith,
    record {
      siblings = [];
      made = of_root fuel 0 siblings 0;
      depth = refl;
      fits = omega arith;
      hashed = refl;
    },
  ),
  tt,
)

-- A range without paths shows the root of the empty trie, any other what its paths show.
range_shown :
    (h : NodeHasher) (paths : List MultiPathProof) (siblings : List Node) (fuel : ℕ) (r : Ranged)
    → AreShort paths
    → Ascends 0 paths
    → verify_range h fuel 0 paths siblings 0 ≡ ok r
    → AllVerified
        (λ v.
          (length (terminal_path v.terminal) ≤ 256)
          × Proves h (SiblingsOf h fuel 0 paths siblings 0) 0 r.node v)
        r.verified_paths
range_shown h [] siblings fuel r short order e =
    let same : empty_range ≡ r =
      ok_inj empty_range r (sym (verify_range-empty h siblings fuel) ∙ e) in
    subst
      (λ x.
        AllVerified
          (λ v.
            (length (terminal_path v.terminal) ≤ 256)
            × Proves h (SiblingsOf h fuel 0 [] siblings 0) 0 x.node v)
          x.verified_paths)
      same (empty_shown h fuel siblings)
range_shown h (p ∷ ps) siblings fuel r short order e =
    verify_range-Shown h (λ t. length (terminal_path t) ≤ 256) fuel 0 (p ∷ ps) siblings 0 r
      (omega arith) order short e

-- The siblings that a multi-proof holds for its path with a terminal.
abbrev pub MadeFor : NodeHasher → MultiProof → PathProofTerminal → List Node → Type 0
MadeFor h mp = SiblingsOf h (length mp.paths) 0 mp.paths mp.siblings 0

-- The path proof of a verified path, and what it is verified as.
module _ (h : NodeHasher) (mp : MultiProof) (root : Node) (m : VerifiedMultiProof)
    (short : AreShort mp.paths) (accepted : verify h mp root ≡ ok (ok m)) where
  pub proven :
      (i : ℕ) (v : VerifiedMultiPath)
      → get_elem? m.inner i ≡ some v
      → (length (terminal_path v.terminal) ≤ 256) × Proves h (MadeFor h mp) 0 root v
  proven i v e =
      let t = verify-Checked h mp root m accepted in
      let all = range_shown h mp.paths mp.siblings (length mp.paths) t.ranged short t.order t.ran in
      subst (λ n. (length (terminal_path v.terminal) ≤ 256) × Proves h (MadeFor h mp) 0 n v)
        t.root_eq
        (AllVerified-at
          (λ v.
            (length (terminal_path v.terminal) ≤ 256) × Proves h (MadeFor h mp) 0 t.ranged.node v)
          t.ranged.verified_paths i v all (ap (λ vs. get_elem? vs i) (sym t.inner) ∙ e))
