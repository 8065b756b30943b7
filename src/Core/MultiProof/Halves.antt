-- ===== src/Core/MultiProof/Halves.antt =====
-- Paths in ascending order split at the first bit in which the first and the last differ
-- (`verify_range` of core/src/proof/multi_proof.rs).
use nomt.Base.{
  ℕ, zero, suc, ◌+◌, ◌≤◌, ◌<◌, ◌≡◌, ◌⊎◌, inl, inr, refl, sym, ap, ap₂, ◌∙◌, Bool, true, false, List,
  [], ◌∷◌, ◌++◌, Bits, bool_eq, length, take, drop, get_elem?, some, arith, Option-cases, drop-drop,
  get_elem?-drop, length-take,
}
use mathlib.Core.Option
use mathlib.Core.Path.{subst}
use nomt.Core.Update.{shared_bits, bits_ltb}
use nomt.Core.Update.Group.{bits_ltb_irrefl}
use nomt.Core.PathProof.{terminal_path}
use nomt.Core.MultiProof.Order.{
  Le, ltb-Le, ltb_trans, between, shared_bits-ltb, one_above, ltb-drop, take-suc_elem,
}
use nomt.Core.MultiProof.{MultiPathProof, bisect_index, last_path}

abbrev pub path_at : ℕ → MultiPathProof → Bits
path_at d p = drop d (terminal_path p.terminal)

-- From bit `d` on, each path is below the next.
abbrev pub Ascends : ℕ → List MultiPathProof → Type 0
Ascends d [] = Unit
Ascends d (p ∷ []) = Unit
Ascends d (p ∷ (q ∷ ps)) = (bits_ltb (path_at d p) (path_at d q) ≡ true) × Ascends d (q ∷ ps)

abbrev pub AllPaths : (MultiPathProof → Type 0) → List MultiPathProof → Type 0
AllPaths P [] = Unit
AllPaths P (p ∷ ps) = P p × AllPaths P ps

ltb-last :
    (d : ℕ) (p q : MultiPathProof) (ps : List MultiPathProof)
    → Ascends d (p ∷ (q ∷ ps))
    → bits_ltb (path_at d p) (path_at d (last_path q ps)) ≡ true
unfolding last_path
ltb-last d p q [] (e, rest) = e
ltb-last d p q (r ∷ ps) (e, rest) =
    ltb_trans (path_at d p) (path_at d q) (path_at d (last_path r ps)) e (ltb-last d q r ps rest)

AllPaths-above :
    (d : ℕ) (x : Bits) (p : MultiPathProof) (ps : List MultiPathProof)
    → bits_ltb x (path_at d p) ≡ true
    → Ascends d (p ∷ ps)
    → AllPaths (λ r. bits_ltb x (path_at d r) ≡ true) (p ∷ ps)
AllPaths-above d x p [] e rest = (e, tt)
AllPaths-above d x p (q ∷ ps) e (f, rest) =
    (e, AllPaths-above d x q ps (ltb_trans x (path_at d p) (path_at d q) e f) rest)

AllPaths-below :
    (d : ℕ) (p : MultiPathProof) (ps : List MultiPathProof)
    → Ascends d (p ∷ ps)
    → AllPaths (λ r. Le (path_at d r) (path_at d (last_path p ps))) (p ∷ ps)
unfolding last_path
AllPaths-below d p [] rest = (bits_ltb_irrefl (path_at d p), tt)
AllPaths-below d p (q ∷ ps) (e, rest) = (
  ltb-Le (path_at d p) (path_at d (last_path q ps)) (ltb-last d p q ps (e, rest)),
  AllPaths-below d q ps rest,
)

pub AllPaths-zip :
    {P Q R : MultiPathProof → Type 0} (f : (r : MultiPathProof) → P r → Q r → R r)
    (ps : List MultiPathProof)
    → AllPaths P ps
    → AllPaths Q ps
    → AllPaths R ps
AllPaths-zip f [] a b = tt
AllPaths-zip f (p ∷ ps) (a, as') (b, bs) = (f p a b, AllPaths-zip f ps as' bs)

-- All paths of a range share the bits that the first and the last share.
AllPaths-shared :
    (d c : ℕ) (p q : MultiPathProof) (ps : List MultiPathProof)
    → Ascends d (p ∷ (q ∷ ps))
    → take c (path_at d p) ≡ take c (path_at d (last_path q ps))
    → c ≤ length (path_at d p)
    → c ≤ length (path_at d (last_path q ps))
    → AllPaths (λ r. take c (path_at d r) ≡ take c (path_at d p)) (p ∷ (q ∷ ps))
AllPaths-shared d c p q ps (e, rest) same hx hz = (
  refl,
  AllPaths-zip
      (λ r above below_last.
        (between c (path_at d p) (path_at d r) (path_at d (last_path q ps))
          (ltb-Le (path_at d p) (path_at d r) above) below_last same hx hz).0)
      (q ∷ ps) (AllPaths-above d (path_at d p) q ps e rest) (AllPaths-below d q ps rest),
)

bisect_index-cases :
    (i index : ℕ) (p : MultiPathProof) (ps : List MultiPathProof)
    → bisect_index i (p ∷ ps) ≡ some index
    → ((index ≡ 0) × (get_elem? (terminal_path p.terminal) i ≡ some true))
      ⊎ ((j : ℕ) × (index ≡ suc j)
          × (get_elem? (terminal_path p.terminal) i ≡ some false)
          × (bisect_index i ps ≡ some j))
unfolding bisect_index Option.bind
bisect_index-cases i index p ps e = elim (Option-cases (get_elem? (terminal_path p.terminal) i)) [
  | inl out ↦ absurd (ground (arith, out))
  | inr (true, at) ↦ inl (ground (arith, at), at)
  | inr (false, at) ↦ elim (Option-cases (bisect_index i ps)) [
    | inl out ↦ absurd (ground (arith, out, at))
    | inr (j, found) ↦ inr (j, ground (arith, at, found), at, found)
  ]
]

-- The first path has the bit, since it is scanned.
first_bit :
    (i index : ℕ) (p : MultiPathProof) (ps : List MultiPathProof)
    → bisect_index i (p ∷ ps) ≡ some index
    → (a : Bool) × (get_elem? (terminal_path p.terminal) i ≡ some a)
first_bit i index p ps e = elim (bisect_index-cases i index p ps e) [
  | inl (z, at) ↦ (true, at)
  | inr (j, s, at, found) ↦ (false, at)
]

first_some :
    (i index : ℕ) (p : MultiPathProof) (ps : List MultiPathProof)
    → bisect_index i (p ∷ ps) ≡ some index
    → get_elem? (terminal_path p.terminal) i ≡ some false
    → 0 < index
first_some i index p ps e zeroed = elim (bisect_index-cases i index p ps e) [
  | inl (z, at) ↦ absurd (ground (arith, at, zeroed))
  | inr (j, s, at, found) ↦ omega (arith, s)
]

-- The paths before the index have a zero at the bit.
bisect-zeros :
    (i index : ℕ) (ps : List MultiPathProof)
    → bisect_index i ps ≡ some index
    → AllPaths (λ r. get_elem? (terminal_path r.terminal) i ≡ some false) (take index ps)
bisect-zeros i zero [] e = tt
bisect-zeros i (suc index) [] e = tt
bisect-zeros i index (p ∷ ps) e = elim (bisect_index-cases i index p ps e) [
  | inl (z, at) ↦ rw z tt
  | inr (j, s, at, found) ↦ rw s (at, bisect-zeros i j ps found)
]

-- Where the last path has a one, so does the one at the index.
bisect-one :
    (i index : ℕ) (p : MultiPathProof) (ps : List MultiPathProof)
    → bisect_index i (p ∷ ps) ≡ some index
    → get_elem? (terminal_path (last_path p ps).terminal) i ≡ some true
    → (r : MultiPathProof) × (rs : List MultiPathProof) × (drop index (p ∷ ps) ≡ r ∷ rs)
      × (get_elem? (terminal_path r.terminal) i ≡ some true)
unfolding last_path
bisect-one i index p [] e one = elim (bisect_index-cases i index p [] e) [
  | inl (z, at) ↦ (p, [], rw z refl, at)
  | inr (j, s, at, found) ↦ absurd (ground (arith, at, one))
]
bisect-one i index p (q ∷ ps) e one = elim (bisect_index-cases i index p (q ∷ ps) e) [
  | inl (z, at) ↦ (p, q ∷ ps, rw z refl, at)
  | inr (j, s, at, found) ↦
      let (r, rs, rest, here) = bisect-one i j q ps found one in (r, rs, rw s rest, here)
]

pub AllPaths-take :
    (P : MultiPathProof → Type 0) (n : ℕ) (ps : List MultiPathProof)
    → AllPaths P ps
    → AllPaths P (take n ps)
AllPaths-take P zero ps all = tt
AllPaths-take P (suc n) [] all = tt
AllPaths-take P (suc n) (p ∷ ps) (a, all) = (a, AllPaths-take P n ps all)

pub AllPaths-drop :
    (P : MultiPathProof → Type 0) (n : ℕ) (ps : List MultiPathProof)
    → AllPaths P ps
    → AllPaths P (drop n ps)
AllPaths-drop P zero ps all = all
AllPaths-drop P (suc n) [] all = tt
AllPaths-drop P (suc n) (p ∷ ps) (a, all) = AllPaths-drop P n ps all

Ascends-take : (d n : ℕ) (ps : List MultiPathProof) → Ascends d ps → Ascends d (take n ps)
Ascends-take d zero ps a = tt
Ascends-take d (suc n) [] a = tt
Ascends-take d (suc zero) (p ∷ []) a = tt
Ascends-take d (suc (suc n)) (p ∷ []) a = tt
Ascends-take d (suc zero) (p ∷ (q ∷ ps)) a = tt
Ascends-take d (suc (suc n)) (p ∷ (q ∷ ps)) (e, a) = (e, Ascends-take d (suc n) (q ∷ ps) a)

Ascends-drop : (d n : ℕ) (ps : List MultiPathProof) → Ascends d ps → Ascends d (drop n ps)
Ascends-drop d zero ps a = a
Ascends-drop d (suc n) [] a = tt
Ascends-drop d (suc zero) (p ∷ []) a = tt
Ascends-drop d (suc (suc n)) (p ∷ []) a = tt
Ascends-drop d (suc n) (p ∷ (q ∷ ps)) (e, a) = Ascends-drop d n (q ∷ ps) a

-- From a path with a one at bit `c` on, all paths that share the bits before have a one.
ones_from :
    (d c : ℕ) (pre : Bits) (p : MultiPathProof) (ps : List MultiPathProof)
    → Ascends d (p ∷ ps)
    → AllPaths (λ r. take c (path_at d r) ≡ pre) (p ∷ ps)
    → get_elem? (path_at d p) c ≡ some true
    → AllPaths (λ r. get_elem? (path_at d r) c ≡ some true) (p ∷ ps)
ones_from d c pre p [] a (s, t) one = (one, tt)
ones_from d c pre p (q ∷ ps) (e, a) (s, (t, u)) one = (
  one,
  ones_from d c pre q ps a (t, u) (one_above c (path_at d p) (path_at d q) (s ∙ sym t) e one),
)

-- Paths that share their first bits from `d` on ascend from the bits behind.
Ascends-deeper :
    (d n : ℕ) (pre : Bits) (ps : List MultiPathProof)
    → Ascends d ps
    → AllPaths (λ r. take n (path_at d r) ≡ pre) ps
    → Ascends (d + n) ps
Ascends-deeper d n pre [] a all = tt
Ascends-deeper d n pre (p ∷ []) a all = tt
Ascends-deeper d n pre (p ∷ (q ∷ ps)) (e, a) (s, (t, u)) = (
  ap₂ bits_ltb (sym (drop-drop n d (terminal_path p.terminal)))
        (sym (drop-drop n d (terminal_path q.terminal)))
      ∙ ltb-drop n (path_at d p) (path_at d q) (s ∙ sym t) e,
  Ascends-deeper d n pre (q ∷ ps) a (t, u),
)

-- A range of several paths, cut in two: the paths of each half share their bits up to `c` behind
-- `d`, those of the left go on with a zero, those of the right with a one, and neither is empty.
pub record IsCut (d c index : ℕ) (pre : Bits) (ps : List MultiPathProof) : Type 0 where
  pub left_bits : AllPaths (λ r. take (suc c) (path_at d r) ≡ pre ++ false ∷ []) (take index ps)
  pub right_bits : AllPaths (λ r. take (suc c) (path_at d r) ≡ pre ++ true ∷ []) (drop index ps)
  pub left_order : Ascends (d + suc c) (take index ps)
  pub right_order : Ascends (d + suc c) (drop index ps)
  pub shared : length pre ≡ c
  pub left_some : 0 < index
  pub right_some : index < length ps

elem_at :
    (d c : ℕ) (r : MultiPathProof)
    → get_elem? (path_at d r) c ≡ get_elem? (terminal_path r.terminal) (d + c)
elem_at d c r = get_elem?-drop d c (terminal_path r.terminal)

drop_cons-lt :
    (n : ℕ) (xs : List MultiPathProof) (r : MultiPathProof) (rs : List MultiPathProof)
    → drop n xs ≡ r ∷ rs
    → n < length xs
drop_cons-lt zero [] r rs e = absurd (cc)
drop_cons-lt (suc n) [] r rs e = absurd (cc)
drop_cons-lt zero (x ∷ xs) r rs e = omega arith
drop_cons-lt (suc n) (x ∷ xs) r rs e = omega (arith, drop_cons-lt n xs r rs e)

get_elem?-length : (xs : Bits) (c : ℕ) (b : Bool) → get_elem? xs c ≡ some b → c < length xs
get_elem?-length [] c b e = absurd (cc)
get_elem?-length (x ∷ xs) zero b e = omega arith
get_elem?-length (x ∷ xs) (suc c) b e = omega (arith, get_elem?-length xs c b e)

pub bisect-IsCut :
    (d index : ℕ) (p q : MultiPathProof) (ps : List MultiPathProof) (c : ℕ)
    → Ascends d (p ∷ (q ∷ ps))
    → shared_bits (path_at d p) (path_at d (last_path q ps)) ≡ c
    → bisect_index (d + c) (p ∷ (q ∷ ps)) ≡ some index
    → IsCut d c index (take c (path_at d p)) (p ∷ (q ∷ ps))
unfolding last_path
bisect-IsCut d index p q ps c order shared found =
    let x = path_at d p in
    let z = path_at d (last_path q ps) in
    let all = p ∷ (q ∷ ps) in
    let (a, at) = first_bit (d + c) index p (q ∷ ps) found in
    let at_x : get_elem? x c ≡ some a = elem_at d c p ∙ at in
    let (same, zeroed, one) =
      shared_bits-ltb x z a (ltb-last d p q ps order) (ap (get_elem? x) shared ∙ at_x) in
    let same : take c x ≡ take c z =
      ap (λ n. take n x) (sym shared) ∙ same ∙ ap (λ n. take n z) shared in
    let one : get_elem? z c ≡ some true = ap (get_elem? z) (sym shared) ∙ one in
    let every =
      AllPaths-shared d c p q ps order same (omega (arith, get_elem?-length x c a at_x))
        (omega (arith, get_elem?-length z c true one)) in
    let zeros = bisect-zeros (d + c) index all found in
    let (r, rs, rest, here) =
      bisect-one (d + c) index p (q ∷ ps) found (sym (elem_at d c (last_path q ps)) ∙ one) in
    let left_bits =
      AllPaths-zip
        (λ t s b.
          take-suc_elem c (path_at d t) false (elem_at d c t ∙ b) ∙ ap (λ y. y ++ false ∷ []) s)
        (take index all) (AllPaths-take (λ t. take c (path_at d t) ≡ take c x) index all every)
        zeros in
    let right_shared = AllPaths-drop (λ t. take c (path_at d t) ≡ take c x) index all every in
    let ones = subst (AllPaths (λ t. get_elem? (path_at d t) c ≡ some true)) (sym rest) (
      ones_from d c (take c x) r rs (subst (Ascends d) rest (Ascends-drop d index all order))
        (subst (AllPaths (λ t. take c (path_at d t) ≡ take c x)) rest right_shared)
        (elem_at d c r ∙ here)) in
    let right_bits =
      AllPaths-zip (λ t s b. take-suc_elem c (path_at d t) true b ∙ ap (λ y. y ++ true ∷ []) s)
        (drop index all) right_shared ones in
    record {
      left_bits = left_bits;
      right_bits = right_bits;
      left_order =
          Ascends-deeper d (suc c) (take c x ++ false ∷ []) (take index all)
            (Ascends-take d index all order) left_bits;
      right_order =
          Ascends-deeper d (suc c) (take c x ++ true ∷ []) (drop index all)
            (Ascends-drop d index all order) right_bits;
      shared = omega (arith, length-take {0} c x, get_elem?-length x c a at_x);
      left_some = first_some (d + c) index p (q ∷ ps) found (at ∙ ap some zeroed);
      right_some = drop_cons-lt index all r rs rest;
    }
