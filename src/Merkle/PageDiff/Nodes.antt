-- ===== src/Merkle/PageDiff/Nodes.antt =====
-- That the nodes a diff packs are those it unpacks (nomt/src/page_diff.rs).
use nomt.Base.{
  ℕ, zero, suc, ◌+◌, ◌-◌, ◌*◌, ◌≤◌, ◌<◌, ◌≡◌, ◌≢◌, inl, inr, refl, sym, ap, ◌∙◌, Bool, true, false,
  List, [], ◌∷◌, ◌++◌, map, Bits, Bytes, slice, copy_at, nat_eq, if◌then◌else◌, ltb, length, set,
  get_or, replicate, none, some, arith, ne→nat_beq, nat_beq_iff, lt_or_ge, lt→ltb, le→ltb-false,
  length-copy_at, slice-copy_at_before, slice-copy_at_same, slice-copy_at_after,
}
use nomt.Merkle.PageDiff.{Node, count_ones, trailing_zeros, next_one, ones, read_node}

-- The indices of the set bits, counted from `k`.
unfoldable pub set_bits : ℕ → Bits → List ℕ
set_bits k [] = []
set_bits k (b ∷ bs) = let rest = set_bits (suc k) bs in if b then k ∷ rest else rest

zeros-append_false :
    (k : ℕ) (bs : Bits) → replicate k false ++ false ∷ bs ≡ replicate (suc k) false ++ bs
zeros-append_false zero bs = refl
zeros-append_false (suc k) bs = ap (λ t. false ∷ t) (zeros-append_false k bs)

trailing_zeros-zeros : (k : ℕ) (bs : Bits) → trailing_zeros (replicate k false ++ true ∷ bs) ≡ k
unfolding trailing_zeros
trailing_zeros-zeros zero bs = refl
trailing_zeros-zeros (suc k) bs = ap suc (trailing_zeros-zeros k bs)

trailing_zeros-all : (k : ℕ) → trailing_zeros (replicate k false ++ []) ≡ k
unfolding trailing_zeros
trailing_zeros-all zero = refl
trailing_zeros-all (suc k) = ap suc (trailing_zeros-all k)

set-zeros :
    (k : ℕ) (bs : Bits)
    → set (replicate k false ++ true ∷ bs) k false ≡ replicate k false ++ false ∷ bs
set-zeros zero bs = refl
set-zeros (suc k) bs = ap (λ t. false ∷ t) (set-zeros k bs)

next_one-zeros :
    (k : ℕ) (bs : Bits)
    → k < 64
    → next_one (replicate k false ++ true ∷ bs) ≡ some (k, replicate k false ++ false ∷ bs)
unfolding next_one
next_one-zeros k bs h =
    rw (trailing_zeros-zeros k bs, ne→nat_beq k 64 (omega arith), set-zeros k bs) refl

next_one-none : (k : ℕ) → k ≡ 64 → next_one (replicate k false ++ []) ≡ none
unfolding next_one
next_one-none k e = rw (trailing_zeros-all k, (nat_beq_iff k 64).1 e) refl

-- The iterator, once the bits below `k` are cleared, yields the set bits from `k` on.
pub ones-eq-set_bits :
    (fuel k : ℕ) (bs : Bits)
    → k + length bs ≡ 64
    → length bs ≤ fuel
    → ones fuel (replicate k false ++ bs) ≡ set_bits k bs
unfolding ones set_bits
ones-eq-set_bits zero k [] e h = refl
ones-eq-set_bits zero k (b ∷ bs) e h = absurd (omega arith)
ones-eq-set_bits (suc fuel) k [] e h =
    ap (λ o. elim o [ none ↦ [] | some p ↦ p.0 ∷ ones fuel p.1 ]) (next_one-none k (omega arith))
ones-eq-set_bits (suc fuel) k (false ∷ bs) e h =
    ap (ones (suc fuel)) (zeros-append_false k bs)
    ∙ ones-eq-set_bits (suc fuel) (suc k) bs (omega arith) (omega arith)
ones-eq-set_bits (suc fuel) k (true ∷ bs) e h =
    ap (λ o. elim o [ none ↦ [] | some p ↦ p.0 ∷ ones fuel p.1 ])
      (next_one-zeros k bs (omega arith))
    ∙ ap (λ t. k ∷ t)
        (ap (ones fuel) (zeros-append_false k bs)
          ∙ ones-eq-set_bits fuel (suc k) bs (omega arith) (omega arith))

pub count_ones-eq-length : (k : ℕ) (bs : Bits) → count_ones bs ≡ length (set_bits k bs)
unfolding count_ones set_bits
count_ones-eq-length k [] = refl
count_ones-eq-length k (true ∷ bs) = ap suc (count_ones-eq-length (suc k) bs)
count_ones-eq-length k (false ∷ bs) = count_ones-eq-length (suc k) bs

pub set_bits-append :
    (k : ℕ) (xs ys : Bits) → set_bits k (xs ++ ys) ≡ set_bits k xs ++ set_bits (k + length xs) ys
unfolding set_bits
set_bits-append k [] ys = ap (λ n. set_bits n ys) (omega arith)
set_bits-append k (true ∷ xs) ys =
    ap (λ t. k ∷ t)
      (set_bits-append (suc k) xs ys ∙ ap (λ n. set_bits (suc k) xs ++ set_bits n ys) (omega arith))
set_bits-append k (false ∷ xs) ys =
    set_bits-append (suc k) xs ys ∙ ap (λ n. set_bits (suc k) xs ++ set_bits n ys) (omega arith)

pub set_bits-shift : (n k : ℕ) (bs : Bits) → map (λ i. i + n) (set_bits k bs) ≡ set_bits (k + n) bs
unfolding set_bits
set_bits-shift n k [] = refl
set_bits-shift n k (true ∷ bs) =
    ap (λ t. (k + n) ∷ t) (set_bits-shift n (suc k) bs ∙ ap (λ m. set_bits m bs) (omega arith))
set_bits-shift n k (false ∷ bs) =
    set_bits-shift n (suc k) bs ∙ ap (λ m. set_bits m bs) (omega arith)

module _ {A : Type 0} where
  -- By the bit of `j` in a word that starts at `k`.
  abbrev pub pick : ℕ → Bits → ℕ → A → A → A
  pick k bs j x y = if ltb j k then y else if get_or bs (j - k) false then x else y

  pub pick-below : (k : ℕ) (bs : Bits) (j : ℕ) (x y : A) → j < k → pick k bs j x y ≡ y
  pick-below k bs j x y h = rw (lt→ltb j k h) refl

  pub pick-at :
      (k : ℕ) (b : Bool) (bs : Bits) (x y : A) → pick k (b ∷ bs) k x y ≡ (if b then x else y)
  pick-at k b bs x y =
      let here : k - k ≡ 0 = omega arith in rw (le→ltb-false k k (omega arith), here) refl

  pub pick-above :
      (k : ℕ) (b : Bool) (bs : Bits) (j : ℕ) (x y : A)
      → k < j
      → pick k (b ∷ bs) j x y ≡ pick (suc k) bs j x y
  pick-above k b bs j x y h =
      let next : j - k ≡ suc (j - suc k) = omega arith in
      rw (le→ltb-false j k (omega arith), le→ltb-false j (suc k) (omega arith), next) refl

  pub pick-end : (k : ℕ) (j : ℕ) (x y : A) → pick k [] j x y ≡ y
  pick-end k j x y = elim (lt_or_ge j k) [
    | inl below ↦ rw (lt→ltb j k below) refl
    | inr above ↦ rw (le→ltb-false j k above) refl
  ]

pub read_node_in :
    (page : Bytes) (j : ℕ)
    → j * 32 + 32 ≤ length page
    → read_node page j ≡ some (slice (j * 32) (j * 32 + 32) page)
unfolding read_node
read_node_in page j h = rw (le→ltb-false (length page) (j * 32 + 32) h) refl

read_node_out : (page : Bytes) (j : ℕ) → length page < j * 32 + 32 → read_node page j ≡ none
unfolding read_node
read_node_out page j h = rw (lt→ltb (length page) (j * 32 + 32) h) refl

module _ (k : ℕ) (node : Node) (page : Bytes) (size : length node ≡ 32)
    (fits : k * 32 + 32 ≤ length page) where
  pub length-copied : length (copy_at (k * 32) node page) ≡ length page
  length-copied = length-copy_at (k * 32) node page (omega arith)

  pub read_node-copied_same : read_node (copy_at (k * 32) node page) k ≡ some node
  read_node-copied_same =
      read_node_in (copy_at (k * 32) node page) k (omega (arith, length-copied))
      ∙ ap some (slice-copy_at_same (k * 32) (k * 32 + 32) node page (omega arith) (omega arith))

  pub read_node-copied_other :
      (j : ℕ) → j ≢ k → read_node (copy_at (k * 32) node page) j ≡ read_node page j
  read_node-copied_other j ne = elim (lt_or_ge (length page) (j * 32 + 32)) [
    | inl beyond ↦
        read_node_out (copy_at (k * 32) node page) j (omega (arith, length-copied))
        ∙ sym (read_node_out page j beyond)
    | inr within ↦
        read_node_in (copy_at (k * 32) node page) j (omega (arith, length-copied))
        ∙ ap some (elim (lt_or_ge j k) [
          | inl below ↦
              slice-copy_at_before (j * 32) (j * 32 + 32) (k * 32) node page (omega arith)
                (omega arith) (omega arith)
          | inr above ↦
              slice-copy_at_after (j * 32) (j * 32 + 32) (k * 32) node page
                (let after : k < j = ground (arith, ne) in omega arith) (omega arith)
        ])
        ∙ sym (read_node_in page j within)
  ]
