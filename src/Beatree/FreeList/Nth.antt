-- ===== src/Beatree/FreeList/Nth.antt =====
-- The free list of nomt/src/beatree/allocator/free_list.rs as a stack: `get_nth_pop` reads it without popping.
use nomt.Base.{
  ℕ, zero, suc, ◌+◌, ◌-◌, ◌/◌, ◌%◌, ◌<◌, ◌≡◌, inl, inr, refl, sym, ap, ap₂, ◌∙◌, Bool, true, false,
  List, [], ◌∷◌, ◌++◌, nat_eq, if◌then◌else◌, length, get_elem?, Option, none, some, lt_or_ge,
  ne→nat_beq, lt→ltb, le→ltb-false, arith, length-append,
}
use native.Mathlib.Nat.{zero-add, suc-add}
use nomt.Beatree.FreeList.{
  PageNumber, Portion, FreeList, max_pns_per_page, get_nth_pop, page_at, from_bottom, beyond,
  nth_whole, nth_fragmented,
}
use nomt.Beatree.FreeList.Stack.{free_pages, AllFull, IsClean}

module _ {ℓ} {A : Type ℓ} where
  get_elem?-append_left :
      (xs ys : List A) (i : ℕ) → i < length xs → get_elem? (xs ++ ys) i ≡ get_elem? xs i
  get_elem?-append_left [] ys i h = absurd (omega arith)
  get_elem?-append_left (x ∷ xs) ys zero h = refl
  get_elem?-append_left (x ∷ xs) ys (suc i) h = get_elem?-append_left xs ys i (omega arith)

  get_elem?-append_right :
      (xs ys : List A) (i : ℕ) → get_elem? (xs ++ ys) (length xs + i) ≡ get_elem? ys i
  get_elem?-append_right [] ys i = rw zero-add
  get_elem?-append_right (x ∷ xs) ys i = rw suc-add (get_elem?-append_right xs ys i)

-- The item that is `r`-th from the top of a portion with `k` pages.
from_top :
    (pns : List PageNumber) (k r : ℕ)
    → length pns ≡ k
    → r < k
    → from_bottom (k - r - 1) pns ≡ get_elem? pns r
unfolding from_bottom
from_top pns k r e h =
    let place : length pns - (k - r - 1) - 1 ≡ r = omega arith in
    ground (arith, ap (get_elem? pns) place)

abbrev page_below : List Portion → ℕ → ℕ → Option PageNumber
page_below rest q i = elim (get_elem? rest q) [ none ↦ none | some p ↦ from_bottom i p.1 ]

-- Portions that are full are indexed by quotient and remainder.
full_pages :
    (rest : List Portion) (n : ℕ)
    → AllFull rest
    → n < length (free_pages rest)
    → page_below rest (n / max_pns_per_page) (max_pns_per_page - n % max_pns_per_page - 1)
      ≡ get_elem? (free_pages rest) n
unfolding free_pages
full_pages [] n full h = absurd (omega arith)
full_pages ((pn, pns) ∷ rest) n (l, full) h = elim (lt_or_ge n 1022) [
  | inl small ↦
      let q : n / 1022 ≡ 0 = omega arith in
      let r : n % 1022 ≡ n = omega arith in
      ap₂ (page_below ((pn, pns) ∷ rest)) q (ap (λ t. 1022 - t - 1) r)
      ∙ from_top pns 1022 n l small
      ∙ sym (get_elem?-append_left pns (free_pages rest) n (omega arith))
  | inr large ↦
      let m : ℕ = n - 1022 in
      let q : n / 1022 ≡ suc (m / 1022) = omega arith in
      let r : n % 1022 ≡ m % 1022 = omega arith in
      let place : n ≡ length pns + m = omega arith in
      ap₂ (page_below ((pn, pns) ∷ rest)) q (ap (λ t. 1022 - t - 1) r)
      ∙ full_pages rest m full (omega (arith, length-append {0} pns (free_pages rest)))
      ∙ sym (
          ap (get_elem? (pns ++ free_pages rest)) place
          ∙ get_elem?-append_right pns (free_pages rest) m)
]

-- The pages of the portions below the first `k + 2`.
beyond-eq :
    (above below : List Portion) (n m : ℕ)
    → suc (n / max_pns_per_page) ≡ length above + m / max_pns_per_page
    → n % max_pns_per_page ≡ m % max_pns_per_page
    → AllFull below
    → m < length (free_pages below)
    → beyond (above ++ below) n ≡ get_elem? (free_pages below) m
unfolding beyond page_at
beyond-eq above below n m q r full h =
    let place : 2 + n / 1022 - 1 ≡ length above + m / 1022 = omega arith in
    ap₂ (page_below (above ++ below)) place (ap (λ t. 1022 - t - 1) r)
    ∙ ap (λ o. elim o [ none ↦ none | some p ↦ from_bottom (1022 - m % 1022 - 1) p.1 ])
        (get_elem?-append_right above below (m / 1022))
    ∙ full_pages below m full h

whole_lem :
    (portions : List Portion) (n : ℕ)
    → IsClean false portions
    → n < length (free_pages portions)
    → nth_whole portions n ≡ get_elem? (free_pages portions) n
unfolding free_pages nth_whole page_at
whole_lem [] n clean h = absurd (omega arith)
whole_lem ((pn, pns) ∷ rest) n (one, most, full) h = elim (lt_or_ge n (length pns)) [
  | inl small ↦ rw (lt→ltb n (length pns) small) (
      from_top pns (length pns) n refl small
      ∙ sym (get_elem?-append_left pns (free_pages rest) n small))
  | inr large ↦
      let m : ℕ = n - length pns in
      let place : n ≡ length pns + m = omega arith in
      rw (le→ltb-false n (length pns) large) (
        beyond-eq ((pn, pns) ∷ []) rest m m (omega arith) refl full
          (omega (arith, length-append {0} pns (free_pages rest)))
        ∙ sym (
            ap (get_elem? (pns ++ free_pages rest)) place
            ∙ get_elem?-append_right pns (free_pages rest) m))
]

fragmented_lem :
    (portions : List Portion) (n : ℕ)
    → IsClean true portions
    → n < length (free_pages portions)
    → nth_fragmented portions n ≡ get_elem? (free_pages portions) n
unfolding free_pages nth_fragmented page_at
fragmented_lem [] n clean h = absurd clean
fragmented_lem (head ∷ []) n clean h = absurd clean
fragmented_lem ((pn, pns) ∷ (pn', pns') ∷ rest) zero (one, l, full) h =
    from_top pns 1 0 one (omega arith)
    ∙ sym (get_elem?-append_left pns (pns' ++ free_pages rest) 0 (omega arith))
fragmented_lem ((pn, pns) ∷ (pn', pns') ∷ rest) (suc n) (one, l, full) h =
    let place : suc n ≡ length pns + n = omega arith in
    let below : get_elem? (pns ++ (pns' ++ free_pages rest)) (suc n)
        ≡ get_elem? (pns' ++ free_pages rest) n =
      ap (get_elem? (pns ++ (pns' ++ free_pages rest))) place
      ∙ get_elem?-append_right pns (pns' ++ free_pages rest) n in
    elim (lt_or_ge (suc n) 1022) [
      | inl small ↦
          let index : 1022 - suc n - 1 ≡ 1021 - n - 1 = omega arith in
          rw (ne→nat_beq (suc n) 0 (omega arith), lt→ltb (suc n) 1022 small)
            (ap (λ i. from_bottom i pns') index
              ∙ from_top pns' 1021 n (omega arith) (omega arith)
              ∙ sym (get_elem?-append_left pns' (free_pages rest) n (omega arith))
              ∙ sym below)
      | inr large ↦
          let m : ℕ = suc n - 1022 in
          let place' : n ≡ length pns' + m = omega arith in
          rw (ne→nat_beq (suc n) 0 (omega arith), le→ltb-false (suc n) 1022 large)
            (beyond-eq ((pn, pns) ∷ (pn', pns') ∷ []) rest (suc n) m (omega arith) (omega arith)
                full
                (omega (
                  arith,
                  length-append {0} pns (pns' ++ free_pages rest),
                  length-append {0} pns' (free_pages rest),
                ))
              ∙ sym (
                  below
                  ∙ ap (get_elem? (pns' ++ free_pages rest)) place'
                  ∙ get_elem?-append_right pns' (free_pages rest) m))
    ]

-- In a list as a commit leaves it, whole or fragmented, `get_nth_pop` at any index below the
-- number of free pages is the page at that index of the stack of free pages.
pub get_nth_pop-eq-get_elem? :
    (f : FreeList) (n : ℕ)
    → IsClean f.fragmented f.portions
    → n < length (free_pages f.portions)
    → get_nth_pop f n ≡ get_elem? (free_pages f.portions) n
unfolding get_nth_pop
get_nth_pop-eq-get_elem? f n clean h = either f.fragmented clean
  where
    either :
        (b : Bool)
        → IsClean b f.portions
        → (if b then nth_fragmented f.portions n else nth_whole f.portions n)
          ≡ get_elem? (free_pages f.portions) n
    either true c = fragmented_lem f.portions n c h
    either false c = whole_lem f.portions n c h
