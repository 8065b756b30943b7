-- ===== src/Beatree/FreeList/Stack.antt =====
-- The free list of nomt/src/beatree/allocator/free_list.rs is a stack of page numbers.
use nomt.Base.{
  ℕ, zero, suc, ◌+◌, ◌-◌, ◌≤◌, ◌<◌, min, ◌≡◌, ◌≢◌, inl, inr, refl, sym, ap, ◌∙◌, Bool, true, false,
  List, [], ◌∷◌, ◌++◌, nat_eq, length, drop, lt_or_ge, ne→nat_beq, nat_beq_iff, arith,
  length-append, length-drop, drop-append_left, drop-append_ge,
}
use nomt.Beatree.FreeList.{
  PageNumber, Portion, FreeList, Popped, pop, pop_from, discard, discard_loop, max_pns_per_page,
}

-- The free pages, the next to be popped first.
unfoldable pub free_pages : List Portion → List PageNumber
free_pages [] = []
free_pages ((pn, pns) ∷ rest) = pns ++ free_pages rest

abbrev pub AllFull : List Portion → Type 0
AllFull [] = Unit
AllFull ((pn, pns) ∷ rest) = (length pns ≡ max_pns_per_page) × AllFull rest

-- A list as `commit` and `read` leave it: every portion below the head is full, but that the
-- second one lacks a page where the flag says so.
abbrev pub IsClean : Bool → List Portion → Type 0
IsClean false [] = Unit
IsClean false ((pn, pns) ∷ rest) = (1 ≤ length pns) × (length pns ≤ max_pns_per_page) × AllFull rest
IsClean true [] = ⊥
IsClean true (head ∷ []) = ⊥
IsClean true ((pn, pns) ∷ (pn', pns') ∷ rest) =
    (length pns ≡ 1) × (length pns' ≡ max_pns_per_page - 1) × AllFull rest

abbrev pub AllHold : List Portion → Type 0
AllHold [] = Unit
AllHold ((pn, pns) ∷ rest) = (1 ≤ length pns) × AllHold rest

pop_from_lem :
    (portions : List Portion) (f : FreeList) (a : PageNumber) (rest : List PageNumber)
    → AllHold portions
    → free_pages portions ≡ a ∷ rest
    → (g : FreeList) × (pop_from portions f ≡ Popped.page a g)
      × (free_pages g.portions ≡ rest)
      × AllHold g.portions
unfolding free_pages pop_from
pop_from_lem [] f a rest holds e = absurd (cc)
pop_from_lem ((pn, []) ∷ below) f a rest (one, holds) e = absurd (omega arith)
pop_from_lem ((pn, p ∷ []) ∷ below) f a rest (one, holds) e =
    let g : FreeList = record f {
      portions = below;
      popped = true;
      released_portions = pn ∷ f.released_portions;
    } in
    let top : p ≡ a = cc in (g, ap (λ q. Popped.page q g) top, cc, holds)
pop_from_lem ((pn, p ∷ p' ∷ pns) ∷ below) f a rest (one, holds) e =
    let g : FreeList = record f { portions = (pn, p' ∷ pns) ∷ below; popped = true } in
    let top : p ≡ a = cc in (g, ap (λ q. Popped.page q g) top, cc, (omega arith, holds))

-- Where every portion holds a page and the stack of free pages has a top, `pop` does not panic: it
-- gives that top, and a list with the rest of the stack, in which every portion holds a page.
pub pop-eq-page :
    (f : FreeList) (a : PageNumber) (rest : List PageNumber)
    → AllHold f.portions
    → free_pages f.portions ≡ a ∷ rest
    → (g : FreeList) × (pop f ≡ Popped.page a g)
      × (free_pages g.portions ≡ rest)
      × AllHold g.portions
unfolding pop
pop-eq-page f a rest holds e = pop_from_lem f.portions f a rest holds e

discard_within :
    (pn : PageNumber) (pns : List PageNumber) (rest : List Portion) (n : ℕ) (f : FreeList)
    → n < length pns
    → 1 ≤ n
    → discard_loop ((pn, pns) ∷ rest) n f
      ≡ (n, record f { portions = (pn, drop n pns) ∷ rest; popped = true })
unfolding discard_loop
discard_within pn pns rest n f h one =
    let all : min (length pns) n ≡ n = omega arith in
    let kept : length (drop n pns) ≢ 0 = omega (arith, length-drop {0} n pns) in
    rw (ne→nat_beq n 0 (omega arith), all, ne→nat_beq (length (drop n pns)) 0 kept)

discard_beyond :
    (pn : PageNumber) (pns : List PageNumber) (rest : List Portion) (n : ℕ) (f : FreeList)
    → length pns ≤ n
    → 1 ≤ n
    → discard_loop ((pn, pns) ∷ rest) n f ≡ (
        let all =
          discard_loop rest
            (n - length pns)
            (record f { popped = true; released_portions = pn ∷ f.released_portions }) in
        (length pns + all.0, all.1))
unfolding discard_loop
discard_beyond pn pns rest n f h one =
    let all : min (length pns) n ≡ length pns = omega arith in
    let kept : length (drop (length pns) pns) ≡ 0 =
      omega (arith, length-drop {0} (length pns) pns) in
    rw (ne→nat_beq n 0 (omega arith), all, (nat_beq_iff (length (drop (length pns) pns)) 0).1 kept)

discard_loop_lem :
    (portions : List Portion) (n : ℕ) (f : FreeList)
    → (free_pages ((discard_loop portions n f).1.portions) ≡ drop n (free_pages portions))
      × ((discard_loop portions n f).0 ≡ min n (length (free_pages portions)))
unfolding free_pages discard_loop
discard_loop_lem [] zero f = (refl, omega arith)
discard_loop_lem [] (suc n) f = (refl, omega arith)
discard_loop_lem ((pn, pns) ∷ rest) zero f = (refl, omega arith)
discard_loop_lem ((pn, pns) ∷ rest) (suc n) f =
    let g : FreeList = record f { popped = true; released_portions = pn ∷ f.released_portions } in
    let left : ℕ = suc n - length pns in
    let (pages, count) = discard_loop_lem rest left g in
    let size : length (pns ++ free_pages rest) ≡ length pns + length (free_pages rest) =
      length-append {0} pns (free_pages rest) in
    elim (lt_or_ge (suc n) (length pns)) [
      | inl small ↦
          let e = discard_within pn pns rest (suc n) f small (omega arith) in
          (
            ap (λ r. free_pages (r.1.portions)) e
                ∙ sym (drop-append_left (suc n) pns (free_pages rest) (omega arith)),
            ap (λ r. r.0) e ∙ omega arith,
          )
      | inr large ↦
          let e = discard_beyond pn pns rest (suc n) f large (omega arith) in
          (
            ap (λ r. free_pages (r.1.portions)) e
                ∙ pages
                ∙ sym (drop-append_ge (suc n) pns (free_pages rest) large),
            ap (λ r. r.0) e ∙ omega arith,
          )
    ]

-- `discard n` takes `n` pages off the stack of free pages, or all of them where there are fewer,
-- and returns how many it took.
pub discard-eq-drop :
    (n : ℕ) (f : FreeList)
    → (free_pages ((discard n f).1.portions) ≡ drop n (free_pages f.portions))
      × ((discard n f).0 ≡ min n (length (free_pages f.portions)))
unfolding discard
discard-eq-drop n f = discard_loop_lem f.portions n f
