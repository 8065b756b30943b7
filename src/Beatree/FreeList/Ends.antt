-- ===== src/Beatree/FreeList/Ends.antt =====
-- That `preallocate` of nomt/src/beatree/allocator/free_list.rs ends, and meets no panic.
use nomt.Base.{
  ℕ, zero, suc, ◌+◌, ◌-◌, ◌*◌, ◌^◌, ◌≤◌, ◌<◌, ◌≡◌, ◌⊎◌, inl, inr, refl, sym, ap, ap₂, ◌∙◌, Bool,
  true, false, ◌&&◌, List, [], ◌∷◌, ◌++◌, nat_eq, if◌then◌else◌, length, Option, some, arith,
  length-append, lt_or_ge, lt→ltb, le→ltb-false, ne→nat_beq, nat_beq_iff,
}
use mathlib.Core.Option
use mathlib.Core.Path.{subst}
use nomt.Beatree.FreeList.{PageNumber, Portion, FreeList, pop, pop_from, max_pns_per_page}
use nomt.Beatree.FreeList.Stack.{AllFull, IsClean}
use nomt.Beatree.FreeList.Commit.{
  Prealloc, rewrite_full, take_page, has_portion, prealloc_loop, replace_head, keep_head,
  prealloc_start, preallocate,
}

-- The portions in the loop: where the flag says that the top one is full, it is.
abbrev Shape : Bool → List Portion → Type 0
Shape b [] = Unit
Shape true ((pn, pns) ∷ rest) = (length pns ≡ max_pns_per_page) × AllFull rest
Shape false ((pn, pns) ∷ rest) = (1 ≤ length pns) × (length pns ≤ max_pns_per_page) × AllFull rest

AllFull-Shape : (portions : List Portion) → AllFull portions → Shape true portions
AllFull-Shape [] full = tt
AllFull-Shape ((pn, pns) ∷ rest) full = full

record IsReady (s : Prealloc) : Type 0 where
  shape : Shape s.new_full_portion s.list.portions
  none_released : s.list.released_portions ≡ []

abbrev flag_value : Bool → ℕ
flag_value true = 1
flag_value false = 0

-- The rounds that are left at most.
abbrev rounds : Prealloc → ℕ
rounds s = 2 * (length s.to_push - s.i) + flag_value s.new_full_portion

-- Each round raises the bump by one at most.
abbrev Step : Prealloc → Option Prealloc → Type 0
Step s o = (t : Prealloc) × (o ≡ some t) × IsReady t × (rounds t < rounds s) × (t.bump ≤ s.bump + 1)

module _ (s : Prealloc) (left : s.i < length s.to_push) where
  rewrite_full-Step :
      (pn : PageNumber) (pns : List PageNumber) (rest : List Portion)
      → s.list.portions ≡ (pn, pns) ∷ rest
      → s.new_full_portion ≡ true
      → s.list.released_portions ≡ []
      → length pns ≡ max_pns_per_page
      → AllFull rest
      → Step s (rewrite_full s)
  unfolding rewrite_full
  rewrite_full-Step pn [] rest e f r l full = absurd (omega arith)
  rewrite_full-Step pn (p ∷ pns) rest e f r l full = (
    record s {
      list = record s.list { portions = (p, pns) ∷ rest };
      to_push = s.to_push ++ pn ∷ [];
      new_full_portion = false;
      i = s.i + 1;
    },
    rw e refl,
    record { shape = (omega arith, omega arith, full); none_released = r },
    omega (arith, length-append {0} s.to_push (pn ∷ []), ap flag_value f),
    omega arith,
  )

  -- With nothing left in the list, pages come from the bump.
  take_bump-Step :
      s.list.portions ≡ []
      → s.list.released_portions ≡ []
      → s.bump + 1 < 2 ^ 32
      → Step s (take_page s)
  unfolding take_page pop pop_from
  take_bump-Step e r room = (
    record s {
      bump = s.bump + 1;
      new_pages = s.new_pages ++ s.bump ∷ [];
      i = s.i + max_pns_per_page;
    },
    rw (e, lt→ltb (s.bump + 1) (2 ^ 32) room) refl,
    record { shape = rw e tt; none_released = r },
    omega arith,
    omega arith,
  )

  take_page-Step :
      (pn : PageNumber) (pns : List PageNumber) (rest : List Portion)
      → s.list.portions ≡ (pn, pns) ∷ rest
      → s.new_full_portion ≡ false
      → s.list.released_portions ≡ []
      → 1 ≤ length pns
      → length pns ≤ max_pns_per_page
      → AllFull rest
      → Step s (take_page s)
  unfolding take_page pop pop_from
  take_page-Step pn [] rest e f r l m full = absurd (omega arith)
  take_page-Step pn (p ∷ []) rest e f r l m full = (
    record s {
      list = record s.list { portions = rest; popped = true };
      new_pages = s.new_pages ++ p ∷ pn ∷ [];
      new_full_portion = true;
      i = s.i + 1 + max_pns_per_page;
    },
    rw e refl,
    record { shape = AllFull-Shape rest full; none_released = r },
    omega (arith, ap flag_value f),
    omega arith,
  )
  take_page-Step pn (p ∷ q ∷ pns) rest e f r l m full = (
    record s {
      list = record s.list {
        portions = (pn, q ∷ pns) ∷ rest;
        popped = true;
        released_portions = [];
      };
      new_pages = s.new_pages ++ p ∷ [];
      i = s.i + 1 + max_pns_per_page;
    },
    rw (e, r)
        (ap
          (λ released. some (record s {
            list = record s.list {
              portions = (pn, q ∷ pns) ∷ rest;
              popped = true;
              released_portions = released;
            };
            new_pages = s.new_pages ++ p ∷ [];
            i = s.i + 1 + max_pns_per_page;
          }))
          r),
    record { shape = rw f (omega arith, omega arith, full); none_released = refl },
    omega arith,
    omega arith,
  )

abbrev round : Prealloc → Option Prealloc
round s = if s.new_full_portion && has_portion s.list then rewrite_full s else take_page s

round-Step :
    (s : Prealloc) → IsReady s → s.bump + 1 < 2 ^ 32 → s.i < length s.to_push → Step s (round s)
unfolding has_portion
round-Step s ready room left = by_shape s.list.portions s.new_full_portion refl refl ready.shape
  where
    has :
        {portions : List Portion}
        → s.list.portions ≡ portions
        → has_portion s.list ≡ elim portions [ [] ↦ false | p ∷ rest ↦ true ]
    has e = ap (λ portions. elim portions [ [] ↦ false | p ∷ rest ↦ true ]) e

    any :
        (b : Bool)
        → s.new_full_portion ≡ b
        → has_portion s.list ≡ false
        → (s.new_full_portion && has_portion s.list) ≡ false
    any true f h = ap₂ ◌&&◌ f h
    any false f h = ap₂ ◌&&◌ f h

    choose :
        (t : Bool)
        → (s.new_full_portion && has_portion s.list) ≡ t
        → round s ≡ (if t then rewrite_full s else take_page s)
    choose t e = ap (λ b. if b then rewrite_full s else take_page s) e

    by_shape :
        (portions : List Portion) (b : Bool)
        → s.list.portions ≡ portions
        → s.new_full_portion ≡ b
        → Shape b portions
        → Step s (round s)
    by_shape [] b e f shape =
        subst (Step s) (sym (choose false (any b f (has e))))
          (take_bump-Step s left e ready.none_released room)
    by_shape ((pn, pns) ∷ rest) true e f (l, full) =
        subst (Step s) (sym (choose true (ap₂ ◌&&◌ f (has e))))
          (rewrite_full-Step s left pn pns rest e f ready.none_released l full)
    by_shape ((pn, pns) ∷ rest) false e f (l, m, full) =
        subst (Step s) (sym (choose false (ap (λ b. b && has_portion s.list) f)))
          (take_page-Step s left pn pns rest e f ready.none_released l m full)

prealloc_loop-eq-some :
    (fuel : ℕ) (s : Prealloc)
    → IsReady s
    → rounds s ≤ fuel
    → s.bump + rounds s < 2 ^ 32
    → (t : Prealloc) × (prealloc_loop fuel s ≡ some t) × (length t.to_push ≤ t.i)
unfolding prealloc_loop Option.bind
prealloc_loop-eq-some zero s ready h room =
    let end : length s.to_push ≤ s.i = omega arith in
    (s, rw (le→ltb-false s.i (length s.to_push) end) refl, end)
prealloc_loop-eq-some (suc fuel) s ready h room = elim (lt_or_ge s.i (length s.to_push)) [
  | inl left ↦
      let (u, stepped, next, less, raised) = round-Step s ready (omega arith) left in
      let (t, rest, end) =
        prealloc_loop-eq-some fuel u next (omega arith) (omega (arith, less, raised)) in
      (
        t,
        rw (lt→ltb s.i (length s.to_push) left)
            (ap (λ o. Option.bind o (prealloc_loop fuel)) stepped ∙ rest),
        end,
      )
  | inr end ↦ (s, rw (le→ltb-false s.i (length s.to_push) end) refl, end)
]

module _ (to_push : List PageNumber) (bump : PageNumber) where
  abbrev Fits : Prealloc → Type 0
  Fits s = IsReady s × (s.bump ≡ bump) × (length s.to_push ≤ length to_push + 2)

  abbrev Started : Option Prealloc → Type 0
  Started o = (s : Prealloc) × (o ≡ some s) × Fits s

  replaced :
      (pn x head : PageNumber) (pns : List PageNumber) (rest : List Portion) (list : FreeList)
      → (length pns ≡ max_pns_per_page - 1) ⊎ (length pns ≡ max_pns_per_page)
      → AllFull rest
      → Fits (
          replace_head pn x
            (record list { portions = (head, pns) ∷ rest; released_portions = [] })
            to_push
            bump)
  unfolding replace_head
  replaced pn x head pns rest list (inl short) full = rw ((nat_beq_iff (length pns) 1021).1 short) (
    record { shape = (omega arith, omega arith, full); none_released = refl },
    refl,
    omega (arith, length-append {0} to_push (head ∷ x ∷ [])),
  )
  replaced pn x head pns rest list (inr whole) full =
      rw (ne→nat_beq (length pns) 1021 (omega arith)) (
        record { shape = (whole, full); none_released = refl },
        refl,
        omega (arith, length-append {0} to_push (x ∷ [])),
      )

  started :
      (b : Bool) (portions : List Portion) (list : FreeList)
      → IsClean b portions
      → Started (
          prealloc_start (record list { portions = portions; released_portions = [] }) to_push bump)
  unfolding prealloc_start pop pop_from keep_head
  started true [] list clean = absurd clean
  started true (head ∷ []) list clean = absurd clean
  started true ((pn, []) ∷ below ∷ rest) list (one, l, full) = absurd (omega arith)
  started true ((pn, p ∷ []) ∷ (pn', pns') ∷ rest) list (one, l, full) =
      (_, refl, replaced p pn pn' pns' rest (record list { popped = true }) (inl l) full)
  started true ((pn, p ∷ q ∷ pns) ∷ below ∷ rest) list (one, l, full) = absurd (omega arith)
  started false [] list clean =
      (_, refl, (record { shape = tt; none_released = refl }, refl, omega arith))
  started false ((pn, []) ∷ rest) list (l, m, full) = absurd (omega arith)
  started false ((pn, p ∷ []) ∷ []) list (l, m, full) = (
    _,
    refl,
    unfold replace_head in
        (
          record { shape = tt; none_released = refl },
          refl,
          omega (arith, length-append {0} to_push (pn ∷ [])),
        ),
  )
  started false ((pn, p ∷ []) ∷ (pn', pns') ∷ rest) list (l, m, (whole, full)) =
      (_, refl, replaced p pn pn' pns' rest (record list { popped = true }) (inr whole) full)
  started false ((pn, p ∷ q ∷ pns) ∷ rest) list (l, m, full) = (
    _,
    refl,
    (
      record { shape = (omega arith, omega arith, full); none_released = refl },
      refl,
      omega (arith, length-append {0} to_push (pn ∷ [])),
    ),
  )

-- From a list as a commit leaves it, with no portions released, and with a bump that twice the
-- number of pages to push and five more do not take to 2 ^ 32, `preallocate` ends within its fuel
-- and does not panic, and its cursor has then passed all the items to be pushed.
pub preallocate-eq-some :
    (f : FreeList) (to_push : List PageNumber) (bump : PageNumber)
    → IsClean f.fragmented f.portions
    → f.released_portions ≡ []
    → bump + 2 * length to_push + 5 < 2 ^ 32
    → (s : Prealloc) × (preallocate f to_push bump ≡ some s) × (length s.to_push ≤ s.i)
unfolding preallocate Option.bind
preallocate-eq-some f to_push bump clean released room =
    let (s, begun, (ready, same_bump, size)) =
      started to_push bump f.fragmented f.portions f clean in
    let same : prealloc_start f to_push bump ≡ some s =
      ap (λ r. prealloc_start (record f { released_portions = r }) to_push bump) released ∙ begun in
    let flag = flag_small s.new_full_portion in
    let (t, done, end) =
      prealloc_loop-eq-some (2 * length s.to_push + 4) s ready (omega (arith, flag))
        (omega (arith, flag, same_bump, size, room)) in
    (t, ap (λ o. Option.bind o λ u. prealloc_loop (2 * length u.to_push + 4) u) same ∙ done, end)
  where
    flag_small : (b : Bool) → flag_value b ≤ 1
    flag_small true = omega arith
    flag_small false = omega arith
