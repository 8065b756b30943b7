-- ===== src/Beatree/FreeList/Commit.antt =====
-- `FreeList::commit` of nomt/src/beatree/allocator/free_list.rs: pops, bumps and pushes make the
-- new pages of the list. A page to write is the portion that it holds with the number of the
-- portion below; the module `Page` writes its bytes.
use nomt.Base.{
  ℕ, zero, suc, ◌+◌, ◌-◌, ◌*◌, ◌^◌, Bool, true, false, not, ◌&&◌, ◌||◌, List, [], ◌∷◌, ◌++◌, nat_eq,
  ◌==◌, if◌then◌else◌, ltb, length, reverse, Option, none, some,
}
use mathlib.Core.Option
use nomt.Beatree.FreeList.{
  PageNumber, Portion, FreeList, Popped, pop, max_pns_per_page, len_and_fragmented,
}

-- FREELIST_EMPTY
abbrev pub freelist_empty : PageNumber
freelist_empty = 0

-- The local state of `preallocate`: the list, what is pushed later, the bump, the new pages in
-- order, whether the top portion is full and not yet rewritten, and the cursor.
pub record Prealloc : Type 0 where
  pub list : FreeList
  pub to_push : List PageNumber
  pub bump : PageNumber
  pub new_pages : List PageNumber
  pub new_full_portion : Bool
  pub i : ℕ

-- `none` is a panic, or that the fuel ran out.
-- The loop finds the top portion full: it is rewritten at a page taken from itself.
unfoldable pub rewrite_full : Prealloc → Option Prealloc
rewrite_full s = elim s.list.portions [
  | [] ↦ none
  | head ∷ rest ↦ elim head.1 [
    | [] ↦ none
    | pn ∷ pns ↦ some (record s {
      list = record s.list { portions = (pn, pns) ∷ rest };
      to_push = s.to_push ++ head.0 ∷ [];
      new_full_portion = false;
      i = s.i + 1;
    })
  ]
]

-- A page from the list, and the page of the portion that it exhausts, or one from the bump, which is
-- a `u32`; `none` where its addition overflows, which panics where overflow is checked and wraps
-- around in a release build.
unfoldable pub take_page : Prealloc → Option Prealloc
take_page s = elim (pop s.list) [
  | Popped.panic ↦ none
  | Popped.empty ↦
      let bumped : Prealloc = record s {
        bump = s.bump + 1;
        new_pages = s.new_pages ++ s.bump ∷ [];
        i = s.i + max_pns_per_page;
      } in
      if ltb (s.bump + 1) (2 ^ 32) then some bumped else none
  | Popped.page pn list ↦ elim list.released_portions [
    | [] ↦ some (record s {
      list = list;
      new_pages = s.new_pages ++ pn ∷ [];
      i = s.i + 1 + max_pns_per_page;
    })
    | released ∷ others ↦ some (record s {
      list = record list { released_portions = others };
      new_pages = s.new_pages ++ pn ∷ released ∷ [];
      new_full_portion = true;
      i = s.i + 1 + max_pns_per_page;
    })
  ]
]

unfoldable pub has_portion : FreeList → Bool
has_portion f = elim f.portions [ [] ↦ false | p ∷ rest ↦ true ]

unfoldable pub prealloc_loop : ℕ → Prealloc → Option Prealloc
unfolding rewrite_full take_page has_portion
prealloc_loop zero s = if ltb s.i (length s.to_push) then none else some s
prealloc_loop (suc fuel) s =
    let step = if s.new_full_portion && has_portion s.list then rewrite_full s else take_page s in
    let rest = Option.bind step (prealloc_loop fuel) in
    if ltb s.i (length s.to_push) then rest else some s

-- The head was exhausted and its page `x` released. If the next portion lacks one page, it is
-- rewritten at `pn`; else `pn` is the first new page.
unfoldable pub replace_head :
    PageNumber → PageNumber → FreeList → List PageNumber → PageNumber → Prealloc
replace_head pn x list to_push bump =
    let whole : Prealloc = record {
      list = list;
      to_push = to_push ++ x ∷ [];
      bump = bump;
      new_pages = pn ∷ [];
      new_full_portion = true;
      i = max_pns_per_page;
    } in
    elim list.portions [
      | [] ↦ whole
      | head ∷ rest ↦
          if length head.1 == max_pns_per_page - 1
          then record {
            list = record list { portions = (pn, head.1) ∷ rest };
            to_push = to_push ++ head.0 ∷ x ∷ [];
            bump = bump;
            new_pages = [];
            new_full_portion = false;
            i = max_pns_per_page - length head.1;
          }
          else whole
    ]

-- The head is still partly full, and is rewritten at `pn`.
unfoldable pub keep_head : PageNumber → FreeList → List PageNumber → PageNumber → Option Prealloc
keep_head pn list to_push bump = elim list.portions [
  | [] ↦ none
  | head ∷ rest ↦ some (record {
    list = record list { portions = (pn, head.1) ∷ rest };
    to_push = to_push ++ head.0 ∷ [];
    bump = bump;
    new_pages = [];
    new_full_portion = false;
    i = max_pns_per_page - length head.1;
  })
]

-- What comes before the loop.
unfoldable pub prealloc_start : FreeList → List PageNumber → PageNumber → Option Prealloc
unfolding replace_head keep_head
prealloc_start f to_push bump = elim (pop f) [
  | Popped.panic ↦ none
  | Popped.empty ↦ some (record {
    list = f;
    to_push = to_push;
    bump = bump;
    new_pages = [];
    new_full_portion = true;
    i = 0;
  })
  | Popped.page pn list ↦ elim list.released_portions [
    | [] ↦ keep_head pn list to_push bump
    | x ∷ others ↦
        some (replace_head pn x (record list { released_portions = others }) to_push bump)
  ]
]

-- The fuel: a round either moves the cursor by a page's items, or pushes one more item and comes
-- before such a round.
unfoldable pub preallocate : FreeList → List PageNumber → PageNumber → Option Prealloc
unfolding prealloc_start prealloc_loop
preallocate f to_push bump =
    Option.bind (prealloc_start f to_push bump) λ s. prealloc_loop (2 * length s.to_push + 4) s

-- A page to write: where, the portion below, and the items.
pub record EncodedPage : Type 0 where
  pub pn : PageNumber
  pub prev : PageNumber
  pub items : List PageNumber

unfoldable pub encode_head : List Portion → List EncodedPage
encode_head [] = []
encode_head ((pn, pns) ∷ []) = record { pn = pn; prev = freelist_empty; items = pns } ∷ []
encode_head ((pn, pns) ∷ (pn', pns') ∷ rest) = record { pn = pn; prev = pn'; items = pns } ∷ []

-- `push`: the head has room.
unfoldable pub push : PageNumber → List Portion → Option (List Portion)
push pn [] = none
push pn ((head, pns) ∷ rest) =
    if ltb (length pns) max_pns_per_page then some ((head, pn ∷ pns) ∷ rest) else none

unfoldable pub needs_page : List Portion → List PageNumber → List PageNumber → Bool
needs_page [] new_pages later = true
needs_page ((head, pns) ∷ rest) new_pages later =
    (length pns == max_pns_per_page)
    || ((length pns == max_pns_per_page - 1) && not (length new_pages == 0) && (length later == 0))

unfoldable pub push_loop :
    List PageNumber
    → List PageNumber
    → List Portion
    → List EncodedPage
    → Option (List Portion × List EncodedPage)
unfolding encode_head push needs_page
push_loop [] [] portions encoded = some (portions, encoded ++ encode_head portions)
push_loop [] (new_page ∷ new_pages) portions encoded = none
push_loop (pn ∷ later) [] portions encoded =
    let rest = Option.bind (push pn portions) λ pushed. push_loop later [] pushed encoded in
    if needs_page portions [] later then none else rest
push_loop (pn ∷ later) (new_page ∷ new_pages) portions encoded =
    let stay =
      Option.bind (push pn portions)
        λ pushed. push_loop later (new_page ∷ new_pages) pushed encoded in
    let start =
      push_loop later new_pages ((new_page, pn ∷ []) ∷ portions)
        (encoded ++ encode_head portions) in
    if needs_page portions (new_page ∷ new_pages) later then start else stay

-- The result of `commit`: the list, the bump and the pages to write.
pub record Committed : Type 0 where
  pub list : FreeList
  pub bump : PageNumber
  pub pages : List EncodedPage

unfoldable pub committed : Prealloc → List Portion × List EncodedPage → Committed
committed s (portions, pages) =
    let (len, fragmented) = len_and_fragmented portions in
    record {
      list = record s.list {
        portions = portions;
        popped = false;
        len = len;
        fragmented = fragmented;
      };
      bump = s.bump;
      pages = pages;
    }

unfoldable pub commit : FreeList → List PageNumber → PageNumber → Option Committed
unfolding preallocate push_loop committed
commit f to_push bump =
    let clean = record f { popped = false } in
    if not f.popped && (length to_push == 0)
    then some (record { list = clean; bump = bump; pages = [] })
    else Option.bind
        (preallocate (record clean { released_portions = [] })
          (to_push ++ reverse f.released_portions) bump)
        λ s. Option.map (committed s) (push_loop s.to_push s.new_pages s.list.portions [])
