-- ===== src/Beatree/Examples.antt =====
-- Free lists of a few pages.
mod BitOps
use nomt.Base.{
  ◌≤◌, Option, some, Bytes, min, ◌≡◌, refl, true, false, [], ◌∷◌, arith, replicate, length, drop,
  get_elem?,
}
use mathlib.Core.Option
use nomt.Beatree.FreeList.{
  len_and_fragmented, FreeList, Popped, pop, discard, of_portions, get_nth_pop, of_portions,
  head_pn, PageNumber,
}
use nomt.Beatree.FreeList.Stack.{free_pages, AllHold, pop-eq-page, discard-eq-drop}
use nomt.Beatree.FreeList.Commit.{Prealloc, preallocate, commit}
use nomt.Beatree.FreeList.Ends.{preallocate-eq-some}
use nomt.Beatree.FreeList.Page.{encode_free_list_page, decode_free_list_page, read}
use nomt.Beatree.FreeList.Page.RoundTrip.{
  IsStored, decode_free_list_page-encode_free_list_page, read-eq-of_portions,
}
use nomt.Beatree.FreeList.Nth.{get_nth_pop-eq-get_elem?}

-- Its head, page 9, holds one page; the portion in page 8 lacks one.
abbrev fragmented_list : FreeList
fragmented_list = record {
  portions = (9, 40 ∷ []) ∷ (8, replicate 1021 7) ∷ [];
  popped = false;
  len = 1022;
  fragmented = true;
  released_portions = [];
}

fragmented_list_run : of_portions fragmented_list.portions ≡ fragmented_list
unfolding of_portions
fragmented_list_run = refl

get_nth_pop-eq-get_elem?_example :
    get_nth_pop fragmented_list 1 ≡ get_elem? (free_pages fragmented_list.portions) 1
unfolding free_pages
get_nth_pop-eq-get_elem?_example =
    get_nth_pop-eq-get_elem? fragmented_list 1 (refl, refl, tt) (omega arith)

abbrev two_portions : FreeList
two_portions = record {
  portions = (9, 40 ∷ []) ∷ (8, 30 ∷ 20 ∷ []) ∷ [];
  popped = false;
  len = 3;
  fragmented = false;
  released_portions = [];
}

pop-eq-page_example :
    (g : FreeList) × (pop two_portions ≡ Popped.page 40 g)
    × (free_pages g.portions ≡ 30 ∷ 20 ∷ [])
    × AllHold g.portions
unfolding free_pages
pop-eq-page_example =
    pop-eq-page two_portions 40 (30 ∷ 20 ∷ []) (omega arith, (omega arith, tt)) refl

discard-eq-drop_example :
    (free_pages ((discard 2 two_portions).1.portions) ≡ drop 2 (free_pages two_portions.portions))
    × ((discard 2 two_portions).0 ≡ min 2 (length (free_pages two_portions.portions)))
discard-eq-drop_example = discard-eq-drop 2 two_portions

preallocate-eq-some_example :
    (s : Prealloc) × (preallocate fragmented_list (3 ∷ []) 10000 ≡ some s)
    × (length s.to_push ≤ s.i)
preallocate-eq-some_example =
    preallocate-eq-some fragmented_list (3 ∷ []) 10000 (refl, refl, tt) refl (omega arith)

-- Page 2 is popped for the head, whose page 1 is pushed on top of page 3.
commit_run :
    commit
      (record {
        portions = (1, 2 ∷ []) ∷ [];
        popped = false;
        len = 1;
        fragmented = false;
        released_portions = [];
      })
      (3 ∷ [])
      10000
    ≡ some (record {
      list = record {
        portions = (2, 1 ∷ 3 ∷ []) ∷ [];
        popped = false;
        len = 2;
        fragmented = false;
        released_portions = [];
      };
      bump = 10000;
      pages = record { pn = 2; prev = 0; items = 1 ∷ 3 ∷ [] } ∷ [];
    })
unfolding commit Option.bind pop len_and_fragmented
commit_run = refl

abbrev blank_page : Bytes
blank_page = replicate 4096 0

decode_free_list_page-encode_free_list_page_example :
    (out : Bytes) × (encode_free_list_page blank_page 8 (20 ∷ 30 ∷ []) ≡ some out)
    × (length out ≡ 4096)
    × (decode_free_list_page out 100 ≡ some (8, 20 ∷ 30 ∷ []))
decode_free_list_page-encode_free_list_page_example =
    decode_free_list_page-encode_free_list_page blank_page 8 (20 ∷ 30 ∷ []) 100 refl (omega arith)
      (omega arith) (omega arith) (omega arith, (omega arith, tt))

-- A file in which every page but the first is that of a single portion.
abbrev one_portion_file : PageNumber → Option Bytes
one_portion_file pn = encode_free_list_page blank_page 0 (20 ∷ 30 ∷ [])

one_portion-IsStored : IsStored one_portion_file 100 ((9, 30 ∷ 20 ∷ []) ∷ [])
one_portion-IsStored =
    IsStored.stored 9 (30 ∷ 20 ∷ []) [] blank_page (λ e. absurd (omega arith)) (omega arith)
      (omega arith) (omega arith, (omega arith, tt)) refl refl IsStored.nothing

read-eq-of_portions_example :
    read one_portion_file 100 2 (head_pn (of_portions ((9, 30 ∷ 20 ∷ []) ∷ [])))
    ≡ some (of_portions ((9, 30 ∷ 20 ∷ []) ∷ []))
read-eq-of_portions_example =
    read-eq-of_portions one_portion_file 100 ((9, 30 ∷ 20 ∷ []) ∷ []) (omega arith)
      one_portion-IsStored
