-- ===== src/Core/PageId/Order.antt =====
-- The order of page identifiers (core/src/page_id.rs): the descendants of a page are an interval.
use nomt.Base.{
  ℕ, zero, suc, ◌-◌, ◌≤◌, ◌≡◌, ◌↔◌, refl, sym, ◌∙◌, true, false, [], ◌∷◌, ◌++◌, list_eq, nat_eq,
  length, replicate, arith,
}
use mathlib.Core.List.{append_assoc, append-nil}
use nomt.Core.PageId.{
  PageId, max_page_depth, max_child_index, is_descendant_of, push_max, max_descendant, page_ltb,
  page_leb,
}

abbrev pub AllIndices : PageId → Type 0
AllIndices [] = Unit
AllIndices (i ∷ id) = (i ≤ max_child_index) × AllIndices id

-- What the type promises of an identifier.
pub record IsPage (id : PageId) : Type 0 where
  pub indices : AllIndices id
  pub shallow : length id ≤ max_page_depth

push_max-eq-append : (n : ℕ) (id : PageId) → push_max n id ≡ id ++ replicate n max_child_index
unfolding push_max
push_max-eq-append zero id = sym (append-nil id)
push_max-eq-append (suc n) id =
    push_max-eq-append n (id ++ max_child_index ∷ [])
    ∙ append_assoc id (max_child_index ∷ []) (replicate n max_child_index)

-- No identifier of at most `n` limbs is above `n` highest limbs.
highest :
    (n : ℕ) (id : PageId)
    → AllIndices id
    → length id ≤ n
    → page_ltb (replicate n max_child_index) id ≡ false
unfolding page_ltb
highest zero [] v h = refl
highest zero (i ∷ id) v h = absurd (omega arith)
highest (suc n) [] v h = refl
highest (suc n) (i ∷ id) v h = ground (arith, v.0, highest n id v.1)

page_ltb-nil : (id : PageId) → page_ltb id [] ≡ false
unfolding page_ltb
page_ltb-nil [] = refl
page_ltb-nil (i ∷ id) = refl

interval :
    (n : ℕ) (id other : PageId)
    → AllIndices id
    → length id ≤ n
    → length other ≤ n
    → (is_descendant_of id other ≡ true) ↔ (
        (page_ltb id other ≡ false)
        × (page_ltb (other ++ replicate (n - length other) max_child_index) id ≡ false))
unfolding is_descendant_of page_ltb
interval n id [] v h k =
    let whole : n - 0 ≡ n = omega arith in
    rw whole (λ e. (page_ltb-nil id, highest n id v h), λ e. refl)
interval n [] (j ∷ other) v h k = (λ e. cc e, λ e. cc e.0)
interval zero (i ∷ id) (j ∷ other) v h k = absurd (omega arith)
interval (suc n) (i ∷ id) (j ∷ other) v h k =
    let ih = interval n id other v.1 (omega arith) (omega arith) in
    let size : suc n - length (j ∷ other) ≡ n - length other = omega arith in
    rw size (ground (arith, ih.0, ih.1))

-- The descendants of a page, itself included, are the identifiers from it to its greatest
-- descendant.
pub is_descendant_of_iff :
    (id other : PageId)
    → IsPage id
    → IsPage other
    → (is_descendant_of id other ≡ true)
      ↔ ((page_leb other id ≡ true) × (page_leb id (max_descendant other) ≡ true))
unfolding page_leb max_descendant
is_descendant_of_iff id other v w =
    rw (push_max-eq-append (max_page_depth - length other) other)
      (ground (arith, interval max_page_depth id other v.indices v.shallow w.shallow))
