-- ===== src/Base/Reads.antt =====
-- What a list reads at an index, with a default beyond its end.
use Prim.Native.Nat.{ℕ, zero, suc, ◌+◌, ◌<◌}
use mathlib.Core.Path.{◌≡◌, refl, ap, ap₂}
use mathlib.Core.List.{List, [], ◌∷◌, ◌++◌}
use native.Mathlib.Omega.{arith}
use nomt.Base.Lists.{length, take, get_or}

module _ {ℓ} {A : Type ℓ} where
  pub list_ext :
      (d : A) (xs ys : List A)
      → length xs ≡ length ys
      → ((i : ℕ) → get_or xs i d ≡ get_or ys i d)
      → xs ≡ ys
  list_ext d [] [] h e = refl
  list_ext d [] (y ∷ ys) h e = absurd (omega arith)
  list_ext d (x ∷ xs) [] h e = absurd (omega arith)
  list_ext d (x ∷ xs) (y ∷ ys) h e =
      ap₂ (λ a as_. a ∷ as_) (e 0) (list_ext d xs ys (omega arith) (λ i. e (suc i)))

  pub get_or-append_left :
      (i : ℕ) (xs ys : List A) (d : A) → i < length xs → get_or (xs ++ ys) i d ≡ get_or xs i d
  get_or-append_left i [] ys d h = absurd (omega arith)
  get_or-append_left zero (x ∷ xs) ys d h = refl
  get_or-append_left (suc i) (x ∷ xs) ys d h = get_or-append_left i xs ys d (omega arith)

  pub get_or-append_right :
      (i n : ℕ) (xs ys : List A) (d : A) → i ≡ length xs + n → get_or (xs ++ ys) i d ≡ get_or ys n d
  get_or-append_right i n [] ys d h = ap (λ t. get_or ys t d) (omega arith)
  get_or-append_right zero n (x ∷ xs) ys d h = absurd (omega arith)
  get_or-append_right (suc i) n (x ∷ xs) ys d h = get_or-append_right i n xs ys d (omega arith)

  pub get_or-take : (i n : ℕ) (xs : List A) (d : A) → i < n → get_or (take n xs) i d ≡ get_or xs i d
  get_or-take i zero xs d h = absurd (omega arith)
  get_or-take i (suc n) [] d h = refl
  get_or-take zero (suc n) (x ∷ xs) d h = refl
  get_or-take (suc i) (suc n) (x ∷ xs) d h = get_or-take i n xs d (omega arith)
