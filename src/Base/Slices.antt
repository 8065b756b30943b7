-- ===== src/Base/Slices.antt =====
-- What a copy into a list leaves, and what is read back from it.
use Prim.Native.Nat.{ℕ, zero, suc, ◌+◌, ◌-◌, ◌≤◌}
use mathlib.Core.Path.{◌≡◌, refl, sym, ap, ◌∙◌}
use mathlib.Core.List.{List, [], ◌∷◌, ◌++◌}
use native.Mathlib.Omega.{arith}
use native.Mathlib.Nat.{add-zero, suc-add}
use nomt.Base.Lists.{
  length, take, drop, length-append, length-take, length-drop, take-drop, take-take_le, take-append,
}
use nomt.Base.ByteString.{slice, copy_at}

module _ {ℓ} {A : Type ℓ} where
  pub take-append_left : (n : ℕ) (xs ys : List A) → n ≤ length xs → take n (xs ++ ys) ≡ take n xs
  take-append_left zero xs ys h = refl
  take-append_left (suc n) [] ys h = absurd (omega arith)
  take-append_left (suc n) (x ∷ xs) ys h = ap (λ t. x ∷ t) (take-append_left n xs ys (omega arith))

  pub drop-append_left :
      (n : ℕ) (xs ys : List A) → n ≤ length xs → drop n (xs ++ ys) ≡ drop n xs ++ ys
  drop-append_left zero xs ys h = refl
  drop-append_left (suc n) [] ys h = absurd (omega arith)
  drop-append_left (suc n) (x ∷ xs) ys h = drop-append_left n xs ys (omega arith)

  pub drop-append_past : (n : ℕ) (xs ys : List A) → length xs ≡ n → drop n (xs ++ ys) ≡ ys
  drop-append_past n [] ys h = ap (λ t. drop t ys) (sym h)
  drop-append_past zero (x ∷ xs) ys h = absurd (omega arith)
  drop-append_past (suc n) (x ∷ xs) ys h = drop-append_past n xs ys (omega arith)

  pub length-copy_at :
      (at : ℕ) (ys xs : List A) → at + length ys ≤ length xs → length (copy_at at ys xs) ≡ length xs
  length-copy_at at ys xs h = omega (
    arith,
    length-append {ℓ} (take at xs) (ys ++ drop (at + length ys) xs),
    length-append {ℓ} ys (drop (at + length ys) xs),
    length-take {ℓ} at xs,
    length-drop {ℓ} (at + length ys) xs,
  )

  -- What lies before a copy is kept.
  pub slice-copy_at_before :
      (start end at : ℕ) (ys xs : List A)
      → start ≤ end
      → end ≤ at
      → at ≤ length xs
      → slice start end (copy_at at ys xs) ≡ slice start end xs
  slice-copy_at_before start end at ys xs h k l =
      let span : start + (end - start) ≡ end = omega arith in
      let tail : List A = ys ++ drop (at + length ys) xs in
      take-drop start (end - start) (take at xs ++ tail)
      ∙ ap (λ n. drop start (take n (take at xs ++ tail))) span
      ∙ ap (drop start)
          (take-append_left end (take at xs) tail (omega (arith, length-take {ℓ} at xs)))
      ∙ ap (drop start) (take-take_le end at xs k)
      ∙ ap (λ n. drop start (take n xs)) (sym span)
      ∙ sym (take-drop start (end - start) xs)

  pub slice-copy_at_same :
      (at end : ℕ) (ys xs : List A)
      → length ys ≡ end - at
      → at ≤ length xs
      → slice at end (copy_at at ys xs) ≡ ys
  slice-copy_at_same at end ys xs h l =
      let tail : List A = drop (at + length ys) xs in
      ap (take (end - at))
        (drop-append_past at (take at xs) (ys ++ tail) (omega (arith, length-take {ℓ} at xs)))
      ∙ ap (λ n. take n (ys ++ tail)) (sym h)
      ∙ take-append ys tail

  pub drop-append_ge :
      (n : ℕ) (xs ys : List A) → length xs ≤ n → drop n (xs ++ ys) ≡ drop (n - length xs) ys
  drop-append_ge n [] ys h = ap (λ t. drop t ys) (omega arith)
  drop-append_ge zero (x ∷ xs) ys h = absurd (omega arith)
  drop-append_ge (suc n) (x ∷ xs) ys h =
      drop-append_ge n xs ys (omega arith) ∙ ap (λ t. drop t ys) (omega arith)

  pub drop-drop : (m n : ℕ) (xs : List A) → drop m (drop n xs) ≡ drop (n + m) xs
  drop-drop m zero xs = ap (λ t. drop t xs) (omega arith)
  drop-drop zero (suc n) [] = rw add-zero
  drop-drop (suc m) (suc n) [] = rw suc-add
  drop-drop m (suc n) (x ∷ xs) = rw suc-add (drop-drop m n xs)

  -- What lies after a copy is kept.
  pub slice-copy_at_after :
      (start end at : ℕ) (ys xs : List A)
      → at + length ys ≤ start
      → at ≤ length xs
      → slice start end (copy_at at ys xs) ≡ slice start end xs
  slice-copy_at_after start end at ys xs h l =
      let tail : List A = drop (at + length ys) xs in
      let head = length-take {ℓ} at xs in
      ap (take (end - start)) (
        drop-append_ge start (take at xs) (ys ++ tail) (omega arith)
        ∙ drop-append_ge (start - length (take at xs)) ys tail (omega arith)
        ∙ drop-drop (start - length (take at xs) - length ys) (at + length ys) xs
        ∙ ap (λ t. drop t xs) (omega arith))

  pub take-add : (m n : ℕ) (xs : List A) → take (m + n) xs ≡ take m xs ++ take n (drop m xs)
  take-add zero n xs = ap (λ t. take t xs) (omega arith)
  take-add (suc m) zero [] = rw suc-add refl
  take-add (suc m) (suc n) [] = rw suc-add refl
  take-add (suc m) n (x ∷ xs) = rw suc-add (ap (λ t. x ∷ t) (take-add m n xs))
