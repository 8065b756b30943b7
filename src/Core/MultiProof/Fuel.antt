-- ===== src/Core/MultiProof/Fuel.antt =====
-- `verify_range` ends within the fuel that `verify` gives it (core/src/proof/multi_proof.rs).
use nomt.Base.{
  ℕ, zero, suc, ◌+◌, ◌≤◌, ◌≡◌, ◌≢◌, refl, sym, ap₂, List, [], ◌∷◌, Bits, inl, inr, length, take,
  drop, Option, none, some, arith, length-take, length-drop, Result, ok, err, and_then, ok_or, Stop,
  out_of_fuel, panic, Bool-cases, ltb,
}
use nomt.Core.Trie.{Node, NodeHasher}
use nomt.Core.Update.{shared_bits}
use nomt.Core.PathProof.{terminal_path}
use nomt.Core.MultiProof.{
  MultiPathProof, MultiProof, Ranged, slice_from, bisect_index, last_path, verify_single,
  verify_halves, verify_range, in_path_order, verify,
}
use nomt.Core.MultiProof.Halves.{Ascends, bisect-IsCut}
use nomt.Core.MultiProof.Steps.{slice_from-ok, ok_or-ok}
use nomt.Core.MultiProof.Sound.{in_path_order-Ascends}

-- A result other than the end of the fuel.
abbrev Ends : {A : Type 0} → Result Stop A → Type 0
Ends r = r ≢ err out_of_fuel

Ends-and_then :
    {A B : Type 0} (m : Result Stop A) (f : A → Result Stop B)
    → Ends m
    → ((a : A) → m ≡ ok a → Ends (f a))
    → Ends (and_then m f)
unfolding and_then
Ends-and_then (ok a) f e g = g a refl
Ends-and_then (err panic) f e g = λ s. cc s
Ends-and_then (err out_of_fuel) f e g = λ s. absurd (e refl)

Ends-slice_from : {A : Type 0} (n : ℕ) (xs : List A) → Ends (slice_from n xs)
unfolding slice_from
Ends-slice_from n xs = elim (Bool-cases (ltb (length xs) n)) [
  | inl e ↦ rw e (λ s. cc s)
  | inr e ↦ rw e (λ s. cc s)
]

Ends-ok_or : {A : Type 0} (o : Option A) → Ends (ok_or o panic)
Ends-ok_or none = λ s. cc s
Ends-ok_or (some a) = λ s. cc s

Ends-verify_single :
    (h : NodeHasher) (d : ℕ) (p : MultiPathProof) (siblings : List Node) (offset : ℕ)
    → Ends (verify_single h d p siblings offset)
unfolding verify_single
Ends-verify_single h d p siblings offset = λ s. ground arith

module _ (h : NodeHasher) where
  Ends-verify_halves :
      (recurse : ℕ → List MultiPathProof → List Node → ℕ → Result Stop Ranged)
      → (d : ℕ) (path : Bits) (common index : ℕ) (paths : List MultiPathProof)
      → (siblings : List Node) (offset : ℕ)
      → ((siblings : List Node) (offset : ℕ)
          → Ends (recurse (d + common + 1) (take index paths) siblings offset))
      → ((siblings : List Node) (offset : ℕ)
          → Ends (recurse (d + common + 1) (drop index paths) siblings offset))
      → Ends (verify_halves h recurse d path common index paths siblings offset)
  unfolding verify_halves
  Ends-verify_halves recurse d path common index paths siblings offset left right =
      Ends-and_then (slice_from common siblings) _ (Ends-slice_from common siblings) λ s _.
        Ends-and_then (recurse (d + common + 1) (take index paths) s (offset + common)) _ (left s _)
          λ l _.
            Ends-and_then (slice_from (common + l.siblings_used) siblings) _
              (Ends-slice_from (common + l.siblings_used) siblings)
              λ t _.
                Ends-and_then
                  (recurse (d + common + 1) (drop index paths) t
                    (offset + common + l.siblings_used))
                  _ (right t _) λ r _ s. cc s

  Ends-verify_range :
      (fuel d : ℕ) (paths : List MultiPathProof) (siblings : List Node) (offset : ℕ)
      → length paths ≤ fuel
      → Ascends d paths
      → Ends (verify_range h fuel d paths siblings offset)
  unfolding verify_range
  Ends-verify_range zero d [] siblings offset fits order = λ s. cc s
  Ends-verify_range (suc fuel) d [] siblings offset fits order = λ s. cc s
  Ends-verify_range zero d (p ∷ ps) siblings offset fits order = absurd (omega arith)
  Ends-verify_range (suc fuel) d (p ∷ []) siblings offset fits order =
      Ends-verify_single h d p siblings offset
  Ends-verify_range (suc fuel) d (p ∷ (q ∷ ps)) siblings offset fits order =
      let paths = p ∷ (q ∷ ps) in
      Ends-and_then (slice_from d (terminal_path p.terminal)) _
        (Ends-slice_from d (terminal_path p.terminal))
        λ x s1.
          Ends-and_then (slice_from d (terminal_path (last_path q ps).terminal)) _
            (Ends-slice_from d (terminal_path (last_path q ps).terminal))
            λ z s2.
              Ends-and_then (ok_or (bisect_index (d + shared_bits x z) paths) panic) _
                (Ends-ok_or (bisect_index (d + shared_bits x z) paths))
                λ index s3.
                  let (x_eq, _) = slice_from-ok d (terminal_path p.terminal) x s1 in
                  let (z_eq, _) = slice_from-ok d (terminal_path (last_path q ps).terminal) z s2 in
                  let c = shared_bits x z in
                  let cut =
                    bisect-IsCut d index p q ps c order (ap₂ shared_bits (sym x_eq) (sym z_eq))
                      (ok_or-ok (bisect_index (d + c) paths) panic index s3) in
                  let deep : d + suc c ≡ d + c + 1 = omega arith in
                  Ends-verify_halves (verify_range h fuel) d x c index paths siblings offset
                    (λ s o. rw (← deep) (
                      Ends-verify_range fuel (d + suc c) (take index paths) s o
                        (omega (arith, length-take {0} index paths, cut.right_some))
                        cut.left_order))
                    (λ s o. rw (← deep) (
                      Ends-verify_range fuel (d + suc c) (drop index paths) s o
                        (omega (arith, length-drop {0} index paths, cut.left_some))
                        cut.right_order))

-- The verification of a multi-proof never runs out of the fuel that it is given, whatever the
-- proof and the root.
pub verify_ends :
    (h : NodeHasher) (mp : MultiProof) (root : Node) → verify h mp root ≢ err out_of_fuel
unfolding verify
verify_ends h mp root = elim (Bool-cases (in_path_order mp.paths)) [
  | inr other ↦ rw other (λ s. cc s)
  | inl order ↦ rw order (
      Ends-and_then (verify_range h (length mp.paths) 0 mp.paths mp.siblings 0) _
        (Ends-verify_range h (length mp.paths) 0 mp.paths mp.siblings 0 (omega arith)
          (in_path_order-Ascends mp.paths order))
        (λ r _ s. cc s))
]
