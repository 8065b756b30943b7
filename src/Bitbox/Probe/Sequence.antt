-- ===== src/Bitbox/Probe/Sequence.antt =====
-- The buckets of a probe sequence by their number (`ProbeSequence::next` of
-- nomt/src/bitbox/mod.rs).
use nomt.Base.{
  ℕ, zero, suc, ◌+◌, ◌%◌, ◌^◌, ◌<◌, ◌≡◌, inl, inr, ap, ap₂, ◌∙◌, arith, ok, nat_eq, eq_or_ne,
}
use native.Mathlib.Nat.{mod-add-mod, mod-eq_of_lt, mod-lt}
use nomt.Bitbox.MetaMap.{MetaMap}
use nomt.Bitbox.Probe.{ProbeSequence, probe_new, advance}

-- The sum of the numbers up to `k`.
pub triangle : ℕ → ℕ
triangle zero = 0
triangle (suc k) = triangle k + suc k

unfoldable pub advance_times : ℕ → ℕ → ProbeSequence → ProbeSequence
advance_times n zero p = p
advance_times n (suc k) p = advance n (advance_times n k p)

advance_lem :
    (n : ℕ) (p : ProbeSequence) (x s : ℕ)
    → 0 < n
    → n + s < 2 ^ 64
    → p.bucket ≡ x % n
    → p.step ≡ s
    → ((advance n p).bucket ≡ (x + s) % n) × ((advance n p).step ≡ s + 1)
unfolding advance
advance_lem n p x s pos fits at count =
    let small = mod-lt x pos in
    (
      ap (λ t. t % n) (mod-eq_of_lt (omega arith))
          ∙ ap₂ (λ b t. (b + t) % n) at count
          ∙ mod-add-mod x n s,
      rw count (mod-eq_of_lt (omega arith)),
    )

advance_times_lem :
    (n : ℕ) (p : ProbeSequence) (k x : ℕ)
    → 0 < n
    → n + k < 2 ^ 64
    → p.bucket ≡ x % n
    → p.step ≡ 0
    → ((advance_times n (suc k) p).bucket ≡ (x + triangle k) % n)
      × ((advance_times n (suc k) p).step ≡ k + 1)
unfolding advance_times triangle
advance_times_lem n p zero x pos fits at count = advance_lem n p x 0 pos (omega arith) at count
advance_times_lem n p (suc k) x pos fits at count =
    let (here, steps) = advance_times_lem n p k x pos (omega arith) at count in
    let (there, later) =
      advance_lem n (advance_times n (suc k) p) (x + triangle k) (suc k) pos (omega arith) here
        (steps ∙ omega arith) in
    (there ∙ ap (λ t. t % n) (omega arith), later ∙ omega arith)

-- The bucket that is probed after `k` others is that of the hash plus the sum of the numbers up to
-- `k`, modulo the number of buckets, as long as nothing overflows; it is one of the buckets.
pub probed-triangle :
    (hash k : ℕ) (m : MetaMap) (p : ProbeSequence)
    → m.buckets + k < 2 ^ 64
    → probe_new hash m ≡ ok p
    → ((advance_times m.buckets (suc k) p).bucket ≡ (hash + triangle k) % m.buckets)
      × ((advance_times m.buckets (suc k) p).bucket < m.buckets)
unfolding probe_new
probed-triangle hash k m p fits start = elim (eq_or_ne m.buckets 0) [
  | inl z ↦ absurd (ground (arith, z))
  | inr n ↦
      let pos : 0 < m.buckets = omega arith in
      let (same, _) =
        advance_times_lem m.buckets p k hash pos fits (ground (arith, n)) (ground (arith, n)) in
      (same, rw same (mod-lt (hash + triangle k) pos))
]
