-- ===== src/Merkle/PageDiff/Changed.antt =====
-- What marking a node as changed does to a diff (nomt/src/page_diff.rs).
use nomt.Base.{
  ℕ, ◌-◌, ◌<◌, ◌≡◌, inl, inr, ◌∙◌, true, false, Bits, nat_eq, ◌==◌, if◌then◌else◌, length, set,
  some, arith, length-set, lt_or_ge, get_or-set_self, get_or-set_ne,
}
use nomt.Merkle.PageDiff.{PageDiff, changed, set_changed, cleared}
use nomt.Merkle.PageDiff.Apply.{IsDiff}

-- A node marked as changed reads as changed, the other nodes as before, and the diff is not
-- cleared any more.
pub changed-set_changed :
    (d : PageDiff) (slot_index j : ℕ)
    → IsDiff d
    → slot_index < 126
    → j < 126
    → (d' : PageDiff) × (set_changed slot_index d ≡ some d')
      × IsDiff d'
      × (cleared d' ≡ false)
      × (changed d' j ≡ (if j == slot_index then some true else changed d j))
unfolding set_changed changed cleared
changed-set_changed d i j valid h l = elim (lt_or_ge i 64) [
  | inl low ↦ (
    record { low = set d.low i true; high = set d.high 63 false },
    ground arith,
    record {
      low_word = length-set d.low i true ∙ valid.low_word;
      high_word = length-set d.high 63 false ∙ valid.high_word;
    },
    get_or-set_self d.high 63 false false (omega (arith, valid.high_word)),
    ground (
      arith,
      valid.low_word,
      valid.high_word,
      get_or-set_self d.low i true false,
      get_or-set_ne d.low i j true false,
      get_or-set_ne d.high 63 (j - 64) false false,
    ),
  )
  | inr high ↦
      let marked : Bits = set d.high (i - 64) true in
      let size : length marked ≡ 64 = length-set d.high (i - 64) true ∙ valid.high_word in
      (
        record { low = d.low; high = set marked 63 false },
        ground arith,
        record { low_word = valid.low_word; high_word = length-set marked 63 false ∙ size },
        get_or-set_self marked 63 false false (omega arith),
        ground (
          arith,
          valid.low_word,
          valid.high_word,
          get_or-set_self d.high (i - 64) true false,
          get_or-set_ne d.high (i - 64) (j - 64) true false,
          get_or-set_ne marked 63 (j - 64) false false,
        ),
      )
]
