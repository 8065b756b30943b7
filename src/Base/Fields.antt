-- ===== src/Base/Fields.antt =====
-- Fields written into a buffer one after the other, and read back.
use Prim.Native.Nat.{ℕ, ◌+◌, ◌≤◌}
use mathlib.Core.Path.{◌≡◌, refl, ◌∙◌}
use mathlib.Core.List.{List, [], ◌∷◌}
use native.Mathlib.Omega.{arith}
use nomt.Base.Lists.{length}
use nomt.Base.ByteString.{Bytes, slice, copy_at}
use nomt.Base.Slices.{length-copy_at, slice-copy_at_before, slice-copy_at_same}

-- The copies in order, each with its offset.
unfoldable pub copy_all : List (ℕ × Bytes) → Bytes → Bytes
copy_all [] buf = buf
copy_all ((at, bytes) ∷ later) buf = copy_all later (copy_at at bytes buf)

-- Fields from `start` on, one after the other, up to `end`.
abbrev pub IsLaidOut : ℕ → ℕ → List (ℕ × Bytes) → Type 0
IsLaidOut start end [] = start ≤ end
IsLaidOut start end ((at, bytes) ∷ later) = (at ≡ start) × IsLaidOut (at + length bytes) end later

pub IsLaidOut-le : (start end : ℕ) (fs : List (ℕ × Bytes)) → IsLaidOut start end fs → start ≤ end
IsLaidOut-le start end [] laid = laid
IsLaidOut-le start end ((at, bytes) ∷ later) (here, laid) =
    omega (arith, IsLaidOut-le (at + length bytes) end later laid)

-- Each field is read back.
abbrev pub AllBack : Bytes → List (ℕ × Bytes) → Type 0
AllBack buf [] = Unit
AllBack buf ((at, bytes) ∷ later) = (slice at (at + length bytes) buf ≡ bytes) × AllBack buf later

pub slice-copy_all_before :
    (start end : ℕ) (from to : ℕ) (fs : List (ℕ × Bytes)) (buf : Bytes)
    → start ≤ end
    → end ≤ from
    → IsLaidOut from to fs
    → to ≤ length buf
    → slice start end (copy_all fs buf) ≡ slice start end buf
unfolding copy_all
slice-copy_all_before start end from to [] buf h k laid fits = refl
slice-copy_all_before start end from to ((at, bytes) ∷ later) buf h k (here, laid) fits =
    let ends = IsLaidOut-le (at + length bytes) to later laid in
    slice-copy_all_before start end (at + length bytes) to later (copy_at at bytes buf) h
      (omega arith) laid (omega (arith, length-copy_at at bytes buf (omega arith)))
    ∙ slice-copy_at_before start end at bytes buf h (omega arith) (omega arith)

pub copy_all-AllBack :
    (from to : ℕ) (fs : List (ℕ × Bytes)) (buf : Bytes)
    → IsLaidOut from to fs
    → to ≤ length buf
    → AllBack (copy_all fs buf) fs
unfolding copy_all
copy_all-AllBack from to [] buf laid fits = tt
copy_all-AllBack from to ((at, bytes) ∷ later) buf (here, laid) fits =
    let ends = IsLaidOut-le (at + length bytes) to later laid in
    let size = length-copy_at at bytes buf (omega arith) in
    (
      slice-copy_all_before at (at + length bytes) (at + length bytes) to later
            (copy_at at bytes buf) (omega arith) (omega arith) laid (omega arith)
          ∙ slice-copy_at_same at (at + length bytes) bytes buf (omega arith) (omega arith),
      copy_all-AllBack (at + length bytes) to later (copy_at at bytes buf) laid (omega arith),
    )

pub length-copy_all :
    (from to : ℕ) (fs : List (ℕ × Bytes)) (buf : Bytes)
    → IsLaidOut from to fs
    → to ≤ length buf
    → length (copy_all fs buf) ≡ length buf
unfolding copy_all
length-copy_all from to [] buf laid fits = refl
length-copy_all from to ((at, bytes) ∷ later) buf (here, laid) fits =
    let ends = IsLaidOut-le (at + length bytes) to later laid in
    let size = length-copy_at at bytes buf (omega arith) in
    length-copy_all (at + length bytes) to later (copy_at at bytes buf) laid (omega arith) ∙ size
