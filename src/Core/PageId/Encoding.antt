-- ===== src/Core/PageId/Encoding.antt =====
-- The 256-bit encoding of page identifiers (core/src/page_id.rs).
use nomt.Base.{ℕ, ◌+◌, ◌*◌, ◌%◌, ◌^◌, ◌≤◌, ◌<◌, ◌≡◌, refl, sym, ap, ◌∙◌, [], ◌∷◌, length, arith}
use native.Mathlib.Nat.{pow-suc}
use nomt.Core.PageId.{PageId, encode, encode_loop}

-- The encoding that the comments of the file describe: shift by six bits, then add the child
-- index, then add one.
unfoldable pub described : ℕ → PageId → ℕ
described word [] = word
described word (limb ∷ limbs) = described (word * 64 + (limb + 1)) limbs

-- The loop of `encode` without the bound on its words.
unbounded : ℕ → PageId → ℕ
unbounded word [] = word
unbounded word (limb ∷ limbs) = unbounded ((word + (limb + 1)) * 64) limbs

unbounded_mod :
    (x y : ℕ) (path : PageId)
    → x % 2 ^ 256 ≡ y % 2 ^ 256
    → unbounded x path % 2 ^ 256 ≡ unbounded y path % 2 ^ 256
unfolding unbounded
unbounded_mod x y [] e = e
unbounded_mod x y (limb ∷ limbs) e =
    unbounded_mod ((x + (limb + 1)) * 64) ((y + (limb + 1)) * 64) limbs (omega arith)

encode_loop-unbounded :
    (word : ℕ) (path : PageId)
    → word < 2 ^ 256
    → encode_loop 256 word path ≡ unbounded word path % 2 ^ 256
unfolding encode_loop unbounded
encode_loop-unbounded word [] h = omega arith
encode_loop-unbounded word (limb ∷ limbs) h =
    encode_loop-unbounded ((word + (limb + 1)) * 64 % 2 ^ 256) limbs (omega arith)
    ∙ unbounded_mod ((word + (limb + 1)) * 64 % 2 ^ 256) ((word + (limb + 1)) * 64) limbs
        (omega arith)

unbounded-add :
    (word d : ℕ) (path : PageId)
    → unbounded (word + d) path ≡ unbounded word path + d * 64 ^ length path
unfolding unbounded
unbounded-add word d [] = omega arith
unbounded-add word d (limb ∷ limbs) =
    ap (λ w. unbounded w limbs) (regroup word d limb)
    ∙ unbounded-add ((word + (limb + 1)) * 64) (d * 64) limbs
    ∙ omega (arith, ap (λ (t : ℕ). d * t) (pow-suc 64 (length limbs)))
  where
    regroup : (w e l : ℕ) → (w + e + (l + 1)) * 64 ≡ (w + (l + 1)) * 64 + e * 64
    regroup w e l = omega arith

unbounded-described :
    (word : ℕ) (path : PageId) → unbounded (64 * word) path ≡ 64 * described word path
unfolding unbounded described
unbounded-described word [] = refl
unbounded-described word (limb ∷ limbs) =
    ap (λ w. unbounded w limbs) (regroup word limb)
    ∙ unbounded-described (word * 64 + (limb + 1)) limbs
  where
    regroup : (w l : ℕ) → (64 * w + (l + 1)) * 64 ≡ 64 * (w * 64 + (l + 1))
    regroup w l = omega arith

long_encode : (path : PageId) → 10 ≤ length path → encode path ≡ unbounded 0 path % 2 ^ 256
unfolding encode
long_encode path h = ground (arith, encode_loop-unbounded 0 path (omega arith))

-- The encoding of an identifier of ten layers or more is the described one shifted left by six
-- more bits, without the bits that fall out of the 256.
pub encode-described :
    (path : PageId) → 10 ≤ length path → encode path ≡ 64 * described 0 path % 2 ^ 256
encode-described path h =
    long_encode path h ∙ ap (λ (n : ℕ). n % 2 ^ 256) (unbounded-described 0 path)

-- In the last layer identifiers that differ by 16 in their first limb have the same encoding.
pub encode_collides :
    (i : ℕ) (rest : PageId) → length rest ≡ 41 → encode (i ∷ rest) ≡ encode ((i + 16) ∷ rest)
encode_collides i rest size =
    long_encode (i ∷ rest) (omega arith) ∙ same ∙ sym (long_encode ((i + 16) ∷ rest) (omega arith))
  where
    apart :
        unbounded ((0 + (i + 1)) * 64 + 1024) rest
        ≡ unbounded ((0 + (i + 1)) * 64) rest + 1024 * 64 ^ 41
    apart =
        unbounded-add ((0 + (i + 1)) * 64) 1024 rest
        ∙ ap (λ (n : ℕ). unbounded ((0 + (i + 1)) * 64) rest + 1024 * 64 ^ n) size

    regroup : (0 + (i + 16 + 1)) * 64 ≡ (0 + (i + 1)) * 64 + 1024
    regroup = omega arith

    same : unbounded 0 (i ∷ rest) % 2 ^ 256 ≡ unbounded 0 ((i + 16) ∷ rest) % 2 ^ 256
    same = unfold unbounded in omega (arith, ap (λ w. unbounded w rest) regroup, apart)
