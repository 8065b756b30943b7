-- ===== src/Bitbox/Wal/Bitmap.antt =====
-- A bitmap is read back from its bytes.
use nomt.Base.{
  ℕ, zero, suc, ◌+◌, ◌*◌, ◌/◌, ◌≡◌, refl, ap, ap₂, ◌∙◌, sym, true, false, [], ◌∷◌, ◌++◌, Bits,
  nat_eq, length, take, drop, arith, take-append-drop, length-take, length-drop,
}
use nomt.Bitbox.Wal.{bits_value, bits_of, bitmap_bytes, bitmap_of}

bits_of-bits_value : (bits : Bits) → bits_of (length bits) (bits_value bits) ≡ bits
unfolding bits_of bits_value
bits_of-bits_value [] = refl
bits_of-bits_value (true ∷ bs) =
    let half : (1 + 2 * bits_value bs) / 2 ≡ bits_value bs = omega arith in
    ap₂ (λ b rest. b ∷ rest) (ground arith) (rw half (bits_of-bits_value bs))
bits_of-bits_value (false ∷ bs) =
    let half : (0 + 2 * bits_value bs) / 2 ≡ bits_value bs = omega arith in
    ap₂ (λ b rest. b ∷ rest) (ground arith) (rw half (bits_of-bits_value bs))

pub bitmap_of-bitmap_bytes :
    (n : ℕ) (bits : Bits) → length bits ≡ n * 8 → bitmap_of (bitmap_bytes n bits) ≡ bits
unfolding bitmap_of bitmap_bytes
bitmap_of-bitmap_bytes zero [] h = refl
bitmap_of-bitmap_bytes zero (b ∷ bs) h = absurd (omega arith)
bitmap_of-bitmap_bytes (suc n) bits h =
    let eight : length (take 8 bits) ≡ 8 = omega (arith, length-take {0} 8 bits) in
    ap₂ (λ x y. x ++ y)
      (ap (λ w. bits_of w (bits_value (take 8 bits))) (sym eight)
        ∙ bits_of-bits_value (take 8 bits))
      (bitmap_of-bitmap_bytes n (drop 8 bits) (omega (arith, length-drop {0} 8 bits)))
    ∙ take-append-drop 8 bits

pub length-bitmap_bytes : (n : ℕ) (bits : Bits) → length (bitmap_bytes n bits) ≡ n
unfolding bitmap_bytes
length-bitmap_bytes zero bits = refl
length-bitmap_bytes (suc n) bits = ap suc (length-bitmap_bytes n (drop 8 bits))
