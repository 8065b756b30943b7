-- ===== src/Base/BitString.antt =====
-- Bit strings, most significant bit first: how `view_bits::<Msb0>()` reads a `[u8; 32]`.
use Prim.Native.Nat.{ℕ}
use mathlib.Core.Bool.{Bool, true, false}
use mathlib.Core.List.{List}

abbrev pub Bits : Type 0
Bits = List Bool

abbrev pub bit_value : Bool → ℕ
bit_value true = 1
bit_value false = 0
