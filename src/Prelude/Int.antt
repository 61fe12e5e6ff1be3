-- ===== src/Prelude/Int.antt =====
-- Go's signed integers over the native numbers, and their conversion to uint8.
use Prim.Native.Nat.{ℕ, ◌-◌, ◌%◌, ◌<◌}
use native.Mathlib.Omega.{arith}

-- `negsuc n` is -(n + 1).
pub data ℤ : Type 0 where
  pos : ℕ → ℤ
  negsuc : ℕ → ℤ

-- uint8(n): the low eight bits of the two's complement representation.
abbrev pub uint8 : ℤ → ℕ
uint8 (pos n) = n % 256
uint8 (negsuc n) = 255 - n % 256

pub uint8-lt : (n : ℤ) → uint8 n < 256
uint8-lt (pos n) = omega arith
uint8-lt (negsuc n) = omega arith
