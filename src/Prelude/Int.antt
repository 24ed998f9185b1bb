-- ===== src/Prelude/Int.antt =====
-- Signed numbers that requests carry. `negsuc n` is -(n + 1).
use Prim.Native.Nat.{ℕ}
use mathlib.Core.Bool.{Bool, true}
use aimebu.Prelude.Tests.{ltb}

pub data ℤ : Type 0 where
  pos : ℕ → ℤ
  negsuc : ℕ → ℤ

-- `n > z` for a natural number.
abbrev pub above : ℤ → ℕ → Bool
above (pos z) n = ltb z n
above (negsuc z) n = true

-- The number, or 0 if it is negative.
abbrev pub pos_part : ℤ → ℕ
pos_part (pos z) = z
pos_part (negsuc z) = 0
