-- ===== src/Prelude/Integers.antt =====
-- Integers over the native numbers, for the bodies that take an `int` without a bound.
use Prim.Native.Nat.{ℕ}
use mathlib.Core.Bool.{Bool}
use rolling_api.Prelude.Tests.{ltb}

-- `negsuc n` is the integer - (n + 1).
pub data ℤ : Type 0 where
  pos : ℕ → ℤ
  negsuc : ℕ → ℤ

-- a column of type INTEGER of PostgreSQL can hold it
unfoldable pub fits_integer : ℤ → Bool
fits_integer (pos n) = ltb n 2_147_483_648
fits_integer (negsuc n) = ltb n 2_147_483_648
