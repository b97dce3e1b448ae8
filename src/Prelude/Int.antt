-- ===== src/Prelude/Int.antt =====
-- Go's signed `int` where a negative value is told apart: an integer over the native numbers.
use Prim.Native.Nat.{ℕ}

-- `negsuc n` is -(n + 1).
pub data ℤ : Type 0 where
  pos : ℕ → ℤ
  negsuc : ℕ → ℤ
