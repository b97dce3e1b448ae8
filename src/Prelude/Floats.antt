-- ===== src/Prelude/Floats.antt =====
-- The operations of Go's float64 that the code uses, as an interface: nothing is assumed of them.
use Prim.Native.Nat.{ℕ}
use mathlib.Core.Bool.{Bool}
use mathlib.Core.List.{List}

-- `of_nat n` is `float64(n)`, `ratio m n` the literal for m / n; `sort` is `sort.Float64s`.
pub record Floats (F : Type 0) : Type 0 where
  pub of_nat : ℕ → F
  pub ratio : ℕ → ℕ → F
  pub add : F → F → F
  pub sub : F → F → F
  pub mul : F → F → F
  pub div : F → F → F
  pub sqrt : F → F
  pub abs : F → F
  pub max : F → F → F
  pub min : F → F → F
  pub lt : F → F → Bool
  pub le : F → F → Bool
  pub eq : F → F → Bool
  pub sort : List F → List F
