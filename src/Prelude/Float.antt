-- ===== src/Prelude/Float.antt =====
-- float64 as the code uses it: a type with the operations, of which nothing is assumed.
use Prim.Native.Nat.{ℕ}
use mathlib.Core.Bool.{Bool}

pub record Float (F : Type 0) : Type 0 where
  pub zero : F
  pub hundredth : F  -- 0.01
  pub tenth : F  -- 0.1
  pub add : F → F → F
  pub sub : F → F → F
  pub mul : F → F → F
  pub div : F → F → F
  pub abs : F → F
  pub lt : F → F → Bool
  pub of_int : ℕ → F
