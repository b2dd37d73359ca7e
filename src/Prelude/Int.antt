-- ===== src/Prelude/Int.antt =====
-- Signed integers, for durations and counts that the code compares with zero.
use Prim.Native.Nat.{ℕ, zero, suc, ◌^◌}
use mathlib.Core.Bool.{Bool, true}
use dronservice_updates.Prelude.Tests.{ltb, ◌==◌, if◌then◌else◌}

-- `negsuc n` is -(n + 1).
pub data ℤ : Type 0 where
  pos : ℕ → ℤ
  negsuc : ℕ → ℤ

-- `if d <= 0 { d = fallback }`
abbrev pub positive_or : ℤ → ℕ → ℕ
positive_or (pos zero) fallback = fallback
positive_or (pos (suc n)) fallback = suc n
positive_or (negsuc n) fallback = fallback

-- `n++` on an int of 64 bits.
abbrev pub increment : ℤ → ℤ
increment (pos n) = if suc n == 2 ^ 63 then negsuc n else pos (suc n)
increment (negsuc zero) = pos zero
increment (negsuc (suc n)) = negsuc n

-- `n < 1`
abbrev pub below_one : ℤ → Bool
below_one (pos n) = ltb n 1
below_one (negsuc n) = true
