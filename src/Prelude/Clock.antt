-- ===== src/Prelude/Clock.antt =====
-- time.Duration and time.Time as numbers of nanoseconds; a time counts from the zero time of Go,
-- so `IsZero` is a test for 0 and `Truncate` rounds down to a multiple.
use Prim.Native.Nat.{ℕ, ◌+◌, ◌-◌, ◌*◌, ◌%◌}
use mathlib.Core.Bool.{Bool}
use dronservice_updates.Prelude.Tests.{ltb, leb, ◌==◌}

abbrev pub milliseconds : ℕ → ℕ
milliseconds n = n * 1000000

abbrev pub seconds : ℕ → ℕ
seconds n = n * 1000000000

abbrev pub minutes : ℕ → ℕ
minutes n = n * 60000000000

abbrev pub hours : ℕ → ℕ
hours n = n * 3600000000000

-- `now.Sub(t) < d` for a duration that is not negative; the difference may be.
abbrev pub elapsed_lt : ℕ → ℕ → ℕ → Bool
elapsed_lt now t d = ltb now (t + d)

-- `now.Sub(t) <= d`
abbrev pub elapsed_le : ℕ → ℕ → ℕ → Bool
elapsed_le now t d = leb now (t + d)

-- `t.Before(now.Add(-d))`
abbrev pub before_cutoff : ℕ → ℕ → ℕ → Bool
before_cutoff t now d = ltb (t + d) now

-- `t.Truncate(d)`
abbrev pub truncate : ℕ → ℕ → ℕ
truncate t d = t - t % d

-- `t.IsZero()`
abbrev pub is_zero : ℕ → Bool
is_zero t = t == 0
