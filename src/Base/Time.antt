-- ===== src/Base/Time.antt =====
-- time.Time and time.Duration as nanoseconds since the epoch; Time.Unix drops the fraction.
use Prim.Native.Nat.{ℕ, ◌/◌, ◌≤◌}
use native.Mathlib.Omega.{arith}

abbrev pub second : ℕ
second = 1000000000

unfoldable pub unix : ℕ → ℕ
unix t = t / second

pub unix_mono : (s t : ℕ) → s ≤ t → unix s ≤ unix t
unfolding unix
unix_mono s t h = omega arith
