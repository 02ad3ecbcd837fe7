-- ===== src/Common/Clock.antt =====
-- Go's `time.Time` as nanoseconds since its zero value (January 1 of the year 1), which is what
-- `IsZero`, `Before` and `Truncate` are defined by. Every instant is in UTC, so `UTC()` is no step.
use Prim.Native.Nat.{ℕ, ◌*◌, ◌/◌, ◌≤◌, ◌<◌, ◌+◌}
use mathlib.Core.Path.{◌≡◌}
use mathlib.Core.Bool.{Bool}
use native.Mathlib.Omega.{arith}
use k8s_lab.Common.Tests.{ltb, nat_eqb, if◌then◌else◌}

abbrev pub Time : Type 0
Time = ℕ

abbrev pub is_zero : Time → Bool
is_zero t = nat_eqb t 0

abbrev pub before : Time → Time → Bool
before a b = ltb a b

-- t.UTC().Truncate(time.Microsecond)
unfoldable pub truncate_us : Time → Time
truncate_us t = t / 1000 * 1000

pub truncate_us_idem : (t : Time) → truncate_us (truncate_us t) ≡ truncate_us t
unfolding truncate_us
truncate_us_idem t = omega arith

pub truncate_us_bounds : (t : Time) → (truncate_us t ≤ t) × (t < truncate_us t + 1000)
unfolding truncate_us
truncate_us_bounds t = omega arith

-- if t.IsZero() { t = now }
abbrev pub or_now : Time → Time → Time
or_now t now = if is_zero t then now else t
