-- ===== src/Base/Clock.antt =====
-- Go's `time.Time` and `time.Duration`. An instant is the number of nanoseconds since Go's zero
-- time, 1 January of the year 1, UTC: `UTC()` changes no instant, and `IsZero` is a test for 0.
use Prim.Native.Nat.{ℕ, ◌-◌, ◌/◌, min}
use mathlib.Core.Bool.{Bool}
use proof_layer.Base.Tests.{ltb, nat_eq}

abbrev pub Time : Type 0
Time = ℕ

abbrev pub Duration : Type 0
Duration = ℕ

abbrev pub millisecond : Duration
millisecond = 1_000_000

abbrev pub second : Duration
second = 1_000_000_000

abbrev pub minute : Duration
minute = 60_000_000_000

abbrev pub hour : Duration
hour = 3_600_000_000_000

abbrev pub before : Time → Time → Bool
before a b = ltb a b

abbrev pub after : Time → Time → Bool
after a b = ltb b a

abbrev pub is_zero_time : Time → Bool
is_zero_time t = nat_eq t 0

-- `a.Sub(b)` where `b` is not after `a`: the difference, at the largest `Duration` if it is larger.
abbrev pub sub_time : Time → Time → Duration
sub_time a b = min (a - b) 9223372036854775807

abbrev pub milliseconds : Duration → ℕ
milliseconds d = d / millisecond
