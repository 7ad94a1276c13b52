-- ===== src/Base/Clock.antt =====
-- time.Time as nanoseconds since the zero time (January 1, year 1), and time.Duration.
use Prim.Native.Nat.{ℕ, ◌-◌, ◌^◌}
use mathlib.Core.Bool.{Bool}
use code_maintainer.Base.Tests.{ltb, leb, ◌==◌, if◌then◌else◌}
use code_maintainer.Base.Int.{ℤ, pos, negsuc}

abbrev pub Time : Type 0
Time = ℕ

-- t.IsZero()
abbrev pub is_zero : Time → Bool
is_zero t = t == 0

-- a.Before(b)
abbrev pub before : Time → Time → Bool
before a b = ltb a b

abbrev pub second : ℕ
second = 1_000_000_000

abbrev pub max_duration : ℕ
max_duration = 2 ^ 63 - 1

-- a.Sub(b), which stops at the ends of a 64-bit duration
unfoldable pub sub_time : Time → Time → ℤ
sub_time a b =
    if leb b a
    then pos (if ltb max_duration (a - b) then max_duration else a - b)
    else negsuc (if ltb max_duration (b - a - 1) then max_duration else b - a - 1)
