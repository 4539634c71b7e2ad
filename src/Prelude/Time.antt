-- ===== src/Prelude/Time.antt =====
-- time.Time and time.Duration: an instant is the number of nanoseconds since Go's zero time, which
-- is what `IsZero` tests for; a duration is an int64 number of nanoseconds.
use Prim.Native.Nat.{ℕ, ◌+◌, ◌-◌}
use mathlib.Core.Bool.{Bool}
use kailo_be.Prelude.Tests.{ltb, leb, ◌==◌, if◌then◌else◌}
use kailo_be.Prelude.Int.{ℤ, pos, negsuc, two_63}

abbrev pub Instant : Type 0
Instant = ℕ

abbrev pub is_zero : Instant → Bool
is_zero t = t == 0

-- `t.Add(d)`; an instant before the zero time is not represented.
abbrev pub add : Instant → ℤ → Instant
add t (pos n) = t + n
add t (negsuc n) = t - n - 1

-- `t.Sub(u)`, which stays within the range of a duration.
abbrev pub sub : Instant → Instant → ℤ
sub t u =
    if leb u t
    then pos (if ltb (t - u) two_63 then t - u else two_63 - 1)
    else negsuc (if ltb (u - t - 1) two_63 then u - t - 1 else two_63 - 1)

-- `t.After(u)`.
abbrev pub after : Instant → Instant → Bool
after t u = ltb u t

abbrev pub second : ℕ
second = 1_000_000_000

abbrev pub minute : ℕ
minute = 60_000_000_000

abbrev pub hour : ℕ
hour = 3_600_000_000_000
