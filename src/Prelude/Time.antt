-- ===== src/Prelude/Time.antt =====
-- Instants and durations of Go's package time. An instant is its distance in nanoseconds from the
-- zero `time.Time`, so `IsZero` is a test for 0; a duration is a signed number of nanoseconds.
use Prim.Native.Nat.{ℕ, ◌+◌, ◌-◌, ◌*◌}
use mathlib.Core.Bool.{Bool}
use local_router.Prelude.Tests.{ltb, ◌==◌}
use local_router.Prelude.Int.{ℤ, pos, pos_part, neg_part}

abbrev pub Time : Type 0
Time = ℕ

abbrev pub Duration : Type 0
Duration = ℤ

abbrev pub zero_time : Time
zero_time = 0

abbrev pub is_zero : Time → Bool
is_zero t = t == 0

-- t.Before(u), t.After(u)
abbrev pub before : Time → Time → Bool
before t u = ltb t u

abbrev pub after : Time → Time → Bool
after t u = ltb u t

-- t.Add(d)
abbrev pub add : Time → Duration → Time
add t d = t + pos_part d - neg_part d

abbrev pub milliseconds : ℕ → Duration
milliseconds n = pos (n * 1000000)
