-- ===== src/Time/Tests.antt =====
-- Durations and divisions at concrete values.
use libblocxx_deb.Prelude.{◌≡◌, refl}
use libblocxx_deb.Prelude.Int.{pos, negsuc, ◌+ℤ◌, ◌-ℤ◌, ◌*ℤ◌}
use libblocxx_deb.Time.DivRem.{div_machine, rem_machine, div_floor, rem_floor}
use libblocxx_deb.Time.Duration.{
  TimeDuration, of_microseconds, complete_seconds, complete_minutes, complete_hours, complete_days,
  relative_days, hour_in_day, minute_in_hour, second_in_minute, microsecond_in_second, lt, gt, eq,
  le, plus, minus, negate, scale,
}
use libblocxx_deb.Time.Duration.Fields.{total, fields_make_up}

-- What the tests compute with.
operations : Unit {0}
unfolding div_machine rem_machine div_floor rem_floor complete_seconds complete_minutes
    complete_hours complete_days relative_days hour_in_day minute_in_hour second_in_minute
    microsecond_in_second lt gt eq le plus minus negate scale ◌+ℤ◌ ◌-ℤ◌ ◌*ℤ◌
operations = tt

-- Minus one second.
abbrev second_ago : TimeDuration
second_ago = of_microseconds (negsuc 999999)

second_ago_fields :
    (relative_days second_ago ≡ negsuc 0)
    × (second_in_minute second_ago ≡ pos 58)
    × (microsecond_in_second second_ago ≡ pos 1000000)
unfolding operations
second_ago_fields = (refl, refl, refl)

fields_make_up_example :
    total
      (relative_days second_ago)
      (hour_in_day second_ago)
      (minute_in_hour second_ago)
      (second_in_minute second_ago)
      (microsecond_in_second second_ago)
    ≡ negsuc 999999
fields_make_up_example = fields_make_up second_ago
