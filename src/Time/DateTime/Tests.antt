-- ===== src/Time/DateTime/Tests.antt =====
-- Times in the first second of 1970 and around it, and dates at the turn of a year.
use libblocxx_deb.Prelude.{
  Option, ◌+◌, ◌-◌, ◌*◌, if◌then◌else◌, leb, ◌&&◌, false, none, ap, ℕ, ◌≡◌, refl, some, arith, List,
  [], ◌∷◌, take, map,
}
use mathlib.Core.Option
use libblocxx_deb.Prelude.Int.{ℤ, pos_part, pos, negsuc, ◌*ℤ◌, ◌+ℤ◌, ◌-ℤ◌}
use libblocxx_deb.Time.Calendar.{
  ZoneTime, adjust_time_for_time_zone, get_days_per_month, decode_short_month, months, number_in,
  is_dow_valid, get_time_zone_offset, day_over, day_under, decode_long_month, hour_over, hour_under,
  is_long_dow_valid, leap_year_adjust, month_over, month_under,
}
use libblocxx_deb.Time.Calendar.Laws.{IsTime, adjust-DayZero, decode_short_month_lem}
use libblocxx_deb.Time.DateTime.{
  DateTime, Limits, date_time, difference, plus_duration, get_special_time_flag, int32,
}
use libblocxx_deb.Time.DateTime.Setters.{
  Clock, local_time, set_fields, set_time, days_to_month_start, leap_days_from_epoch_to_year,
  seconds_of_normal, time_gm,
}
use libblocxx_deb.Time.DateTime.Invariant.{
  normal, IsResult, microseconds_more, operate, operate-IsResult,
}
use libblocxx_deb.Time.DateTime.Laws.{IsNormal, plus_duration-difference, set_fields-Special}
use libblocxx_deb.Time.Calendar.Shift.{adjust-IsTime}
use libblocxx_deb.Time.DateTime.FreeForm.{
  date_of_text, free_form_date, scan_tokens, token_step, other_step, month_step, date_from,
  all_found, weekday_step,
}
use libblocxx_deb.Time.DateTime.FreeForm.Laws.{date_of_text-IsPlain}
use libblocxx_deb.Time.DateTime.Text.{
  tokenize, default_delims, is_cim, validate_ranges, set_all, cim_date,
}
use libblocxx_deb.Time.DateTime.Text.Laws.{IsPlain}
use libblocxx_deb.Time.DateTime.Text.Tokens.{tokenize-join, join}
use libblocxx_deb.Time.Period.{TimePeriod, period_of, contains, intersection, intersect}
use libblocxx_deb.Time.Period.Laws.{IsProper, contains-intersection}
use libblocxx_deb.Time.DateTime.{lt, gt}
use libblocxx_deb.Time.Duration.{pos_infinity}
use libblocxx_deb.Time.Tm.{
  Tm, carry, days_in_month, earlier_months, is_leap_year, later_months, norm_month, norm_tm,
}
use libblocxx_deb.Time.DivRem.{div_floor, div_machine, rem_floor, rem_machine}

abbrev limits : Limits
limits = record {
  minimum_time = negsuc 1000000;
  maximum_time = pos 1000000;
  minimum_year = pos 1902;
  maximum_year = pos 2037;
}

abbrev before_1970 : DateTime
before_1970 = date_time (negsuc 6) (pos 250000)

abbrev after_1970 : DateTime
after_1970 = date_time (pos 5) (pos 100000)

before_1970-IsNormal : IsNormal limits before_1970
before_1970-IsNormal = record {
  from_minimum = omega arith;
  to_maximum = omega arith;
  not_negative = refl;
  less_than_second = omega arith;
}

after_1970-IsNormal : IsNormal limits after_1970
after_1970-IsNormal = record {
  from_minimum = omega arith;
  to_maximum = omega arith;
  not_negative = refl;
  less_than_second = omega arith;
}

plus_duration-difference_example :
    plus_duration limits after_1970 (difference before_1970 after_1970) ≡ some before_1970
plus_duration-difference_example =
    plus_duration-difference limits before_1970 after_1970 before_1970-IsNormal after_1970-IsNormal

operate-IsResult_example :
    IsResult limits (operate limits (microseconds_more (negsuc 500000)) before_1970)
operate-IsResult_example =
    operate-IsResult limits (microseconds_more (negsuc 500000)) before_1970
      (normal before_1970 before_1970-IsNormal)

-- Every broken-down time is the start of 1970.
abbrev clock : Clock
clock = record { mktime = λ tm. some (pos 7); gmtime = λ s. epoch; localtime = λ s. epoch }
  where
    epoch : Tm
    epoch = record {
      tm_sec = pos 0;
      tm_min = pos 0;
      tm_hour = pos 0;
      tm_mday = pos 1;
      tm_mon = pos 0;
      tm_year = pos 70;
    }

set_fields-Special_example :
    Option.map get_special_time_flag (
      set_fields limits clock (pos 1970) (pos 1) (pos 1) (pos 0) (pos 0) (pos 5) 2000000 local_time)
    ≡ some pos_infinity
unfolding set_time
set_fields-Special_example =
    set_fields-Special limits clock (pos 1970) (pos 1) (pos 1) (pos 0) (pos 0) (pos 5) (pos 7)
      2000000 local_time refl (omega arith) (omega arith)

-- The last day of 2010, at 20:00.
abbrev new_years_eve : ZoneTime
new_years_eve = record { year = pos 2010; month = pos 12; day = pos 31; hour = pos 20 }

new_years_eve-IsTime : IsTime new_years_eve
unfolding get_days_per_month
new_years_eve-IsTime = record {
  month_from = omega arith;
  month_to = omega arith;
  day_from = omega arith;
  day_to = omega arith;
  hour_from = omega arith;
  hour_to = omega arith;
}

adjust-DayZero_example :
    ZoneTime.day (
      adjust_time_for_time_zone
        (pos 1)
        (record { year = pos 2010; month = pos 1; day = pos 1; hour = pos 0 }))
    ≡ pos 0
adjust-DayZero_example = adjust-DayZero (pos 2010) 0 1 (omega arith)

-- "Junk" begins like "June".
abbrev junk : List ℕ
junk = b'J' ∷ b'u' ∷ b'n' ∷ b'k' ∷ []

decode_short_month_lem_example :
    decode_short_month junk ≡ number_in 1 (map (take 3) months) (take 3 junk)
decode_short_month_lem_example = decode_short_month_lem junk

abbrev words_of_date : List (List ℕ)
words_of_date = (b'3' ∷ b'1' ∷ []) ∷ (b'M' ∷ b'a' ∷ b'y' ∷ []) ∷ []

tokenize-join_example :
    tokenize default_delims false false (join b' ' words_of_date) ≡ words_of_date
tokenize-join_example =
    tokenize-join default_delims b' ' words_of_date refl
      ((refl, (refl, (refl, tt))), ((refl, (refl, (refl, (refl, tt)))), tt))

-- A text of digits as a number, and no other text.
abbrev number_from : ℕ → List ℕ → Option ℤ
number_from n [] = some (pos n)
number_from n (c ∷ s) =
    let rest = number_from (n * 10 + (c - b'0')) s in
    if leb b'0' c && leb c b'9' then rest else none

abbrev number : List ℕ → Option ℤ
number [] = none
number (c ∷ s) = number_from 0 (c ∷ s)

-- "3 May 2010 1:02:03 UTC".
abbrev may_text : List ℕ
may_text = join b' ' (
    (b'3' ∷ [])
    ∷ (b'M' ∷ b'a' ∷ b'y' ∷ [])
    ∷ (b'2' ∷ b'0' ∷ b'1' ∷ b'0' ∷ [])
    ∷ (b'1' ∷ b':' ∷ b'0' ∷ b'2' ∷ b':' ∷ b'0' ∷ b'3' ∷ [])
    ∷ (b'U' ∷ b'T' ∷ b'C' ∷ [])
    ∷ [])

-- The limits of a `time_t` of 32 bits.
abbrev limits_of_32 : Limits
limits_of_32 = record {
  minimum_time = negsuc 2147483647;
  maximum_time = pos 2147483647;
  minimum_year = pos 1901;
  maximum_year = pos 2038;
}

may_date :
    date_of_text limits_of_32 clock number may_text ≡ some (date_time (pos 1272848523) (pos 0))
unfolding date_of_text is_cim free_form_date scan_tokens tokenize token_step is_dow_valid
    decode_short_month other_step month_step get_time_zone_offset date_from all_found
    validate_ranges adjust_time_for_time_zone set_all set_fields ◌*ℤ◌ ◌+ℤ◌ ◌-ℤ◌ day_over day_under
    decode_long_month get_days_per_month hour_over hour_under is_long_dow_valid leap_year_adjust
    month_over month_under weekday_step days_to_month_start leap_days_from_epoch_to_year
    seconds_of_normal set_time time_gm cim_date int32 div_floor div_machine rem_floor rem_machine
    carry days_in_month earlier_months is_leap_year later_months norm_month norm_tm
may_date = refl

date_of_text-IsPlain_example : IsPlain (date_of_text limits_of_32 clock number may_text)
date_of_text-IsPlain_example = date_of_text-IsPlain limits_of_32 clock number may_text

adjust-IsTime_example : IsTime (adjust_time_for_time_zone (pos 5) new_years_eve)
adjust-IsTime_example =
    adjust-IsTime (pos 5) new_years_eve (omega arith) (omega arith)
      (λ h f. absurd (omega (arith, ap pos_part f.1))) new_years_eve-IsTime

abbrev around_1970 : TimePeriod
around_1970 = period_of before_1970 after_1970

around_1970-IsProper : IsProper limits around_1970
unfolding lt
around_1970-IsProper = record {
  begin_normal = before_1970-IsNormal;
  finish_normal = after_1970-IsNormal;
}

contains-intersection_example :
    contains (intersection around_1970 around_1970) before_1970
    ≡ (contains around_1970 before_1970 && contains around_1970 before_1970)
unfolding intersect gt lt
contains-intersection_example =
    contains-intersection limits around_1970 around_1970 before_1970 around_1970-IsProper
      around_1970-IsProper before_1970-IsNormal refl
