-- ===== src/Time/DateTime/Setters.antt =====
-- src/blocxx/DateTime.cpp: the setters, and the additions of days, months and years; `timeGm` of
-- src/blocxx/TmUtils.cpp. `none` stands for a `DateTimeException`.
use libblocxx_deb.Prelude.{ℕ, ◌+◌, Option, none, some, if◌then◌else◌, ◌&&◌, leb}
use libblocxx_deb.Prelude.Int.{ℤ, pos, pos_part, ◌+ℤ◌, ◌-ℤ◌, ◌*ℤ◌, eqb_ℤ}
use libblocxx_deb.Time.DivRem.{div_machine}
use libblocxx_deb.Time.Tm.{Tm, is_leap_year, norm_tm}
use mathlib.Core.Option
use libblocxx_deb.Time.DateTime.{DateTime, Limits, date_time, have_special_value, in_limits, int32}

-- `mktime`, `gmtime_r` and `localtime_r`; `none` where the first one fails.
pub record Clock : Type 0 where
  pub mktime : Tm → Option ℤ
  pub gmtime : ℤ → Tm
  pub localtime : ℤ → Tm

pub data TimeOffset : Type 0 where
  local_time utc_time : TimeOffset

-- `timeGm`: the seconds of a normalised time, from the start of 1970.
abbrev pub leap_days_before : ℤ → ℤ
leap_days_before year1 = div_machine year1 4 -ℤ div_machine year1 100 +ℤ div_machine year1 400

unfoldable pub leap_days_from_epoch_to_year : ℤ → ℤ
leap_days_from_epoch_to_year year = leap_days_before (year -ℤ pos 1) -ℤ leap_days_before (pos 1969)

abbrev pub month_start : ℕ → ℕ
month_start mon =
    if leb mon 0
    then 0
    else if leb mon 1
    then 31
    else if leb mon 2
    then 59
    else if leb mon 3
    then 90
    else if leb mon 4
    then 120
    else if leb mon 5
    then 151
    else if leb mon 6
    then 181
    else if leb mon 7
    then 212
    else if leb mon 8
    then 243
    else if leb mon 9
    then 273
    else if leb mon 10
    then 304
    else 334

unfoldable pub days_to_month_start : Tm → ℕ
days_to_month_start tm =
    let mon = pos_part tm.tm_mon in
    if leb 2 mon && is_leap_year tm then month_start mon + 1 else month_start mon

unfoldable pub seconds_of_normal : Tm → ℤ
seconds_of_normal tm =
    let y = tm.tm_year +ℤ pos 1900 in
    let days =
      (y -ℤ pos 1970) *ℤ pos 365
      +ℤ leap_days_from_epoch_to_year y
      +ℤ pos (days_to_month_start tm)
      +ℤ (tm.tm_mday -ℤ pos 1) in
    days *ℤ pos 86400 +ℤ tm.tm_hour *ℤ pos 3600 +ℤ tm.tm_min *ℤ pos 60 +ℤ tm.tm_sec

abbrev pub time_of_normal : Limits → Option Tm → Option ℤ
time_of_normal l none = none
time_of_normal l (some tm) =
    if in_limits l.minimum_year l.maximum_year (tm.tm_year +ℤ pos 1900)
    then some (seconds_of_normal tm)
    else none

unfoldable pub time_gm : Limits → Tm → Option ℤ
time_gm l tm = time_of_normal l (norm_tm tm)

-- The private `setTime`.
abbrev pub checked : Limits → Option ℤ → Option ℤ
checked l none = none
checked l (some t) = if in_limits l.minimum_time l.maximum_time t then some t else none

unfoldable pub set_time : Limits → Clock → Tm → TimeOffset → Option ℤ
set_time l k tm local_time = checked l (k.mktime tm)
set_time l k tm utc_time = time_gm l tm

abbrev pub get_tm : Clock → TimeOffset → DateTime → Tm
get_tm k local_time t = k.localtime t.seconds
get_tm k utc_time t = k.gmtime t.seconds

-- A field is set in the broken-down time; a special value has none.
abbrev pub with_tm : Limits → Clock → TimeOffset → (Tm → Tm) → DateTime → Option DateTime
with_tm l k o f t =
    if have_special_value t.microseconds
    then none
    else Option.map (λ s. record t { seconds = s }) (set_time l k (f (get_tm k o t)) o)

unfoldable pub set_hour : Limits → Clock → ℤ → TimeOffset → DateTime → Option DateTime
set_hour l k hour o t = with_tm l k o (λ tm. record tm { tm_hour = hour }) t

unfoldable pub set_minute : Limits → Clock → ℤ → TimeOffset → DateTime → Option DateTime
set_minute l k minute o t = with_tm l k o (λ tm. record tm { tm_min = minute }) t

unfoldable pub set_second : Limits → Clock → ℤ → TimeOffset → DateTime → Option DateTime
set_second l k second o t = with_tm l k o (λ tm. record tm { tm_sec = second }) t

unfoldable pub set_time_of_day :
    Limits → Clock → ℤ → ℤ → ℤ → TimeOffset → DateTime → Option DateTime
set_time_of_day l k hour minute second o t =
    with_tm l k o (λ tm. record tm { tm_hour = hour; tm_min = minute; tm_sec = second }) t

unfoldable pub set_day : Limits → Clock → ℤ → TimeOffset → DateTime → Option DateTime
set_day l k day o t = with_tm l k o (λ tm. record tm { tm_mday = day }) t

unfoldable pub set_month : Limits → Clock → ℤ → TimeOffset → DateTime → Option DateTime
set_month l k month o t =
    if eqb_ℤ month (pos 0)
    then none
    else with_tm l k o (λ tm. record tm { tm_mon = month -ℤ pos 1 }) t

unfoldable pub set_year : Limits → Clock → ℤ → TimeOffset → DateTime → Option DateTime
set_year l k year o t =
    if in_limits l.minimum_year l.maximum_year year
    then with_tm l k o (λ tm. record tm { tm_year = year -ℤ pos 1900 }) t
    else none

unfoldable pub set_microsecond : ℤ → DateTime → Option DateTime
set_microsecond microseconds t =
    if have_special_value t.microseconds
    then none
    else if have_special_value microseconds
    then none
    else some (record t { microseconds = microseconds })

-- The test of `addYears` reads the years from 1900 on.
unfoldable pub add_years : Limits → Clock → ℤ → DateTime → Option DateTime
add_years l k years t =
    if have_special_value t.microseconds
    then some t
    else if in_limits l.minimum_year l.maximum_year ((get_tm k utc_time t).tm_year +ℤ years)
    then with_tm l k utc_time (λ tm. record tm { tm_year = tm.tm_year +ℤ years }) t
    else none

unfoldable pub add_days : Limits → Clock → ℤ → DateTime → Option DateTime
add_days l k days t =
    if have_special_value t.microseconds
    then some t
    else with_tm l k utc_time (λ tm. record tm { tm_mday = tm.tm_mday +ℤ days }) t

unfoldable pub add_months : Limits → Clock → ℤ → DateTime → Option DateTime
add_months l k months t =
    if have_special_value t.microseconds
    then some t
    else with_tm l k utc_time (λ tm. record tm { tm_mon = tm.tm_mon +ℤ months }) t

-- `set` from fields, where `microseconds` is a `UInt32` and is kept as an `Int32`: the microseconds
-- that are more than a second are added to the seconds, but are also kept.
abbrev pub fields_of_set : ℤ → ℤ → ℤ → ℤ → ℤ → ℤ → Tm
fields_of_set year month day hour minute second = record {
  tm_sec = second;
  tm_min = minute;
  tm_hour = hour;
  tm_mday = day;
  tm_mon = month -ℤ pos 1;
  tm_year = year -ℤ pos 1900;
}

unfoldable pub set_fields :
    Limits → Clock → ℤ → ℤ → ℤ → ℤ → ℤ → ℤ → ℕ → TimeOffset → Option DateTime
set_fields l k year month day hour minute second microseconds o =
    Option.map (λ s. date_time s (int32 (pos microseconds)))
      (set_time l k
        (fields_of_set year month day hour minute
          (second +ℤ div_machine (pos microseconds) 1000000))
        o)
