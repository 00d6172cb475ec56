-- ===== src/Time/Calendar.antt =====
-- src/blocxx/DateTime.cpp: names of days, months and time zones, the days of a month, and the shift of
-- a time from its zone.
pub mod Laws
pub mod Shift
use libblocxx_deb.Prelude.{
  ℕ, zero, suc, ◌+◌, Bool, true, false, List, [], ◌∷◌, Option, none, some, if◌then◌else◌, ◌&&◌,
  ◌||◌, not, ◌==◌, get_or, length,
}
use libblocxx_deb.Prelude.Int.{ℤ, pos, negsuc, ◌+ℤ◌, ◌-ℤ◌, ltb_ℤ, eqb_ℤ, minus}
use libblocxx_deb.CmdLine.Options.{String, equals}
use libblocxx_deb.Time.DivRem.{rem_machine}

-- `str[i]` of a text with its final 0.
abbrev pub char_at : String → ℕ → ℕ
char_at str i = get_or str i 0

unfoldable pub is_dow_valid : String → Bool
is_dow_valid str =
    if char_at str 0 == b'S'
    then (if char_at str 1 == b'u'
        then char_at str 2 == b'n'
        else if char_at str 1 == b'a'
        then char_at str 2 == b't'
        else false)
    else if char_at str 0 == b'M'
    then (if char_at str 1 == b'o' then char_at str 2 == b'n' else false)
    else if char_at str 0 == b'T'
    then (if char_at str 1 == b'u'
        then char_at str 2 == b'e'
        else if char_at str 1 == b'h'
        then char_at str 2 == b'u'
        else false)
    else if char_at str 0 == b'W'
    then (if char_at str 1 == b'e' then char_at str 2 == b'd' else false)
    else if char_at str 0 == b'F'
    then (if char_at str 1 == b'r' then char_at str 2 == b'i' else false)
    else false

abbrev pub long_dows : List String
long_dows =
    (b'S' ∷ b'u' ∷ b'n' ∷ b'd' ∷ b'a' ∷ b'y' ∷ [])
    ∷ (b'M' ∷ b'o' ∷ b'n' ∷ b'd' ∷ b'a' ∷ b'y' ∷ [])
    ∷ (b'T' ∷ b'u' ∷ b'e' ∷ b's' ∷ b'd' ∷ b'a' ∷ b'y' ∷ [])
    ∷ (b'W' ∷ b'e' ∷ b'd' ∷ b'n' ∷ b'e' ∷ b's' ∷ b'd' ∷ b'a' ∷ b'y' ∷ [])
    ∷ (b'T' ∷ b'h' ∷ b'u' ∷ b'r' ∷ b's' ∷ b'd' ∷ b'a' ∷ b'y' ∷ [])
    ∷ (b'F' ∷ b'r' ∷ b'i' ∷ b'd' ∷ b'a' ∷ b'y' ∷ [])
    ∷ (b'S' ∷ b'a' ∷ b't' ∷ b'u' ∷ b'r' ∷ b'd' ∷ b'a' ∷ b'y' ∷ [])
    ∷ []

abbrev pub equals_one : String → List String → Bool
equals_one s [] = false
equals_one s (t ∷ ts) = equals s t || equals_one s ts

unfoldable pub is_long_dow_valid : String → Bool
is_long_dow_valid s = equals_one s long_dows

-- 0 stands for the -1 that an invalid month has.
unfoldable pub decode_short_month : String → ℕ
decode_short_month str =
    if char_at str 0 == b'J'
    then (if char_at str 1 == b'a'
        then (if char_at str 2 == b'n' then 1 else 0)
        else if char_at str 1 == b'u'
        then (if char_at str 2 == b'n' then 6 else if char_at str 2 == b'l' then 7 else 0)
        else 0)
    else if char_at str 0 == b'F'
    then (if (char_at str 1 == b'e') && (char_at str 2 == b'b') then 2 else 0)
    else if char_at str 0 == b'M'
    then (if char_at str 1 == b'a'
        then (if char_at str 2 == b'r' then 3 else if char_at str 2 == b'y' then 5 else 0)
        else 0)
    else if char_at str 0 == b'A'
    then (if char_at str 1 == b'p'
        then (if char_at str 2 == b'r' then 4 else 0)
        else if char_at str 1 == b'u'
        then (if char_at str 2 == b'g' then 8 else 0)
        else 0)
    else if char_at str 0 == b'S'
    then (if (char_at str 1 == b'e') && (char_at str 2 == b'p') then 9 else 0)
    else if char_at str 0 == b'O'
    then (if (char_at str 1 == b'c') && (char_at str 2 == b't') then 10 else 0)
    else if char_at str 0 == b'N'
    then (if (char_at str 1 == b'o') && (char_at str 2 == b'v') then 11 else 0)
    else if char_at str 0 == b'D'
    then (if (char_at str 1 == b'e') && (char_at str 2 == b'c') then 12 else 0)
    else 0

abbrev pub months : List String
months =
    (b'J' ∷ b'a' ∷ b'n' ∷ b'u' ∷ b'a' ∷ b'r' ∷ b'y' ∷ [])
    ∷ (b'F' ∷ b'e' ∷ b'b' ∷ b'r' ∷ b'u' ∷ b'a' ∷ b'r' ∷ b'y' ∷ [])
    ∷ (b'M' ∷ b'a' ∷ b'r' ∷ b'c' ∷ b'h' ∷ [])
    ∷ (b'A' ∷ b'p' ∷ b'r' ∷ b'i' ∷ b'l' ∷ [])
    ∷ (b'M' ∷ b'a' ∷ b'y' ∷ [])
    ∷ (b'J' ∷ b'u' ∷ b'n' ∷ b'e' ∷ [])
    ∷ (b'J' ∷ b'u' ∷ b'l' ∷ b'y' ∷ [])
    ∷ (b'A' ∷ b'u' ∷ b'g' ∷ b'u' ∷ b's' ∷ b't' ∷ [])
    ∷ (b'S' ∷ b'e' ∷ b'p' ∷ b't' ∷ b'e' ∷ b'm' ∷ b'b' ∷ b'e' ∷ b'r' ∷ [])
    ∷ (b'O' ∷ b'c' ∷ b't' ∷ b'o' ∷ b'b' ∷ b'e' ∷ b'r' ∷ [])
    ∷ (b'N' ∷ b'o' ∷ b'v' ∷ b'e' ∷ b'm' ∷ b'b' ∷ b'e' ∷ b'r' ∷ [])
    ∷ (b'D' ∷ b'e' ∷ b'c' ∷ b'e' ∷ b'm' ∷ b'b' ∷ b'e' ∷ b'r' ∷ [])
    ∷ []

-- The number of a name, counted from `n` on, or 0.
abbrev pub number_in : ℕ → List String → String → ℕ
number_in n [] s = 0
number_in n (t ∷ ts) s = if equals s t then n else number_in (suc n) ts s

unfoldable pub decode_long_month : String → ℕ
decode_long_month str = number_in 1 months str

-- The zones of one letter, and those with a name; `none` stands for a zone that is not known, and
-- `local` for the one whose offset is LOCAL_TIME_OFFSET.
pub data Offset : Type 0 where
  unknown_zone local : Offset
  hours_from_utc : ℤ → Offset

abbrev pub zone_in : List (String × ℤ) → String → Offset
zone_in [] s = unknown_zone
zone_in ((t, h) ∷ zones) s = if equals s t then hours_from_utc h else zone_in zones s

abbrev pub letter_zones : List (String × ℤ)
letter_zones =
    (b'Y' ∷ [], negsuc 11)
    ∷ (b'X' ∷ [], negsuc 10)
    ∷ (b'W' ∷ [], negsuc 9)
    ∷ (b'V' ∷ [], negsuc 8)
    ∷ (b'U' ∷ [], negsuc 7)
    ∷ (b'T' ∷ [], negsuc 6)
    ∷ (b'S' ∷ [], negsuc 5)
    ∷ (b'R' ∷ [], negsuc 4)
    ∷ (b'Q' ∷ [], negsuc 3)
    ∷ (b'P' ∷ [], negsuc 2)
    ∷ (b'O' ∷ [], negsuc 1)
    ∷ (b'N' ∷ [], negsuc 0)
    ∷ (b'Z' ∷ [], pos 0)
    ∷ (b'A' ∷ [], pos 1)
    ∷ (b'B' ∷ [], pos 2)
    ∷ (b'C' ∷ [], pos 3)
    ∷ (b'D' ∷ [], pos 4)
    ∷ (b'E' ∷ [], pos 5)
    ∷ (b'F' ∷ [], pos 6)
    ∷ (b'G' ∷ [], pos 7)
    ∷ (b'H' ∷ [], pos 8)
    ∷ (b'I' ∷ [], pos 9)
    ∷ (b'K' ∷ [], pos 10)
    ∷ (b'L' ∷ [], pos 11)
    ∷ (b'M' ∷ [], pos 12)
    ∷ []

abbrev pub named_zones : List (String × ℤ)
named_zones =
    (b'U' ∷ b'T' ∷ b'C' ∷ [], pos 0)
    ∷ (b'G' ∷ b'M' ∷ b'T' ∷ [], pos 0)
    ∷ (b'B' ∷ b'S' ∷ b'T' ∷ [], pos 1)
    ∷ (b'I' ∷ b'S' ∷ b'T' ∷ [], pos 1)
    ∷ (b'W' ∷ b'E' ∷ b'T' ∷ [], pos 0)
    ∷ (b'W' ∷ b'E' ∷ b'S' ∷ b'T' ∷ [], pos 1)
    ∷ (b'C' ∷ b'E' ∷ b'T' ∷ [], pos 1)
    ∷ (b'C' ∷ b'E' ∷ b'S' ∷ b'T' ∷ [], pos 2)
    ∷ (b'E' ∷ b'E' ∷ b'T' ∷ [], pos 2)
    ∷ (b'E' ∷ b'E' ∷ b'S' ∷ b'T' ∷ [], pos 3)
    ∷ (b'M' ∷ b'S' ∷ b'K' ∷ [], pos 3)
    ∷ (b'M' ∷ b'S' ∷ b'D' ∷ [], pos 4)
    ∷ (b'A' ∷ b'S' ∷ b'T' ∷ [], negsuc 3)
    ∷ (b'A' ∷ b'D' ∷ b'T' ∷ [], negsuc 2)
    ∷ (b'E' ∷ b'S' ∷ b'T' ∷ [], negsuc 4)
    ∷ (b'E' ∷ b'D' ∷ b'T' ∷ [], negsuc 3)
    ∷ (b'E' ∷ b'T' ∷ [], negsuc 4)
    ∷ (b'C' ∷ b'S' ∷ b'T' ∷ [], negsuc 5)
    ∷ (b'C' ∷ b'D' ∷ b'T' ∷ [], negsuc 4)
    ∷ (b'C' ∷ b'T' ∷ [], negsuc 5)
    ∷ (b'M' ∷ b'S' ∷ b'T' ∷ [], negsuc 6)
    ∷ (b'M' ∷ b'D' ∷ b'T' ∷ [], negsuc 5)
    ∷ (b'M' ∷ b'T' ∷ [], negsuc 6)
    ∷ (b'P' ∷ b'S' ∷ b'T' ∷ [], negsuc 7)
    ∷ (b'P' ∷ b'D' ∷ b'T' ∷ [], negsuc 6)
    ∷ (b'P' ∷ b'T' ∷ [], negsuc 7)
    ∷ (b'H' ∷ b'S' ∷ b'T' ∷ [], negsuc 9)
    ∷ (b'A' ∷ b'K' ∷ b'S' ∷ b'T' ∷ [], negsuc 8)
    ∷ (b'A' ∷ b'K' ∷ b'D' ∷ b'T' ∷ [], negsuc 7)
    ∷ (b'W' ∷ b'S' ∷ b'T' ∷ [], pos 8)
    ∷ []

unfoldable pub get_time_zone_offset : String → Offset
get_time_zone_offset timezone =
    if length timezone == 1
    then (if char_at timezone 0 == b'J' then local else zone_in letter_zones timezone)
    else zone_in named_zones timezone

abbrev pub normal_days_per_month : List ℕ
normal_days_per_month = 31 ∷ 28 ∷ 31 ∷ 30 ∷ 31 ∷ 30 ∷ 31 ∷ 31 ∷ 30 ∷ 31 ∷ 30 ∷ 31 ∷ []

unfoldable pub leap_year_adjust : ℤ → ℕ
leap_year_adjust year =
    if eqb_ℤ (rem_machine year 4) (pos 0)
    then (if eqb_ℤ (rem_machine year 100) (pos 0)
        then (if eqb_ℤ (rem_machine year 400) (pos 0) then 1 else 0)
        else 1)
    else 0

-- The month is a number from 1 on, or any other.
unfoldable pub get_days_per_month : ℤ → ℤ → ℕ
get_days_per_month year (negsuc n) = 0
get_days_per_month year (pos zero) = 0
get_days_per_month year (pos (suc m)) =
    if m == 1 then 28 + leap_year_adjust year else get_or normal_days_per_month m 0

pub record ZoneTime : Type 0 where
  pub year : ℤ
  pub month : ℤ
  pub day : ℤ
  pub hour : ℤ

-- A zone behind UTC: the hour, the day, the month and the year in turn.
unfoldable pub hour_over : ZoneTime → ZoneTime
hour_over t =
    if ltb_ℤ (pos 23) t.hour then record t { day = t.day +ℤ pos 1; hour = t.hour -ℤ pos 24 } else t

unfoldable pub day_over : ZoneTime → ZoneTime
day_over t =
    if ltb_ℤ (pos (get_days_per_month t.year t.month)) t.day
    then record t { month = t.month +ℤ pos 1; day = pos 1 }
    else t

unfoldable pub month_over : ZoneTime → ZoneTime
month_over t =
    if ltb_ℤ (pos 12) t.month
    then record t { month = t.month -ℤ pos 12; year = t.year +ℤ pos 1 }
    else t

-- A zone before UTC.
unfoldable pub hour_under : ZoneTime → ZoneTime
hour_under t =
    if ltb_ℤ t.hour (pos 0) then record t { day = t.day -ℤ pos 1; hour = t.hour +ℤ pos 24 } else t

unfoldable pub day_under : ZoneTime → ZoneTime
day_under t =
    if ltb_ℤ t.day (pos 1)
    then record t {
      month = t.month -ℤ pos 1;
      day = t.day +ℤ pos (get_days_per_month t.year (t.month -ℤ pos 1));
    }
    else t

unfoldable pub month_under : ZoneTime → ZoneTime
month_under t =
    if ltb_ℤ t.month (pos 1)
    then record t { month = t.month +ℤ pos 12; year = t.year -ℤ pos 1 }
    else t

unfoldable pub adjust_time_for_time_zone : ℤ → ZoneTime → ZoneTime
adjust_time_for_time_zone timezone_offset t =
    let shifted : ZoneTime = record t { hour = t.hour -ℤ timezone_offset } in
    if ltb_ℤ timezone_offset (pos 0)
    then month_over (day_over (hour_over shifted))
    else if ltb_ℤ (pos 0) timezone_offset
    then month_under (day_under (hour_under shifted))
    else t
