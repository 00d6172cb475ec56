-- ===== src/Time/DateTime/FreeForm.antt =====
-- src/blocxx/DateTime.cpp: the constructor of a date from a text, where the text is no CIM date, and
-- the choice between the two. `none` stands for a `DateTimeException`.
pub mod Laws
use libblocxx_deb.Prelude.{
  ℕ, Bool, true, false, List, [], ◌∷◌, Option, none, some, if◌then◌else◌, ◌&&◌, ◌||◌, not, ◌==◌,
  leb, ltb, length, map, is_some,
}
use libblocxx_deb.Prelude.Int.{ℤ, pos}
use libblocxx_deb.CmdLine.Options.{String, empty}
use libblocxx_deb.CmdLine.Parse.{index_of}
use libblocxx_deb.Time.Calendar.{
  char_at, is_dow_valid, is_long_dow_valid, decode_short_month, decode_long_month, Offset,
  unknown_zone, local, hours_from_utc, get_time_zone_offset, ZoneTime, adjust_time_for_time_zone,
}
use libblocxx_deb.Time.DateTime.{DateTime, Limits}
use libblocxx_deb.Time.DateTime.Setters.{Clock, TimeOffset, local_time, utc_time}
use libblocxx_deb.Time.DateTime.Text.{
  tokenize, default_delims, Fields, validate_ranges, set_all, Attempt, made, refused, unread,
  no_asterisk, cim_date, is_cim,
}

-- What the loop over the tokens has found; the month is 0 until it is.
pub record DateFound : Type 0 where
  pub weekday : String
  pub day_text : String
  pub time_text : String
  pub zone : Offset
  pub month_number : ℕ
  pub year_text : String

abbrev pub nothing_found : DateFound
nothing_found = record {
  weekday = [];
  day_text = [];
  time_text = [];
  zone = unknown_zone;
  month_number = 0;
  year_text = [];
}

unfoldable pub weekday_step : String → DateFound → Option DateFound
weekday_step token f =
    if empty f.weekday && (not (ltb 3 (length token)) || is_long_dow_valid token)
    then some (record f { weekday = token })
    else none

unfoldable pub month_step : String → DateFound → Option DateFound
month_step token f =
    let month =
      if ltb 3 (length token) then decode_long_month token else decode_short_month token in
    if month == 0 then none else some (record f { month_number = month })

-- A zone may still be given while none is, or the local one.
abbrev pub zone_open : Offset → Bool
zone_open unknown_zone = true
zone_open local = true
zone_open (hours_from_utc h) = false

abbrev pub zone_found : Offset → DateFound → Option DateFound
zone_found unknown_zone f = none
zone_found local f = some (record f { zone = local })
zone_found (hours_from_utc h) f = some (record f { zone = hours_from_utc h })

abbrev pub starts_with_digit : String → Bool
starts_with_digit token = leb b'0' (char_at token 0) && leb (char_at token 0) b'9'

unfoldable pub other_step : String → DateFound → Option DateFound
other_step token f =
    if empty f.time_text && is_some (index_of b':' token)
    then some (record f { time_text = token })
    else if empty f.day_text && starts_with_digit token
    then some (record f { day_text = token })
    else if empty f.year_text && starts_with_digit token
    then some (record f { year_text = token })
    else if zone_open f.zone && leb 1 (length token) && leb (length token) 4
    then zone_found (get_time_zone_offset token) f
    else none

unfoldable pub token_step : String → DateFound → Option DateFound
token_step token f =
    if is_dow_valid token
    then weekday_step token f
    else if (f.month_number == 0) && not (decode_short_month token == 0)
    then month_step token f
    else other_step token f

infixl 5 ◌>>=◌
abbrev pub ◌>>=◌ : {A B : Type 0} → Option A → (A → Option B) → Option B
none >>= f = none
some a >>= f = f a

unfoldable pub scan_tokens : List String → DateFound → Option DateFound
scan_tokens [] f = some f
scan_tokens (token ∷ tokens) f = do g ← token_step token f; scan_tokens tokens g

unfoldable pub all_found : DateFound → Bool
all_found f =
    leb 1 f.month_number
    && not (empty f.day_text)
    && not (empty f.time_text)
    && not (empty f.year_text)

abbrev pub in_utc : ℤ → Fields → Fields
in_utc offset f =
    let z =
      adjust_time_for_time_zone offset
        (record { year = f.year_of; month = f.month_of; day = f.day_of; hour = f.hour_of }) in
    record f { year_of = z.year; month_of = z.month; day_of = z.day; hour_of = z.hour }

module _ (l : Limits) (k : Clock) (to_int32 : String → Option ℤ) where
  abbrev pub set_valid : Fields → TimeOffset → Option DateTime
  set_valid f o = if validate_ranges l f then set_all l k f o else none

  abbrev pub set_in_zone : Offset → Fields → Option DateTime
  set_in_zone unknown_zone f = set_valid f local_time
  set_in_zone local f = set_valid f local_time
  set_in_zone (hours_from_utc offset) f =
      if validate_ranges l f then set_valid (in_utc offset f) utc_time else none

  -- The seconds, where they are given.
  abbrev pub second_number : List String → Option ℤ
  second_number [] = some (pos 0)
  second_number (s ∷ []) = to_int32 s
  second_number (s ∷ r ∷ rest) = none

  abbrev pub date_at : DateFound → List String → Option DateTime
  date_at f [] = none
  date_at f (h ∷ []) = none
  date_at f (h ∷ m ∷ rest) = do
    year ← to_int32 f.year_text
    day ← to_int32 f.day_text
    hour ← to_int32 h
    minute ← to_int32 m
    second ← second_number rest
    set_in_zone f.zone (record {
      year_of = year;
      month_of = pos f.month_number;
      day_of = day;
      hour_of = hour;
      minute_of = minute;
      second_of = second;
      microseconds_of = pos 0;
    })

  unfoldable pub date_from : DateFound → Option DateTime
  date_from f =
      if all_found f then date_at f (tokenize (b':' ∷ []) false false f.time_text) else none

  unfoldable pub free_form_date : String → Option DateTime
  free_form_date str =
      if empty str
      then none
      else (do f ← scan_tokens (tokenize default_delims false false str) nothing_found; date_from f)

  abbrev pub settle : Attempt → Option DateTime → Option DateTime
  settle (made t) other = some t
  settle refused other = none
  settle unread other = other

  unfoldable pub date_of_text : String → Option DateTime
  date_of_text str =
      if is_cim str
      then settle (cim_date l k to_int32 (char_at str 21) (map no_asterisk str))
          (free_form_date str)
      else free_form_date str
