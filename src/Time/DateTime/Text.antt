-- ===== src/Time/DateTime/Text.antt =====
-- src/blocxx/DateTime.cpp and String.cpp: `tokenize`, and the constructor of a date from a text. The
-- conversion of a text to an Int32 is an argument, none where it throws. `none` stands for a
-- `DateTimeException`.
pub mod Laws
pub mod Tokens
use libblocxx_deb.Prelude.{
  ℕ, zero, suc, ◌+◌, ◌-◌, ◌≤◌, Bool, true, false, List, [], ◌∷◌, ◌++◌, Option, none, some,
  if◌then◌else◌, ◌&&◌, ◌||◌, not, ◌==◌, leb, ltb, length, take, drop, map, is_some,
}
use libblocxx_deb.Prelude.Int.{ℤ, pos, negsuc, pos_part, ◌+ℤ◌, ◌-ℤ◌, neg_ℤ, ltb_ℤ}
use libblocxx_deb.CmdLine.Options.{String, empty}
use libblocxx_deb.CmdLine.Parse.{index_of}
use libblocxx_deb.Time.Calendar.{
  char_at, is_dow_valid, is_long_dow_valid, decode_short_month, decode_long_month, Offset,
  unknown_zone, local, hours_from_utc, get_time_zone_offset, ZoneTime, adjust_time_for_time_zone,
}
use libblocxx_deb.Time.DateTime.{DateTime, Limits, in_limits}
use libblocxx_deb.Time.DateTime.Setters.{Clock, TimeOffset, local_time, utc_time, set_fields}

-- The token that has been read, where it is not empty.
abbrev pub if_token : String → List String → List String
if_token [] ts = ts
if_token (a ∷ t) ts = (a ∷ t) ∷ ts

abbrev pub if_wanted : Bool → String → List String → List String
if_wanted true t ts = t ∷ ts
if_wanted false t ts = ts

abbrev pub last_token : Bool → String → List String
last_token wanted [] = if_wanted wanted [] []
last_token wanted (a ∷ t) = (a ∷ t) ∷ []

-- The loop, with the token so far and whether the last character was a delimiter.
abbrev pub tokens_from : String → Bool → Bool → String → Bool → String → List String
tokens_from delims return_delimiters return_empty token last_was_delim [] =
    last_token (return_empty && last_was_delim) token
tokens_from delims return_delimiters return_empty token last_was_delim (c ∷ s) =
    let next = tokens_from delims return_delimiters return_empty [] true s in
    let rest = tokens_from delims return_delimiters return_empty (token ++ c ∷ []) false s in
    if is_some (index_of c delims)
    then if_token token
        (if_wanted (return_empty && last_was_delim) [] (if_wanted return_delimiters (c ∷ []) next))
    else rest

unfoldable pub tokenize : String → Bool → Bool → String → List String
tokenize delims return_delimiters return_empty s =
    if empty s then [] else tokens_from delims return_delimiters return_empty [] false s

-- The default delimiters, " \n\r\t\v".
abbrev pub default_delims : String
default_delims = 32 ∷ 10 ∷ 13 ∷ 9 ∷ 11 ∷ []

-- The year, the month, the day, the hour, the minute, the second and the microseconds of a date.
pub record Fields : Type 0 where
  pub year_of : ℤ
  pub month_of : ℤ
  pub day_of : ℤ
  pub hour_of : ℤ
  pub minute_of : ℤ
  pub second_of : ℤ
  pub microseconds_of : ℤ

unfoldable pub validate_ranges : Limits → Fields → Bool
validate_ranges l f =
    in_limits l.minimum_year l.maximum_year f.year_of
    && in_limits (pos 1) (pos 12) f.month_of
    && in_limits (pos 1) (pos 31) f.day_of
    && in_limits (pos 0) (pos 23) f.hour_of
    && in_limits (pos 0) (pos 59) f.minute_of
    && in_limits (pos 0) (pos 60) f.second_of
    && in_limits (pos 0) (pos 999999) f.microseconds_of

unfoldable pub set_all : Limits → Clock → Fields → TimeOffset → Option DateTime
set_all l k f o =
    set_fields l k f.year_of f.month_of f.day_of f.hour_of f.minute_of f.second_of
      (pos_part f.microseconds_of) o

-- A date, an exception, or a number that cannot be read: then the text is read as free form.
pub data Attempt : Type 0 where
  made : DateTime → Attempt
  refused unread : Attempt

abbrev pub attempt : Option DateTime → Attempt
attempt none = refused
attempt (some t) = made t

infixl 5 ◌>>=◌
abbrev pub ◌>>=◌ : {A : Type 0} → Option A → (A → Attempt) → Attempt
none >>= f = unread
some a >>= f = f a

abbrev pub valid_or_refused : Bool → Attempt → Attempt
valid_or_refused true a = a
valid_or_refused false a = refused

abbrev pub no_asterisk : ℕ → ℕ
no_asterisk c = if c == b'*' then b'0' else c

abbrev pub substring : ℕ → ℕ → String → String
substring begin_index len s = take len (drop begin_index s)

unfoldable pub is_cim : String → Bool
is_cim str =
    (length str == 25)
    && (char_at str 14 == b'.')
    && ((char_at str 21 == b'+') || (char_at str 21 == b'-'))

module _ (l : Limits) (k : Clock) (to_int32 : String → Option ℤ) where
  abbrev pub with_offset : ℕ → ℤ → Fields → Fields
  with_offset sign utc f = record f {
    minute_of = f.minute_of +ℤ (if sign == b'+' then neg_ℤ utc else utc);
  }

  -- The digits of a CIM date, where `s` has no asterisks.
  unfoldable pub cim_date : ℕ → String → Attempt
  cim_date sign s = do
    year ← to_int32 (substring 0 4 s)
    month ← to_int32 (substring 4 2 s)
    day ← to_int32 (substring 6 2 s)
    hour ← to_int32 (substring 8 2 s)
    minute ← to_int32 (substring 10 2 s)
    second ← to_int32 (substring 12 2 s)
    microseconds ← to_int32 (substring 15 6 s)
    in_ranges (record {
      year_of = year;
      month_of = month;
      day_of = day;
      hour_of = hour;
      minute_of = minute;
      second_of = second;
      microseconds_of = microseconds;
    })
    where
      in_ranges : Fields → Attempt
      in_ranges f = valid_or_refused (validate_ranges l f) (do
        utc ← to_int32 (substring 22 3 s)
        attempt (set_all l k (with_offset sign utc f) utc_time))
