-- ===== src/Time/Period.antt =====
-- src/blocxx/TimePeriod.cpp: periods of time, from their begin to before their end. `none` stands for
-- a `DateTimeException`.
pub mod Laws
use libblocxx_deb.Prelude.{
  ◌^◌, ◌-◌, Bool, true, false, Option, none, some, if◌then◌else◌, ◌&&◌, ◌||◌, not,
}
use mathlib.Core.Option
use libblocxx_deb.Prelude.Int.{pos, eqb_ℤ}
use libblocxx_deb.Time.DateTime.{
  DateTime, Limits, of_flag, is_nadt, lt, gt, le, ge, eq, difference, plus_duration,
}
use libblocxx_deb.Time.Duration.{
  TimeDuration, of_special, of_microseconds, nadt, pos_infinity, neg_infinity,
}

pub record TimePeriod : Type 0 where
  pub begin : DateTime
  pub finish : DateTime

abbrev pub is_invalid : DateTime → Bool
is_invalid t = is_nadt t.microseconds

abbrev pub period_of : DateTime → DateTime → TimePeriod
period_of start finish = record { begin = start; finish = finish }

abbrev pub is_invalid_period : TimePeriod → Bool
is_invalid_period p =
    is_invalid p.begin || is_invalid p.finish || eqb_ℤ p.begin.microseconds (pos (2 ^ 31 - 1))

-- The constructor from two dates, which normalises the ends.
unfoldable pub period : DateTime → DateTime → TimePeriod
period start finish =
    if is_invalid start || is_invalid finish
    then period_of (of_flag nadt) (of_flag nadt)
    else if ge start finish
    then period_of (of_flag pos_infinity) (of_flag neg_infinity)
    else period_of start finish

unfoldable pub period_for : Limits → DateTime → TimeDuration → Option TimePeriod
period_for l start len = Option.map (period start) (plus_duration l start len)

unfoldable pub period_length : TimePeriod → TimeDuration
period_length p =
    if is_invalid p.begin
    then of_special nadt
    else if ge p.begin p.finish
    then of_microseconds (pos 0)
    else difference p.finish p.begin

unfoldable pub is_empty_period : TimePeriod → Bool
is_empty_period p = ge p.begin p.finish

unfoldable pub contains : TimePeriod → DateTime → Bool
contains p t = le p.begin t && lt t p.finish

unfoldable pub contains_period : TimePeriod → TimePeriod → Bool
contains_period p q =
    if is_invalid p.begin && not (is_invalid q.begin)
    then false
    else if is_empty_period q
    then true
    else le p.begin q.begin && le q.finish p.finish

unfoldable pub same_period : TimePeriod → TimePeriod → Bool
same_period p q = eq p.begin q.begin && eq p.finish q.finish

unfoldable pub intersect : TimePeriod → TimePeriod → Bool
intersect p q =
    if is_invalid_period p || is_invalid_period q
    then false
    else gt p.finish q.begin && lt p.begin q.finish

-- `std::max` and `std::min`.
abbrev pub later_of : DateTime → DateTime → DateTime
later_of t u = if lt t u then u else t

abbrev pub earlier_of : DateTime → DateTime → DateTime
earlier_of t u = if lt u t then u else t

unfoldable pub intersection : TimePeriod → TimePeriod → TimePeriod
intersection p q =
    if intersect p q
    then period (later_of p.begin q.begin) (earlier_of p.finish q.finish)
    else period (of_flag nadt) (of_flag nadt)

abbrev pub hull : TimePeriod → TimePeriod → TimePeriod
hull p q = period (earlier_of p.begin q.begin) (later_of p.finish q.finish)

unfoldable pub merge : TimePeriod → TimePeriod → TimePeriod
merge p q =
    if is_invalid_period p || is_invalid_period q
    then period (of_flag nadt) (of_flag nadt)
    else if intersect p q || eq p.finish q.begin || eq p.begin q.begin
    then hull p q
    else period (of_flag nadt) (of_flag nadt)

unfoldable pub span : TimePeriod → TimePeriod → TimePeriod
span p q =
    if is_invalid_period p || is_invalid_period q
    then period (of_flag nadt) (of_flag nadt)
    else hull p q
