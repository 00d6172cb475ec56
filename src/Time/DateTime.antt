-- ===== src/Time/DateTime.antt =====
-- src/blocxx/DateTime.cpp: values, their order and their arithmetic. The limits that `configure` sets
-- and the conversions of the C library are arguments. `none` stands for a `DateTimeException`. Sums
-- of seconds are integers: where the machine's wrap around, both are out of the limits, which lie
-- well within those of `time_t`.
pub mod Laws
pub mod Setters
pub mod Invariant
pub mod FreeForm
pub mod Text
mod Tests
use libblocxx_deb.Prelude.{
  ℕ, ◌^◌, ◌%◌, ◌-◌, ◌+◌, ◌*◌, Bool, true, false, Option, none, some, if◌then◌else◌, ◌&&◌, ◌||◌, not,
  leb, ltb,
}
use libblocxx_deb.Prelude.Int.{
  ℤ, pos, negsuc, pos_part, neg_part, ◌+ℤ◌, ◌-ℤ◌, ◌*ℤ◌, neg_ℤ, ltb_ℤ, eqb_ℤ, sub_ℕ,
}
use libblocxx_deb.Time.DivRem.{div_floor, rem_floor, div_machine, rem_machine}
use libblocxx_deb.Time.Duration.{
  SpecialTime, neg_infinity, not_special, pos_infinity, nadt, is_flag, TimeDuration, of_special,
  of_microseconds, microsecond_in_second, negate,
}
use libblocxx_deb.Time.Tm.{Tm, is_leap_year, norm_tm}
use mathlib.Core.Option

-- The microseconds tell whether a value is special.
pub record DateTime : Type 0 where
  pub seconds : ℤ
  pub microseconds : ℤ

pub record Limits : Type 0 where
  pub minimum_time : ℤ
  pub maximum_time : ℤ
  pub minimum_year : ℤ
  pub maximum_year : ℤ

abbrev pub date_time : ℤ → ℤ → DateTime
date_time s m = record { seconds = s; microseconds = m }

abbrev pub of_flag : SpecialTime → DateTime
of_flag not_special = date_time (pos 0) (pos 0)
of_flag pos_infinity = date_time (pos (2 ^ 63 - 1)) (pos (2 ^ 31 - 1))
of_flag neg_infinity = date_time (negsuc (2 ^ 63 - 1)) (negsuc (2 ^ 31 - 1))
of_flag nadt = date_time (pos 0) (pos 1000000)

abbrev pub is_nadt : ℤ → Bool
is_nadt microsecond = eqb_ℤ microsecond (pos 1000000)

abbrev pub have_special_value : ℤ → Bool
have_special_value microsecond = ltb_ℤ microsecond (pos 0) || not (ltb_ℤ microsecond (pos 1000000))

unfoldable pub get_special_time_flag : DateTime → SpecialTime
get_special_time_flag t =
    if ltb_ℤ t.microseconds (pos 0)
    then neg_infinity
    else if ltb_ℤ t.microseconds (pos 1000000)
    then not_special
    else if ltb_ℤ (pos 1000000) t.microseconds
    then pos_infinity
    else nadt

abbrev pub in_limits : ℤ → ℤ → ℤ → Bool
in_limits least most n = not (ltb_ℤ n least) && not (ltb_ℤ most n)

unfoldable pub normalize_time : Limits → ℤ → ℤ → Option DateTime
normalize_time l seconds microseconds =
    let t1 = seconds +ℤ div_floor microseconds 1000000 in
    if in_limits l.minimum_time l.maximum_time t1
    then some (date_time t1 (rem_floor microseconds 1000000))
    else none

-- The order.
unfoldable pub lt : DateTime → DateTime → Bool
lt t u =
    if is_nadt t.microseconds || is_nadt u.microseconds
    then false
    else if eqb_ℤ t.seconds u.seconds
    then ltb_ℤ t.microseconds u.microseconds
    else ltb_ℤ t.seconds u.seconds

unfoldable pub eq : DateTime → DateTime → Bool
eq t u = eqb_ℤ t.seconds u.seconds && eqb_ℤ t.microseconds u.microseconds

unfoldable pub le : DateTime → DateTime → Bool
le t u = eq t u || lt t u

unfoldable pub gt : DateTime → DateTime → Bool
gt t u = lt u t

unfoldable pub ge : DateTime → DateTime → Bool
ge t u = eq t u || lt u t

-- The unary `operator-`.
abbrev pub negate_as : Limits → SpecialTime → DateTime → Option DateTime
negate_as l not_special t =
    if ltb_ℤ (pos 0) t.microseconds
    then normalize_time l (neg_ℤ t.seconds -ℤ pos 1) (pos 1000000 -ℤ t.microseconds)
    else normalize_time l (neg_ℤ t.seconds) (pos 0)
negate_as l nadt t = some t
negate_as l pos_infinity t = some (of_flag neg_infinity)
negate_as l neg_infinity t = some (of_flag pos_infinity)

unfoldable pub negate_date : Limits → DateTime → Option DateTime
negate_date l t = negate_as l (get_special_time_flag t) t

-- The time between two values.
abbrev pub special_difference : SpecialTime → SpecialTime → SpecialTime
special_difference flag1 flag2 =
    if is_flag flag1 nadt || is_flag flag2 nadt
    then nadt
    else if is_flag flag1 flag2
    then nadt
    else if is_flag flag2 neg_infinity
    then pos_infinity
    else if is_flag flag2 pos_infinity
    then neg_infinity
    else flag1

unfoldable pub difference : DateTime → DateTime → TimeDuration
difference x y =
    let flag1 = get_special_time_flag x in
    let flag2 = get_special_time_flag y in
    if not (is_flag flag1 not_special) || not (is_flag flag2 not_special)
    then of_special (special_difference flag1 flag2)
    else of_microseconds
        ((x.seconds -ℤ y.seconds) *ℤ pos 1000000 +ℤ (x.microseconds -ℤ y.microseconds))

abbrev pub seconds_of : TimeDuration → ℤ
seconds_of td = div_machine (td.microseconds -ℤ microsecond_in_second td) 1000000

abbrev pub plus_as : Limits → SpecialTime → DateTime → TimeDuration → Option DateTime
plus_as l not_special dt td =
    normalize_time l (dt.seconds +ℤ seconds_of td) (dt.microseconds +ℤ microsecond_in_second td)
plus_as l neg_infinity dt td = some (of_flag neg_infinity)
plus_as l pos_infinity dt td = some (of_flag pos_infinity)
plus_as l nadt dt td = some (of_flag nadt)

unfoldable pub plus_duration : Limits → DateTime → TimeDuration → Option DateTime
plus_duration l dt td =
    let flag1 = get_special_time_flag dt in
    if is_flag flag1 nadt || is_flag td.special nadt
    then some (of_flag nadt)
    else if (is_flag flag1 pos_infinity && is_flag td.special neg_infinity)
        || (is_flag flag1 neg_infinity && is_flag td.special pos_infinity)
    then some (of_flag nadt)
    else if not (is_flag flag1 not_special)
    then some dt
    else plus_as l td.special dt td

unfoldable pub minus_duration : Limits → DateTime → TimeDuration → Option DateTime
minus_duration l dt td = plus_duration l dt (negate td)

-- What is added to a special value changes nothing.
unfoldable pub add_seconds : ℤ → DateTime → DateTime
add_seconds n t =
    if have_special_value t.microseconds then t else record t { seconds = t.seconds +ℤ n }

unfoldable pub add_minutes : ℤ → DateTime → DateTime
add_minutes n t =
    if have_special_value t.microseconds then t else record t { seconds = t.seconds +ℤ n *ℤ pos 60 }

unfoldable pub add_hours : ℤ → DateTime → DateTime
add_hours n t =
    if have_special_value t.microseconds
    then t
    else record t { seconds = t.seconds +ℤ n *ℤ pos 60 *ℤ pos 60 }

-- What an `Int32` keeps of an integer.
unfoldable pub int32 : ℤ → ℤ
int32 n =
    let r = pos_part (rem_floor n (2 ^ 32)) in
    if ltb r (2 ^ 31) then pos r else negsuc (2 ^ 32 - 1 - r)

unfoldable pub add_microseconds : Limits → ℤ → DateTime → Option DateTime
add_microseconds l n t =
    if have_special_value t.microseconds
    then some t
    else normalize_time l t.seconds (int32 (t.microseconds +ℤ n))
