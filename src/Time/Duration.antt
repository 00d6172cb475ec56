-- ===== src/Time/Duration.antt =====
-- src/blocxx/TimeDuration.cpp, TimeDuration.hpp and TimeConstants.hpp, but for floating point and
-- printing. A count of microseconds is an integer: operations that would overflow the machine's
-- 64 bits are excluded by the class, and the fields cast to 32 bits are small.
pub mod Fields
pub mod Laws
use libblocxx_deb.Prelude.{ℕ, Bool, true, false, ◌&&◌, ◌||◌, not, ltb, ◌==◌, if◌then◌else◌}
use libblocxx_deb.Prelude.Int.{ℤ, pos, negsuc, ◌+ℤ◌, ◌-ℤ◌, ◌*ℤ◌, neg_ℤ, ltb_ℤ, eqb_ℤ}
use libblocxx_deb.Time.DivRem.{div_machine, rem_machine}

-- `ESpecialTime`, and the number of each enumerator.
pub data SpecialTime : Type 0 where
  neg_infinity not_special pos_infinity nadt : SpecialTime

abbrev pub rank : SpecialTime → ℕ
rank neg_infinity = 0
rank not_special = 1
rank pos_infinity = 2
rank nadt = 3

abbrev pub is_flag : SpecialTime → SpecialTime → Bool
is_flag a b = rank a == rank b

pub record TimeDuration : Type 0 where
  pub microseconds : ℤ
  pub special : SpecialTime

-- The constructors from a flag and from a count.
abbrev pub of_special : SpecialTime → TimeDuration
of_special s = record { microseconds = pos 0; special = s }

abbrev pub of_microseconds : ℤ → TimeDuration
of_microseconds m = record { microseconds = m; special = not_special }

abbrev pub microseconds_per_second : ℕ
microseconds_per_second = 1000000

abbrev pub microseconds_per_minute : ℕ
microseconds_per_minute = 60000000

abbrev pub microseconds_per_hour : ℕ
microseconds_per_hour = 3600000000

abbrev pub microseconds_per_day : ℕ
microseconds_per_day = 86400000000

unfoldable pub complete_seconds : TimeDuration → ℤ
complete_seconds t = div_machine t.microseconds 1000000

unfoldable pub complete_minutes : TimeDuration → ℤ
complete_minutes t = div_machine (complete_seconds t) 60

unfoldable pub complete_hours : TimeDuration → ℤ
complete_hours t = div_machine (complete_minutes t) 60

unfoldable pub complete_days : TimeDuration → ℤ
complete_days t = div_machine (complete_hours t) 24

unfoldable pub relative_days : TimeDuration → ℤ
relative_days t = if ltb_ℤ t.microseconds (pos 0) then complete_days t -ℤ pos 1 else complete_days t

-- `n - ((-complete) % n + 1)` of a negative duration, and `complete % n` of any other.
abbrev pub field_in : ℕ → ℤ → TimeDuration → ℤ
field_in n complete t =
    if ltb_ℤ t.microseconds (pos 0)
    then pos n -ℤ (rem_machine (neg_ℤ complete) n +ℤ pos 1)
    else rem_machine complete n

unfoldable pub hour_in_day : TimeDuration → ℤ
hour_in_day t = field_in 24 (complete_hours t) t

unfoldable pub minute_in_hour : TimeDuration → ℤ
minute_in_hour t = field_in 60 (complete_minutes t) t

unfoldable pub second_in_minute : TimeDuration → ℤ
second_in_minute t = field_in 60 (complete_seconds t) t

unfoldable pub microsecond_in_second : TimeDuration → ℤ
microsecond_in_second t =
    if ltb_ℤ t.microseconds (pos 0)
    then pos microseconds_per_second -ℤ rem_machine (neg_ℤ t.microseconds) microseconds_per_second
    else rem_machine t.microseconds 1000000

abbrev pub is_special : TimeDuration → Bool
is_special t = not (is_flag t.special not_special)

unfoldable pub lt : TimeDuration → TimeDuration → Bool
lt t u =
    if is_flag t.special nadt || is_flag u.special nadt
    then false
    else if is_flag t.special u.special
    then ltb_ℤ t.microseconds u.microseconds
    else ltb (rank t.special) (rank u.special)

unfoldable pub gt : TimeDuration → TimeDuration → Bool
gt t u =
    if is_flag t.special nadt || is_flag u.special nadt
    then false
    else if is_flag t.special u.special
    then ltb_ℤ u.microseconds t.microseconds
    else ltb (rank u.special) (rank t.special)

unfoldable pub eq : TimeDuration → TimeDuration → Bool
eq t u = is_flag t.special u.special && eqb_ℤ t.microseconds u.microseconds

unfoldable pub ne : TimeDuration → TimeDuration → Bool
ne t u = not (eq t u)

unfoldable pub ge : TimeDuration → TimeDuration → Bool
ge t u = eq t u || gt t u

unfoldable pub le : TimeDuration → TimeDuration → Bool
le t u = eq t u || lt t u

-- Both orders of `operator*`.
unfoldable pub scale : TimeDuration → ℤ → TimeDuration
scale t factor = if is_special t then t else of_microseconds (t.microseconds *ℤ factor)

unfoldable pub plus : TimeDuration → TimeDuration → TimeDuration
plus t u =
    if is_flag t.special nadt || is_flag u.special nadt
    then of_special nadt
    else if (is_flag t.special pos_infinity && is_flag u.special neg_infinity)
        || (is_flag t.special neg_infinity && is_flag u.special pos_infinity)
    then of_microseconds (pos 0)
    else if is_special t
    then t
    else if is_special u
    then u
    else of_microseconds (t.microseconds +ℤ u.microseconds)

negate_as : SpecialTime → TimeDuration → TimeDuration
negate_as not_special t = of_microseconds (neg_ℤ t.microseconds)
negate_as neg_infinity t = of_special pos_infinity
negate_as pos_infinity t = of_special neg_infinity
negate_as nadt t = t

-- The unary and the binary `operator-`.
unfoldable pub negate : TimeDuration → TimeDuration
unfolding negate_as
negate t = negate_as t.special t

unfoldable pub minus : TimeDuration → TimeDuration → TimeDuration
minus t u = plus t (negate u)

unfoldable pub days : ℤ → TimeDuration
days count = of_microseconds (count *ℤ pos microseconds_per_day)

unfoldable pub hours : ℤ → TimeDuration
hours count = of_microseconds (count *ℤ pos microseconds_per_hour)

unfoldable pub minutes : ℤ → TimeDuration
minutes count = of_microseconds (count *ℤ pos microseconds_per_minute)

unfoldable pub seconds : ℤ → TimeDuration
seconds count = of_microseconds (count *ℤ pos microseconds_per_second)
