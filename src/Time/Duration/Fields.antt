-- ===== src/Time/Duration/Fields.antt =====
-- The fields of a duration: their ranges, and that they make it up.
use native.Mathlib.Nat.{mod-lt}
use libblocxx_deb.Prelude.{
  ℕ, zero, suc, ◌+◌, ◌-◌, ◌*◌, ◌/◌, ◌%◌, ◌≤◌, ◌<◌, ◌≡◌, refl, ap, arith, ◌↔◌, true,
}
use libblocxx_deb.Prelude.Int.{
  ℤ, pos, negsuc, pos_part, neg_part, ◌+ℤ◌, ◌-ℤ◌, ◌*ℤ◌, ◌≤ℤ◌, neg_ℤ, ltb_ℤ, minus,
}
use libblocxx_deb.Time.DivRem.{div_machine, rem_machine, div_machine-minus}
use libblocxx_deb.Time.Duration.{
  SpecialTime, TimeDuration, complete_seconds, complete_minutes, complete_hours, complete_days,
  relative_days, hour_in_day, minute_in_hour, second_in_minute, microsecond_in_second,
}

neg_minus : (n : ℕ) → neg_ℤ (minus n) ≡ pos n
unfolding ◌-ℤ◌
neg_minus zero = refl
neg_minus (suc n) = ground arith

from_minus : (n r : ℕ) → r < n → pos n -ℤ (pos r +ℤ pos 1) ≡ pos (n - (r + 1))
unfolding ◌-ℤ◌ ◌+ℤ◌
from_minus n r h = ground arith

minus_one : (n : ℕ) → minus n -ℤ pos 1 ≡ negsuc n
unfolding ◌-ℤ◌
minus_one zero = refl
minus_one (suc n) = ground arith

from_all : (n r : ℕ) → r ≤ n → pos n -ℤ pos r ≡ pos (n - r)
unfolding ◌-ℤ◌
from_all n r h = ground arith

-- A field of a negative duration, from the count -k of which it is the last digit.
field_behind :
    (n k : ℕ) → 0 < n → pos n -ℤ (rem_machine (neg_ℤ (minus k)) n +ℤ pos 1) ≡ pos (n - (k % n + 1))
field_behind n k h = rw (neg_minus k) (unfold rem_machine in from_minus n (k % n) (mod-lt k h))

-- The five fields of a duration, as natural numbers but for the days.
pub record Split (t : TimeDuration) (d : ℤ) (h m s u : ℕ) : Type 0 where
  pub days_is : relative_days t ≡ d
  pub hour_is : hour_in_day t ≡ pos h
  pub minute_is : minute_in_hour t ≡ pos m
  pub second_is : second_in_minute t ≡ pos s
  pub microsecond_is : microsecond_in_second t ≡ pos u

-- The negative durations of `suc n` microseconds.
module _ (n : ℕ) (f : SpecialTime) where
  abbrev behind : TimeDuration
  behind = record { microseconds = negsuc n; special = f }

  seconds_behind : complete_seconds behind ≡ minus (suc n / 1000000)
  unfolding complete_seconds
  seconds_behind = div_machine-minus (suc n) 1000000

  minutes_behind : complete_minutes behind ≡ minus (suc n / 1000000 / 60)
  unfolding complete_minutes
  minutes_behind = rw seconds_behind (div_machine-minus _ 60)

  hours_behind : complete_hours behind ≡ minus (suc n / 1000000 / 60 / 60)
  unfolding complete_hours
  hours_behind = rw minutes_behind (div_machine-minus _ 60)

  days_behind : complete_days behind ≡ minus (suc n / 1000000 / 60 / 60 / 24)
  unfolding complete_days
  days_behind = rw hours_behind (div_machine-minus _ 24)

  pub Split-behind :
      Split behind
        (negsuc (suc n / 1000000 / 60 / 60 / 24))
        (24 - (suc n / 1000000 / 60 / 60 % 24 + 1))
        (60 - (suc n / 1000000 / 60 % 60 + 1))
        (60 - (suc n / 1000000 % 60 + 1))
        (1000000 - suc n % 1000000)
  Split-behind = record {
    days_is = unfold relative_days in rw negative (rw days_behind (minus_one _));
    hour_is = unfold hour_in_day in rw negative (rw hours_behind (field_behind 24 _ (omega arith)));
    minute_is =
        unfold minute_in_hour in rw negative (rw minutes_behind (field_behind 60 _ (omega arith)));
    second_is =
        unfold second_in_minute in
        rw negative (rw seconds_behind (field_behind 60 _ (omega arith)));
    microsecond_is =
        unfold microsecond_in_second in
        rw negative (
          rw (neg_minus (suc n))
            (unfold rem_machine in from_all 1000000 (suc n % 1000000) (omega arith)));
  }
    where
      negative : ltb_ℤ (negsuc n) (pos 0) ≡ true
      negative = ground arith

-- The other durations.
pub Split-ahead :
    (n : ℕ) (f : SpecialTime)
    → Split
        (record { microseconds = pos n; special = f })
        (pos (n / 1000000 / 60 / 60 / 24))
        (n / 1000000 / 60 / 60 % 24)
        (n / 1000000 / 60 % 60)
        (n / 1000000 % 60)
        (n % 1000000)
unfolding relative_days hour_in_day minute_in_hour second_in_minute microsecond_in_second
    complete_seconds complete_minutes complete_hours complete_days div_machine rem_machine
Split-ahead n f = record {
  days_is = ground arith;
  hour_is = ground arith;
  minute_is = ground arith;
  second_is = ground arith;
  microsecond_is = ground arith;
}

-- One unit up and down: the quotient and the field give the count back.
join_ahead :
    (n : ℕ)
    → (pos (n / 24) *ℤ pos 24 +ℤ pos (n % 24) ≡ pos n)
      × (pos (n / 60) *ℤ pos 60 +ℤ pos (n % 60) ≡ pos n)
      × (pos (n / 1000000) *ℤ pos 1000000 +ℤ pos (n % 1000000) ≡ pos n)
unfolding ◌+ℤ◌ ◌*ℤ◌
join_ahead n = (ground arith, ground arith, ground arith)

join_behind :
    (n : ℕ)
    → (negsuc (n / 24) *ℤ pos 24 +ℤ pos (24 - (n % 24 + 1)) ≡ negsuc n)
      × (negsuc (n / 60) *ℤ pos 60 +ℤ pos (60 - (n % 60 + 1)) ≡ negsuc n)
      × (negsuc (suc n / 1000000) *ℤ pos 1000000 +ℤ pos (1000000 - suc n % 1000000) ≡ negsuc n)
unfolding ◌+ℤ◌ ◌*ℤ◌
join_behind n = (ground arith, ground arith, ground arith)

-- The sum that the class guarantees for the fields.
abbrev pub total : ℤ → ℤ → ℤ → ℤ → ℤ → ℤ
total d h m s u = (((d *ℤ pos 24 +ℤ h) *ℤ pos 60 +ℤ m) *ℤ pos 60 +ℤ s) *ℤ pos 1000000 +ℤ u

-- The fields of every duration make it up: days, hours, minutes, seconds and microseconds, each
-- counted in its unit, add up to the count of microseconds.
pub fields_make_up :
    (t : TimeDuration)
    → total
        (relative_days t)
        (hour_in_day t)
        (minute_in_hour t)
        (second_in_minute t)
        (microsecond_in_second t)
      ≡ t.microseconds
fields_make_up t = by_sign t.microseconds t.special
  where
    by_sign :
        (m : ℤ) (f : SpecialTime)
        → let r : TimeDuration = record { microseconds = m; special = f } in
          total
            (relative_days r)
            (hour_in_day r)
            (minute_in_hour r)
            (second_in_minute r)
            (microsecond_in_second r)
          ≡ m
    by_sign (pos n) f =
        let a = Split-ahead n f in
        rw (a.days_is, a.hour_is, a.minute_is, a.second_is, a.microsecond_is)
          (rw
            (
              (join_ahead (n / 1000000 / 60 / 60)).0,
              (join_ahead (n / 1000000 / 60)).1,
              (join_ahead (n / 1000000)).1,
            )
            (join_ahead n).2)
    by_sign (negsuc n) f =
        let a = Split-behind n f in
        rw (a.days_is, a.hour_is, a.minute_is, a.second_is, a.microsecond_is)
          (rw
            (
              (join_behind (suc n / 1000000 / 60 / 60)).0,
              (join_behind (suc n / 1000000 / 60)).1,
              (join_behind (suc n / 1000000)).1,
            )
            (join_behind n).2)

-- Hours lie in 0 to 23, minutes and seconds in 0 to 59, and microseconds in 0 to 1000000.
pub fields_bounds :
    (t : TimeDuration)
    → (pos 0 ≤ℤ hour_in_day t)
      × (hour_in_day t ≤ℤ pos 23)
      × (pos 0 ≤ℤ minute_in_hour t)
      × (minute_in_hour t ≤ℤ pos 59)
      × (pos 0 ≤ℤ second_in_minute t)
      × (second_in_minute t ≤ℤ pos 59)
      × (pos 0 ≤ℤ microsecond_in_second t)
      × (microsecond_in_second t ≤ℤ pos 1000000)
fields_bounds t = by_sign t.microseconds t.special
  where
    by_sign :
        (m : ℤ) (f : SpecialTime)
        → let r : TimeDuration = record { microseconds = m; special = f } in
          (pos 0 ≤ℤ hour_in_day r)
          × (hour_in_day r ≤ℤ pos 23)
          × (pos 0 ≤ℤ minute_in_hour r)
          × (minute_in_hour r ≤ℤ pos 59)
          × (pos 0 ≤ℤ second_in_minute r)
          × (second_in_minute r ≤ℤ pos 59)
          × (pos 0 ≤ℤ microsecond_in_second r)
          × (microsecond_in_second r ≤ℤ pos 1000000)
    by_sign (pos n) f =
        let a = Split-ahead n f in
        rw (a.hour_is, a.minute_is, a.second_is, a.microsecond_is) (omega arith)
    by_sign (negsuc n) f =
        let a = Split-behind n f in
        rw (a.hour_is, a.minute_is, a.second_is, a.microsecond_is) (omega arith)

-- The microseconds of a duration are a million, which is no fraction of a second, exactly if the
-- duration is a whole negative number of seconds.
pub microsecond_in_second_whole :
    (t : TimeDuration)
    → (microsecond_in_second t ≡ pos 1000000)
      ↔ ((k : ℕ) × (t.microseconds ≡ negsuc ((k + 1) * 1000000 - 1)))
microsecond_in_second_whole t = by_sign t.microseconds t.special
  where
    by_sign :
        (m : ℤ) (f : SpecialTime)
        → (microsecond_in_second (record { microseconds = m; special = f }) ≡ pos 1000000)
          ↔ ((k : ℕ) × (m ≡ negsuc ((k + 1) * 1000000 - 1)))
    by_sign (pos n) f = rw (Split-ahead n f).microsecond_is (
      λ e. absurd (omega (arith, ap pos_part e)),
      λ (k, e). absurd (omega (arith, ap neg_part e)),
    )
    by_sign (negsuc n) f = rw (Split-behind n f).microsecond_is (
      λ e. (suc n / 1000000 - 1, ap negsuc (omega (arith, ap pos_part e))),
      λ (k, e). ap pos (omega (arith, ap neg_part e)),
    )
