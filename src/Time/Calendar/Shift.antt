-- ===== src/Time/Calendar/Shift.antt =====
-- The shift of a time by any zone leaves a time, but for the turn of the year.
use libblocxx_deb.Prelude.{ℕ, zero, suc, ◌<◌, ◌≡◌, true, false, arith, inl, inr, Bool-cases}
use libblocxx_deb.Prelude.Int.{ℤ, pos, negsuc, ◌-ℤ◌, ltb_ℤ, +ℤ_parts, -ℤ_parts, ◌≤ℤ◌, eq_of_parts}
use libblocxx_deb.Time.Calendar.{
  ZoneTime, hour_under, day_under, month_under, adjust_time_for_time_zone, get_days_per_month,
}
use libblocxx_deb.Time.Calendar.Laws.{IsTime, adjust_behind-IsTime, days_in}

-- The first of January.
abbrev pub IsFirstDay : ZoneTime → Type 0
IsFirstDay t = (t.month ≡ pos 1) × (t.day ≡ pos 1)

-- After the hour has been borrowed, the day may be one too few, but not in January.
record IsTimeOrDayBefore (t : ZoneTime) : Type 0 where
  month_from : pos 1 ≤ℤ t.month
  month_to : t.month ≤ℤ pos 12
  day_from : pos 0 ≤ℤ t.day
  day_to : t.day ≤ℤ pos (get_days_per_month t.year t.month)
  january : t.month ≤ℤ pos 1 → pos 1 ≤ℤ t.day
  hour_from : pos 0 ≤ℤ t.hour
  hour_to : t.hour ≤ℤ pos 23

not_first : (t : ZoneTime) → IsTime t → ¬ IsFirstDay t → t.month ≤ℤ pos 1 → pos 2 ≤ℤ t.day
not_first t h n m = elim (Bool-cases (ltb_ℤ t.day (pos 2))) [
  | inl e ↦ absurd (
      n (
        eq_of_parts t.month (pos 1) (omega (arith, h.month_from, m)),
        eq_of_parts t.day (pos 1) (ground (arith, h.day_from, e)),
      ))
  | inr e ↦ ground (arith, e)
]

hour_under-IsTimeOrDayBefore :
    (t : ZoneTime) (k : ℕ)
    → k < 12
    → IsTime t
    → ¬ IsFirstDay t
    → IsTimeOrDayBefore (hour_under (record t { hour = t.hour -ℤ pos (suc k) }))
unfolding hour_under
hour_under-IsTimeOrDayBefore t k l h n = elim (Bool-cases (ltb_ℤ (t.hour -ℤ pos (suc k)) (pos 0))) [
  | inl e ↦ rw e (record {
    month_from = h.month_from;
    month_to = h.month_to;
    day_from = omega (arith, h.day_from, -ℤ_parts t.day (pos 1));
    day_to = omega (arith, h.day_to, -ℤ_parts t.day (pos 1));
    january = λ m. omega (arith, not_first t h n m, -ℤ_parts t.day (pos 1));
    hour_from = omega (
      arith,
      h.hour_from,
      l,
      -ℤ_parts t.hour (pos (suc k)),
      +ℤ_parts (t.hour -ℤ pos (suc k)) (pos 24),
    );
    hour_to = ground (arith, e, +ℤ_parts (t.hour -ℤ pos (suc k)) (pos 24));
  })
  | inr e ↦ rw e (record {
    month_from = h.month_from;
    month_to = h.month_to;
    day_from = omega (arith, h.day_from);
    day_to = h.day_to;
    january = λ m. h.day_from;
    hour_from = ground (arith, e);
    hour_to = omega (arith, h.hour_to, -ℤ_parts t.hour (pos (suc k)));
  })
]

day_under-IsTime : (t : ZoneTime) → IsTimeOrDayBefore t → IsTime (day_under t)
unfolding day_under
day_under-IsTime t h = elim (Bool-cases (ltb_ℤ t.day (pos 1))) [
  | inl e ↦
      let later : pos 2 ≤ℤ t.month = elim (Bool-cases (ltb_ℤ t.month (pos 2))) [
        | inl m ↦ absurd (ground (arith, e, h.january (ground (arith, m))))
        | inr m ↦ ground (arith, m)
      ] in
      let days = get_days_per_month t.year (t.month -ℤ pos 1) in
      let from : pos 1 ≤ℤ t.month -ℤ pos 1 = omega (arith, later, -ℤ_parts t.month (pos 1)) in
      let to : t.month -ℤ pos 1 ≤ℤ pos 12 = omega (arith, h.month_to, -ℤ_parts t.month (pos 1)) in
      let some : 0 < days = days_in t.year (t.month -ℤ pos 1) from to in
      rw e (record {
        month_from = from;
        month_to = to;
        day_from = omega (arith, h.day_from, some, +ℤ_parts t.day (pos days));
        day_to = ground (arith, e, h.day_from, +ℤ_parts t.day (pos days));
        hour_from = h.hour_from;
        hour_to = h.hour_to;
      })
  | inr e ↦ rw e (record {
    month_from = h.month_from;
    month_to = h.month_to;
    day_from = ground (arith, e);
    day_to = h.day_to;
    hour_from = h.hour_from;
    hour_to = h.hour_to;
  })
]

month_under-IsTime : (t : ZoneTime) → IsTime t → IsTime (month_under t)
unfolding month_under
month_under-IsTime t h =
    let no_borrow : ltb_ℤ t.month (pos 1) ≡ false = ground (arith, h.month_from) in rw no_borrow h

adjust_ahead-IsTime :
    (t : ZoneTime) (k : ℕ)
    → k < 12
    → IsTime t
    → ¬ IsFirstDay t
    → IsTime (adjust_time_for_time_zone (pos (suc k)) t)
unfolding adjust_time_for_time_zone
adjust_ahead-IsTime t k l h n =
    let shifted : ZoneTime = record t { hour = t.hour -ℤ pos (suc k) } in
    let before : ltb_ℤ (pos (suc k)) (pos 0) ≡ false = ground arith in
    let ahead : ltb_ℤ (pos 0) (pos (suc k)) ≡ true = ground arith in
    rw before (
      rw ahead (
        month_under-IsTime (day_under (hour_under shifted))
          (day_under-IsTime (hour_under shifted) (hour_under-IsTimeOrDayBefore t k l h n))))

-- A month, a day of it and an hour are shifted to such a time again by each zone that differs from
-- UTC by at most twelve hours, unless the zone is before UTC and the day is the first of January.
pub adjust-IsTime :
    (offset : ℤ) (t : ZoneTime)
    → negsuc 11 ≤ℤ offset
    → offset ≤ℤ pos 12
    → (pos 1 ≤ℤ offset → ¬ IsFirstDay t)
    → IsTime t
    → IsTime (adjust_time_for_time_zone offset t)
unfolding adjust_time_for_time_zone
adjust-IsTime (negsuc k) t l u n h = adjust_behind-IsTime t k (omega (arith, l)) h
adjust-IsTime (pos zero) t l u n h = h
adjust-IsTime (pos (suc k)) t l u n h =
    adjust_ahead-IsTime t k (omega (arith, u)) h (n (omega arith))
