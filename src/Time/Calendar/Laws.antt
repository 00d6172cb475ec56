-- ===== src/Time/Calendar/Laws.antt =====
-- Names against their lists, and the shift of a time from its zone.
use libblocxx_deb.Prelude.{
  ℕ, zero, suc, ◌+◌, ◌<◌, ◌≡◌, refl, true, false, List, [], ◌∷◌, ◌==◌, arith, take, inl, inr,
  Bool-cases, map, ==_iff, All, get_or, length,
}
use libblocxx_deb.Prelude.Int.{ℤ, pos, negsuc, ◌+ℤ◌, ◌-ℤ◌, ltb_ℤ, +ℤ_parts, -ℤ_parts, ◌≤ℤ◌}
use libblocxx_deb.CmdLine.Options.{String}
use libblocxx_deb.Time.Calendar.{
  is_dow_valid, decode_short_month, long_dows, months, equals_one, number_in, ZoneTime, hour_over,
  day_over, month_over, hour_under, day_under, month_under, adjust_time_for_time_zone,
  get_days_per_month, normal_days_per_month,
}

-- A text is taken as a day of the week when its first three characters are those of the name of a
-- day.
pub is_dow_valid_lem :
    (s : String) → is_dow_valid s ≡ equals_one (take 3 s) (map (take 3) long_dows)
unfolding is_dow_valid
is_dow_valid_lem [] = refl
is_dow_valid_lem (a ∷ []) = ground arith
is_dow_valid_lem (a ∷ b ∷ []) = ground arith
is_dow_valid_lem (a ∷ b ∷ c ∷ s) = ground arith

-- A text is decoded as the month whose name has its first three characters, and as none when there
-- is no such month.
pub decode_short_month_lem :
    (s : String) → decode_short_month s ≡ number_in 1 (map (take 3) months) (take 3 s)
unfolding decode_short_month
decode_short_month_lem [] = refl
decode_short_month_lem (a ∷ []) = ground arith
decode_short_month_lem (a ∷ b ∷ []) = elim (Bool-cases (a == b'J')) [
  | inl e ↦ rw ((==_iff a b'J').0 e) (ground arith)
  | inr ej ↦ elim (Bool-cases (a == b'F')) [
    | inl e ↦ rw ((==_iff a b'F').0 e) (ground arith)
    | inr ef ↦ elim (Bool-cases (a == b'M')) [
      | inl e ↦ rw ((==_iff a b'M').0 e) (ground arith)
      | inr em ↦ elim (Bool-cases (a == b'A')) [
        | inl e ↦ rw ((==_iff a b'A').0 e) (ground arith)
        | inr ea ↦ elim (Bool-cases (a == b'S')) [
          | inl e ↦ rw ((==_iff a b'S').0 e) (ground arith)
          | inr es ↦ elim (Bool-cases (a == b'O')) [
            | inl e ↦ rw ((==_iff a b'O').0 e) (ground arith)
            | inr eo ↦ elim (Bool-cases (a == b'N')) [
              | inl e ↦ rw ((==_iff a b'N').0 e) (ground arith)
              | inr en ↦ elim (Bool-cases (a == b'D')) [
                | inl e ↦ rw ((==_iff a b'D').0 e) (ground arith)
                | inr ed ↦ rw ej (rw ef (rw em (rw ea (rw es (rw eo (rw en (rw ed refl)))))))
              ]
            ]
          ]
        ]
      ]
    ]
  ]
]
decode_short_month_lem (a ∷ b ∷ c ∷ s) = elim (Bool-cases (a == b'J')) [
  | inl e ↦ rw ((==_iff a b'J').0 e) (ground arith)
  | inr ej ↦ elim (Bool-cases (a == b'F')) [
    | inl e ↦ rw ((==_iff a b'F').0 e) (ground arith)
    | inr ef ↦ elim (Bool-cases (a == b'M')) [
      | inl e ↦ rw ((==_iff a b'M').0 e) (ground arith)
      | inr em ↦ elim (Bool-cases (a == b'A')) [
        | inl e ↦ rw ((==_iff a b'A').0 e) (ground arith)
        | inr ea ↦ elim (Bool-cases (a == b'S')) [
          | inl e ↦ rw ((==_iff a b'S').0 e) (ground arith)
          | inr es ↦ elim (Bool-cases (a == b'O')) [
            | inl e ↦ rw ((==_iff a b'O').0 e) (ground arith)
            | inr eo ↦ elim (Bool-cases (a == b'N')) [
              | inl e ↦ rw ((==_iff a b'N').0 e) (ground arith)
              | inr en ↦ elim (Bool-cases (a == b'D')) [
                | inl e ↦ rw ((==_iff a b'D').0 e) (ground arith)
                | inr ed ↦ rw ej (rw ef (rw em (rw ea (rw es (rw eo (rw en (rw ed refl)))))))
              ]
            ]
          ]
        ]
      ]
    ]
  ]
]

-- A month, a day of it and an hour.
pub record IsTime (t : ZoneTime) : Type 0 where
  pub month_from : pos 1 ≤ℤ t.month
  pub month_to : t.month ≤ℤ pos 12
  pub day_from : pos 1 ≤ℤ t.day
  pub day_to : t.day ≤ℤ pos (get_days_per_month t.year t.month)
  pub hour_from : pos 0 ≤ℤ t.hour
  pub hour_to : t.hour ≤ℤ pos 23

get_or-All {ℓ κ} :
    {A : Type ℓ} (P : A → Type κ) (xs : List A) (i : ℕ) (d : A)
    → All P xs
    → i < length xs
    → P (get_or xs i d)
get_or-All P [] i d h l = elim l [ ]
get_or-All P (x ∷ xs) zero d h l = h.0
get_or-All P (x ∷ xs) (suc i) d h l = get_or-All P xs i d h.1 (omega (arith, l))

normal_days : All (λ n. 0 < n) normal_days_per_month
normal_days = (
  omega arith,
  (
    omega arith,
    (
      omega arith,
      (
        omega arith,
        (
          omega arith,
          (
            omega arith,
            (
              omega arith,
              (omega arith, (omega arith, (omega arith, (omega arith, (omega arith, tt))))),
            ),
          ),
        ),
      ),
    ),
  ),
)

some_days : (year : ℤ) (m : ℕ) → m < 12 → 0 < get_days_per_month year (pos (suc m))
unfolding get_days_per_month
some_days year m h = ground (arith, get_or-All (λ n. 0 < n) normal_days_per_month m 0 normal_days h)

pub days_in :
    (year month : ℤ) → pos 1 ≤ℤ month → month ≤ℤ pos 12 → 0 < get_days_per_month year month
days_in year (negsuc n) l h = absurd (omega (arith, l))
days_in year (pos zero) l h = absurd (omega (arith, l))
days_in year (pos (suc m)) l h = some_days year m (omega (arith, h))

-- After the hour has been carried, the day may be one too many.
record IsTimeOrNextDay (t : ZoneTime) : Type 0 where
  month_from : pos 1 ≤ℤ t.month
  month_to : t.month ≤ℤ pos 12
  day_from : pos 1 ≤ℤ t.day
  day_to : t.day ≤ℤ pos (get_days_per_month t.year t.month + 1)
  hour_from : pos 0 ≤ℤ t.hour
  hour_to : t.hour ≤ℤ pos 23

-- After the day has been carried, the month may be the thirteenth, on its first day.
record IsTimeOrNextMonth (t : ZoneTime) : Type 0 where
  month_from : pos 1 ≤ℤ t.month
  month_to : t.month ≤ℤ pos 13
  day_from : pos 1 ≤ℤ t.day
  day_to : t.month ≤ℤ pos 12 → t.day ≤ℤ pos (get_days_per_month t.year t.month)
  day_first : pos 13 ≤ℤ t.month → t.day ≡ pos 1
  hour_from : pos 0 ≤ℤ t.hour
  hour_to : t.hour ≤ℤ pos 23

hour_over-IsTimeOrNextDay :
    (t : ZoneTime) (k : ℕ)
    → k < 12
    → IsTime t
    → IsTimeOrNextDay (hour_over (record t { hour = t.hour -ℤ negsuc k }))
unfolding hour_over
hour_over-IsTimeOrNextDay t k l h = elim (Bool-cases (ltb_ℤ (pos 23) (t.hour -ℤ negsuc k))) [
  | inl e ↦ rw e (record {
    month_from = h.month_from;
    month_to = h.month_to;
    day_from = omega (arith, h.day_from, +ℤ_parts t.day (pos 1));
    day_to = omega (arith, h.day_to, +ℤ_parts t.day (pos 1));
    hour_from = ground (arith, h.hour_from, e, -ℤ_parts (t.hour -ℤ negsuc k) (pos 24));
    hour_to =
        omega
          (arith, h.hour_to, l, -ℤ_parts t.hour (negsuc k), -ℤ_parts (t.hour -ℤ negsuc k) (pos 24));
  })
  | inr e ↦ rw e (record {
    month_from = h.month_from;
    month_to = h.month_to;
    day_from = h.day_from;
    day_to = omega (arith, h.day_to);
    hour_from = omega (arith, h.hour_from, -ℤ_parts t.hour (negsuc k));
    hour_to = ground (arith, e);
  })
]

day_over-IsTimeOrNextMonth : (t : ZoneTime) → IsTimeOrNextDay t → IsTimeOrNextMonth (day_over t)
unfolding day_over
day_over-IsTimeOrNextMonth t h =
    elim (Bool-cases (ltb_ℤ (pos (get_days_per_month t.year t.month)) t.day)) [
      | inl e ↦ rw e (record {
        month_from = omega (arith, h.month_from, +ℤ_parts t.month (pos 1));
        month_to = omega (arith, h.month_to, +ℤ_parts t.month (pos 1));
        day_from = omega arith;
        day_to = λ m. omega (
          arith,
          days_in t.year (t.month +ℤ pos 1) (omega (arith, h.month_from, +ℤ_parts t.month (pos 1)))
              m,
        );
        day_first = λ m. refl;
        hour_from = h.hour_from;
        hour_to = h.hour_to;
      })
      | inr e ↦ rw e (record {
        month_from = h.month_from;
        month_to = omega (arith, h.month_to);
        day_from = h.day_from;
        day_to = λ m. ground (arith, e);
        day_first = λ m. absurd (omega (arith, h.month_to, m));
        hour_from = h.hour_from;
        hour_to = h.hour_to;
      })
    ]

month_over-IsTime : (t : ZoneTime) → IsTimeOrNextMonth t → IsTime (month_over t)
unfolding month_over
month_over-IsTime t h = elim (Bool-cases (ltb_ℤ (pos 12) t.month)) [
  | inl e ↦
      let first : t.day ≡ pos 1 = h.day_first (ground (arith, e)) in
      let from : pos 1 ≤ℤ t.month -ℤ pos 12 = ground (arith, e, -ℤ_parts t.month (pos 12)) in
      let to : t.month -ℤ pos 12 ≤ℤ pos 12 = omega (arith, h.month_to, -ℤ_parts t.month (pos 12)) in
      rw e (record {
        month_from = from;
        month_to = to;
        day_from = h.day_from;
        day_to = rw first (omega (arith, days_in (t.year +ℤ pos 1) (t.month -ℤ pos 12) from to));
        hour_from = h.hour_from;
        hour_to = h.hour_to;
      })
  | inr e ↦
      let to : t.month ≤ℤ pos 12 = ground (arith, e) in
      rw e (record {
        month_from = h.month_from;
        month_to = to;
        day_from = h.day_from;
        day_to = h.day_to to;
        hour_from = h.hour_from;
        hour_to = h.hour_to;
      })
]

-- In a zone at most twelve hours behind UTC, a month, a day of it and an hour are shifted to such
-- a time again, whatever day of the year it is.
pub adjust_behind-IsTime :
    (t : ZoneTime) (k : ℕ) → k < 12 → IsTime t → IsTime (adjust_time_for_time_zone (negsuc k) t)
unfolding adjust_time_for_time_zone
adjust_behind-IsTime t k l h =
    let behind : ltb_ℤ (negsuc k) (pos 0) ≡ true = ground arith in
    rw behind (
      month_over-IsTime (day_over (hour_over (record t { hour = t.hour -ℤ negsuc k }))) (
        day_over-IsTimeOrNextMonth (hour_over (record t { hour = t.hour -ℤ negsuc k }))
          (hour_over-IsTimeOrNextDay t k l h)))

one_less : pos 1 -ℤ pos 1 ≡ pos 0
unfolding ◌-ℤ◌
one_less = refl

nothing_more : pos 0 +ℤ pos 0 ≡ pos 0
unfolding ◌+ℤ◌
nothing_more = refl

-- The first of January in a zone before UTC, at an hour that lies in the year before in UTC, is
-- shifted to a day 0, which is no day.
pub adjust-DayZero :
    (year : ℤ) (hour offset : ℕ)
    → hour < offset
    → ZoneTime.day (
        adjust_time_for_time_zone
          (pos offset)
          (record { year = year; month = pos 1; day = pos 1; hour = pos hour }))
      ≡ pos 0
unfolding adjust_time_for_time_zone get_days_per_month hour_under day_under month_under
adjust-DayZero year hour offset h =
    let before : ltb_ℤ (pos offset) (pos 0) ≡ false = ground arith in
    let behind : ltb_ℤ (pos 0) (pos offset) ≡ true = ground arith in
    let borrowed : ltb_ℤ (pos hour -ℤ pos offset) (pos 0) ≡ true =
      ground (arith, -ℤ_parts (pos hour) (pos offset)) in
    rw before (rw behind (rw borrowed (rw one_less nothing_more)))
