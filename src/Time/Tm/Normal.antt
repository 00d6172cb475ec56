-- ===== src/Time/Tm/Normal.antt =====
-- What `normTm` makes of a time.
use libblocxx_deb.Prelude.{
  ℕ, zero, suc, ◌+◌, ◌-◌, ◌≤◌, ◌<◌, ◌≡◌, ◌≢◌, refl, ◌⊎◌, Option, none, some, arith, get_or,
}
use libblocxx_deb.Prelude.Int.{
  ℤ, pos, negsuc, pos_part, neg_part, ◌+ℤ◌, ◌-ℤ◌, +ℤ_parts, -ℤ_parts, parts_apart,
}
use libblocxx_deb.Time.DivRem.{div_floor, rem_floor, div_floor_lem}
use libblocxx_deb.Time.DivRem.{div_machine, rem_machine}
use libblocxx_deb.Time.Tm.{
  Tm, days_in_month_arr, is_leap_year, days_in_month, norm_month, later_months, month_before,
  earlier_months, carry_sec, carry_min, carry_hour, carry, then_earlier, norm_tm,
}

-- A field from 0 to below a bound.
abbrev pub Below : ℕ → ℤ → Type 0
Below n x = (neg_part x ≡ 0) × (pos_part x < n)

pub record IsClock (tm : Tm) : Type 0 where
  pub sec : Below 60 tm.tm_sec
  pub min : Below 60 tm.tm_min
  pub hour : Below 24 tm.tm_hour
  pub mon : Below 12 tm.tm_mon

table_range :
    (m : ℕ)
    → m < 12
    → (28 ≤ get_or days_in_month_arr m 0)
      × (get_or days_in_month_arr m 0 ≤ 31)
      × ((m ≢ 1) ⊎ (get_or days_in_month_arr m 0 ≡ 28))
table_range m h = ground arith

days_in_month_range :
    (tm : Tm) → Below 12 tm.tm_mon → (28 ≤ days_in_month tm) × (days_in_month tm ≤ 31)
unfolding days_in_month
days_in_month_range tm h = ground (arith, table_range (pos_part tm.tm_mon))

norm_month-IsClock :
    (tm : Tm)
    → Below 60 tm.tm_sec
    → Below 60 tm.tm_min
    → Below 24 tm.tm_hour
    → IsClock (norm_month tm)
unfolding norm_month
norm_month-IsClock tm hs hm hh = record {
  sec = hs;
  min = hm;
  hour = hh;
  mon = let d = div_floor_lem tm.tm_mon 12 (omega arith) in (d.0, d.1);
}

carry-IsClock : (tm : Tm) → IsClock (carry tm)
unfolding carry
carry-IsClock tm =
    let a = carry_sec tm in
    let b = carry_min a in
    let c = carry_hour b in
    let ds = div_floor_lem tm.tm_sec 60 (omega arith) in
    let dm = div_floor_lem a.tm_min 60 (omega arith) in
    let dh = div_floor_lem b.tm_hour 24 (omega arith) in
    norm_month-IsClock c (ds.0, ds.1) (dm.0, dm.1) (dh.0, dh.1)

-- The day lies in its month, or before.
abbrev EndsBy : Option Tm → Type 0
EndsBy none = ⊥
EndsBy (some tm) = IsClock tm × (pos_part tm.tm_mday ≤ days_in_month tm)

pub record IsNormal (tm : Tm) : Type 0 where
  pub clock : IsClock tm
  pub from_first : 1 ≤ pos_part tm.tm_mday
  pub to_last : pos_part tm.tm_mday ≤ days_in_month tm

abbrev pub HasNormal : Option Tm → Type 0
HasNormal none = ⊥
HasNormal (some tm) = IsNormal tm

later_months-EndsBy :
    (fuel : ℕ) (tm : Tm) → IsClock tm → pos_part tm.tm_mday < fuel → EndsBy (later_months fuel tm)
unfolding later_months norm_month
later_months-EndsBy zero tm v h = ground arith
later_months-EndsBy (suc fuel) tm v h =
    let next : Tm = record tm {
      tm_mday = tm.tm_mday -ℤ pos (days_in_month tm);
      tm_mon = tm.tm_mon +ℤ pos 1;
    } in
    ground (
      arith,
      v,
      days_in_month_range tm v.mon,
      -ℤ_parts tm.tm_mday (pos (days_in_month tm)),
      parts_apart next.tm_mday,
      later_months-EndsBy fuel (norm_month next) (norm_month-IsClock next v.sec v.min v.hour),
    )

days_in_month-set_mday :
    (tm : Tm) (d : ℤ) → days_in_month (record tm { tm_mday = d }) ≡ days_in_month tm
unfolding days_in_month is_leap_year
days_in_month-set_mday tm d = refl

month_before-IsClock : (tm : Tm) → IsClock tm → IsClock (month_before tm)
month_before-IsClock tm v =
    let c = norm_month-IsClock (record tm { tm_mon = tm.tm_mon -ℤ pos 1 }) v.sec v.min v.hour in
    record { sec = c.sec; min = c.min; hour = c.hour; mon = c.mon }

-- From a day before the first, the day in the month before is later by 28 at least, and in that month
-- or before it.
month_before_lem :
    (tm : Tm)
    → IsClock tm
    → pos_part tm.tm_mday ≡ 0
    → (pos_part (month_before tm).tm_mday ≤ days_in_month (month_before tm))
      × (neg_part (month_before tm).tm_mday ≤ neg_part tm.tm_mday - 28)
      × ((1 ≤ pos_part (month_before tm).tm_mday) ⊎ (28 ≤ neg_part tm.tm_mday))
month_before_lem tm v h =
    let t : Tm = norm_month (record tm { tm_mon = tm.tm_mon -ℤ pos 1 }) in
    let keeps : t.tm_mday ≡ tm.tm_mday = unfold norm_month in refl in
    ground (
      arith,
      keeps,
      days_in_month_range t (month_before-IsClock tm v).mon,
      days_in_month-set_mday t (t.tm_mday +ℤ pos (days_in_month t)),
      +ℤ_parts t.tm_mday (pos (days_in_month t)),
      parts_apart (t.tm_mday +ℤ pos (days_in_month t)),
    )

earlier_months-HasNormal :
    (fuel : ℕ) (tm : Tm)
    → EndsBy (some tm)
    → ((1 ≤ pos_part tm.tm_mday) × (1 ≤ fuel)) ⊎ (neg_part tm.tm_mday + 2 ≤ fuel)
    → HasNormal (earlier_months fuel tm)
unfolding earlier_months
earlier_months-HasNormal zero tm v h = ground arith
earlier_months-HasNormal (suc fuel) tm v h = ground (
  arith,
  v,
  parts_apart tm.tm_mday,
  month_before_lem tm v.0,
  month_before-IsClock tm v.0,
  earlier_months-HasNormal fuel (month_before tm),
)

then_earlier-HasNormal : (o : Option Tm) → EndsBy o → HasNormal (then_earlier o)
then_earlier-HasNormal none h = h
then_earlier-HasNormal (some tm) h =
    earlier_months-HasNormal (suc (neg_part tm.tm_mday + 1)) tm h (omega arith)

-- The normalisation of any time ends, and gives a normal one: seconds and minutes below 60, hours
-- below 24, months below 12, none of them negative, and a day from 1 to the length of its month.
pub norm_tm-HasNormal : (tm : Tm) → HasNormal (norm_tm tm)
unfolding norm_tm
norm_tm-HasNormal tm =
    then_earlier-HasNormal (later_months (suc (pos_part (carry tm).tm_mday)) (carry tm)) (
      later_months-EndsBy (suc (pos_part (carry tm).tm_mday)) (carry tm) (carry-IsClock tm)
        (omega arith))

-- A field that needs no carry.
digit_60 : (x : ℤ) → Below 60 x → (rem_floor x 60 ≡ x) × (div_floor x 60 ≡ pos 0)
unfolding rem_floor div_floor rem_machine div_machine
digit_60 (pos m) h = ground arith
digit_60 (negsuc m) h = ground arith

digit_24 : (x : ℤ) → Below 24 x → (rem_floor x 24 ≡ x) × (div_floor x 24 ≡ pos 0)
unfolding rem_floor div_floor rem_machine div_machine
digit_24 (pos m) h = ground arith
digit_24 (negsuc m) h = ground arith

digit_12 : (x : ℤ) → Below 12 x → (rem_floor x 12 ≡ x) × (div_floor x 12 ≡ pos 0)
unfolding rem_floor div_floor rem_machine div_machine
digit_12 (pos m) h = ground arith
digit_12 (negsuc m) h = ground arith

add_zero : (x : ℤ) → x +ℤ pos 0 ≡ x
unfolding ◌+ℤ◌
add_zero (pos n) = ground arith
add_zero (negsuc n) = ground arith

carry_clock : (tm : Tm) → IsClock tm → carry tm ≡ tm
unfolding carry norm_month
carry_clock tm v =
    rw
      (
        (digit_60 tm.tm_sec v.sec).1,
        (digit_60 tm.tm_sec v.sec).0,
        add_zero tm.tm_min,
        (digit_60 tm.tm_min v.min).1,
        (digit_60 tm.tm_min v.min).0,
        add_zero tm.tm_hour,
        (digit_24 tm.tm_hour v.hour).1,
        (digit_24 tm.tm_hour v.hour).0,
        add_zero tm.tm_mday,
        (digit_12 tm.tm_mon v.mon).1,
        (digit_12 tm.tm_mon v.mon).0,
        add_zero tm.tm_year,
      )
      refl

later_months_none : (fuel : ℕ) (tm : Tm) → IsNormal tm → later_months (suc fuel) tm ≡ some tm
unfolding later_months
later_months_none fuel tm v = ground (arith, v, parts_apart tm.tm_mday)

earlier_months_none : (fuel : ℕ) (tm : Tm) → IsNormal tm → earlier_months (suc fuel) tm ≡ some tm
unfolding earlier_months
earlier_months_none fuel tm v = ground (arith, v, parts_apart tm.tm_mday)

norm_tm-IsNormal : (tm : Tm) → IsNormal tm → norm_tm tm ≡ some tm
unfolding norm_tm
norm_tm-IsNormal tm v =
    rw (carry_clock tm v.clock, later_months_none (pos_part tm.tm_mday) tm v)
      (earlier_months_none (neg_part tm.tm_mday + 1) tm v)

-- A time that was normalised stays as it is when it is normalised again.
pub norm_tm_twice : (tm r : Tm) → norm_tm tm ≡ some r → norm_tm r ≡ some r
norm_tm_twice tm r e = norm_tm-IsNormal r (rw e at (norm_tm-HasNormal tm))
