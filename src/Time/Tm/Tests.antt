-- ===== src/Time/Tm/Tests.antt =====
-- Broken-down times at concrete values.
use libblocxx_deb.Prelude.{◌≡◌, refl, some}
use libblocxx_deb.Prelude.Int.{pos, negsuc, ◌+ℤ◌, ◌-ℤ◌}
use libblocxx_deb.Time.DivRem.{div_floor, rem_floor, div_machine, rem_machine}
use libblocxx_deb.Time.Tm.{
  Tm, norm_tm, later_months, earlier_months, days_in_month, is_leap_year, norm_month, carry,
}
use libblocxx_deb.Time.Tm.Normal.{HasNormal, norm_tm-HasNormal}

-- A second before the first of March 2024, written as month 14 of 2023.
abbrev before_march : Tm
before_march = record {
  tm_sec = negsuc 0;
  tm_min = pos 0;
  tm_hour = pos 0;
  tm_mday = pos 1;
  tm_mon = pos 14;
  tm_year = pos 123;
}

abbrev leap_day : Tm
leap_day = record {
  tm_sec = pos 59;
  tm_min = pos 59;
  tm_hour = pos 23;
  tm_mday = pos 29;
  tm_mon = pos 1;
  tm_year = pos 124;
}

-- Day 366 of January 2023.
abbrev new_year : Tm
new_year = record {
  tm_sec = pos 0;
  tm_min = pos 0;
  tm_hour = pos 0;
  tm_mday = pos 366;
  tm_mon = pos 0;
  tm_year = pos 123;
}

norm_tm_back : norm_tm before_march ≡ some leap_day
unfolding norm_tm later_months earlier_months days_in_month is_leap_year norm_month carry div_floor
    rem_floor div_machine rem_machine ◌+ℤ◌ ◌-ℤ◌
norm_tm_back = refl

norm_tm_on : norm_tm new_year ≡ some (record new_year { tm_mday = pos 1; tm_year = pos 124 })
unfolding norm_tm later_months earlier_months days_in_month is_leap_year norm_month carry div_floor
    rem_floor div_machine rem_machine ◌+ℤ◌ ◌-ℤ◌
norm_tm_on = refl

norm_tm-HasNormal_example : HasNormal (norm_tm before_march)
norm_tm-HasNormal_example = norm_tm-HasNormal before_march
