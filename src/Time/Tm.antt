-- ===== src/Time/Tm.antt =====
-- src/blocxx/TmUtils.cpp: the normalisation of a broken-down time. The fields are integers: the
-- class excludes times whose normalisation would overflow an `int`.
pub mod Normal
mod Tests
use libblocxx_deb.Prelude.{
  ℕ, zero, suc, ◌+◌, ◌-◌, ◌≤◌, ◌<◌, ◌≡◌, ◌≢◌, refl, ◌⊎◌, inl, inr, Bool, true, false, ◌&&◌, ◌||◌,
  not, Option, none, some, List, [], ◌∷◌, arith, ltb, leb, ◌==◌, if◌then◌else◌, get_or, length,
}
use libblocxx_deb.Prelude.Int.{
  ℤ, pos, negsuc, pos_part, neg_part, ◌+ℤ◌, ◌-ℤ◌, ltb_ℤ, eqb_ℤ, +ℤ_parts, -ℤ_parts, parts_apart,
}
use libblocxx_deb.Time.DivRem.{div_floor, rem_floor, div_floor_lem}

pub record Tm : Type 0 where
  pub tm_sec : ℤ
  pub tm_min : ℤ
  pub tm_hour : ℤ
  pub tm_mday : ℤ
  pub tm_mon : ℤ
  pub tm_year : ℤ

abbrev pub days_in_month_arr : List ℕ
days_in_month_arr = 31 ∷ 28 ∷ 31 ∷ 30 ∷ 31 ∷ 30 ∷ 31 ∷ 31 ∷ 30 ∷ 31 ∷ 30 ∷ 31 ∷ []

unfoldable pub is_leap_year : Tm → Bool
is_leap_year tm =
    let y = tm.tm_year +ℤ pos 1900 in
    eqb_ℤ (rem_floor y 4) (pos 0)
    && (not (eqb_ℤ (rem_floor y 100) (pos 0)) || eqb_ℤ (rem_floor y 400) (pos 0))

-- The month is a valid index, from 0 to 11.
unfoldable pub days_in_month : Tm → ℕ
days_in_month tm =
    let n = get_or days_in_month_arr (pos_part tm.tm_mon) 0 in
    if eqb_ℤ tm.tm_mon (pos 1) && is_leap_year tm then n + 1 else n

unfoldable pub norm_month : Tm → Tm
norm_month tm = record tm {
  tm_mon = rem_floor tm.tm_mon 12;
  tm_year = tm.tm_year +ℤ div_floor tm.tm_mon 12;
}

-- The loop while the day lies behind the month, and the one while it lies before.
unfoldable pub later_months : ℕ → Tm → Option Tm
later_months zero tm = none
later_months (suc fuel) tm =
    let rest = later_months fuel (
      norm_month (record tm {
        tm_mday = tm.tm_mday -ℤ pos (days_in_month tm);
        tm_mon = tm.tm_mon +ℤ pos 1;
      })) in
    if ltb_ℤ (pos (days_in_month tm)) tm.tm_mday then rest else some tm

abbrev pub month_before : Tm → Tm
month_before tm =
    let t : Tm = norm_month (record tm { tm_mon = tm.tm_mon -ℤ pos 1 }) in
    record t { tm_mday = t.tm_mday +ℤ pos (days_in_month t) }

unfoldable pub earlier_months : ℕ → Tm → Option Tm
earlier_months zero tm = none
earlier_months (suc fuel) tm =
    let rest = earlier_months fuel (month_before tm) in
    if ltb_ℤ tm.tm_mday (pos 1) then rest else some tm

-- The part of `normTm` before the loops.
abbrev pub carry_sec : Tm → Tm
carry_sec tm = record tm {
  tm_sec = rem_floor tm.tm_sec 60;
  tm_min = tm.tm_min +ℤ div_floor tm.tm_sec 60;
}

abbrev pub carry_min : Tm → Tm
carry_min tm = record tm {
  tm_min = rem_floor tm.tm_min 60;
  tm_hour = tm.tm_hour +ℤ div_floor tm.tm_min 60;
}

abbrev pub carry_hour : Tm → Tm
carry_hour tm = record tm {
  tm_hour = rem_floor tm.tm_hour 24;
  tm_mday = tm.tm_mday +ℤ div_floor tm.tm_hour 24;
}

unfoldable pub carry : Tm → Tm
carry tm = norm_month (carry_hour (carry_min (carry_sec tm)))

abbrev pub then_earlier : Option Tm → Option Tm
then_earlier none = none
then_earlier (some tm) = earlier_months (suc (neg_part tm.tm_mday + 1)) tm

unfoldable pub norm_tm : Tm → Option Tm
norm_tm tm = let t = carry tm in then_earlier (later_months (suc (pos_part t.tm_mday)) t)
