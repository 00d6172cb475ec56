-- ===== src/Time/DateTime/Laws.antt =====
-- The arithmetic of dates: sums are exact, and undo differences; the order is that of the time.
use libblocxx_deb.Prelude.{
  ℕ, suc, ◌+◌, ◌-◌, ◌*◌, ◌/◌, ◌%◌, ◌^◌, ◌≤◌, ◌<◌, ◌≡◌, ◌↔◌, refl, ap, true, false, some, arith,
  if◌then◌else◌, ◌==◌,
}
use mathlib.Core.Option
use libblocxx_deb.Prelude.Int.{
  ℤ, pos, negsuc, pos_part, neg_part, ◌+ℤ◌, ◌-ℤ◌, ◌*ℤ◌, ◌≤ℤ◌, ltb_ℤ, +ℤ_parts, -ℤ_parts,
  eq_of_parts, minus, minus_parts,
}
use libblocxx_deb.Time.DivRem.{
  div_floor, rem_floor, div_floor_lem, div_machine, rem_machine, div_machine-minus,
}
use libblocxx_deb.Time.Duration.{
  TimeDuration, not_special, nadt, pos_infinity, SpecialTime, microsecond_in_second,
  of_microseconds,
}
use libblocxx_deb.Time.Duration.Fields.{Split-ahead, Split-behind}
use libblocxx_deb.Time.DateTime.{
  DateTime, Limits, date_time, in_limits, normalize_time, plus_duration, difference, lt, int32,
  get_special_time_flag, seconds_of,
}
use libblocxx_deb.Time.DateTime.Setters.{set_fields, set_time, fields_of_set, Clock, TimeOffset}

-- A value that is not special, within the limits.
pub record IsNormal (l : Limits) (t : DateTime) : Type 0 where
  pub from_minimum : l.minimum_time ≤ℤ t.seconds
  pub to_maximum : t.seconds ≤ℤ l.maximum_time
  pub not_negative : neg_part t.microseconds ≡ 0
  pub less_than_second : pos_part t.microseconds < 1000000

-- The microseconds since the start of 1970, as a difference of two numbers.
abbrev pub ahead : DateTime → ℕ
ahead t = 1000000 * pos_part t.seconds + pos_part t.microseconds

abbrev pub behind : DateTime → ℕ
behind t = 1000000 * neg_part t.seconds + neg_part t.microseconds

same_time :
    (l : Limits) (s m : ℤ) (u : DateTime)
    → neg_part m ≡ 0
    → pos_part m < 1000000
    → IsNormal l u
    → ahead (date_time s m) + behind u ≡ behind (date_time s m) + ahead u
    → date_time s m ≡ u
same_time l s m u n p h e =
    let se : s ≡ u.seconds =
      eq_of_parts s u.seconds (omega (arith, n, p, h.not_negative, h.less_than_second, e)) in
    let me : m ≡ u.microseconds =
      eq_of_parts m u.microseconds (omega (arith, n, p, h.not_negative, h.less_than_second, e)) in
    rw se (rw me refl)

-- A time whose carry lies at a normal value is normalised to it.
normalize_time-exact :
    (l : Limits) (s m : ℤ) (u : DateTime)
    → IsNormal l u
    → ahead (date_time s m) + behind u ≡ behind (date_time s m) + ahead u
    → normalize_time l s m ≡ some u
unfolding normalize_time
normalize_time-exact l s m u h e =
    let carry = div_floor_lem m 1000000 (omega arith) in
    let same : date_time (s +ℤ div_floor m 1000000) (rem_floor m 1000000) ≡ u =
      same_time l (s +ℤ div_floor m 1000000) (rem_floor m 1000000) u carry.0 carry.1 h
        (omega (arith, carry, e, +ℤ_parts s (div_floor m 1000000))) in
    let inside : in_limits l.minimum_time l.maximum_time (s +ℤ div_floor m 1000000) ≡ true =
      rw (ap DateTime.seconds same) (ground (arith, h.from_minimum, h.to_maximum)) in
    rw inside (ap some same)

-- The seconds and microseconds that a duration is added as.
abbrev Splits : TimeDuration → Type 0
Splits td =
    (neg_part (microsecond_in_second td) ≡ 0)
    × (1000000 * pos_part (seconds_of td)
          + pos_part (microsecond_in_second td)
          + neg_part td.microseconds
        ≡ 1000000 * neg_part (seconds_of td) + pos_part td.microseconds)

at_either_sign : (us : ℤ) (f : SpecialTime) → Splits (record { microseconds = us; special = f })
unfolding div_machine
at_either_sign (pos n) f =
    let whole : pos n -ℤ pos (n % 1000000) ≡ pos (1000000 * (n / 1000000)) =
      eq_of_parts (pos n -ℤ pos (n % 1000000)) (pos (1000000 * (n / 1000000)))
        (omega (arith, -ℤ_parts (pos n) (pos (n % 1000000)))) in
    rw (Split-ahead n f).microsecond_is (rw whole (omega arith, omega arith))
at_either_sign (negsuc n) f =
    let whole : negsuc n -ℤ pos (1000000 - suc n % 1000000)
        ≡ minus (1000000 * (suc n / 1000000 + 1)) =
      eq_of_parts (negsuc n -ℤ pos (1000000 - suc n % 1000000))
        (minus (1000000 * (suc n / 1000000 + 1)))
        (omega (
          arith,
          -ℤ_parts (negsuc n) (pos (1000000 - suc n % 1000000)),
          minus_parts (1000000 * (suc n / 1000000 + 1)),
        )) in
    rw (Split-behind n f).microsecond_is (
      rw whole (
        rw (div_machine-minus (1000000 * (suc n / 1000000 + 1)) 1000000)
          (omega arith, omega (arith, minus_parts (1000000 * (suc n / 1000000 + 1) / 1000000)))))

normal_flag : (l : Limits) (t : DateTime) → IsNormal l t → get_special_time_flag t ≡ not_special
unfolding get_special_time_flag
normal_flag l t h =
    let up : ltb_ℤ t.microseconds (pos 0) ≡ false = ground (arith, h.not_negative) in
    let down : ltb_ℤ t.microseconds (pos 1000000) ≡ true =
      ground (arith, h.not_negative, h.less_than_second) in
    rw up (rw down refl)

-- A sum of a normal value and a duration that is not special is the normal value that lies behind
-- the first one by the duration, whenever there is such a value within the limits.
pub plus_duration-exact :
    (l : Limits) (dt u : DateTime) (us : ℤ)
    → IsNormal l dt
    → IsNormal l u
    → ahead dt + pos_part us + behind u ≡ behind dt + neg_part us + ahead u
    → plus_duration l dt (of_microseconds us) ≡ some u
unfolding plus_duration
plus_duration-exact l dt u us h k e =
    let td = of_microseconds us in
    let parts = at_either_sign us not_special in
    rw (normal_flag l dt h) (
      normalize_time-exact l (dt.seconds +ℤ seconds_of td)
        (dt.microseconds +ℤ microsecond_in_second td) u k
        (omega (
          arith,
          e,
          parts,
          +ℤ_parts dt.seconds (seconds_of td),
          +ℤ_parts dt.microseconds (microsecond_in_second td),
        )))

million :
    (a : ℤ)
    → pos_part (a *ℤ pos 1000000) + 1000000 * neg_part a
      ≡ neg_part (a *ℤ pos 1000000) + 1000000 * pos_part a
unfolding ◌*ℤ◌
million a = ground arith

-- The difference of two values that are not special and lie within the limits, added to the second
-- one, is the first one.
pub plus_duration-difference :
    (l : Limits) (x y : DateTime)
    → IsNormal l x
    → IsNormal l y
    → plus_duration l y (difference x y) ≡ some x
unfolding difference
plus_duration-difference l x y h k =
    let s = x.seconds -ℤ y.seconds in
    let m = x.microseconds -ℤ y.microseconds in
    rw (normal_flag l x h) (
      rw (normal_flag l y k) (
        plus_duration-exact l y x (s *ℤ pos 1000000 +ℤ m) k h (
          omega (
            arith,
            +ℤ_parts (s *ℤ pos 1000000) m,
            million s,
            -ℤ_parts x.seconds y.seconds,
            -ℤ_parts x.microseconds y.microseconds,
          ))))

-- The order of normal values is that of their microseconds since the start of 1970.
pub lt_iff_earlier :
    (l : Limits) (x y : DateTime)
    → IsNormal l x
    → IsNormal l y
    → (lt x y ≡ true) ↔ (ahead x + behind y < behind x + ahead y)
unfolding lt
lt_iff_earlier l x y h k =
    ground (arith, h.not_negative, h.less_than_second, k.not_negative, k.less_than_second)

pub int32_small : (n : ℕ) → n < 2 ^ 31 → int32 (pos n) ≡ pos n
unfolding int32 rem_floor rem_machine
int32_small n h = ground arith

-- A date that is set with a whole second of microseconds or more, below 2 ^ 31, becomes a special
-- value, whenever its fields are a time within the limits: not a date for one second, and plus
-- infinity for more.
pub set_fields-Special :
    (l : Limits) (k : Clock) (year month day hour minute second s : ℤ) (microseconds : ℕ)
    (o : TimeOffset)
    → set_time l k
        (fields_of_set year month day hour minute
          (second +ℤ div_machine (pos microseconds) 1000000))
        o
      ≡ some s
    → 1000000 ≤ microseconds
    → microseconds < 2 ^ 31
    → Option.map get_special_time_flag
        (set_fields l k year month day hour minute second microseconds o)
      ≡ some (if microseconds == 1000000 then nadt else pos_infinity)
unfolding set_fields get_special_time_flag
set_fields-Special l k year month day hour minute second s microseconds o e h b =
    rw e (rw (int32_small microseconds b) (ground arith))
