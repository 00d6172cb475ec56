-- ===== src/Time/DateTime/Invariant.antt =====
-- The invariant of the class, and what keeps it.
use libblocxx_deb.Prelude.{
  ◌≡◌, refl, Bool, true, false, Option, none, some, arith, if◌then◌else◌, inl, inr, Bool-cases, not,
  ◌&&◌, ◌||◌,
}
use libblocxx_deb.Prelude.Int.{ℤ, pos, ◌+ℤ◌, ◌-ℤ◌, ltb_ℤ, +ℤ_parts, -ℤ_parts, neg_ℤ}
use libblocxx_deb.Time.DivRem.{div_floor, rem_floor, div_floor_lem}
use libblocxx_deb.Time.Duration.{
  TimeDuration, not_special, nadt, pos_infinity, neg_infinity, SpecialTime, microsecond_in_second,
  is_flag,
}
use libblocxx_deb.Time.DateTime.{
  DateTime, Limits, date_time, of_flag, in_limits, normalize_time, plus_duration, minus_duration,
  negate_date, negate_as, add_microseconds, add_seconds, int32, get_special_time_flag, seconds_of,
  plus_as, have_special_value,
}
use libblocxx_deb.Time.DateTime.Setters.{set_microsecond}
use libblocxx_deb.Time.DateTime.Laws.{IsNormal}

-- A normal value, or one of the three that stand for no time.
pub data IsDateTime (l : Limits) : DateTime → Type 0 where
  normal : (t : DateTime) → IsNormal l t → IsDateTime l t
  special : (f : SpecialTime) → is_flag f not_special ≡ false → IsDateTime l (of_flag f)

abbrev pub IsResult : Limits → Option DateTime → Type 0
IsResult l none = Unit
IsResult l (some t) = IsDateTime l t

-- The operations that check what they make.
pub data Operation : Type 0 where
  set_to : ℤ → ℤ → Operation
  plus minus : TimeDuration → Operation
  negated : Operation
  microseconds_more : ℤ → Operation
  microseconds_to : ℤ → Operation

abbrev pub operate : Limits → Operation → DateTime → Option DateTime
operate l (set_to s m) t = normalize_time l s m
operate l (plus td) t = plus_duration l t td
operate l (minus td) t = minus_duration l t td
operate l negated t = negate_date l t
operate l (microseconds_more n) t = add_microseconds l n t
operate l (microseconds_to n) t = set_microsecond n t

normalize_time-IsResult : (l : Limits) (s m : ℤ) → IsResult l (normalize_time l s m)
unfolding normalize_time
normalize_time-IsResult l s m =
    let carry = div_floor_lem m 1000000 (omega arith) in
    let t1 = s +ℤ div_floor m 1000000 in
    elim (Bool-cases (in_limits l.minimum_time l.maximum_time t1)) [
      | inl e ↦ rw e (
          normal (date_time t1 (rem_floor m 1000000)) (record {
            from_minimum = ground (arith, e);
            to_maximum = ground (arith, e);
            not_negative = carry.0;
            less_than_second = carry.1;
          }))
      | inr e ↦ rw e tt
    ]

if-IsResult :
    (l : Limits) (b : Bool) (x y : Option DateTime)
    → IsResult l x
    → IsResult l y
    → IsResult l (if b then x else y)
if-IsResult l true x y h k = h
if-IsResult l false x y h k = k

plus_as-IsResult :
    (l : Limits) (f : SpecialTime) (t : DateTime) (td : TimeDuration)
    → IsResult l (plus_as l f t td)
plus_as-IsResult l not_special t td =
    normalize_time-IsResult l (t.seconds +ℤ seconds_of td)
      (t.microseconds +ℤ microsecond_in_second td)
plus_as-IsResult l neg_infinity t td = special neg_infinity refl
plus_as-IsResult l pos_infinity t td = special pos_infinity refl
plus_as-IsResult l nadt t td = special nadt refl

plus_duration-IsResult :
    (l : Limits) (t : DateTime) (td : TimeDuration)
    → IsDateTime l t
    → IsResult l (plus_duration l t td)
unfolding plus_duration
plus_duration-IsResult l t td h =
    let flag = get_special_time_flag t in
    if-IsResult l (is_flag flag nadt || is_flag td.special nadt) (some (of_flag nadt)) _
      (special nadt refl)
      (if-IsResult l
        ((is_flag flag pos_infinity && is_flag td.special neg_infinity)
          || (is_flag flag neg_infinity && is_flag td.special pos_infinity))
        (some (of_flag nadt)) _ (special nadt refl)
        (if-IsResult l (not (is_flag flag not_special)) (some t) _ h
          (plus_as-IsResult l td.special t td)))

negate_as-IsResult :
    (l : Limits) (f : SpecialTime) (t : DateTime) → IsDateTime l t → IsResult l (negate_as l f t)
negate_as-IsResult l not_special t h =
    if-IsResult l (ltb_ℤ (pos 0) t.microseconds) _ _
      (normalize_time-IsResult l (neg_ℤ t.seconds -ℤ pos 1) (pos 1000000 -ℤ t.microseconds))
      (normalize_time-IsResult l (neg_ℤ t.seconds) (pos 0))
negate_as-IsResult l nadt t h = h
negate_as-IsResult l pos_infinity t h = special neg_infinity refl
negate_as-IsResult l neg_infinity t h = special pos_infinity refl

add_microseconds-IsResult :
    (l : Limits) (n : ℤ) (t : DateTime) → IsDateTime l t → IsResult l (add_microseconds l n t)
unfolding add_microseconds
add_microseconds-IsResult l n t h =
    if-IsResult l (have_special_value t.microseconds) (some t) _ h
      (normalize_time-IsResult l t.seconds (int32 (t.microseconds +ℤ n)))

set_normal :
    (l : Limits) (n : ℤ) (t : DateTime)
    → have_special_value t.microseconds ≡ false
    → have_special_value n ≡ false
    → IsDateTime l t
    → IsDateTime l (record t { microseconds = n })
set_normal l n t e f (normal u h) =
    normal (record u { microseconds = n })
      (record {
        from_minimum = h.from_minimum;
        to_maximum = h.to_maximum;
        not_negative = ground (arith, f);
        less_than_second = ground (arith, f);
      })
set_normal l n t e f (special not_special k) = absurd (cc k)
set_normal l n t e f (special pos_infinity k) = absurd (cc e)
set_normal l n t e f (special neg_infinity k) = absurd (cc e)
set_normal l n t e f (special nadt k) = absurd (cc e)

set_microsecond-IsResult :
    (l : Limits) (n : ℤ) (t : DateTime) → IsDateTime l t → IsResult l (set_microsecond n t)
unfolding set_microsecond
set_microsecond-IsResult l n t h = elim (Bool-cases (have_special_value t.microseconds)) [
  | inl e ↦ rw e tt
  | inr e ↦ elim (Bool-cases (have_special_value n)) [
    | inl f ↦ rw e (rw f tt)
    | inr f ↦ rw e (rw f (set_normal l n t e f h))
  ]
]

-- What construction from a time, sums and differences with a duration, negation, the addition of
-- microseconds and their setting make of a normal value within the limits or of plus infinity, minus
-- infinity or not-a-date is such a value again, unless they throw.
pub operate-IsResult :
    (l : Limits) (o : Operation) (t : DateTime) → IsDateTime l t → IsResult l (operate l o t)
unfolding minus_duration negate_date
operate-IsResult l (set_to s m) t h = normalize_time-IsResult l s m
operate-IsResult l (plus td) t h = plus_duration-IsResult l t td h
operate-IsResult l (minus td) t h = plus_duration-IsResult l t _ h
operate-IsResult l negated t h = negate_as-IsResult l (get_special_time_flag t) t h
operate-IsResult l (microseconds_more n) t h = add_microseconds-IsResult l n t h
operate-IsResult l (microseconds_to n) t h = set_microsecond-IsResult l n t h

-- The addition of seconds does not check what it makes: each normal value is taken out of the limits
-- by some number of seconds.
pub add_seconds-Leaves :
    (l : Limits) (t : DateTime)
    → IsNormal l t
    → ¬ IsNormal l (add_seconds (l.maximum_time -ℤ t.seconds +ℤ pos 1) t)
unfolding add_seconds
add_seconds-Leaves l t h k =
    let usual : have_special_value t.microseconds ≡ false =
      ground (arith, h.not_negative, h.less_than_second) in
    absurd (
      ground (
        arith,
        usual,
        k.to_maximum,
        +ℤ_parts t.seconds (l.maximum_time -ℤ t.seconds +ℤ pos 1),
        +ℤ_parts (l.maximum_time -ℤ t.seconds) (pos 1),
        -ℤ_parts l.maximum_time t.seconds,
      ))
