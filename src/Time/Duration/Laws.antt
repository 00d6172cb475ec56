-- ===== src/Time/Duration/Laws.antt =====
-- Arithmetic and order of durations.
use libblocxx_deb.Prelude.{◌≡◌, ◌≢◌, ◌⊎◌, arith, ◌↔◌, true, false, ◌||◌, if◌then◌else◌}
use libblocxx_deb.Prelude.Int.{ℤ, pos, ◌+ℤ◌, ◌*ℤ◌, neg_ℤ, -ℤ_parts, +ℤ_parts, eq_of_parts}
use libblocxx_deb.Time.Duration.{
  not_special, nadt, TimeDuration, of_special, of_microseconds, lt, gt, eq, le, scale, plus, negate,
  minus, days, hours, minutes, seconds, is_flag,
}

-- A special duration counts no microseconds.
abbrev pub IsWellFormed : TimeDuration → Type 0
IsWellFormed t = (t.special ≡ not_special) ⊎ (t.microseconds ≡ pos 0)

-- Every operation gives well-formed durations from well-formed ones.
pub operations-IsWellFormed :
    (t u : TimeDuration) (k : ℤ)
    → IsWellFormed t
    → IsWellFormed u
    → IsWellFormed (plus t u)
      × IsWellFormed (minus t u)
      × IsWellFormed (negate t)
      × IsWellFormed (scale t k)
unfolding plus minus negate scale
operations-IsWellFormed t u k wt wu = (ground arith, ground arith, ground arith, ground arith)

neg_neg : (a : ℤ) → neg_ℤ (neg_ℤ a) ≡ a
neg_neg a =
    eq_of_parts (neg_ℤ (neg_ℤ a)) a (omega (arith, -ℤ_parts (pos 0) a, -ℤ_parts (pos 0) (neg_ℤ a)))

add_neg : (a : ℤ) → a +ℤ neg_ℤ a ≡ pos 0
add_neg a =
    eq_of_parts (a +ℤ neg_ℤ a) (pos 0) (omega (arith, -ℤ_parts (pos 0) a, +ℤ_parts a (neg_ℤ a)))

-- Negation undoes itself on well-formed durations, and a duration less itself is zero, an infinite
-- one too, but NADT is left as it is.
pub negate_laws :
    (t : TimeDuration)
    → IsWellFormed t
    → (negate (negate t) ≡ t)
      × (minus t t ≡ (if is_flag t.special nadt then of_special nadt else of_microseconds (pos 0)))
unfolding negate minus plus
negate_laws t w = (ground (arith, neg_neg t.microseconds), ground (arith, add_neg t.microseconds))

pub eq_iff : (t u : TimeDuration) → (eq t u ≡ true) ↔ (t ≡ u)
unfolding eq
eq_iff t u = (λ e. ground arith, λ e. ground arith)

pub lt-gt : (t u : TimeDuration) → lt t u ≡ gt u t
unfolding lt gt
lt-gt t u = ground arith

-- If `t <= u` and `u <= v` then `t <= v`, and `t < v` exactly if `<` holds of one of the two pairs.
pub order_trans :
    (t u v : TimeDuration)
    → le t u ≡ true
    → le u v ≡ true
    → (le t v ≡ true) × (lt t v ≡ (lt t u || lt u v))
unfolding le lt eq
order_trans t u v h k = (ground arith, ground arith)

-- Exactly one of `<`, `==` and `>` holds of two durations other than NADT.
pub order_trichotomy :
    (t u : TimeDuration)
    → t.special ≢ nadt
    → u.special ≢ nadt
    → ((lt t u ≡ true) × (eq t u ≡ false) × (gt t u ≡ false))
      ⊎ (((lt t u ≡ false) × (eq t u ≡ true) × (gt t u ≡ false))
          ⊎ ((lt t u ≡ false) × (eq t u ≡ false) × (gt t u ≡ true)))
unfolding lt gt eq
order_trichotomy t u vt vu = ground arith

-- NADT is below and above no duration, and equals NADT alone.
pub order_nadt :
    (t u : TimeDuration)
    → t.special ≡ nadt
    → (lt t u ≡ false) × (gt t u ≡ false) × (lt u t ≡ false) × (gt u t ≡ false)
unfolding lt gt
order_nadt t u h = ground arith

-- Adding a duration that is not special to both sides keeps the order of any two durations.
pub lt-plus : (t u v : TimeDuration) → v.special ≡ not_special → lt (plus t v) (plus u v) ≡ lt t u
unfolding lt plus
lt-plus t u v n =
    ground (arith, +ℤ_parts t.microseconds v.microseconds, +ℤ_parts u.microseconds v.microseconds)

-- The constructors by unit agree: a day is 24 hours, an hour 60 minutes, a minute 60 seconds; and
-- days add up.
pub units_agree :
    (a b : ℤ)
    → (days a ≡ hours (a *ℤ pos 24))
      × (hours a ≡ minutes (a *ℤ pos 60))
      × (minutes a ≡ seconds (a *ℤ pos 60))
      × (plus (days a) (days b) ≡ days (a +ℤ b))
unfolding days hours minutes seconds plus ◌*ℤ◌ ◌+ℤ◌
units_agree a b = (ground arith, ground arith, ground arith, ground arith)
