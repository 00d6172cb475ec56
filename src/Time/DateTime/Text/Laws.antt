-- ===== src/Time/DateTime/Text/Laws.antt =====
-- Dates that are made of CIM texts are not special.
use libblocxx_deb.Prelude.{ℕ, ◌<◌, ◌≡◌, refl, Bool, true, false, Option, none, some, arith, ◌&&◌}
use mathlib.Core.Option
use libblocxx_deb.Prelude.Int.{ℤ, pos, pos_part}
use libblocxx_deb.CmdLine.Options.{String}
use libblocxx_deb.Time.Duration.{not_special}
use libblocxx_deb.Time.DateTime.{
  DateTime, Limits, date_time, in_limits, get_special_time_flag, int32,
}
use libblocxx_deb.Time.DateTime.Setters.{Clock, TimeOffset, utc_time, set_fields}
use libblocxx_deb.Time.DateTime.Laws.{int32_small}
use libblocxx_deb.Time.DateTime.Text.{
  Fields, validate_ranges, set_all, Attempt, made, refused, unread, attempt, valid_or_refused,
  cim_date, substring, ◌>>=◌,
}

-- No date, or one that is not special.
abbrev pub IsPlain : Option DateTime → Type 0
IsPlain none = Unit
IsPlain (some t) = get_special_time_flag t ≡ not_special

abbrev pub IsPlainAttempt : Attempt → Type 0
IsPlainAttempt (made t) = get_special_time_flag t ≡ not_special
IsPlainAttempt refused = Unit
IsPlainAttempt unread = Unit

plain_flag :
    (s : ℤ) (n : ℕ) → n < 1000000 → get_special_time_flag (date_time s (pos n)) ≡ not_special
unfolding get_special_time_flag
plain_flag s n h = ground arith

map-IsPlain :
    (o : Option ℤ) (n : ℕ) → n < 1000000 → IsPlain (Option.map (λ s. date_time s (int32 (pos n))) o)
map-IsPlain none n h = tt
map-IsPlain (some s) n h = rw (int32_small n (omega (arith, h))) (plain_flag s n h)

last_test : (a b : Bool) → (a && b) ≡ true → b ≡ true
last_test true b h = h
last_test false b h = absurd (cc h)

under_a_second : (m : ℤ) → in_limits (pos 0) (pos 999999) m ≡ true → pos_part m < 1000000
under_a_second m h = ground arith

pub small_microseconds :
    (l : Limits) (f : Fields) → validate_ranges l f ≡ true → pos_part f.microseconds_of < 1000000
unfolding validate_ranges
small_microseconds l f h = under_a_second f.microseconds_of (last_test _ _ h)

pub set_all-IsPlain :
    (l : Limits) (k : Clock) (f : Fields) (o : TimeOffset)
    → pos_part f.microseconds_of < 1000000
    → IsPlain (set_all l k f o)
unfolding set_all set_fields
set_all-IsPlain l k f o h = map-IsPlain _ (pos_part f.microseconds_of) h

attempt-IsPlainAttempt : (o : Option DateTime) → IsPlain o → IsPlainAttempt (attempt o)
attempt-IsPlainAttempt none h = tt
attempt-IsPlainAttempt (some t) h = h

bind-IsPlainAttempt :
    {A : Type 0} (o : Option A) (f : A → Attempt)
    → ((a : A) → IsPlainAttempt (f a))
    → IsPlainAttempt (o >>= f)
bind-IsPlainAttempt none f h = tt
bind-IsPlainAttempt (some a) f h = h a

valid-IsPlainAttempt :
    (b : Bool) (a : Attempt) → (b ≡ true → IsPlainAttempt a) → IsPlainAttempt (valid_or_refused b a)
valid-IsPlainAttempt true a h = h refl
valid-IsPlainAttempt false a h = tt

module _ (l : Limits) (k : Clock) (to_int32 : String → Option ℤ) where
  pub cim_date-IsPlainAttempt :
      (sign : ℕ) (s : String) → IsPlainAttempt (cim_date l k to_int32 sign s)
  unfolding cim_date
  cim_date-IsPlainAttempt sign s = bind-IsPlainAttempt (to_int32 (substring 0 4 s)) _ (λ year.
      bind-IsPlainAttempt (to_int32 (substring 4 2 s)) _ (λ month.
        bind-IsPlainAttempt (to_int32 (substring 6 2 s)) _ (λ day.
          bind-IsPlainAttempt (to_int32 (substring 8 2 s)) _ (λ hour.
            bind-IsPlainAttempt (to_int32 (substring 10 2 s)) _ (λ minute.
              bind-IsPlainAttempt (to_int32 (substring 12 2 s)) _ (λ second.
                bind-IsPlainAttempt (to_int32 (substring 15 6 s)) _ (λ microseconds.
                  valid-IsPlainAttempt (validate_ranges l _) _ (λ valid.
                    bind-IsPlainAttempt (to_int32 (substring 22 3 s)) _ (λ utc.
                      attempt-IsPlainAttempt (set_all l k _ utc_time)
                        (set_all-IsPlain l k _ utc_time (small_microseconds l _ valid)))))))))))
