-- ===== src/Time/DateTime/FreeForm/Laws.antt =====
-- Dates that are read from a text are not special.
use libblocxx_deb.Prelude.{
  ◌≡◌, refl, Bool, true, false, List, [], ◌∷◌, Option, none, some, if◌then◌else◌, inl, inr,
  Bool-cases, map,
}
use libblocxx_deb.Prelude.Int.{ℤ}
use libblocxx_deb.CmdLine.Options.{String, empty}
use libblocxx_deb.Time.Calendar.{Offset, unknown_zone, local, hours_from_utc, char_at}
use libblocxx_deb.Time.DateTime.{DateTime, Limits}
use libblocxx_deb.Time.DateTime.Setters.{Clock, TimeOffset, local_time, utc_time}
use libblocxx_deb.Time.DateTime.Text.Laws.{
  IsPlain, IsPlainAttempt, set_all-IsPlain, small_microseconds, cim_date-IsPlainAttempt,
}
use libblocxx_deb.Time.DateTime.Text.{
  Fields, validate_ranges, Attempt, made, refused, unread, cim_date, is_cim, no_asterisk, tokenize,
  default_delims,
}
use libblocxx_deb.Time.DateTime.FreeForm.{
  DateFound, date_of_text, free_form_date, settle, date_from, date_at, set_in_zone, set_valid,
  in_utc, scan_tokens, second_number, all_found, nothing_found, ◌>>=◌,
}

bind-IsPlain :
    {A : Type 0} (o : Option A) (f : A → Option DateTime)
    → ((a : A) → IsPlain (f a))
    → IsPlain (o >>= f)
bind-IsPlain none f h = tt
bind-IsPlain (some a) f h = h a

if-IsPlain :
    (b : Bool) (x : Option DateTime) → (b ≡ true → IsPlain x) → IsPlain (if b then x else none)
if-IsPlain true x h = h refl
if-IsPlain false x h = tt

module _ (l : Limits) (k : Clock) (to_int32 : String → Option ℤ) where
  set_valid-IsPlain : (f : Fields) (o : TimeOffset) → IsPlain (set_valid l k to_int32 f o)
  set_valid-IsPlain f o =
      if-IsPlain (validate_ranges l f) _
        (λ valid. set_all-IsPlain l k f o (small_microseconds l f valid))

  set_in_zone-IsPlain : (z : Offset) (f : Fields) → IsPlain (set_in_zone l k to_int32 z f)
  set_in_zone-IsPlain unknown_zone f = set_valid-IsPlain f local_time
  set_in_zone-IsPlain local f = set_valid-IsPlain f local_time
  set_in_zone-IsPlain (hours_from_utc offset) f =
      if-IsPlain (validate_ranges l f) _ (λ valid. set_valid-IsPlain (in_utc offset f) utc_time)

  date_at-IsPlain : (f : DateFound) (ts : List String) → IsPlain (date_at l k to_int32 f ts)
  date_at-IsPlain f [] = tt
  date_at-IsPlain f (h ∷ []) = tt
  date_at-IsPlain f (h ∷ m ∷ rest) = bind-IsPlain (to_int32 f.year_text) _ (λ year.
      bind-IsPlain (to_int32 f.day_text) _ (λ day. bind-IsPlain (to_int32 h) _ (λ hour.
        bind-IsPlain (to_int32 m) _ (λ minute.
          bind-IsPlain (second_number l k to_int32 rest) _
            (λ second. set_in_zone-IsPlain f.zone _)))))

  date_from-IsPlain : (f : DateFound) → IsPlain (date_from l k to_int32 f)
  unfolding date_from
  date_from-IsPlain f =
      if-IsPlain (all_found f) _
        (λ all. date_at-IsPlain f (tokenize (b':' ∷ []) false false f.time_text))

  free_form_date-IsPlain : (str : String) → IsPlain (free_form_date l k to_int32 str)
  unfolding free_form_date
  free_form_date-IsPlain str = elim (Bool-cases (empty str)) [
    | inl e ↦ rw e tt
    | inr e ↦ rw e (
        bind-IsPlain (scan_tokens (tokenize default_delims false false str) nothing_found)
          (date_from l k to_int32) date_from-IsPlain)
  ]

  settle-IsPlain :
      (a : Attempt) (o : Option DateTime)
      → IsPlainAttempt a
      → IsPlain o
      → IsPlain (settle l k to_int32 a o)
  settle-IsPlain (made t) o h p = h
  settle-IsPlain refused o h p = tt
  settle-IsPlain unread o h p = p

-- A date that is made of a text, in the CIM format or in free form, is not special: it has less than
-- a second of microseconds, whatever the conversion of numbers and the clock answer.
pub date_of_text-IsPlain :
    (l : Limits) (k : Clock) (to_int32 : String → Option ℤ) (str : String)
    → IsPlain (date_of_text l k to_int32 str)
unfolding date_of_text
date_of_text-IsPlain l k to_int32 str = elim (Bool-cases (is_cim str)) [
  | inl e ↦ rw e (
      settle-IsPlain l k to_int32 (cim_date l k to_int32 (char_at str 21) (map no_asterisk str)) _
        (cim_date-IsPlainAttempt l k to_int32 (char_at str 21) (map no_asterisk str))
        (free_form_date-IsPlain l k to_int32 str))
  | inr e ↦ rw e (free_form_date-IsPlain l k to_int32 str)
]
