-- ===== src/CmdLine/Options/Names.antt =====
-- Which options a parser knows by which names.
use libblocxx_deb.Prelude.{
  ◌≡◌, refl, inr, true, false, List, [], ◌∷◌, ◌++◌, Option, none, some, ◌||◌, not, ltb, ◌==◌,
  ==_iff, length, drop-append, take-append, le→leb, length-append, is_some, All, arith, lt→ltb,
}
use mathlib.Core.Path.{subst}
use libblocxx_deb.Prelude.Int.{pos, ◌-ℤ◌}
use libblocxx_deb.CmdLine.Options.{
  String, CmdLineError, CaseSensitivity, case_sensitive, case_insensitive, ParserOption, Settings,
  Known, created, equals, empty, starts_with, same_long, long_opt_is, short_opt_is, find_if,
  long_taken, short_taken, verify_option_validity, unless, add_option_with_id, add_option,
  option_named, get_option_id,
}

-- The names of `y` do not lead to `x`.
abbrev pub Leaves : Settings → ParserOption → ParserOption → Type 0
Leaves p x y =
    ((empty y.longopt || not (long_opt_is p y.longopt x)) ≡ true)
    × (((y.shortopt == 0) || not (short_opt_is p y.shortopt x)) ≡ true)

-- No name of an option leads to one before it.
abbrev pub Distinct : Settings → List ParserOption → Type 0
Distinct p [] = Unit
Distinct p (x ∷ xs) = All (Leaves p x) xs × Distinct p xs

All-snoc :
    {A : Type 0} (P : A → Type 0) (xs : List A) (y : A) → All P xs → P y → All P (xs ++ y ∷ [])
All-snoc P [] y h k = (k, tt)
All-snoc P (x ∷ xs) y h k = (h.0, All-snoc P xs y h.1 k)

Distinct-snoc :
    (p : Settings) (xs : List ParserOption) (y : ParserOption)
    → Distinct p xs
    → All (λ x. Leaves p x y) xs
    → Distinct p (xs ++ y ∷ [])
Distinct-snoc p [] y h k = (tt, tt)
Distinct-snoc p (x ∷ xs) y h k = (All-snoc (Leaves p x) xs y h.0 k.0, Distinct-snoc p xs y h.1 k.1)

-- The two searches of `verifyOptionValidity`.
free :
    (p : Settings) (xs : List ParserOption) (y : ParserOption)
    → (empty y.longopt || not (is_some (find_if (long_opt_is p y.longopt) xs))) ≡ true
    → ((y.shortopt == 0) || not (is_some (find_if (short_opt_is p y.shortopt) xs))) ≡ true
    → All (λ x. Leaves p x y) xs
free p [] y h k = tt
free p (x ∷ xs) y h k = ((ground arith, ground arith), free p xs y (ground arith) (ground arith))

verify_option_validity-free :
    (p : Settings) (xs : List ParserOption) (y : ParserOption)
    → verify_option_validity p xs y ≡ none
    → All (λ x. Leaves p x y) xs
unfolding verify_option_validity long_taken short_taken
verify_option_validity-free p xs y h = free p xs y (ground arith) (ground arith)

-- The two ways to add an option.
pub data Addition : Type 0 where
  with_id next_id : ParserOption → Addition

abbrev pub add : Settings → Addition → Known → Known × Option CmdLineError
add p (with_id opt) k = add_option_with_id p opt k
add p (next_id opt) k = add_option p opt k

unfoldable pub add_all : Settings → List Addition → Known → Known
add_all p [] k = k
add_all p (a ∷ news) k = add_all p news (add p a k).0

unless-Distinct :
    (p : Settings) (verdict : Option CmdLineError) (k k' : Known)
    → Distinct p k.options
    → (verdict ≡ none → Distinct p k'.options)
    → Distinct p (unless verdict k k').0.options
unless-Distinct p none k k' h f = f refl
unless-Distinct p (some e) k k' h f = h

added-Distinct :
    (p : Settings) (xs : List ParserOption) (opt : ParserOption)
    → Distinct p xs
    → verify_option_validity p xs opt ≡ none
    → Distinct p (xs ++ opt ∷ [])
added-Distinct p xs opt h v = Distinct-snoc p xs opt h (verify_option_validity-free p xs opt v)

add-Distinct :
    (p : Settings) (a : Addition) (k : Known)
    → Distinct p k.options
    → Distinct p (add p a k).0.options
unfolding add_option_with_id add_option
add-Distinct p (with_id opt) k h =
    unless-Distinct p (verify_option_validity p k.options opt) k
      (record k { options = k.options ++ opt ∷ [] }) h (added-Distinct p k.options opt h)
add-Distinct p (next_id opt) k h =
    let lower = k.lowest_internal_id -ℤ pos 1 in
    let named = record opt { id = lower } in
    unless-Distinct p (verify_option_validity p k.options named) k
      (record { options = k.options ++ named ∷ []; lowest_internal_id = lower }) h
      (added-Distinct p k.options named h)

pub add_all-Distinct :
    (p : Settings) (news : List Addition) (k : Known)
    → Distinct p k.options
    → Distinct p (add_all p news k).options
unfolding add_all
add_all-Distinct p [] k h = h
add_all-Distinct p (a ∷ news) k h = add_all-Distinct p news (add p a k).0 (add-Distinct p a k h)

-- A comparison of texts that ignores case finds each text the same news itself.
abbrev pub Reflexive : Settings → Type 0
Reflexive p = (s : String) → p.equals_ignore_case s s ≡ true

pub equals_refl : (s : String) → equals s s ≡ true
equals_refl [] = refl
equals_refl (a ∷ s) = rw ((==_iff a a).1 refl) (equals_refl s)

same_long_refl :
    (c : CaseSensitivity) (p : Settings) (s : String) → Reflexive p → same_long c p s s ≡ true
same_long_refl case_sensitive p s h = equals_refl s
same_long_refl case_insensitive p s h = h s

passed :
    (p : Settings) (before behind : List ParserOption) (x opt : ParserOption)
    → All (Leaves p x) (before ++ opt ∷ behind)
    → empty opt.longopt ≡ false
    → long_opt_is p opt.longopt x ≡ false
passed p [] behind x opt h e = ground arith
passed p (y ∷ before) behind x opt h e = passed p before behind x opt h.1 e

-- An option is found by its own long name, whatever stands before and behind it.
pub find_if-long_opt_is :
    (p : Settings) (before behind : List ParserOption) (opt : ParserOption)
    → Reflexive p
    → Distinct p (before ++ opt ∷ behind)
    → empty opt.longopt ≡ false
    → find_if (long_opt_is p opt.longopt) (before ++ opt ∷ behind) ≡ some opt
find_if-long_opt_is p [] behind opt r h e =
    rw (same_long_refl p.case_sensitivity p opt.longopt r) refl
find_if-long_opt_is p (x ∷ before) behind opt r h e =
    rw (passed p before behind x opt h.0 e) (find_if-long_opt_is p before behind opt r h.1 e)

pub starts_with-append : (s t : String) → starts_with s (s ++ t) ≡ true
unfolding starts_with
starts_with-append s t =
    rw
      (
        take-append s t,
        equals_refl s,
        le→leb (length s) (length (s ++ t)) (omega (arith, length-append s t)),
      )
      refl

not_empty : (s t : String) → empty t ≡ false → empty (s ++ t) ≡ false
not_empty [] t h = h
not_empty (a ∷ s) t h = refl

longer : (s t : String) → empty t ≡ false → ltb (length s) (length (s ++ t)) ≡ true
longer s [] h = absurd (cc h)
longer s (b ∷ t) h =
    lt→ltb (length s) (length (s ++ b ∷ t)) (omega (arith, length-append s (b ∷ t)))

-- Whatever options were added, an option with a long name that was accepted answers to that name:
-- `getOptionID` of the name behind the prefix returns its id. The comparison that ignores case
-- finds each text the same as itself.
pub get_option_id-accepted :
    (p : Settings) (news : List Addition) (before behind : List ParserOption) (opt : ParserOption)
    → Reflexive p
    → (add_all p news created).options ≡ before ++ opt ∷ behind
    → empty opt.longopt ≡ false
    → get_option_id p (add_all p news created).options (p.long_option_prefix ++ opt.longopt)
      ≡ inr opt.id
unfolding get_option_id option_named
get_option_id-accepted p news before behind opt r h e =
    rw
      (
        not_empty p.long_option_prefix opt.longopt e,
        starts_with-append p.long_option_prefix opt.longopt,
        longer p.long_option_prefix opt.longopt e,
        drop-append p.long_option_prefix opt.longopt,
        h,
        find_if-long_opt_is p before behind opt r
            (subst (Distinct p) h (add_all-Distinct p news created tt)) e,
      )
      refl
