-- ===== src/CmdLine/Options.antt =====
-- src/blocxx/CmdLineParser.cpp: the options a parser knows, how they are found and which it accepts.
pub mod Names
use libblocxx_deb.Prelude.{
  ℕ, zero, suc, ◌+◌, Bool, true, false, List, [], ◌∷◌, ◌++◌, Option, none, some, if◌then◌else◌,
  ◌&&◌, ◌||◌, not, ltb, leb, ◌==◌, length, take, drop, get_or, is_some, ◌⊎◌, inl, inr,
}
use libblocxx_deb.Prelude.Int.{ℤ, pos, negsuc, ◌-ℤ◌}

abbrev pub String : Type 0
String = List ℕ

pub data ArgumentType : Type 0 where
  no_arg required_arg optional_arg grouping : ArgumentType

pub data CaseSensitivity : Type 0 where
  case_sensitive case_insensitive : CaseSensitivity

pub data CmdLineError : Type 0 where
  invalid_option missing_argument invalid_non_option_arg missing_option : CmdLineError

pub record ParserOption : Type 0 where
  pub id : ℤ
  pub shortopt : ℕ
  pub longopt : String
  pub argtype : ArgumentType
  pub have_default_value : Bool
  pub default_value : String
  pub description : String
  pub visible : Bool

-- The members that the constructor of a parser sets once, and what it takes from elsewhere:
-- `toupper` of the C library, and the comparison of texts that ignores the case of letters.
pub record Settings : Type 0 where
  pub short_option_prefix : ℕ
  pub long_option_prefix : String
  pub value_separator : ℕ
  pub case_sensitivity : CaseSensitivity
  pub toupper : ℕ → ℕ
  pub equals_ignore_case : String → String → Bool

abbrev pub equals : String → String → Bool
equals [] [] = true
equals [] (b ∷ t) = false
equals (a ∷ s) [] = false
equals (a ∷ s) (b ∷ t) = (a == b) && equals s t

abbrev pub empty : String → Bool
empty [] = true
empty (a ∷ s) = false

-- `s[0]`, and 0 where there is none.
abbrev pub char_at_0 : String → ℕ
char_at_0 [] = 0
char_at_0 (a ∷ s) = a

unfoldable pub starts_with : String → String → Bool
starts_with prefix s = leb (length prefix) (length s) && equals (take (length prefix) s) prefix

unfoldable pub starts_with_char : ℕ → String → Bool
starts_with_char c s = not (empty s) && (char_at_0 s == c)

abbrev pub is_grouping : ArgumentType → Bool
is_grouping no_arg = false
is_grouping required_arg = false
is_grouping optional_arg = false
is_grouping grouping = true

abbrev pub is_optional : ArgumentType → Bool
is_optional no_arg = false
is_optional required_arg = false
is_optional optional_arg = true
is_optional grouping = false

abbrev pub same_long : CaseSensitivity → Settings → String → String → Bool
same_long case_sensitive p s t = equals s t
same_long case_insensitive p s t = p.equals_ignore_case s t

abbrev pub same_short : CaseSensitivity → Settings → ℕ → ℕ → Bool
same_short case_sensitive p a b = a == b
same_short case_insensitive p a b = p.toupper a == p.toupper b

abbrev pub long_opt_is : Settings → String → ParserOption → Bool
long_opt_is p long_opt x = same_long p.case_sensitivity p long_opt x.longopt

abbrev pub short_opt_is : Settings → ℕ → ParserOption → Bool
short_opt_is p short_opt x = same_short p.case_sensitivity p short_opt x.shortopt

abbrev pub find_if {ℓ} : {A : Type ℓ} → (A → Bool) → List A → Option A
find_if p [] = none
find_if p (x ∷ xs) = if p x then some x else find_if p xs

-- A switch of one character that is also the short one.
unfoldable pub ambiguity_exists : Settings → Bool
ambiguity_exists p =
    (length p.long_option_prefix == 1) && (char_at_0 p.long_option_prefix == p.short_option_prefix)

-- The tests of `verifyOptionValidity`, in their order; each failure is an `E_INVALID_OPTION`.
unfoldable pub names_missing : ParserOption → Bool
names_missing opt =
    if not (is_grouping opt.argtype)
    then empty opt.longopt && (opt.shortopt == 0)
    else not (empty opt.longopt) || not (opt.shortopt == 0)

unfoldable pub long_taken : Settings → List ParserOption → ParserOption → Bool
long_taken p options opt =
    not (empty opt.longopt)
    && (is_some (find_if (long_opt_is p opt.longopt) options)
        || (ambiguity_exists p
            && (length opt.longopt == 1)
            && is_some (find_if (short_opt_is p (char_at_0 opt.longopt)) options)))

unfoldable pub short_taken : Settings → List ParserOption → ParserOption → Bool
short_taken p options opt =
    not (opt.shortopt == 0)
    && (is_some (find_if (short_opt_is p opt.shortopt) options)
        || (ambiguity_exists p
            && (is_some (find_if (long_opt_is p (opt.shortopt ∷ [])) options)
                || ((length opt.longopt == 1) && (char_at_0 opt.longopt == opt.shortopt)))))

unfoldable pub verify_option_validity :
    Settings → List ParserOption → ParserOption → Option CmdLineError
verify_option_validity p options opt =
    if names_missing opt
    then some invalid_option
    else if long_taken p options opt
    then some invalid_option
    else if short_taken p options opt
    then some invalid_option
    else if is_optional opt.argtype && not opt.have_default_value
    then some invalid_option
    else none

-- The options and the lowest id given so far.
pub record Known : Type 0 where
  pub options : List ParserOption
  pub lowest_internal_id : ℤ

-- An exception leaves the options as they are.
abbrev pub unless : Option CmdLineError → Known → Known → Known × Option CmdLineError
unless none before_it behind_it = (behind_it, none)
unless (some e) before_it behind_it = (before_it, some e)

unfoldable pub add_option_with_id : Settings → ParserOption → Known → Known × Option CmdLineError
add_option_with_id p opt k =
    unless (verify_option_validity p k.options opt) k (record k { options = k.options ++ opt ∷ [] })

-- `addOption` gives the option the next lower id.
unfoldable pub add_option : Settings → ParserOption → Known → Known × Option CmdLineError
add_option p opt k =
    let lower = k.lowest_internal_id -ℤ pos 1 in
    let opt_with_id = record opt { id = lower } in
    unless (verify_option_validity p k.options opt_with_id) k
      (record { options = k.options ++ opt_with_id ∷ []; lowest_internal_id = lower })

abbrev pub created : Known
created = record { options = []; lowest_internal_id = negsuc 0 }

-- A short option is looked for as well, where the switches do not tell.
abbrev pub named_again :
    Settings → List ParserOption → String → Option ParserOption → Option ParserOption
named_again p options option (some opt) = some opt
named_again p options option none =
    if ambiguity_exists p && (length option == 2)
    then find_if (short_opt_is p (get_or option 1 0)) options
    else none

-- `getOptionID`, with the prefix or without.
unfoldable pub option_named : Settings → List ParserOption → String → Option ParserOption
option_named p options option =
    if starts_with p.long_option_prefix option
    then (if ltb (length p.long_option_prefix) (length option)
        then named_again p options option
            (find_if (long_opt_is p (drop (length p.long_option_prefix) option)) options)
        else none)
    else if starts_with_char p.short_option_prefix option
    then (if length option == 2 then find_if (short_opt_is p (get_or option 1 0)) options else none)
    else if ltb 1 (length option)
    then find_if (long_opt_is p option) options
    else if length option == 1
    then find_if (short_opt_is p (char_at_0 option)) options
    else none

abbrev pub id_or_invalid : Option ParserOption → CmdLineError ⊎ ℤ
id_or_invalid none = inl invalid_option
id_or_invalid (some opt) = inr opt.id

unfoldable pub get_option_id : Settings → List ParserOption → String → CmdLineError ⊎ ℤ
get_option_id p options option =
    if empty option then inl missing_option else id_or_invalid (option_named p options option)
