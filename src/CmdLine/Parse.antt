-- ===== src/CmdLine/Parse.antt =====
-- src/blocxx/CmdLineParser.cpp: `splitArgument`, `parseCmdLine`, and what a parser is asked for
-- afterwards.
pub mod Known
pub mod RoundTrip
mod Tests
use libblocxx_deb.Prelude.{
  ℕ, zero, suc, ◌+◌, Bool, true, false, List, [], ◌∷◌, ◌++◌, Option, none, some, if◌then◌else◌,
  ◌&&◌, ◌||◌, not, ltb, ◌==◌, length, take, drop, get_or,
}
use mathlib.Core.Option
use libblocxx_deb.Prelude.Int.{ℤ}
use libblocxx_deb.Containers.Ordering.{ℤ_StrictWeak}
use libblocxx_deb.Containers.SortedVectorMap.{Entries, find, count, subscript}
use libblocxx_deb.CmdLine.Options.{
  String, CmdLineError, invalid_option, missing_argument, invalid_non_option_arg, missing_option,
  ParserOption, ArgumentType, no_arg, required_arg, optional_arg, grouping, Settings, empty,
  char_at_0, equals, starts_with, starts_with_char, is_optional, long_opt_is, short_opt_is, find_if,
  ambiguity_exists,
}

pub data OptionType : Type 0 where
  invalid_type short_type long_type : OptionType

pub record Split : Type 0 where
  pub option_type : OptionType
  pub base_option : String
  pub value : String
  pub value_attached : Bool

-- `indexOf` of a character.
abbrev pub index_of : ℕ → String → Option ℕ
index_of c [] = none
index_of c (a ∷ s) = if a == c then some 0 else Option.map suc (index_of c s)

-- The value behind the first separator, and the text before it.
abbrev pub value_at_index : String → Option ℕ → String × Bool
value_at_index option none = ([], false)
value_at_index option (some i) = (drop (suc i) option, true)

abbrev pub before_index : String → Option ℕ → String
before_index option none = option
before_index option (some i) = take i option

unfoldable pub split_name : Settings → String → OptionType × String
split_name p option_without_value =
    if starts_with p.long_option_prefix option_without_value
    then (if (length option_without_value == 2) && ambiguity_exists p
        then (short_type, take 1 (drop 1 option_without_value))
        else (long_type, drop (length p.long_option_prefix) option_without_value))
    else if starts_with_char p.short_option_prefix option_without_value
    then (short_type, take 1 (drop 1 option_without_value))
    else (invalid_type, [])

-- A short option may have its value right behind it.
abbrev pub short_value : Settings → OptionType → String → String × Bool → String × Bool
short_value p invalid_type option v = v
short_value p long_type option v = v
short_value p short_type option v =
    if ltb 2 (length option) && not (get_or option 2 0 == p.value_separator)
    then (drop 2 option, true)
    else v

unfoldable pub split_argument : Settings → String → Split
split_argument p option =
    let value_index = index_of p.value_separator option in
    let name = split_name p (before_index option value_index) in
    let value = short_value p name.0 option (value_at_index option value_index) in
    record { option_type = name.0; base_option = name.1; value = value.0; value_attached = value.1 }

-- Not an option, an option that is not defined, or the option.
pub data Found : Type 0 where
  non_option undefined : Found
  defined : ParserOption → Found

abbrev pub found : Option ParserOption → Found
found none = undefined
found (some opt) = defined opt

abbrev pub found_short : Settings → List ParserOption → String → Option ParserOption → Found
found_short p options base none =
    if ambiguity_exists p then found (find_if (long_opt_is p base) options) else undefined
found_short p options base (some opt) = defined opt

abbrev pub find_option : Settings → List ParserOption → OptionType → String → Found
find_option p options invalid_type base = non_option
find_option p options long_type base =
    if empty base then non_option else found (find_if (long_opt_is p base) options)
find_option p options short_type base =
    if empty base
    then non_option
    else found_short p options base (find_if (short_opt_is p (char_at_0 base)) options)

-- What the parser has read.
pub record Parsed : Type 0 where
  pub parsed_options : Entries ℤ (List String)
  pub non_option_args : List String

-- One turn of the loop: an exception, the next argument, or the one after that.
pub data Turn : Type 0 where
  stopped : CmdLineError → Parsed → Turn
  kept : Parsed → Turn
  took_next : Parsed → Turn

abbrev pub touch : ℤ → Parsed → Parsed
touch id st = record st { parsed_options = subscript id [] (λ values. values) st.parsed_options }

abbrev pub push_value : ℤ → String → Parsed → Parsed
push_value id value st = record st {
  parsed_options = subscript id [] (λ values. values ++ value ∷ []) st.parsed_options;
}

abbrev pub default_value_for : ParserOption → Parsed → Turn
default_value_for opt st =
    if is_optional opt.argtype && opt.have_default_value
    then kept (push_value opt.id opt.default_value st)
    else stopped missing_argument st

unfoldable pub use_next : Settings → String → Bool
use_next p next =
    equals next (p.short_option_prefix ∷ [])
    || (not (starts_with p.long_option_prefix next)
        && not (starts_with_char p.short_option_prefix next))

abbrev pub take_value : Settings → ParserOption → String → Bool → Option String → Parsed → Turn
take_value p opt value true next st = kept (push_value opt.id value st)
take_value p opt value false none st = default_value_for opt st
take_value p opt value false (some next) st =
    if use_next p next then took_next (push_value opt.id next st) else default_value_for opt st

abbrev pub is_no_arg : ArgumentType → Bool
is_no_arg no_arg = true
is_no_arg required_arg = false
is_no_arg optional_arg = false
is_no_arg grouping = false

abbrev pub accept : Settings → Bool → String → Split → Option String → Parsed → Found → Turn
accept p non_options_allowed arg split next st non_option =
    if non_options_allowed
    then kept (record st { non_option_args = st.non_option_args ++ arg ∷ [] })
    else stopped invalid_non_option_arg st
accept p non_options_allowed arg split next st undefined = stopped invalid_option st
accept p non_options_allowed arg split next st (defined opt) =
    if is_no_arg opt.argtype
    then (if split.value_attached then stopped invalid_option st else kept (touch opt.id st))
    else take_value p opt split.value split.value_attached next st

unfoldable pub examine :
    Settings → Bool → List ParserOption → String → Option String → Parsed → Turn
examine p non_options_allowed options arg next st =
    let split = split_argument p arg in
    accept p non_options_allowed arg split next st
      (find_option p options split.option_type split.base_option)

-- On to the next turn; an exception leaves what was read before it.
abbrev pub go_on :
    Turn
    → (Parsed → Parsed × Option CmdLineError)
    → (Parsed → Parsed × Option CmdLineError)
    → Parsed × Option CmdLineError
go_on (stopped e st) from_next behind_next = (st, some e)
go_on (kept st) from_next behind_next = from_next st
go_on (took_next st) from_next behind_next = behind_next st

-- The arguments from one on.
unfoldable pub parse_from :
    Settings → Bool → List ParserOption → List String → Parsed → Parsed × Option CmdLineError
parse_from p allow options [] st = (st, none)
parse_from p allow options (arg ∷ []) st =
    go_on (examine p allow options arg none st) (λ st'. (st', none)) (λ st'. (st', none))
parse_from p allow options (arg ∷ next ∷ args) st =
    go_on (examine p allow options arg (some next) st)
      (λ st'. parse_from p allow options (next ∷ args) st')
      (λ st'. parse_from p allow options args st')

abbrev pub cleared : Parsed
cleared = record { parsed_options = []; non_option_args = [] }

-- The first argument is the name of the program.
unfoldable pub parse_cmd_line :
    Settings → Bool → List ParserOption → List String → Parsed × Option CmdLineError
parse_cmd_line p allow options argv = parse_from p allow options (drop 1 argv) cleared

-- `getOptionValueList`; no values for an option that is not set.
abbrev pub values_or_none : Option (List String) → List String
values_or_none none = []
values_or_none (some values) = values

unfoldable pub get_option_value_list : Parsed → ℤ → List String
get_option_value_list st id = values_or_none (find id st.parsed_options)

-- `getOptionValue`: the last of the values.
abbrev pub last_or : String → List String → String
last_or d [] = d
last_or d (v ∷ values) = last_or v values

unfoldable pub get_option_value : Parsed → ℤ → String → String
get_option_value st id default_value = last_or default_value (get_option_value_list st id)

unfoldable pub must_get_option_value_list : Parsed → ℤ → Option CmdLineError × List String
must_get_option_value_list st id =
    let values = get_option_value_list st id in
    if length values == 0 then (some missing_option, []) else (none, values)

unfoldable pub is_set : Parsed → ℤ → Bool
is_set st id = ltb 0 (count id st.parsed_options)
