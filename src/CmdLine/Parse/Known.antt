-- ===== src/CmdLine/Parse/Known.antt =====
-- The ids that a parsed command line sets.
use libblocxx_deb.Prelude.{
  ◌≡◌, refl, Bool, true, false, List, [], ◌∷◌, ◌++◌, Option, none, some, if◌then◌else◌, ◌&&◌,
  is_some, arith, Bool-cases, inl, inr, drop,
}
use libblocxx_deb.Prelude.Int.{ℤ}
use libblocxx_deb.Containers.Ordering.{ℤ_StrictWeak, equivalent}
use libblocxx_deb.Containers.SortedVectorMap.{Entries, find, subscript}
use libblocxx_deb.Containers.SortedVectorMap.Lookup.{find-subscript, find-nil}
use libblocxx_deb.Containers.SortedVectorMap.Counts.{counts_agree}
use libblocxx_deb.CmdLine.Options.{
  String, CmdLineError, missing_argument, invalid_option, is_optional, ParserOption, Settings,
  find_if, ambiguity_exists, long_opt_is, short_opt_is,
}
use libblocxx_deb.CmdLine.Parse.{
  Split, OptionType, short_type, long_type, invalid_type, Found, non_option, undefined, defined,
  found, found_short, find_option, Parsed, Turn, stopped, kept, took_next, touch, push_value,
  default_value_for, take_value, accept, examine, split_argument, go_on, parse_from, parse_cmd_line,
  cleared, is_set, use_next, is_no_arg,
}

-- `getOptionByID` finds an option.
abbrev pub has_id : List ParserOption → ℤ → Bool
has_id options id = is_some (find_if (λ x. equivalent id x.id) options)

abbrev Ids : List ParserOption → Entries ℤ (List String) → Type 0
Ids options m = (j : ℤ) → is_some (find j m) ≡ true → has_id options j ≡ true

-- All ids that are the same as one.
abbrev Names : List ParserOption → ℤ → Type 0
Names options k = (j : ℤ) → equivalent j k ≡ true → has_id options j ≡ true

Ids-subscript :
    (options : List ParserOption) (k : ℤ) (f : List String → List String)
    (m : Entries ℤ (List String))
    → Names options k
    → Ids options m
    → Ids options (subscript k [] f m)
Ids-subscript options k f m h v j s = ground (arith, find-subscript j k [] f m, h j, v j)

named_there :
    (options : List ParserOption) (x : ParserOption) (j : ℤ)
    → has_id options j ≡ true
    → has_id (x ∷ options) j ≡ true
named_there options x j h = elim (Bool-cases (equivalent j x.id)) [
  | inl same ↦ rw same refl
  | inr other ↦ rw other h
]

named_here :
    (options : List ParserOption) (x opt : ParserOption) (j : ℤ)
    → x ≡ opt
    → equivalent j opt.id ≡ true
    → has_id (x ∷ options) j ≡ true
named_here options x opt j s h = rw (s, h) refl

find_if-Names :
    (q : ParserOption → Bool) (options : List ParserOption) (opt : ParserOption)
    → find_if q options ≡ some opt
    → Names options opt.id
find_if-Names q [] opt h j e = absurd (cc h)
find_if-Names q (x ∷ options) opt h j e = elim (Bool-cases (q x)) [
  | inl here ↦ named_here options x opt j (cc (h, here)) e
  | inr there ↦ named_there options x j (find_if-Names q options opt (cc (h, there)) j e)
]

abbrev Finds : List ParserOption → Found → Type 0
Finds options non_option = Unit
Finds options undefined = Unit
Finds options (defined opt) = Names options opt.id

found-Finds :
    (options : List ParserOption) (q : ParserOption → Bool) (o : Option ParserOption)
    → find_if q options ≡ o
    → Finds options (found o)
found-Finds options q none h = tt
found-Finds options q (some opt) h = find_if-Names q options opt h

found_short-Finds :
    (p : Settings) (options : List ParserOption) (base : String) (q : ParserOption → Bool)
    (o : Option ParserOption)
    → find_if q options ≡ o
    → Finds options (found_short p options base o)
found_short-Finds p options base q none h = elim (Bool-cases (ambiguity_exists p)) [
  | inl also ↦ rw also (found-Finds options (long_opt_is p base) _ refl)
  | inr never ↦ rw never tt
]
found_short-Finds p options base q (some opt) h = find_if-Names q options opt h

find_option-Finds :
    (p : Settings) (options : List ParserOption) (t : OptionType) (base : String)
    → Finds options (find_option p options t base)
find_option-Finds p options invalid_type base = tt
find_option-Finds p options short_type [] = tt
find_option-Finds p options short_type (c ∷ base) =
    found_short-Finds p options (c ∷ base) (short_opt_is p c) _ refl
find_option-Finds p options long_type [] = tt
find_option-Finds p options long_type (c ∷ base) =
    found-Finds options (long_opt_is p (c ∷ base)) _ refl

abbrev state : Turn → Parsed
state (stopped e st) = st
state (kept st) = st
state (took_next st) = st

if-Ids :
    (options : List ParserOption) (b : Bool) (t u : Turn)
    → Ids options (state t).parsed_options
    → Ids options (state u).parsed_options
    → Ids options (state (if b then t else u)).parsed_options
if-Ids options true t u h k = h
if-Ids options false t u h k = k

push_value-Ids :
    (options : List ParserOption) (k : ℤ) (value : String) (st : Parsed)
    → Names options k
    → Ids options st.parsed_options
    → Ids options (push_value k value st).parsed_options
push_value-Ids options k value st =
    Ids-subscript options k (λ values. values ++ value ∷ []) st.parsed_options

default_value_for-Ids :
    (options : List ParserOption) (opt : ParserOption) (st : Parsed)
    → Names options opt.id
    → Ids options st.parsed_options
    → Ids options (state (default_value_for opt st)).parsed_options
default_value_for-Ids options opt st h v =
    if-Ids options (is_optional opt.argtype && opt.have_default_value)
      (kept (push_value opt.id opt.default_value st)) (stopped missing_argument st)
      (push_value-Ids options opt.id opt.default_value st h v) v

take_value-Ids :
    (p : Settings) (options : List ParserOption) (opt : ParserOption) (value : String)
    (attached : Bool) (next : Option String) (st : Parsed)
    → Names options opt.id
    → Ids options st.parsed_options
    → Ids options (state (take_value p opt value attached next st)).parsed_options
take_value-Ids p options opt value true next st h v = push_value-Ids options opt.id value st h v
take_value-Ids p options opt value false none st h v = default_value_for-Ids options opt st h v
take_value-Ids p options opt value false (some next) st h v =
    if-Ids options (use_next p next) (took_next (push_value opt.id next st))
      (default_value_for opt st) (push_value-Ids options opt.id next st h v)
      (default_value_for-Ids options opt st h v)

accept-Ids :
    (p : Settings) (allow : Bool) (options : List ParserOption) (arg : String) (split : Split)
    (next : Option String) (st : Parsed) (f : Found)
    → Finds options f
    → Ids options st.parsed_options
    → Ids options (state (accept p allow arg split next st f)).parsed_options
accept-Ids p true options arg split next st non_option h v = v
accept-Ids p false options arg split next st non_option h v = v
accept-Ids p allow options arg split next st undefined h v = v
accept-Ids p allow options arg split next st (defined opt) h v =
    if-Ids options (is_no_arg opt.argtype)
      (if split.value_attached then stopped invalid_option st else kept (touch opt.id st))
      (take_value p opt split.value split.value_attached next st)
      (if-Ids options split.value_attached (stopped invalid_option st) (kept (touch opt.id st)) v
        (Ids-subscript options opt.id (λ values. values) st.parsed_options h v))
      (take_value-Ids p options opt split.value split.value_attached next st h v)

examine-Ids :
    (p : Settings) (allow : Bool) (options : List ParserOption) (arg : String)
    (next : Option String) (st : Parsed)
    → Ids options st.parsed_options
    → Ids options (state (examine p allow options arg next st)).parsed_options
unfolding examine
examine-Ids p allow options arg next st =
    let split = split_argument p arg in
    accept-Ids p allow options arg split next st
      (find_option p options split.option_type split.base_option)
      (find_option-Finds p options split.option_type split.base_option)

go_on-Ids :
    (options : List ParserOption) (t : Turn) (f g : Parsed → Parsed × Option CmdLineError)
    → Ids options (state t).parsed_options
    → ((st : Parsed) → Ids options st.parsed_options → Ids options (f st).0.parsed_options)
    → ((st : Parsed) → Ids options st.parsed_options → Ids options (g st).0.parsed_options)
    → Ids options (go_on t f g).0.parsed_options
go_on-Ids options (stopped e st) f g v h k = v
go_on-Ids options (kept st) f g v h k = h st v
go_on-Ids options (took_next st) f g v h k = k st v

parse_from-Ids :
    (p : Settings) (allow : Bool) (options : List ParserOption) (args : List String) (st : Parsed)
    → Ids options st.parsed_options
    → Ids options (parse_from p allow options args st).0.parsed_options
unfolding parse_from
parse_from-Ids p allow options [] st v = v
parse_from-Ids p allow options (arg ∷ []) st v =
    go_on-Ids options (examine p allow options arg none st) (λ st'. (st', none))
      (λ st'. (st', none)) (examine-Ids p allow options arg none st v) (λ st' w. w) (λ st' w. w)
parse_from-Ids p allow options (arg ∷ next ∷ args) st v =
    go_on-Ids options (examine p allow options arg (some next) st)
      (λ st'. parse_from p allow options (next ∷ args) st')
      (λ st'. parse_from p allow options args st')
      (examine-Ids p allow options arg (some next) st v)
      (parse_from-Ids p allow options (next ∷ args)) (parse_from-Ids p allow options args)

-- An id that is set after a command line was parsed, also one that an exception cut short, is the id
-- of an option that the parser knows.
pub is_set-parse_cmd_line :
    (p : Settings) (allow : Bool) (options : List ParserOption) (argv : List String) (id : ℤ)
    → is_set (parse_cmd_line p allow options argv).0 id ≡ true
    → has_id options id ≡ true
unfolding is_set parse_cmd_line
is_set-parse_cmd_line p allow options argv id h =
    let st = parse_from p allow options (drop 1 argv) cleared in
    parse_from-Ids p allow options (drop 1 argv) cleared
      (λ j s. absurd (ground (arith, find-nil {V = List String} j))) id
      (ground (arith, counts_agree id [] st.0.parsed_options))
