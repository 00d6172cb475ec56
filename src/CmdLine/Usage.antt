-- ===== src/CmdLine/Usage.antt =====
-- src/blocxx/CmdLineParser.cpp: `getUsage`, and the wrapping of its lines. `none` stands for a loop
-- that has not come to its end.
pub mod Wrapping
pub mod Widths
mod Tests
use libblocxx_deb.Prelude.{
  ℕ, zero, suc, ◌+◌, ◌-◌, ◌*◌, Bool, true, false, List, [], ◌∷◌, ◌++◌, Option, none, some,
  if◌then◌else◌, ◌&&◌, ◌||◌, not, ltb, leb, ◌==◌, length, take, drop, is_some, replicate,
}
use mathlib.Core.Option
use libblocxx_deb.CmdLine.Options.{
  String, ArgumentType, no_arg, required_arg, optional_arg, grouping, is_grouping, ParserOption,
  Settings, empty,
}
use libblocxx_deb.CmdLine.Parse.{index_of}

-- `lastIndexOf` of a character, from an index on backwards; none where the index is past the end.
abbrev pub last_index : ℕ → String → Option ℕ
last_index c [] = none
last_index c (a ∷ s) = elim (last_index c s) [
  | none ↦ if a == c then some 0 else none
  | some i ↦ some (suc i)
]

unfoldable pub last_index_of : ℕ → ℕ → String → Option ℕ
last_index_of c from s = if ltb from (length s) then last_index c (take (suc from) s) else none

abbrev pub option_spaces : String
option_spaces = replicate 28 32

abbrev pub initial_indent : String
initial_indent = 32 ∷ 32 ∷ []

-- Where a line is cut, and where the next one begins. An index that is none is larger than each
-- number: the whole line is cut out, and begins the next one as well.
abbrev pub cut_at_space : ℕ → String → Option ℕ → ℕ × ℕ
cut_at_space max_columns line none = (length line, 0)
cut_at_space max_columns line (some j) = if ltb 28 j then (j, suc j) else (max_columns, max_columns)

abbrev pub cut_at : ℕ → String → Option ℕ → Option ℕ → ℕ × ℕ
cut_at max_columns line none last_space_idx = cut_at_space max_columns line last_space_idx
cut_at max_columns line (some newline_idx) last_space_idx =
    if leb newline_idx max_columns
    then (newline_idx, suc newline_idx)
    else cut_at_space max_columns line last_space_idx

unfoldable pub cut : ℕ → String → ℕ × ℕ
cut max_columns line =
    cut_at max_columns line (index_of 10 line) (last_index_of 32 max_columns line)

unfoldable pub too_long : ℕ → String → Bool
too_long max_columns line = ltb max_columns (length line) || is_some (index_of 10 line)

-- The loop that wraps a line, as the lines that it writes.
unfoldable pub wrap : ℕ → ℕ → String → String → Option (List String)
wrap zero max_columns spaces line = none
wrap (suc fuel) max_columns spaces line =
    let rest = wrap fuel max_columns spaces (spaces ++ drop (cut max_columns line).1 line) in
    if too_long max_columns line
    then Option.map (λ ls. take (cut max_columns line).0 line ∷ ls) rest
    else some (line ∷ [])

abbrev pub newlines : String → ℕ
newlines [] = 0
newlines (a ∷ s) = if a == 10 then suc (newlines s) else newlines s

-- One turn for each character, and 29 for each end of line in it.
abbrev pub turns : String → ℕ
turns line = length line + 29 * newlines line

-- The line of an option before it is wrapped.
abbrev pub names_column : Settings → ParserOption → String
names_column p opt =
    initial_indent
    ++ (if opt.shortopt == 0
        then []
        else p.short_option_prefix
          ∷ opt.shortopt
          ∷ (if empty opt.longopt then [] else 44 ∷ 32 ∷ []))
    ++ (if empty opt.longopt then [] else p.long_option_prefix ++ opt.longopt)

-- " <arg>" and " [arg]".
abbrev pub arg_column : ArgumentType → String
arg_column no_arg = []
arg_column required_arg = 32 ∷ 60 ∷ 97 ∷ 114 ∷ 103 ∷ 62 ∷ []
arg_column optional_arg = 32 ∷ 91 ∷ 97 ∷ 114 ∷ 103 ∷ 93 ∷ []
arg_column grouping = []

abbrev pub gap : ArgumentType → String → String
gap argtype line =
    if is_grouping argtype
    then []
    else take (if leb 27 (length line) then 1 else 28 - length line) option_spaces

-- " (default is ", the value, in quotes where it has a space, and ")".
abbrev pub default_column : ParserOption → String
default_column opt =
    let quote = if is_some (index_of 32 opt.default_value) then 34 ∷ [] else [] in
    if opt.have_default_value
    then 32 ∷ 40 ∷ 100 ∷ 101 ∷ 102 ∷ 97 ∷ 117 ∷ 108 ∷ 116 ∷ 32 ∷ 105 ∷ 115 ∷ 32 ∷ []
      ++ quote
      ++ opt.default_value
      ++ quote
      ++ 41 ∷ []
    else []

unfoldable pub option_line : Settings → ParserOption → String
option_line p opt =
    let line = names_column p opt ++ arg_column opt.argtype in
    line ++ gap opt.argtype line ++ opt.description ++ default_column opt

abbrev pub indent : ArgumentType → String
indent argtype = if is_grouping argtype then initial_indent else option_spaces

-- Each line with its end.
abbrev pub written : List String → String
written [] = []
written (l ∷ ls) = l ++ 10 ∷ written ls

abbrev pub option_usage : ℕ → Settings → ParserOption → Option String
option_usage max_columns p opt =
    let line = option_line p opt in
    let grouping_newline = if is_grouping opt.argtype then 10 ∷ [] else [] in
    Option.map (λ ls. grouping_newline ++ written ls ++ grouping_newline)
      (wrap (suc (turns line)) max_columns (indent opt.argtype) line)

abbrev pub both : Option String → Option String → Option String
both none u = none
both (some t) none = none
both (some t) (some u) = some (t ++ u)

abbrev pub options_usage : ℕ → Bool → Settings → List ParserOption → Option String
options_usage max_columns show_all p [] = some []
options_usage max_columns show_all p (opt ∷ options) =
    let rest = options_usage max_columns show_all p options in
    if not opt.visible && not show_all then rest else both (option_usage max_columns p opt) rest

-- "Options:" is the first line.
unfoldable pub get_usage : ℕ → Bool → Settings → List ParserOption → Option String
get_usage max_columns show_all p options =
    Option.map (λ usage. 79 ∷ 112 ∷ 116 ∷ 105 ∷ 111 ∷ 110 ∷ 115 ∷ 58 ∷ 10 ∷ usage)
      (options_usage max_columns show_all p options)
