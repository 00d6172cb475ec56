-- ===== src/CmdLine/Parse/Tests.antt =====
-- Command lines of a parser with two options.
use libblocxx_deb.Prelude.{◌≡◌, refl, true, false, List, [], ◌∷◌, none, some, map, inr}
use libblocxx_deb.Prelude.Int.{pos}
use libblocxx_deb.Containers.SortedVectorMap.{lower_bound, subscript, find, count}
use libblocxx_deb.CmdLine.Options.{
  String, ParserOption, Settings, case_sensitive, no_arg, required_arg, missing_argument, equals,
  created, add_option_with_id, verify_option_validity, names_missing, long_taken, short_taken,
  ambiguity_exists, get_option_id, starts_with, starts_with_char,
}
use libblocxx_deb.CmdLine.Options.Names.{
  Addition, with_id, add_all, equals_refl, get_option_id-accepted,
}
use libblocxx_deb.CmdLine.Parse.{
  parse_cmd_line, parse_from, examine, split_argument, split_name, use_next, get_option_value_list,
  is_set,
}
use libblocxx_deb.CmdLine.Parse.RoundTrip.{Setting, Renders, render, parse_cmd_line-render}

-- "-", "--" and "=".
abbrev usual : Settings
usual = record {
  short_option_prefix = 45;
  long_option_prefix = 45 ∷ 45 ∷ [];
  value_separator = 61;
  case_sensitivity = case_sensitive;
  toupper = λ c. c;
  equals_ignore_case = equals;
}

-- "-v" and "--all", with no value; "-o" and "--out", with one.
abbrev all_option : ParserOption
all_option = record {
  id = pos 1;
  shortopt = 118;
  longopt = 97 ∷ 108 ∷ 108 ∷ [];
  argtype = no_arg;
  have_default_value = false;
  default_value = [];
  description = [];
  visible = true;
}

abbrev out_option : ParserOption
out_option = record {
  id = pos 2;
  shortopt = 111;
  longopt = 111 ∷ 117 ∷ 116 ∷ [];
  argtype = required_arg;
  have_default_value = false;
  default_value = [];
  description = [];
  visible = true;
}

abbrev options : List ParserOption
options = all_option ∷ out_option ∷ []

abbrev additions : List Addition
additions = with_id all_option ∷ with_id out_option ∷ with_id all_option ∷ []

-- The second option of a name is refused.
options_added : (add_all usual additions created).options ≡ options
unfolding add_all add_option_with_id verify_option_validity names_missing long_taken short_taken
    ambiguity_exists
options_added = refl

-- "x -v -o a --out=b" sets both, and the values come in their order.
parse_both :
    get_option_value_list
      (parse_cmd_line usual false options (
        (120 ∷ [])
        ∷ (45 ∷ 118 ∷ [])
        ∷ (45 ∷ 111 ∷ [])
        ∷ (97 ∷ [])
        ∷ (45 ∷ 45 ∷ 111 ∷ 117 ∷ 116 ∷ 61 ∷ 98 ∷ [])
        ∷ [])).0
      (pos 2)
    ≡ (97 ∷ []) ∷ (98 ∷ []) ∷ []
unfolding get_option_value_list parse_cmd_line parse_from examine split_argument split_name use_next
    starts_with starts_with_char ambiguity_exists subscript lower_bound find
parse_both = refl

-- "x --out": the value is missing.
parse_missing :
    (parse_cmd_line usual false options ((120 ∷ []) ∷ (45 ∷ 45 ∷ 111 ∷ 117 ∷ 116 ∷ []) ∷ [])).1
    ≡ some missing_argument
unfolding parse_cmd_line parse_from examine split_argument split_name starts_with starts_with_char
parse_missing = refl

get_option_id-accepted_example :
    get_option_id usual (add_all usual additions created).options (45 ∷ 45 ∷ 111 ∷ 117 ∷ 116 ∷ [])
    ≡ inr (pos 2)
get_option_id-accepted_example =
    get_option_id-accepted usual additions (all_option ∷ []) [] out_option equals_refl options_added
      refl

-- "x -v".
abbrev argv : List String
argv = (120 ∷ []) ∷ (45 ∷ 118 ∷ []) ∷ []

is_set_all : is_set (parse_cmd_line usual true options argv).0 (pos 1) ≡ true
unfolding is_set parse_cmd_line parse_from examine split_argument split_name starts_with
    starts_with_char subscript lower_bound count
is_set_all = refl

abbrev out_a : Setting
out_a = record { opt = out_option; value = 97 ∷ [] }

abbrev out_b : Setting
out_b = record { opt = out_option; value = 61 ∷ [] }

out-Renders : (value : String) → Renders usual options (record { opt = out_option; value = value })
unfolding ambiguity_exists
out-Renders value = record {
  known = refl;
  takes_value = refl;
  named = refl;
  unseparated = refl;
  unambiguous = refl;
}

parse_cmd_line-render_example :
    ((parse_cmd_line usual false options ([] ∷ map (render usual) (out_a ∷ out_b ∷ []))).1 ≡ none)
    × ((parse_cmd_line usual false options
          ([] ∷ map (render usual) (out_a ∷ out_b ∷ []))).0.non_option_args
        ≡ [])
    × (get_option_value_list
          (parse_cmd_line usual false options ([] ∷ map (render usual) (out_a ∷ out_b ∷ []))).0
          (pos 2)
        ≡ (97 ∷ []) ∷ (61 ∷ []) ∷ [])
parse_cmd_line-render_example =
    parse_cmd_line-render usual false options [] (out_a ∷ out_b ∷ []) (pos 2)
      (out-Renders (97 ∷ []), (out-Renders (61 ∷ []), tt))
