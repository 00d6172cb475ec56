-- ===== src/CmdLine/Usage/Tests.antt =====
-- The usage text of an option, on a wide and on a narrow page.
use libblocxx_deb.Prelude.{
  ◌≡◌, refl, true, false, [], ◌∷◌, ◌++◌, none, some, is_some, arith, replicate, suc,
}
use libblocxx_deb.Prelude.Int.{pos}
use libblocxx_deb.CmdLine.Options.{ParserOption, Settings, case_sensitive, required_arg, equals}
use libblocxx_deb.CmdLine.Usage.{
  get_usage, wrap, option_line, turns, option_spaces, cut, too_long, last_index_of,
}
use libblocxx_deb.CmdLine.Usage.Wrapping.{get_usage-Ends}
use libblocxx_deb.CmdLine.Usage.Widths.{wrap-Never}

abbrev usual : Settings
usual = record {
  short_option_prefix = 45;
  long_option_prefix = 45 ∷ 45 ∷ [];
  value_separator = 61;
  case_sensitivity = case_sensitive;
  toupper = λ c. c;
  equals_ignore_case = equals;
}

-- "  -o, --out <arg>", and behind the gap eight letters, an end of line and a letter.
abbrev out_option : ParserOption
out_option = record {
  id = pos 2;
  shortopt = 111;
  longopt = 111 ∷ 117 ∷ 116 ∷ [];
  argtype = required_arg;
  have_default_value = false;
  default_value = [];
  description = replicate 8 120 ++ 10 ∷ 121 ∷ [];
  visible = true;
}

-- The line is cut at the column and at its end, and goes on behind 28 spaces.
wrap_out :
    wrap
      (suc (turns (option_line usual out_option)))
      32
      option_spaces
      (option_line usual out_option)
    ≡ some (
        (32
            ∷ 32
            ∷ 45
            ∷ 111
            ∷ 44
            ∷ 32
            ∷ 45
            ∷ 45
            ∷ 111
            ∷ 117
            ∷ 116
            ∷ 32
            ∷ 60
            ∷ 97
            ∷ 114
            ∷ 103
            ∷ 62
            ∷ replicate 11 32
          ++ replicate 4 120)
        ∷ (replicate 28 32 ++ replicate 4 120)
        ∷ (replicate 28 32 ++ 121 ∷ [])
        ∷ [])
unfolding wrap cut too_long last_index_of option_line
wrap_out = refl

get_usage-Ends_example : is_some (get_usage 32 false usual (out_option ∷ [])) ≡ true
get_usage-Ends_example = get_usage-Ends 32 false usual (out_option ∷ []) (omega arith)

wrap-Never_example : wrap 1000 20 option_spaces (32 ∷ replicate 30 120) ≡ none
wrap-Never_example = wrap-Never 1000 20 (replicate 30 120) (omega arith) (omega arith) refl
