-- ===== src/LogPattern/Tests.antt =====
-- A pattern with a date, a literal that is escaped and a component, and messages that are written.
use libblocxx_deb.Prelude.{
  ◌≤◌, ◌≡◌, refl, true, false, List, [], ◌∷◌, ◌++◌, none, some, arith, length, is_some,
}
use libblocxx_deb.Prelude.Int.{pos}
use libblocxx_deb.CmdLine.Options.{String, equals}
use libblocxx_deb.LogPattern.Converters.{
  left_justify, right_justify, Formatting, new_formatting, LogMessage, Context, component_converter,
  message_converter, xml_message_converter, formatted, format_message, cdata_end,
}
use libblocxx_deb.LogPattern.Laws.{formatted-Fits, format_message-Ends}
use libblocxx_deb.LogPattern.Options.{Services, ok, converter_for, has_option, get_precision}
use libblocxx_deb.LogPattern.Parser.{parse, parse_loop, start, isdigit}
use libblocxx_deb.LogPattern.Parser.Ends.{parse-Ends, parse_loop-Never}
use libblocxx_deb.LogPattern.Parser.Pieces.{Field, Piece, words, field, render, Renders}
use libblocxx_deb.LogPattern.Parser.RoundTrip.{converters_from, parse-render}

-- No number is found in a text, and each precision is 2.
abbrev services : Services
services = record {
  strtol_16 = λ s. record { word = 0; taken = 0; out_of_range = false };
  to_uint32 = λ s. some 2;
  equals_ignore_case = equals;
}

-- "%-12.30c{2}".
abbrev component_field : Field
component_field = record {
  to_left = true;
  min_digits = b'1' ∷ b'2' ∷ [];
  max_digits = b'3' ∷ b'0' ∷ [];
  letter = b'c';
  option = some (b'2' ∷ []);
  converter =
      component_converter
        (record { min_width = pos 12; max_width = 30; justification = left_justify }) (pos 2);
}

abbrev message_field : Field
message_field = record {
  to_left = false;
  min_digits = [];
  max_digits = [];
  letter = b'm';
  option = none;
  converter = message_converter new_formatting;
}

-- "%-12.30c{2}", then "%:" with its '%' doubled, then "%m".
abbrev pieces : List Piece
pieces = field component_field ∷ words (b'%' ∷ b':' ∷ []) ∷ field message_field ∷ []

component_field-Renders : Renders services component_field
unfolding converter_for has_option get_precision isdigit
component_field-Renders = record {
  known = refl;
  letter_fits = record {
    no_percent = refl;
    no_newline = refl;
    no_minus = refl;
    no_dot = refl;
    no_digit = refl;
  };
  option_fits = refl;
  unbroken = refl;
  min_digits_fit = (refl, (refl, tt));
  max_digits_fit = (refl, (refl, tt));
  min_fits = omega arith;
  max_fits = omega arith;
}

message_field-Renders : Renders services message_field
unfolding converter_for has_option isdigit
message_field-Renders = record {
  known = refl;
  letter_fits = record {
    no_percent = refl;
    no_newline = refl;
    no_minus = refl;
    no_dot = refl;
    no_digit = refl;
  };
  option_fits = refl;
  unbroken = tt;
  min_digits_fit = tt;
  max_digits_fit = tt;
  min_fits = omega arith;
  max_fits = omega arith;
}

parse-render_example : parse services (render pieces) ≡ some (ok (converters_from [] [] pieces))
parse-render_example =
    parse-render services pieces (component_field-Renders, (tt, (message_field-Renders, tt)))

-- "%m{x} and %5".
abbrev closed_pattern : String
closed_pattern = b'%' ∷ b'm' ∷ b'{' ∷ b'x' ∷ b'}' ∷ b' ' ∷ b'%' ∷ b'5' ∷ []

parse-Ends_example : is_some (parse services closed_pattern) ≡ true
parse-Ends_example = parse-Ends services closed_pattern refl

-- "%d{H" is parsed for ever.
parse_loop-Never_example :
    parse_loop 1000 services
      (b'%' ∷ b'd' ∷ b'{' ∷ b'H' ∷ [])
      (record (start (b'%' ∷ b'd' ∷ b'{' ∷ b'H' ∷ [])) { converters = [] })
    ≡ none
parse_loop-Never_example = parse_loop-Never 1000 services (b'H' ∷ []) [] refl

abbrev narrow : Formatting
narrow = record { min_width = pos 2; max_width = 3; justification = right_justify }

formatted-Fits_example :
    (2 ≤ length (formatted narrow (b'a' ∷ b'b' ∷ b'c' ∷ b'd' ∷ [])))
    × (length (formatted narrow (b'a' ∷ b'b' ∷ b'c' ∷ b'd' ∷ [])) ≤ 3)
formatted-Fits_example =
    formatted-Fits narrow (b'a' ∷ b'b' ∷ b'c' ∷ b'd' ∷ []) (omega arith) (omega arith)

-- "x]]>y".
abbrev marked : String
marked = b'x' ∷ cdata_end ++ b'y' ∷ []

abbrev log_message : LogMessage
log_message = record {
  component = b'.' ∷ b'a' ∷ b'.' ∷ b'b' ∷ [];
  category = [];
  message = marked;
  filename = none;
  fileline = pos 0;
  methodname = none;
}

abbrev context : Context
context = record {
  decimal = λ n. [];
  current_thread = 1;
  getpid = 2;
  now_seconds = 3;
  now_microsecond = 4000;
  start_millis = 5;
  strftime = λ format. format;
}

format_message-Ends_example :
    is_some (format_message context log_message (xml_message_converter narrow ∷ [])) ≡ true
format_message-Ends_example =
    format_message-Ends context log_message (xml_message_converter narrow ∷ [])
