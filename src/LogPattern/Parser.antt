-- ===== src/LogPattern/Parser.antt =====
-- src/blocxx/LogMessagePatternFormatter.cpp: the parser of patterns. The index `i` is kept as the
-- characters of the pattern from there on.
pub mod Ends
pub mod Fields
pub mod Moves
pub mod Pieces
pub mod RoundTrip
use libblocxx_deb.Prelude.{
  ℕ, zero, suc, ◌+◌, ◌-◌, ◌*◌, ◌%◌, ◌^◌, Bool, List, [], ◌∷◌, ◌++◌, Option, none, some,
  if◌then◌else◌, ◌&&◌, ◌||◌, ltb, leb, ◌==◌, length, drop,
}
use libblocxx_deb.Prelude.Int.{pos}
use libblocxx_deb.CmdLine.Options.{String}
use libblocxx_deb.LogPattern.Converters.{
  Formatting, new_formatting, left_justify, least, Converter, literal,
}
use libblocxx_deb.LogPattern.Options.{
  no_digit_after_dot, Outcome, ok, throws, overflows, ◌>>=◌, Hex, Services, option_of,
  converter_for,
}

pub data ParserState : Type 0 where
  literal_state converter_state dot_state min_state max_state : ParserState

-- The members of the parser, and the converters so far.
pub record Parsing : Type 0 where
  pub rest : String
  pub state : ParserState
  pub text : String
  pub formatting : Formatting
  pub converters : List Converter

abbrev pub start : String → Parsing
start pattern = record {
  rest = pattern;
  state = literal_state;
  text = [];
  formatting = new_formatting;
  converters = [];
}

abbrev pub add_text : String → String → Parsing → Parsing
add_text t rest st = record st { text = st.text ++ t; rest = rest }

abbrev pub push_literal : String → List Converter → List Converter
push_literal [] cs = cs
push_literal (a ∷ t) cs = cs ++ literal (a ∷ t) ∷ []

-- The literal that is there becomes a converter, and the parser goes on behind the '%'.
abbrev pub begin_converter : String → Parsing → Parsing
begin_converter rest st = record {
  rest = rest;
  state = converter_state;
  text = b'%' ∷ [];
  formatting = new_formatting;
  converters = push_literal st.text st.converters;
}

-- Behind a '%', and `c` is the next character.
abbrev pub percent : ℕ → String → Parsing → Parsing
percent c rest st =
    if c == b'%'
    then add_text (b'%' ∷ []) rest st
    else if c == b'n'
    then add_text (b'\n' ∷ []) rest st
    else begin_converter (c ∷ rest) st

-- Not a number, or one that is larger than a `char`; the number is cut to an `int` before.
unfoldable pub no_character : Hex → Bool
no_character h =
    let number = h.word % 2 ^ 32 in
    (h.taken == 0) || h.out_of_range || (ltb 127 number && ltb number (2 ^ 31))

unfoldable pub hex_escape : Hex → String → Parsing → Parsing
hex_escape h rest st =
    if no_character h
    then add_text (b'\\' ∷ b'x' ∷ []) rest st
    else add_text (h.word % 256 ∷ []) (drop h.taken rest) st

-- Behind a '\', and `c` is the next character.
unfoldable pub backslash : Services → ℕ → String → Parsing → Parsing
backslash v c rest st =
    if c == b'n'
    then add_text (b'\n' ∷ []) rest st
    else if c == b'\\'
    then add_text (b'\\' ∷ []) rest st
    else if c == b'r'
    then add_text (b'\r' ∷ []) rest st
    else if c == b't'
    then add_text (b'\t' ∷ []) rest st
    else if c == b'x'
    then hex_escape (v.strtol_16 rest) rest st
    else add_text (b'\\' ∷ []) (c ∷ rest) st

-- A character of a literal. The last one of the pattern is taken as it is.
abbrev pub literal_step : Services → ℕ → String → Parsing → Parsing
literal_step v c [] st = add_text (c ∷ []) [] st
literal_step v c (d ∷ rest) st =
    if c == b'%'
    then percent d rest st
    else if c == b'\\'
    then backslash v d rest st
    else add_text (c ∷ []) (d ∷ rest) st

abbrev pub finished : Parsing → String → Converter → Parsing
finished st rest c = record {
  rest = rest;
  state = literal_state;
  text = [];
  formatting = new_formatting;
  converters = st.converters ++ c ∷ [];
}

unfoldable pub finalize_converter : Services → String → ℕ → String → Parsing → Outcome Parsing
finalize_converter v pattern c rest st = do
  converter ← converter_for v st.formatting c (option_of pattern c rest).0
  ok (finished st (option_of pattern c rest).1 converter)

unfoldable pub isdigit : ℕ → Bool
isdigit c = leb b'0' c && leb c b'9'

abbrev pub int_or_overflow : ℕ → Outcome ℕ
int_or_overflow n = if ltb n (2 ^ 31) then ok n else overflows

abbrev pub next_width : ℕ → ℕ → Outcome ℕ
next_width width c = int_or_overflow (width * 10 + (c - b'0'))

abbrev pub with_min : ParserState → String → Parsing → ℕ → Parsing
with_min state rest st n = record st {
  rest = rest;
  state = state;
  formatting = record st.formatting { min_width = pos n };
}

abbrev pub with_max : ParserState → String → Parsing → ℕ → Parsing
with_max state rest st n = record st {
  rest = rest;
  state = state;
  formatting = record st.formatting { max_width = n };
}

abbrev pub justify_left : String → Parsing → Parsing
justify_left rest st = record st {
  rest = rest;
  formatting = record st.formatting { justification = left_justify };
}

-- In the states below, the character has been added to the literal.
unfoldable pub converter_step : Services → String → ℕ → String → Parsing → Outcome Parsing
converter_step v pattern c rest st =
    if c == b'-'
    then ok (justify_left rest st)
    else if c == b'.'
    then ok (record st { rest = rest; state = dot_state })
    else if isdigit c
    then ok (with_min min_state rest st (c - b'0'))
    else finalize_converter v pattern c rest st

unfoldable pub min_step : Services → String → ℕ → String → Parsing → Outcome Parsing
min_step v pattern c rest st =
    if isdigit c
    then (do n ← next_width (least st.formatting.min_width) c; ok (with_min min_state rest st n))
    else if c == b'.'
    then ok (record st { rest = rest; state = dot_state })
    else finalize_converter v pattern c rest st

unfoldable pub dot_step : ℕ → String → Parsing → Outcome Parsing
dot_step c rest st =
    if isdigit c then ok (with_max max_state rest st (c - b'0')) else throws no_digit_after_dot

unfoldable pub max_step : Services → String → ℕ → String → Parsing → Outcome Parsing
max_step v pattern c rest st =
    if isdigit c
    then (do n ← next_width st.formatting.max_width c; ok (with_max max_state rest st n))
    else finalize_converter v pattern c rest st

abbrev pub with_char : ℕ → Parsing → Parsing
with_char c st = record st { text = st.text ++ c ∷ [] }

-- One turn of the loop, on the character `c`.
abbrev pub step_in : ParserState → Services → String → ℕ → String → Parsing → Outcome Parsing
step_in literal_state v pattern c rest st = ok (literal_step v c rest st)
step_in converter_state v pattern c rest st = converter_step v pattern c rest (with_char c st)
step_in min_state v pattern c rest st = min_step v pattern c rest (with_char c st)
step_in dot_state v pattern c rest st = dot_step c rest (with_char c st)
step_in max_state v pattern c rest st = max_step v pattern c rest (with_char c st)

-- The loop from a state on, with its next turns as `next`; `none` stands for a loop that has not
-- come to its end.
abbrev pub next_turn :
    (Parsing → Option (Outcome Parsing)) → Outcome Parsing → Option (Outcome Parsing)
next_turn next (ok st) = next st
next_turn next (throws e) = some (throws e)
next_turn next overflows = some overflows

abbrev pub turn :
    (Parsing → Option (Outcome Parsing))
    → Services
    → String
    → Parsing
    → String
    → Option (Outcome Parsing)
turn next v pattern st [] = some (ok st)
turn next v pattern st (c ∷ rest) = next_turn next (step_in st.state v pattern c rest st)

unfoldable pub parse_loop : ℕ → Services → String → Parsing → Option (Outcome Parsing)
parse_loop zero v pattern st = turn (λ next. none) v pattern st st.rest
parse_loop (suc fuel) v pattern st = turn (parse_loop fuel v pattern) v pattern st st.rest

abbrev pub left_over : Option (Outcome Parsing) → Option (Outcome (List Converter))
left_over none = none
left_over (some (ok st)) = some (ok (push_literal st.text st.converters))
left_over (some (throws e)) = some (throws e)
left_over (some overflows) = some overflows

-- One turn for each character of the pattern.
unfoldable pub parse : Services → String → Option (Outcome (List Converter))
parse v pattern = left_over (parse_loop (length pattern) v pattern (start pattern))
