-- ===== src/LogPattern/Options.antt =====
-- src/blocxx/LogMessagePatternFormatter.cpp: the options in braces, and the converter for a character.
use libblocxx_deb.Prelude.{
  ℕ, suc, ◌-◌, ◌^◌, Bool, [], ◌∷◌, Option, none, some, if◌then◌else◌, ◌||◌, ltb, ◌==◌, take, drop,
}
use libblocxx_deb.Prelude.Int.{ℤ, pos, negsuc}
use libblocxx_deb.CmdLine.Options.{String, empty}
use libblocxx_deb.CmdLine.Parse.{index_of}
use libblocxx_deb.LogPattern.Converters.{
  Formatting, Converter, message_converter, xml_message_converter, thread_converter, pid_converter,
  component_converter, file_location, full_location, line_location, method_location,
  category_converter, relative_time, date_converter, date_format,
}

pub data PatternError : Type 0 where
  no_digit_after_dot precision_not_an_integer unsupported_conversion : PatternError

-- A result, an exception, or a width that is larger than an `int`, which C++ leaves undefined.
pub data Outcome (A : Type 0) : Type 0 where
  ok : A → Outcome A
  throws : PatternError → Outcome A
  overflows : Outcome A

abbrev pub after : {A B : Type 0} → Outcome A → (A → Outcome B) → Outcome B
after (ok a) f = f a
after (throws e) f = throws e
after overflows f = overflows

infixl 5 ◌>>=◌
abbrev pub ◌>>=◌ : {A B : Type 0} → Outcome A → (A → Outcome B) → Outcome B
m >>= f = after m f

-- What `strtol` finds at the beginning of a text in base 16: the `long`, as its word of 64 bits, how
-- many characters it takes, and whether it is out of range.
pub record Hex : Type 0 where
  pub word : ℕ
  pub taken : ℕ
  pub out_of_range : Bool

-- What the parser takes from elsewhere.
pub record Services : Type 0 where
  pub strtol_16 : String → Hex
  pub to_uint32 : String → Option ℕ
  pub equals_ignore_case : String → String → Bool

-- The text in braces, and what is behind it. Where no brace closes, `indexOf` answers `npos`, which
-- is larger than `i`: the option is all that is left, and `i = npos + 1` is 0.
abbrev pub option_to : String → String → Option ℕ → String × String
option_to pattern rest none = (rest, pattern)
option_to pattern rest (some end) = (take end rest, drop (suc end) rest)

unfoldable pub get_option : String → String → String × String
get_option pattern [] = ([], [])
get_option pattern (c ∷ rest) =
    if c == b'{' then option_to pattern rest (index_of b'}' rest) else ([], c ∷ rest)

-- An `int` of a `UInt32`.
abbrev pub int_of_uint32 : ℕ → ℤ
int_of_uint32 n = if ltb n (2 ^ 31) then pos n else negsuc (2 ^ 32 - 1 - n)

abbrev pub precision_of : Option ℕ → Outcome ℤ
precision_of none = throws precision_not_an_integer
precision_of (some n) = ok (int_of_uint32 n)

unfoldable pub get_precision : Services → String → Outcome ℤ
get_precision v opt = if empty opt then ok (pos 0) else precision_of (v.to_uint32 opt)

-- "ISO8601", "ABSOLUTE" and "DATE", and their patterns "%Y-%m-%d %H:%M:%S,%Q", "%H:%M:%S,%Q" and
-- "%d %b %Y %H:%M:%S,%Q".
abbrev pub iso8601_date_format : String
iso8601_date_format = b'I' ∷ b'S' ∷ b'O' ∷ b'8' ∷ b'6' ∷ b'0' ∷ b'1' ∷ []

abbrev pub absolute_date_format : String
absolute_date_format = b'A' ∷ b'B' ∷ b'S' ∷ b'O' ∷ b'L' ∷ b'U' ∷ b'T' ∷ b'E' ∷ []

abbrev pub date_date_format : String
date_date_format = b'D' ∷ b'A' ∷ b'T' ∷ b'E' ∷ []

abbrev pub absolute_pattern : String
absolute_pattern = b'%' ∷ b'H' ∷ b':' ∷ b'%' ∷ b'M' ∷ b':' ∷ b'%' ∷ b'S' ∷ b',' ∷ b'%' ∷ b'Q' ∷ []

abbrev pub iso8601_pattern : String
iso8601_pattern = b'%' ∷ b'Y' ∷ b'-' ∷ b'%' ∷ b'm' ∷ b'-' ∷ b'%' ∷ b'd' ∷ b' ' ∷ absolute_pattern

abbrev pub date_pattern : String
date_pattern = b'%' ∷ b'd' ∷ b' ' ∷ b'%' ∷ b'b' ∷ b' ' ∷ b'%' ∷ b'Y' ∷ b' ' ∷ absolute_pattern

unfoldable pub date_format_of : Services → String → String
date_format_of v opt =
    let format = if empty opt then iso8601_date_format else opt in
    if v.equals_ignore_case format iso8601_date_format
    then iso8601_pattern
    else if v.equals_ignore_case format absolute_date_format
    then absolute_pattern
    else if v.equals_ignore_case format date_date_format
    then date_pattern
    else format

-- The converters that have no option.
abbrev pub plain_converter : Formatting → ℕ → Outcome Converter
plain_converter f c =
    if c == b'F'
    then ok (file_location f)
    else if c == b'l'
    then ok (full_location f)
    else if c == b'L'
    then ok (line_location f)
    else if c == b'M'
    then ok (method_location f)
    else if c == b'm'
    then ok (message_converter f)
    else if c == b'e'
    then ok (xml_message_converter f)
    else if c == b'p'
    then ok (category_converter f)
    else if c == b'r'
    then ok (relative_time f)
    else if c == b't'
    then ok (thread_converter f)
    else if c == b'P'
    then ok (pid_converter f)
    else throws unsupported_conversion

abbrev pub component_of : Formatting → Outcome ℤ → Outcome Converter
component_of f p = do precision ← p; ok (component_converter f precision)

unfoldable pub has_option : ℕ → Bool
has_option c = (c == b'c') || (c == b'd')

-- The converter for a character, where `opt` is the option behind it.
unfoldable pub converter_for : Services → Formatting → ℕ → String → Outcome Converter
converter_for v f c opt =
    if c == b'c'
    then component_of f (get_precision v opt)
    else if c == b'd'
    then ok (date_converter f (date_format (date_format_of v opt)))
    else plain_converter f c

-- Only a converter that has an option reads one.
unfoldable pub option_of : String → ℕ → String → String × String
option_of pattern c rest = if has_option c then get_option pattern rest else ([], rest)
