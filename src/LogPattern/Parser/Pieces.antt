-- ===== src/LogPattern/Parser/Pieces.antt =====
-- What patterns are made of, and the turns of the parser on each part of a field.
use libblocxx_deb.Prelude.{
  ℕ, suc, ◌+◌, ◌-◌, ◌*◌, ◌^◌, ◌<◌, ◌≤◌, ◌≡◌, refl, Bool, true, false, List, [], ◌∷◌, ◌++◌, Option,
  none, some, if◌then◌else◌, arith, ◌==◌, length, All, is_some, ap, lt→ltb, take-append,
}
use mathlib.Core.List.{append_assoc}
use libblocxx_deb.Prelude.Int.{ℤ, pos}
use libblocxx_deb.CmdLine.Options.{String}
use libblocxx_deb.CmdLine.Parse.{index_of}
use libblocxx_deb.CmdLine.Parse.RoundTrip.{index_of-append, drop_past}
use libblocxx_deb.LogPattern.Converters.{
  Justification, right_justify, left_justify, Formatting, no_min_width, no_max_width,
  new_formatting, Converter,
}
use libblocxx_deb.LogPattern.Options.{
  Outcome, ok, Services, converter_for, has_option, option_of, get_option,
}
use libblocxx_deb.LogPattern.Parser.{
  Parsing, ParserState, literal_state, converter_state, min_state, dot_state, max_state, isdigit,
  parse_loop, step_in, converter_step, min_step, max_step, finalize_converter, finished, with_char,
}

-- A conversion with its widths as they are written, its option, and the converter that it stands
-- for.
pub record Field : Type 0 where
  pub to_left : Bool
  pub min_digits : String
  pub max_digits : String
  pub letter : ℕ
  pub option : Option String
  pub converter : Converter

pub data Piece : Type 0 where
  words : String → Piece
  field : Field → Piece

abbrev pub option_text : Option String → String
option_text none = []
option_text (some o) = b'{' ∷ o ++ b'}' ∷ []

abbrev pub letter_text : Field → String → String
letter_text s rest = s.letter ∷ option_text s.option ++ rest

abbrev pub max_text : Field → String → String → String
max_text s [] rest = letter_text s rest
max_text s (d ∷ ds) rest = b'.' ∷ d ∷ ds ++ letter_text s rest

abbrev pub min_text : Field → String → String
min_text s rest = s.min_digits ++ max_text s s.max_digits rest

abbrev pub left_text : Field → Bool → String → String
left_text s true rest = b'-' ∷ min_text s rest
left_text s false rest = min_text s rest

-- The characters of a literal that stand for themselves only when they are doubled.
abbrev pub escape : String → String
escape [] = []
escape (c ∷ w) =
    if c == b'%'
    then b'%' ∷ b'%' ∷ escape w
    else if c == b'\\'
    then b'\\' ∷ b'\\' ∷ escape w
    else c ∷ escape w

abbrev pub render : List Piece → String
render [] = []
render (words w ∷ ps) = escape w ++ render ps
render (field s ∷ ps) = b'%' ∷ left_text s s.to_left (render ps)

-- The number that digits write, behind those that have been read.
abbrev pub digits_from : ℕ → String → ℕ
digits_from n [] = n
digits_from n (d ∷ ds) = digits_from (n * 10 + (d - b'0')) ds

abbrev pub number_of : String → ℕ
number_of [] = 0
number_of (d ∷ ds) = digits_from (d - b'0') ds

abbrev pub min_of_digits : String → ℤ
min_of_digits [] = no_min_width
min_of_digits (d ∷ ds) = pos (digits_from (d - b'0') ds)

abbrev pub max_of_digits : String → ℕ
max_of_digits [] = no_max_width
max_of_digits (d ∷ ds) = digits_from (d - b'0') ds

abbrev pub justification_of : Bool → Justification
justification_of true = left_justify
justification_of false = right_justify

abbrev pub formatting_for : Field → Formatting
formatting_for s = record {
  min_width = min_of_digits s.min_digits;
  max_width = max_of_digits s.max_digits;
  justification = justification_of s.to_left;
}

abbrev pub or_empty : Option String → String
or_empty none = []
or_empty (some o) = o

abbrev pub NoBrace : Option String → Type 0
NoBrace none = Unit
NoBrace (some o) = index_of b'}' o ≡ none

-- A letter that neither a literal nor a width can begin with.
pub record IsLetter (c : ℕ) : Type 0 where
  pub no_percent : (c == b'%') ≡ false
  pub no_newline : (c == b'n') ≡ false
  pub no_minus : (c == b'-') ≡ false
  pub no_dot : (c == b'.') ≡ false
  pub no_digit : isdigit c ≡ false

-- The letter with its option makes the converter, so that a precision is a number or empty. An option
-- is there where the letter takes one, and no width is larger than an `int`.
pub record Renders (v : Services) (s : Field) : Type 0 where
  pub known : converter_for v (formatting_for s) s.letter (or_empty s.option) ≡ ok s.converter
  pub letter_fits : IsLetter s.letter
  pub option_fits : has_option s.letter ≡ is_some s.option
  pub unbroken : NoBrace s.option
  pub min_digits_fit : All (λ d. isdigit d ≡ true) s.min_digits
  pub max_digits_fit : All (λ d. isdigit d ≡ true) s.max_digits
  pub min_fits : number_of s.min_digits < 2 ^ 31
  pub max_fits : number_of s.max_digits < 2 ^ 31

abbrev pub RendersPiece : Services → Piece → Type 0
RendersPiece v (words w) = Unit
RendersPiece v (field s) = Renders v s

abbrev pub parsing : String → ParserState → String → Formatting → List Converter → Parsing
parsing rest state text formatting converters = record {
  rest = rest;
  state = state;
  text = text;
  formatting = formatting;
  converters = converters;
}

pub digits_from-le : (n : ℕ) (ds : String) → n ≤ digits_from n ds
digits_from-le n [] = omega arith
digits_from-le n (d ∷ ds) = omega (arith, digits_from-le (n * 10 + (d - b'0')) ds)

-- One turn for each character, and then `k`.
abbrev pub turns : String → ℕ → ℕ
turns [] k = k
turns (d ∷ ds) k = suc (turns ds k)

pub turns_lem : (ds : String) (k : ℕ) → turns ds k ≡ length ds + k
turns_lem [] k = omega arith
turns_lem (d ∷ ds) k = omega (arith, turns_lem ds k)

module _ (v : Services) (pattern : String) where
  -- What a loop on this text comes to, whatever the literal is.
  abbrev pub Comes :
      ℕ → String → ParserState → Formatting → List Converter → Option (Outcome Parsing) → Type 0
  Comes k rest state f cs r = (t : String) → parse_loop k v pattern (parsing rest state t f cs) ≡ r

  abbrev pub min_is : ℤ → Formatting → Formatting
  min_is m f = record f { min_width = m }

  abbrev pub max_is : ℕ → Formatting → Formatting
  max_is m f = record f { max_width = m }

  min_step-digit :
      (d : ℕ) (rest t : String) (n : ℕ) (f : Formatting) (cs : List Converter)
      → isdigit d ≡ true
      → n * 10 + (d - b'0') < 2 ^ 31
      → min_step v pattern d rest (parsing (d ∷ rest) min_state t (min_is (pos n) f) cs)
        ≡ ok (parsing rest min_state t (min_is (pos (n * 10 + (d - b'0'))) f) cs)
  unfolding min_step
  min_step-digit d rest t n f cs e h = rw e (rw (lt→ltb (n * 10 + (d - b'0')) (2 ^ 31) h) refl)

  max_step-digit :
      (d : ℕ) (rest t : String) (n : ℕ) (f : Formatting) (cs : List Converter)
      → isdigit d ≡ true
      → n * 10 + (d - b'0') < 2 ^ 31
      → max_step v pattern d rest (parsing (d ∷ rest) max_state t (max_is n f) cs)
        ≡ ok (parsing rest max_state t (max_is (n * 10 + (d - b'0')) f) cs)
  unfolding max_step
  max_step-digit d rest t n f cs e h = rw e (rw (lt→ltb (n * 10 + (d - b'0')) (2 ^ 31) h) refl)

  pub run-min_digits :
      (ds rest : String) (n k : ℕ) (f : Formatting) (cs : List Converter)
      (r : Option (Outcome Parsing))
      → All (λ d. isdigit d ≡ true) ds
      → digits_from n ds < 2 ^ 31
      → Comes k rest min_state (min_is (pos (digits_from n ds)) f) cs r
      → Comes (turns ds k) (ds ++ rest) min_state (min_is (pos n) f) cs r
  unfolding parse_loop
  run-min_digits [] rest n k f cs r a h c t = c t
  run-min_digits (d ∷ ds) rest n k f cs r a h c t =
      rw
        (min_step-digit d (ds ++ rest) (t ++ d ∷ []) n f cs a.0
          (omega (arith, h, digits_from-le (n * 10 + (d - b'0')) ds)))
        (run-min_digits ds rest (n * 10 + (d - b'0')) k f cs r a.1 h c (t ++ d ∷ []))

  pub run-max_digits :
      (ds rest : String) (n k : ℕ) (f : Formatting) (cs : List Converter)
      (r : Option (Outcome Parsing))
      → All (λ d. isdigit d ≡ true) ds
      → digits_from n ds < 2 ^ 31
      → Comes k rest max_state (max_is (digits_from n ds) f) cs r
      → Comes (turns ds k) (ds ++ rest) max_state (max_is n f) cs r
  unfolding parse_loop
  run-max_digits [] rest n k f cs r a h c t = c t
  run-max_digits (d ∷ ds) rest n k f cs r a h c t =
      rw
        (max_step-digit d (ds ++ rest) (t ++ d ∷ []) n f cs a.0
          (omega (arith, h, digits_from-le (n * 10 + (d - b'0')) ds)))
        (run-max_digits ds rest (n * 10 + (d - b'0')) k f cs r a.1 h c (t ++ d ∷ []))

  -- The states that a letter ends.
  abbrev pub ends_at_letter : ParserState → Bool
  ends_at_letter literal_state = false
  ends_at_letter converter_state = true
  ends_at_letter dot_state = false
  ends_at_letter min_state = true
  ends_at_letter max_state = true

  step_in-letter :
      (state : ParserState) (c : ℕ) (rest : String) (st : Parsing)
      → ends_at_letter state ≡ true
      → IsLetter c
      → step_in state v pattern c rest st ≡ finalize_converter v pattern c rest (with_char c st)
  unfolding converter_step min_step max_step
  step_in-letter literal_state c rest st e h = absurd (cc e)
  step_in-letter dot_state c rest st e h = absurd (cc e)
  step_in-letter converter_state c rest st e h = rw h.no_minus (rw h.no_dot (rw h.no_digit refl))
  step_in-letter min_state c rest st e h = rw h.no_digit (rw h.no_dot refl)
  step_in-letter max_state c rest st e h = rw h.no_digit refl

  get_option-written :
      (o rest : String)
      → index_of b'}' o ≡ none
      → get_option pattern (b'{' ∷ (o ++ b'}' ∷ []) ++ rest) ≡ (o, rest)
  unfolding get_option
  get_option-written o rest h = rw (append_assoc o (b'}' ∷ []) rest) (
      rw (index_of-append b'}' o rest h)
        (rw (take-append o (b'}' ∷ rest)) (ap (λ s. (o, s)) (drop_past o rest b'}'))))

  option_of-written :
      (c : ℕ) (o : Option String) (rest : String)
      → has_option c ≡ is_some o
      → NoBrace o
      → option_of pattern c (option_text o ++ rest) ≡ (or_empty o, rest)
  unfolding option_of
  option_of-written c none rest h n = rw h refl
  option_of-written c (some o) rest h n = rw h (get_option-written o rest n)

  finalize_converter-written :
      (s : Field) (rest : String) (st : Parsing)
      → Renders v s
      → st.formatting ≡ formatting_for s
      → finalize_converter v pattern s.letter (option_text s.option ++ rest) st
        ≡ ok (finished st rest s.converter)
  unfolding finalize_converter
  finalize_converter-written s rest st h e =
      rw (option_of-written s.letter s.option rest h.option_fits h.unbroken)
        (rw e (rw h.known refl))

  pub run-letter :
      (s : Field) (rest : String) (state : ParserState) (k : ℕ) (cs : List Converter)
      (r : Option (Outcome Parsing))
      → ends_at_letter state ≡ true
      → Renders v s
      → parse_loop k v pattern
          (parsing rest literal_state [] new_formatting (cs ++ s.converter ∷ []))
        ≡ r
      → Comes (suc k) (letter_text s rest) state (formatting_for s) cs r
  unfolding parse_loop
  run-letter s rest state k cs r e h c t =
      rw
        (step_in-letter state s.letter (option_text s.option ++ rest)
          (parsing (letter_text s rest) state t (formatting_for s) cs) e h.letter_fits)
        (rw
          (finalize_converter-written s rest
            (parsing (letter_text s rest) state (t ++ s.letter ∷ []) (formatting_for s) cs) h refl)
          c)
