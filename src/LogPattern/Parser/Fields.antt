-- ===== src/LogPattern/Parser/Fields.antt =====
-- The turns of the parser on a whole field.
use libblocxx_deb.Prelude.{
  ℕ, suc, ◌-◌, ◌^◌, ◌<◌, ◌≡◌, refl, Bool, true, false, List, [], ◌∷◌, ◌++◌, Option, arith, All,
}
use libblocxx_deb.Prelude.Int.{pos}
use libblocxx_deb.CmdLine.Options.{String}
use libblocxx_deb.LogPattern.Converters.{
  Formatting, no_min_width, no_max_width, new_formatting, Converter,
}
use libblocxx_deb.LogPattern.Options.{Outcome, ok, Services}
use libblocxx_deb.LogPattern.Parser.{
  Parsing, ParserState, literal_state, converter_state, min_state, dot_state, max_state, isdigit,
  parse_loop, converter_step, min_step, dot_step, step_in, with_char,
}
use libblocxx_deb.LogPattern.Parser.Pieces.{
  Field, Piece, words, field, letter_text, max_text, min_text, left_text, number_of, min_of_digits,
  max_of_digits, justification_of, formatting_for, Renders, parsing, turns, Comes, min_is, max_is,
  run-min_digits, run-max_digits, ends_at_letter, run-letter,
}

-- One turn for each character of a literal, whether it is doubled or not, and of a field but for its
-- option.
abbrev pub max_turns : String → ℕ → ℕ
max_turns [] k = k
max_turns (d ∷ ds) k = suc (suc (turns ds k))

abbrev pub left_turns : Bool → ℕ → ℕ
left_turns true k = suc k
left_turns false k = k

abbrev pub min_turns : Field → ℕ → ℕ
min_turns s k = turns s.min_digits (max_turns s.max_digits (suc k))

abbrev pub all_turns : List Piece → ℕ → ℕ
all_turns [] k = k
all_turns (words w ∷ ps) k = turns w (all_turns ps k)
all_turns (field s ∷ ps) k = suc (left_turns s.to_left (min_turns s (all_turns ps k)))

module _ (v : Services) (pattern : String) where
  -- Where a dot is taken.
  abbrev takes_dot : ParserState → Bool
  takes_dot literal_state = false
  takes_dot converter_state = true
  takes_dot dot_state = false
  takes_dot min_state = true
  takes_dot max_state = false

  step_in-dot :
      (state : ParserState) (rest : String) (st : Parsing)
      → takes_dot state ≡ true
      → step_in state v pattern b'.' rest st
        ≡ ok (record (with_char b'.' st) { rest = rest; state = dot_state })
  unfolding converter_step min_step isdigit
  step_in-dot literal_state rest st e = absurd (cc e)
  step_in-dot dot_state rest st e = absurd (cc e)
  step_in-dot max_state rest st e = absurd (cc e)
  step_in-dot converter_state rest st e = refl
  step_in-dot min_state rest st e = refl

  ends-takes_dot :
      (state : ParserState) → takes_dot state ≡ true → ends_at_letter v pattern state ≡ true
  ends-takes_dot literal_state e = absurd (cc e)
  ends-takes_dot dot_state e = absurd (cc e)
  ends-takes_dot max_state e = absurd (cc e)
  ends-takes_dot converter_state e = refl
  ends-takes_dot min_state e = refl

  dot_step-digit :
      (d : ℕ) (rest t : String) (f : Formatting) (cs : List Converter)
      → isdigit d ≡ true
      → dot_step d rest (parsing (d ∷ rest) dot_state t f cs)
        ≡ ok (parsing rest max_state t (max_is v pattern (d - b'0') f) cs)
  unfolding dot_step
  dot_step-digit d rest t f cs e = rw e refl

  -- The widths of a field but for the least one.
  abbrev unlimited : Field → Formatting
  unlimited s = max_is v pattern no_max_width (formatting_for s)

  -- The letter of a field whose digits are these.
  letter-at :
      (s : Field) (ds rest : String) (state : ParserState) (k : ℕ) (cs : List Converter)
      (r : Option (Outcome Parsing))
      → ds ≡ s.max_digits
      → ends_at_letter v pattern state ≡ true
      → Renders v s
      → parse_loop k v pattern
          (parsing rest literal_state [] new_formatting (cs ++ s.converter ∷ []))
        ≡ r
      → Comes v pattern
          (suc k)
          (letter_text s rest)
          state
          (max_is v pattern (max_of_digits ds) (formatting_for s))
          cs
          r
  letter-at s ds rest state k cs r m e h c = rw m (run-letter v pattern s rest state k cs r e h c)

  max_digits-at :
      (s : Field) (ds : String) → ds ≡ s.max_digits → Renders v s → All (λ d. isdigit d ≡ true) ds
  max_digits-at s ds m h = rw m h.max_digits_fit

  max_number-at :
      (s : Field) (ds : String) → ds ≡ s.max_digits → Renders v s → number_of ds < 2 ^ 31
  max_number-at s ds m h = rw m h.max_fits

  min_digits-at :
      (s : Field) (ds : String) → ds ≡ s.min_digits → Renders v s → All (λ d. isdigit d ≡ true) ds
  min_digits-at s ds m h = rw m h.min_digits_fit

  min_number-at :
      (s : Field) (ds : String) → ds ≡ s.min_digits → Renders v s → number_of ds < 2 ^ 31
  min_number-at s ds m h = rw m h.min_fits

  run-max :
      (s : Field) (ds rest : String) (state : ParserState) (k : ℕ) (cs : List Converter)
      (r : Option (Outcome Parsing))
      → ds ≡ s.max_digits
      → takes_dot state ≡ true
      → Renders v s
      → parse_loop k v pattern
          (parsing rest literal_state [] new_formatting (cs ++ s.converter ∷ []))
        ≡ r
      → Comes v pattern (max_turns ds (suc k)) (max_text s ds rest) state (unlimited s) cs r
  unfolding parse_loop
  run-max s [] rest state k cs r m e h c t =
      letter-at s [] rest state k cs r m (ends-takes_dot state e) h c t
  run-max s (d ∷ ds) rest state k cs r m e h c t =
      let digits = max_digits-at s (d ∷ ds) m h in
      rw
        (step_in-dot state (d ∷ ds ++ letter_text s rest)
          (parsing (max_text s (d ∷ ds) rest) state t (unlimited s) cs) e)
        (rw
          (dot_step-digit d (ds ++ letter_text s rest) ((t ++ b'.' ∷ []) ++ d ∷ []) (unlimited s) cs
            digits.0)
          (run-max_digits v pattern ds (letter_text s rest) (d - b'0') (suc k) (unlimited s) cs r
            digits.1 (max_number-at s (d ∷ ds) m h)
            (letter-at s (d ∷ ds) rest max_state k cs r m refl h c) ((t ++ b'.' ∷ []) ++ d ∷ [])))

  converter_step-digit :
      (d : ℕ) (rest t : String) (f : Formatting) (cs : List Converter)
      → isdigit d ≡ true
      → converter_step v pattern d rest (parsing (d ∷ rest) converter_state t f cs)
        ≡ ok (parsing rest min_state t (min_is v pattern (pos (d - b'0')) f) cs)
  unfolding converter_step isdigit
  converter_step-digit d rest t f cs e = ground arith

  abbrev unset_widths : Field → Formatting
  unset_widths s = min_is v pattern no_min_width (unlimited s)

  -- The same, where the least width has been read.
  max-at :
      (s : Field) (ds rest : String) (state : ParserState) (k : ℕ) (cs : List Converter)
      (r : Option (Outcome Parsing))
      → ds ≡ s.min_digits
      → takes_dot state ≡ true
      → Renders v s
      → parse_loop k v pattern
          (parsing rest literal_state [] new_formatting (cs ++ s.converter ∷ []))
        ≡ r
      → Comes v pattern
          (max_turns s.max_digits (suc k))
          (max_text s s.max_digits rest)
          state
          (min_is v pattern (min_of_digits ds) (unlimited s))
          cs
          r
  max-at s ds rest state k cs r m e h c = rw m (run-max s s.max_digits rest state k cs r refl e h c)

  run-min :
      (s : Field) (ds rest : String) (k : ℕ) (cs : List Converter) (r : Option (Outcome Parsing))
      → ds ≡ s.min_digits
      → Renders v s
      → parse_loop k v pattern
          (parsing rest literal_state [] new_formatting (cs ++ s.converter ∷ []))
        ≡ r
      → Comes v pattern
          (turns ds (max_turns s.max_digits (suc k)))
          (ds ++ max_text s s.max_digits rest)
          converter_state
          (unset_widths s)
          cs
          r
  unfolding parse_loop
  run-min s [] rest k cs r m h c t = max-at s [] rest converter_state k cs r m refl h c t
  run-min s (d ∷ ds) rest k cs r m h c t =
      let digits = min_digits-at s (d ∷ ds) m h in
      rw
        (converter_step-digit d (ds ++ max_text s s.max_digits rest) (t ++ d ∷ []) (unset_widths s)
          cs digits.0)
        (run-min_digits v pattern ds (max_text s s.max_digits rest) (d - b'0')
          (max_turns s.max_digits (suc k)) (unlimited s) cs r digits.1
          (min_number-at s (d ∷ ds) m h) (max-at s (d ∷ ds) rest min_state k cs r m refl h c)
          (t ++ d ∷ []))

  min-at :
      (s : Field) (b : Bool) (rest : String) (k : ℕ) (cs : List Converter)
      (r : Option (Outcome Parsing))
      → b ≡ s.to_left
      → Renders v s
      → parse_loop k v pattern
          (parsing rest literal_state [] new_formatting (cs ++ s.converter ∷ []))
        ≡ r
      → Comes v pattern
          (min_turns s k)
          (min_text s rest)
          converter_state
          (record new_formatting { justification = justification_of b })
          cs
          r
  min-at s b rest k cs r m h c = rw m (run-min s s.min_digits rest k cs r refl h c)

  pub run-left :
      (s : Field) (b : Bool) (rest : String) (k : ℕ) (cs : List Converter)
      (r : Option (Outcome Parsing))
      → b ≡ s.to_left
      → Renders v s
      → parse_loop k v pattern
          (parsing rest literal_state [] new_formatting (cs ++ s.converter ∷ []))
        ≡ r
      → Comes v pattern
          (left_turns b (min_turns s k))
          (left_text s b rest)
          converter_state
          new_formatting
          cs
          r
  unfolding parse_loop converter_step
  run-left s true rest k cs r m h c t = min-at s true rest k cs r m h c (t ++ b'-' ∷ [])
  run-left s false rest k cs r m h c t = min-at s false rest k cs r m h c t
