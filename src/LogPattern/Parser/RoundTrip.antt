-- ===== src/LogPattern/Parser/RoundTrip.antt =====
-- A pattern that is written from its pieces, and parsed.
use libblocxx_deb.Prelude.{
  ℕ, zero, suc, ◌+◌, ◌-◌, ◌≤◌, ◌≡◌, refl, sym, ◌∙◌, Bool, true, false, List, [], ◌∷◌, ◌++◌, Option,
  some, arith, ==_iff, Bool-cases, inl, inr, ◌==◌, length, All, ap, length-append,
}
use mathlib.Core.List.{append-nil, append_assoc}
use libblocxx_deb.CmdLine.Options.{String}
use libblocxx_deb.LogPattern.Converters.{Formatting, new_formatting, Converter}
use libblocxx_deb.LogPattern.Options.{Outcome, ok, Services}
use libblocxx_deb.LogPattern.Parser.{
  Parsing, literal_state, isdigit, push_literal, parse_loop, parse, backslash, left_over,
  literal_step, begin_converter, add_text,
}
use libblocxx_deb.LogPattern.Parser.Pieces.{
  Field, Piece, words, field, letter_text, max_text, min_text, left_text, escape, render, Renders,
  RendersPiece, parsing, turns, turns_lem, option_text,
}
use libblocxx_deb.LogPattern.Parser.Fields.{max_turns, left_turns, min_turns, all_turns, run-left}

-- The converters that pieces stand for, behind the literal and the converters so far.
abbrev pub converters_from : String → List Converter → List Piece → List Converter
converters_from t cs [] = push_literal t cs
converters_from t cs (words w ∷ ps) = converters_from (t ++ w) cs ps
converters_from t cs (field s ∷ ps) = converters_from [] (push_literal t cs ++ s.converter ∷ []) ps

module _ (v : Services) (pattern : String) where
  -- A text that begins a converter behind a '%'.
  abbrev Begins : String → Type 0
  Begins [] = ⊥
  Begins (x ∷ u) = ((x == b'%') ≡ false) × ((x == b'n') ≡ false)

  digit-Begins : (d : ℕ) → isdigit d ≡ true → ((d == b'%') ≡ false) × ((d == b'n') ≡ false)
  unfolding isdigit
  digit-Begins d h = (ground arith, ground arith)

  max_text-Begins : (s : Field) (ds rest : String) → Renders v s → Begins (max_text s ds rest)
  max_text-Begins s [] rest h = (h.letter_fits.no_percent, h.letter_fits.no_newline)
  max_text-Begins s (d ∷ ds) rest h = (refl, refl)

  min_text-Begins :
      (s : Field) (ds rest : String)
      → Renders v s
      → All (λ d. isdigit d ≡ true) ds
      → Begins (ds ++ max_text s s.max_digits rest)
  min_text-Begins s [] rest h a = max_text-Begins s s.max_digits rest h
  min_text-Begins s (d ∷ ds) rest h a = digit-Begins d a.0

  left_text-Begins :
      (s : Field) (b : Bool) (rest : String) → Renders v s → Begins (left_text s b rest)
  left_text-Begins s true rest h = (refl, refl)
  left_text-Begins s false rest h = min_text-Begins s s.min_digits rest h h.min_digits_fit

  literal_step-Begins :
      (u : String) (st : Parsing) → Begins u → literal_step v b'%' u st ≡ begin_converter u st
  literal_step-Begins [] st h = elim h [ ]
  literal_step-Begins (x ∷ u) st h = rw h.0 (rw h.1 refl)

  run-field :
      (s : Field) (rest t : String) (f : Formatting) (k : ℕ) (cs : List Converter)
      (r : Option (Outcome Parsing))
      → Renders v s
      → parse_loop k v pattern
          (parsing rest literal_state [] new_formatting (push_literal t cs ++ s.converter ∷ []))
        ≡ r
      → parse_loop
          (suc (left_turns s.to_left (min_turns s k)))
          v
          pattern
          (parsing (b'%' ∷ left_text s s.to_left rest) literal_state t f cs)
        ≡ r
  unfolding parse_loop
  run-field s rest t f k cs r h c =
      rw
        (literal_step-Begins (left_text s s.to_left rest)
          (parsing (b'%' ∷ left_text s s.to_left rest) literal_state t f cs)
          (left_text-Begins s s.to_left rest h))
        (run-left v pattern s s.to_left rest k (push_literal t cs) r refl h c (b'%' ∷ []))

  literal_step-plain :
      (c : ℕ) (u : String) (st : Parsing)
      → (c == b'%') ≡ false
      → (c == b'\\') ≡ false
      → literal_step v c u st ≡ add_text (c ∷ []) u st
  literal_step-plain c [] st p b = refl
  literal_step-plain c (x ∷ u) st p b = rw p (rw b refl)

  run-words :
      (w rest t : String) (f : Formatting) (k : ℕ) (cs : List Converter)
      → parse_loop (turns w k) v pattern (parsing (escape w ++ rest) literal_state t f cs)
        ≡ parse_loop k v pattern (parsing rest literal_state (t ++ w) f cs)
  unfolding parse_loop backslash
  run-words [] rest t f k cs = rw (append-nil t) refl
  run-words (c ∷ w) rest t f k cs =
      let next : parse_loop (turns w k) v pattern
            (parsing (escape w ++ rest) literal_state (t ++ c ∷ []) f cs)
          ≡ parse_loop k v pattern (parsing rest literal_state (t ++ c ∷ w) f cs) =
        run-words w rest (t ++ c ∷ []) f k cs
        ∙ ap (λ u. parse_loop k v pattern (parsing rest literal_state u f cs))
            (append_assoc t (c ∷ []) w) in
      elim (Bool-cases (c == b'%')) [
        | inl percent ↦ rw percent (rw (sym ((==_iff c b'%').0 percent)) next)
        | inr p ↦ elim (Bool-cases (c == b'\\')) [
          | inl slash ↦ rw p (rw slash (rw (sym ((==_iff c b'\\').0 slash)) next))
          | inr s ↦ rw p (
              rw s (
                rw
                  (literal_step-plain c (escape w ++ rest)
                    (parsing (c ∷ escape w ++ rest) literal_state t f cs) p s)
                  next))
        ]
      ]

  parse_loop-at_end :
      (t : String) (f : Formatting) (cs : List Converter) (k : ℕ)
      → parse_loop k v pattern (parsing [] literal_state t f cs)
        ≡ some (ok (parsing [] literal_state t f cs))
  unfolding parse_loop
  parse_loop-at_end t f cs zero = refl
  parse_loop-at_end t f cs (suc k) = refl

  run-pieces :
      (ps : List Piece) (t : String) (f : Formatting) (k : ℕ) (cs : List Converter)
      → All (RendersPiece v) ps
      → left_over (parse_loop (all_turns ps k) v pattern (parsing (render ps) literal_state t f cs))
        ≡ some (ok (converters_from t cs ps))
  run-pieces [] t f k cs h = rw (parse_loop-at_end t f cs k) refl
  run-pieces (words w ∷ ps) t f k cs h =
      rw (run-words w (render ps) t f (all_turns ps k) cs) (run-pieces ps (t ++ w) f k cs h.1)
  run-pieces (field s ∷ ps) t f k cs h =
      rw (run-field s (render ps) t f (all_turns ps k) cs _ h.0 refl)
        (run-pieces ps [] new_formatting k (push_literal t cs ++ s.converter ∷ []) h.1)

-- A width limit takes as many turns as it has characters.
max_turns_lem :
    (s : Field) (ds rest : String) (k : ℕ)
    → max_turns ds (suc k) + length (option_text s.option) + length rest
      ≡ length (max_text s ds rest) + k
max_turns_lem s [] rest k = omega (arith, length-append (option_text s.option) rest)
max_turns_lem s (d ∷ ds) rest k = omega (
  arith,
  turns_lem ds (suc k),
  length-append ds (letter_text s rest),
  length-append (option_text s.option) rest,
)

min_turns_lem :
    (s : Field) (rest : String) (k : ℕ)
    → min_turns s k + length (option_text s.option) + length rest ≡ length (min_text s rest) + k
min_turns_lem s rest k = omega (
  arith,
  turns_lem s.min_digits (max_turns s.max_digits (suc k)),
  max_turns_lem s s.max_digits rest k,
  length-append s.min_digits (max_text s s.max_digits rest),
)

left_turns_lem :
    (s : Field) (b : Bool) (rest : String) (k : ℕ)
    → left_turns b (min_turns s k) + length (option_text s.option) + length rest
      ≡ length (left_text s b rest) + k
left_turns_lem s true rest k = omega (arith, min_turns_lem s rest k)
left_turns_lem s false rest k = min_turns_lem s rest k

length-escape : (w : String) → length w ≤ length (escape w)
length-escape [] = omega arith
length-escape (c ∷ w) = ground (arith, length-escape w)

-- The pattern has a character for each turn, and some that take none.
all_turns_lem :
    (ps : List Piece) → (n : ℕ) × ((k : ℕ) → all_turns ps k + n ≡ length (render ps) + k)
all_turns_lem [] = (0, λ k. omega arith)
all_turns_lem (words w ∷ ps) = (
  (all_turns_lem ps).0 + (length (escape w) - length w),
  λ k. omega (
    arith,
    turns_lem w (all_turns ps k),
    (all_turns_lem ps).1 k,
    length-escape w,
    length-append (escape w) (render ps),
  ),
)
all_turns_lem (field s ∷ ps) = (
  (all_turns_lem ps).0 + length (option_text s.option),
  λ k.
      omega
        (arith, left_turns_lem s s.to_left (render ps) (all_turns ps k), (all_turns_lem ps).1 k),
)

-- A pattern that is written from texts, their '%' and '\' doubled, and from conversions, parses to
-- one converter for each conversion and one for each text between them, with its widths. The letter
-- of a conversion is one that has a converter and neither a digit nor one of '%', 'n', '-' and '.';
-- where it takes an option, a text in braces with no closing brace in it, it has one, and elsewhere
-- none. The precision of a component is empty or a text that the conversion to a UInt32 accepts. The
-- widths are written in digits and fit an `int`.
pub parse-render :
    (v : Services) (ps : List Piece)
    → All (RendersPiece v) ps
    → parse v (render ps) ≡ some (ok (converters_from [] [] ps))
unfolding parse
parse-render v ps h =
    let n = all_turns_lem ps in
    let e : length (render ps) ≡ all_turns ps n.0 = omega (arith, n.1 n.0) in
    rw e (run-pieces v (render ps) ps [] new_formatting n.0 [] h)
