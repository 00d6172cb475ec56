-- ===== src/LogPattern/Parser/Ends.antt =====
-- Patterns on which the parser comes to its end, and some on which it does not.
use libblocxx_deb.Prelude.{
  ℕ, zero, suc, ◌≤◌, ◌≡◌, refl, true, List, [], ◌∷◌, Option, none, some, arith, length, is_some,
}
use libblocxx_deb.CmdLine.Options.{String}
use libblocxx_deb.CmdLine.Parse.{index_of}
use libblocxx_deb.LogPattern.Converters.{Converter, date_converter, date_format}
use libblocxx_deb.LogPattern.Options.{
  Outcome, ok, throws, overflows, Services, converter_for, get_option, option_of, date_format_of,
  has_option,
}
use libblocxx_deb.LogPattern.Parser.{
  Parsing, parse_loop, parse, start, converter_step, left_over, step_in, finalize_converter, turn,
  next_turn, isdigit, finished,
}
use libblocxx_deb.LogPattern.Parser.Moves.{closes, closes-drop, Left, Moves, step_in-Moves}

next_turn-Ends :
    (next : Parsing → Option (Outcome Parsing)) (rest : String) (o : Outcome Parsing)
    → ((st : Parsing) → Left rest st.rest → is_some (next st) ≡ true)
    → Moves rest o
    → is_some (next_turn next o) ≡ true
next_turn-Ends next rest (ok st) n m = n st m
next_turn-Ends next rest (throws e) n m = refl
next_turn-Ends next rest overflows n m = refl

turn-Ends :
    (next : Parsing → Option (Outcome Parsing)) (v : Services) (pattern : String) (fuel : ℕ)
    (st : Parsing) (rest : String)
    → ((u : Parsing) → length u.rest ≤ fuel → closes u.rest ≡ true → is_some (next u) ≡ true)
    → length rest ≤ suc fuel
    → closes rest ≡ true
    → is_some (turn next v pattern st rest) ≡ true
turn-Ends next v pattern fuel st [] n l h = refl
turn-Ends next v pattern fuel st (c ∷ rest) n l h =
    let tail = closes-drop 1 (c ∷ rest) h in
    next_turn-Ends next rest (step_in st.state v pattern c rest st)
      (λ u left. n u (omega (arith, l, left.shorter)) left.still_closes)
      (step_in-Moves st.state v pattern c rest st tail)

turn_last-Ends :
    (v : Services) (pattern : String) (st : Parsing) (rest : String)
    → length rest ≤ 0
    → is_some (turn (λ next. none) v pattern st rest) ≡ true
turn_last-Ends v pattern st [] l = refl
turn_last-Ends v pattern st (c ∷ rest) l = absurd (omega (arith, l))

parse_loop-Ends :
    (fuel : ℕ) (v : Services) (pattern : String) (st : Parsing)
    → length st.rest ≤ fuel
    → closes st.rest ≡ true
    → is_some (parse_loop fuel v pattern st) ≡ true
unfolding parse_loop
parse_loop-Ends zero v pattern st l h = turn_last-Ends v pattern st st.rest l
parse_loop-Ends (suc fuel) v pattern st l h =
    turn-Ends (parse_loop fuel v pattern) v pattern fuel st st.rest
      (λ u. parse_loop-Ends fuel v pattern u) l h

left_over-Ends : (o : Option (Outcome Parsing)) → is_some o ≡ true → is_some (left_over o) ≡ true
left_over-Ends none h = absurd (cc h)
left_over-Ends (some (ok st)) h = refl
left_over-Ends (some (throws e)) h = refl
left_over-Ends (some overflows) h = refl

-- The parser comes to its end on each pattern in which every '{' has a '}' behind it, after at most
-- one turn for each character, whatever `strtol` takes: with converters, with an exception, or at a
-- width that is larger than an `int`.
pub parse-Ends :
    (v : Services) (pattern : String) → closes pattern ≡ true → is_some (parse v pattern) ≡ true
unfolding parse
parse-Ends v pattern h =
    left_over-Ends (parse_loop (length pattern) v pattern (start pattern))
      (parse_loop-Ends (length pattern) v pattern (start pattern) (omega arith) h)

-- The option of a date that no brace closes.
get_option-unclosed :
    (pattern rest : String)
    → index_of b'}' rest ≡ none
    → option_of pattern b'd' (b'{' ∷ rest) ≡ (rest, pattern)
unfolding option_of get_option has_option
get_option-unclosed pattern rest h = rw h refl

finalize_converter-unclosed :
    (v : Services) (pattern rest : String) (st : Parsing)
    → index_of b'}' rest ≡ none
    → finalize_converter v pattern b'd' (b'{' ∷ rest) st
      ≡ ok
          (finished st pattern (date_converter st.formatting (date_format (date_format_of v rest))))
unfolding finalize_converter converter_for
finalize_converter-unclosed v pattern rest st h = rw (get_option-unclosed pattern rest h) refl

-- On a pattern that begins with "%d{" and has no '}' the parser never comes to its end, whatever
-- the number of turns and the converters so far: it begins again with the whole pattern.
pub parse_loop-Never :
    (fuel : ℕ) (v : Services) (rest : String) (cs : List Converter)
    → index_of b'}' rest ≡ none
    → parse_loop fuel v
        (b'%' ∷ b'd' ∷ b'{' ∷ rest)
        (record (start (b'%' ∷ b'd' ∷ b'{' ∷ rest)) { converters = cs })
      ≡ none
unfolding parse_loop converter_step isdigit
parse_loop-Never zero v rest cs h = refl
parse_loop-Never (suc zero) v rest cs h =
    rw (finalize_converter-unclosed v (b'%' ∷ b'd' ∷ b'{' ∷ rest) rest _ h) refl
parse_loop-Never (suc (suc fuel)) v rest cs h =
    rw (finalize_converter-unclosed v (b'%' ∷ b'd' ∷ b'{' ∷ rest) rest _ h)
      (parse_loop-Never fuel v rest _ h)
