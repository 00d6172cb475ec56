-- ===== src/LogPattern/Parser/Moves.antt =====
-- What a turn of the parser leaves of the pattern.
use libblocxx_deb.Prelude.{
  ℕ, zero, suc, ◌≤◌, ◌≡◌, refl, Bool, true, false, [], ◌∷◌, Option, none, some, if◌then◌else◌, ◌&&◌,
  ◌||◌, not, arith, Bool-cases, inl, inr, ◌==◌, length, is_some, drop, length-drop,
}
use libblocxx_deb.CmdLine.Options.{String}
use libblocxx_deb.CmdLine.Parse.{index_of}
use libblocxx_deb.LogPattern.Converters.{least}
use libblocxx_deb.LogPattern.Options.{
  Outcome, after, ok, throws, overflows, Services, Hex, converter_for, get_option, option_of,
  has_option, option_to,
}
use libblocxx_deb.LogPattern.Parser.{
  Parsing, ParserState, literal_state, converter_state, min_state, dot_state, max_state,
  converter_step, min_step, dot_step, max_step, backslash, hex_escape, step_in, with_char,
  literal_step, finalize_converter, next_width, isdigit, finished, with_min, with_max, no_character,
}

-- Each '{' has a '}' behind it.
abbrev pub closes : String → Bool
closes [] = true
closes (c ∷ s) = (not (c == b'{') || is_some (index_of b'}' s)) && closes s

and_split : (a b : Bool) → (a && b) ≡ true → (a ≡ true) × (b ≡ true)
and_split true b h = (refl, h)
and_split false b h = absurd (cc h)

pub closes-drop : (n : ℕ) (s : String) → closes s ≡ true → closes (drop n s) ≡ true
closes-drop zero s h = h
closes-drop (suc n) [] h = h
closes-drop (suc n) (c ∷ s) h =
    closes-drop n s (and_split (not (c == b'{') || is_some (index_of b'}' s)) (closes s) h).1

-- What a turn may leave of the pattern.
pub record Left (rest : String) (left : String) : Type 0 where
  pub shorter : length left ≤ length rest
  pub still_closes : closes left ≡ true

drop-Left : (n : ℕ) (rest : String) → closes rest ≡ true → Left rest (drop n rest)
drop-Left n rest h = record {
  shorter = omega (arith, length-drop n rest);
  still_closes = closes-drop n rest h;
}

-- A step that goes on leaves a part of the pattern.
abbrev pub Moves : String → Outcome Parsing → Type 0
Moves rest (ok st) = Left rest st.rest
Moves rest (throws e) = Unit
Moves rest overflows = Unit

option_to-Left :
    (pattern rest : String) (o : Option ℕ)
    → is_some o ≡ true
    → closes rest ≡ true
    → Left rest (option_to pattern rest o).1
option_to-Left pattern rest none e h = absurd (cc e)
option_to-Left pattern rest (some end) e h = drop-Left (suc end) rest h

implied : (a b : Bool) → a ≡ true → (not a || b) ≡ true → b ≡ true
implied true b a h = h
implied false b a h = absurd (cc a)

longer-Left : (c : ℕ) (rest left : String) → Left rest left → Left (c ∷ rest) left
longer-Left c rest left h = record {
  shorter = omega (arith, h.shorter);
  still_closes = h.still_closes;
}

get_option-Left :
    (pattern rest : String) → closes rest ≡ true → Left rest (get_option pattern rest).1
unfolding get_option
get_option-Left pattern [] h = drop-Left 0 [] h
get_option-Left pattern (c ∷ rest) h =
    let parts = and_split (not (c == b'{') || is_some (index_of b'}' rest)) (closes rest) h in
    elim (Bool-cases (c == b'{')) [
      | inl e ↦ rw e (
          longer-Left c rest (option_to pattern rest (index_of b'}' rest)).1 (
            option_to-Left pattern rest (index_of b'}' rest)
              (implied (c == b'{') (is_some (index_of b'}' rest)) e parts.0) parts.1))
      | inr e ↦ rw e (drop-Left 0 (c ∷ rest) h)
    ]

if_Moves :
    (rest : String) (b : Bool) (x y : Outcome Parsing)
    → Moves rest x
    → Moves rest y
    → Moves rest (if b then x else y)
if_Moves rest true x y p q = p
if_Moves rest false x y p q = q

if_Left :
    (rest : String) (b : Bool) (x y : Parsing)
    → Left rest x.rest
    → Left rest y.rest
    → Left rest (if b then x else y).rest
if_Left rest true x y p q = p
if_Left rest false x y p q = q

hex_escape-Left :
    (rest : String) (x : Hex) (st : Parsing)
    → closes rest ≡ true
    → Left rest (hex_escape x rest st).rest
unfolding hex_escape
hex_escape-Left rest x st h =
    if_Left rest (no_character x) _ _ (drop-Left 0 rest h) (drop-Left x.taken rest h)

module _ (v : Services) (pattern rest : String) (h : closes rest ≡ true) where
  all_Left : Left rest rest
  all_Left = drop-Left 0 rest h

  after-Moves :
      {A : Type 0} (o : Outcome A) (f : A → Parsing)
      → ((a : A) → Left rest (f a).rest)
      → Moves rest (after o (λ a. ok (f a)))
  after-Moves (ok a) f p = p a
  after-Moves (throws e) f p = tt
  after-Moves overflows f p = tt

  option_of-Left : (c : ℕ) → Left rest (option_of pattern c rest).1
  unfolding option_of
  option_of-Left c = elim (Bool-cases (has_option c)) [
    | inl e ↦ rw e (get_option-Left pattern rest h)
    | inr e ↦ rw e all_Left
  ]

  finalize_converter-Moves :
      (c : ℕ) (st : Parsing) → Moves rest (finalize_converter v pattern c rest st)
  unfolding finalize_converter
  finalize_converter-Moves c st =
      after-Moves (converter_for v st.formatting c (option_of pattern c rest).0)
        (λ converter. finished st (option_of pattern c rest).1 converter)
        (λ converter. option_of-Left c)

  min_step-Moves : (c : ℕ) (st : Parsing) → Moves rest (min_step v pattern c rest st)
  unfolding min_step
  min_step-Moves c st =
      if_Moves rest (isdigit c) _ _
        (after-Moves (next_width (least st.formatting.min_width) c)
          (λ n. with_min min_state rest st n) (λ n. all_Left))
        (if_Moves rest (c == b'.') _ _ all_Left (finalize_converter-Moves c st))

  max_step-Moves : (c : ℕ) (st : Parsing) → Moves rest (max_step v pattern c rest st)
  unfolding max_step
  max_step-Moves c st =
      if_Moves rest (isdigit c) _ _
        (after-Moves (next_width st.formatting.max_width c) (λ n. with_max max_state rest st n)
          (λ n. all_Left))
        (finalize_converter-Moves c st)

  dot_step-Moves : (c : ℕ) (st : Parsing) → Moves rest (dot_step c rest st)
  unfolding dot_step
  dot_step-Moves c st = if_Moves rest (isdigit c) _ _ all_Left tt

  converter_step-Moves : (c : ℕ) (st : Parsing) → Moves rest (converter_step v pattern c rest st)
  unfolding converter_step
  converter_step-Moves c st = if_Moves rest (c == b'-') _ _ all_Left (
      if_Moves rest (c == b'.') _ _ all_Left
        (if_Moves rest (isdigit c) _ _ all_Left (finalize_converter-Moves c st)))

backslash-Left :
    (v : Services) (c : ℕ) (rest : String) (st : Parsing)
    → closes (c ∷ rest) ≡ true
    → Left (c ∷ rest) (backslash v c rest st).rest
unfolding backslash
backslash-Left v c rest st h =
    let tail = closes-drop 1 (c ∷ rest) h in
    let one = longer-Left c rest rest (drop-Left 0 rest tail) in
    elim (Bool-cases (c == b'n')) [
      | inl e ↦ rw e (one)
      | inr e0 ↦ elim (Bool-cases (c == b'\\')) [
        | inl e ↦ rw e0 (rw e (one))
        | inr e1 ↦ elim (Bool-cases (c == b'r')) [
          | inl e ↦ rw e0 (rw e1 (rw e (one)))
          | inr e2 ↦ elim (Bool-cases (c == b't')) [
            | inl e ↦ rw e0 (rw e1 (rw e2 (rw e (one))))
            | inr e3 ↦ elim (Bool-cases (c == b'x')) [
              | inl e ↦ rw e0 (
                  rw e1 (
                    rw e2 (
                      rw e3 (
                        rw e (
                          longer-Left c rest (hex_escape (v.strtol_16 rest) rest st).rest
                            (hex_escape-Left rest (v.strtol_16 rest) st tail))))))
              | inr e4 ↦ rw e0 (rw e1 (rw e2 (rw e3 (rw e4 (drop-Left 0 (c ∷ rest) h)))))
            ]
          ]
        ]
      ]
    ]

literal_step-Left :
    (v : Services) (c : ℕ) (rest : String) (st : Parsing)
    → closes rest ≡ true
    → Left rest (literal_step v c rest st).rest
literal_step-Left v c [] st h = drop-Left 0 [] h
literal_step-Left v c (d ∷ rest) st h =
    let one = longer-Left d rest rest (drop-Left 0 rest (closes-drop 1 (d ∷ rest) h)) in
    let all = drop-Left 0 (d ∷ rest) h in
    if_Left (d ∷ rest) (c == b'%') _ _
      (if_Left (d ∷ rest) (d == b'%') _ _ one (if_Left (d ∷ rest) (d == b'n') _ _ one all))
      (if_Left (d ∷ rest) (c == b'\\') _ _ (backslash-Left v d rest st h) all)

pub step_in-Moves :
    (state : ParserState) (v : Services) (pattern : String) (c : ℕ) (rest : String) (st : Parsing)
    → closes rest ≡ true
    → Moves rest (step_in state v pattern c rest st)
step_in-Moves literal_state v pattern c rest st h = literal_step-Left v c rest st h
step_in-Moves converter_state v pattern c rest st h =
    converter_step-Moves v pattern rest h c (with_char c st)
step_in-Moves min_state v pattern c rest st h = min_step-Moves v pattern rest h c (with_char c st)
step_in-Moves dot_state v pattern c rest st h = dot_step-Moves v pattern rest h c (with_char c st)
step_in-Moves max_state v pattern c rest st h = max_step-Moves v pattern rest h c (with_char c st)
