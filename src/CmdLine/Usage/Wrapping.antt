-- ===== src/CmdLine/Usage/Wrapping.antt =====
-- That the wrapping of the usage text ends, and how wide its lines are.
use libblocxx_deb.Prelude.{
  ℕ, zero, suc, ◌+◌, ◌-◌, ◌*◌, ◌≤◌, ◌<◌, ◌≡◌, refl, ◌∙◌, Bool, true, List, [], ◌∷◌, ◌++◌, Option,
  none, some, ltb, leb, length, take, drop, is_some, length-append, length-drop, arith, Bool-cases,
  inl, inr, ltb→lt, lt→ltb,
}
use mathlib.Core.Option
use libblocxx_deb.CmdLine.Options.{
  String, ArgumentType, no_arg, required_arg, optional_arg, grouping, ParserOption, Settings,
}
use libblocxx_deb.CmdLine.Parse.{index_of}
use libblocxx_deb.CmdLine.Usage.{
  last_index, last_index_of, option_spaces, initial_indent, cut_at_space, cut_at, cut, too_long,
  wrap, newlines, turns, option_line, indent, option_usage, options_usage, get_usage,
}

pub index_of-lt : (c : ℕ) (s : String) (i : ℕ) → index_of c s ≡ some i → i < length s
index_of-lt c [] i h = absurd (cc h)
index_of-lt c (a ∷ s) zero h = omega arith
index_of-lt c (a ∷ s) (suc i) h = ground (arith, index_of-lt c s i)

pub newlines-append : (s t : String) → newlines (s ++ t) ≡ newlines s + newlines t
newlines-append [] t = omega arith
newlines-append (a ∷ s) t = ground (arith, newlines-append s t)

pub newlines-drop : (n : ℕ) (s : String) → newlines (drop n s) ≤ newlines s
newlines-drop zero s = omega arith
newlines-drop (suc n) [] = omega arith
newlines-drop (suc n) (a ∷ s) = ground (arith, newlines-drop n s)

-- One end of line less behind the first one.
newlines_past :
    (s : String) (i : ℕ) → index_of 10 s ≡ some i → suc (newlines (drop (suc i) s)) ≤ newlines s
newlines_past [] i h = absurd (cc h)
newlines_past (a ∷ s) zero h = ground arith
newlines_past (a ∷ s) (suc i) h = ground (arith, newlines_past s i)

-- A line that begins with a space has a last one.
last_index-space : (s : String) → is_some (last_index 32 (32 ∷ s)) ≡ true
last_index-space s = ground arith

-- What fits before a line that is wrapped.
record Indents (spaces : String) : Type 0 where
  narrow : length spaces ≤ 28
  unbroken : newlines spaces ≡ 0

next_turns :
    (spaces line : String) (n : ℕ)
    → Indents spaces
    → turns (spaces ++ drop n line)
      ≡ length spaces + (length line - n) + 29 * newlines (drop n line)
next_turns spaces line n h = omega (
  arith,
  length-append spaces (drop n line),
  length-drop n line,
  newlines-append spaces (drop n line),
  h.unbroken,
)

cut_at_space-turns :
    (max_columns : ℕ) (spaces line : String) (o : Option ℕ)
    → 28 < max_columns
    → max_columns < length line
    → Indents spaces
    → is_some o ≡ true
    → turns (spaces ++ drop (cut_at_space max_columns line o).1 line) < turns line
cut_at_space-turns max_columns spaces line none w l h o = absurd (cc o)
cut_at_space-turns max_columns spaces line (some j) w l h o = ground (
  arith,
  next_turns spaces line (suc j) h,
  next_turns spaces line max_columns h,
  newlines-drop (suc j) line,
  newlines-drop max_columns line,
  h.narrow,
)

-- A line is too long by its length, or has an end of line that the cut finds.
cut_at-turns :
    (max_columns : ℕ) (spaces line : String) (o o' : Option ℕ)
    → 28 < max_columns
    → (o ≡ none → max_columns < length line)
    → Indents spaces
    → (max_columns < length line → is_some o' ≡ true)
    → index_of 10 line ≡ o
    → turns (spaces ++ drop (cut_at max_columns line o o').1 line) < turns line
cut_at-turns max_columns spaces line none o' w l h s e =
    cut_at_space-turns max_columns spaces line o' w (l refl) h (s (l refl))
cut_at-turns max_columns spaces line (some i) o' w l h s e = elim (Bool-cases (leb i max_columns)) [
  | inl near ↦ rw near (
      omega (
        arith,
        next_turns spaces line (suc i) h,
        newlines_past line i e,
        index_of-lt 10 line i e,
        h.narrow,
      ))
  | inr far ↦
      let long : max_columns < length line = ground (arith, index_of-lt 10 line i e) in
      rw far (cut_at_space-turns max_columns spaces line o' w long h (s long))
]

-- The last space is found in a line that begins with one.
pub last_index_of-space :
    (max_columns : ℕ) (s : String)
    → max_columns < length (32 ∷ s)
    → is_some (last_index_of 32 max_columns (32 ∷ s)) ≡ true
unfolding last_index_of
last_index_of-space max_columns s h =
    rw (lt→ltb max_columns (length (32 ∷ s)) h) (last_index-space (take max_columns s))

pub no_newline :
    (line : String) (max_columns : ℕ)
    → index_of 10 line ≡ none
    → too_long max_columns line ≡ true
    → ltb max_columns (length line) ≡ true
unfolding too_long
no_newline line max_columns n t = ground arith

cut-turns :
    (max_columns : ℕ) (spaces s : String)
    → 28 < max_columns
    → Indents spaces
    → too_long max_columns (32 ∷ s) ≡ true
    → turns (spaces ++ drop (cut max_columns (32 ∷ s)).1 (32 ∷ s)) < turns (32 ∷ s)
unfolding cut too_long
cut-turns max_columns spaces s w h t =
    cut_at-turns max_columns spaces (32 ∷ s) (index_of 10 (32 ∷ s))
      (last_index_of 32 max_columns (32 ∷ s)) w
      (λ n. ltb→lt max_columns (length (32 ∷ s)) (no_newline (32 ∷ s) max_columns n t)) h
      (last_index_of-space max_columns s) refl

is_some-map : {A B : Type 0} (f : A → B) (o : Option A) → is_some (Option.map f o) ≡ is_some o
is_some-map f none = refl
is_some-map f (some a) = refl

-- `spaces` is a space and `r`.
wrap-Ends :
    (fuel max_columns : ℕ) (r s : String)
    → 28 < max_columns
    → Indents (32 ∷ r)
    → turns (32 ∷ s) < fuel
    → is_some (wrap fuel max_columns (32 ∷ r) (32 ∷ s)) ≡ true
unfolding wrap
wrap-Ends zero max_columns r s w h f = absurd (omega arith)
wrap-Ends (suc fuel) max_columns r s w h f = elim (Bool-cases (too_long max_columns (32 ∷ s))) [
  | inl long ↦
      rw
        (
          long,
          is_some-map (λ ls. take (cut max_columns (32 ∷ s)).0 (32 ∷ s) ∷ ls)
              (wrap fuel max_columns (32 ∷ r)
                (32 ∷ r ++ drop (cut max_columns (32 ∷ s)).1 (32 ∷ s))),
        )
        (wrap-Ends fuel max_columns r (r ++ drop (cut max_columns (32 ∷ s)).1 (32 ∷ s)) w h
          (omega (arith, cut-turns max_columns (32 ∷ r) s w h long)))
  | inr short ↦ rw short refl
]

option_spaces-Indents : Indents option_spaces
option_spaces-Indents = record { narrow = omega arith; unbroken = refl }

initial_indent-Indents : Indents initial_indent
initial_indent-Indents = record { narrow = omega arith; unbroken = refl }

pub option_wrap-Ends :
    (max_columns : ℕ) (argtype : ArgumentType) (s : String)
    → 28 < max_columns
    → is_some (wrap (suc (turns (32 ∷ s))) max_columns (indent argtype) (32 ∷ s)) ≡ true
option_wrap-Ends max_columns no_arg s w =
    wrap-Ends (suc (turns (32 ∷ s))) max_columns _ s w option_spaces-Indents (omega arith)
option_wrap-Ends max_columns required_arg s w =
    wrap-Ends (suc (turns (32 ∷ s))) max_columns _ s w option_spaces-Indents (omega arith)
option_wrap-Ends max_columns optional_arg s w =
    wrap-Ends (suc (turns (32 ∷ s))) max_columns _ s w option_spaces-Indents (omega arith)
option_wrap-Ends max_columns grouping s w =
    wrap-Ends (suc (turns (32 ∷ s))) max_columns _ s w initial_indent-Indents (omega arith)

option_usage-Ends :
    (max_columns : ℕ) (p : Settings) (opt : ParserOption)
    → 28 < max_columns
    → is_some (option_usage max_columns p opt) ≡ true
unfolding option_line
option_usage-Ends max_columns p opt w =
    is_some-map _ (wrap _ max_columns (indent opt.argtype) (option_line p opt))
    ∙ option_wrap-Ends max_columns opt.argtype _ w

options_usage-Ends :
    (max_columns : ℕ) (show_all : Bool) (p : Settings) (options : List ParserOption)
    → 28 < max_columns
    → is_some (options_usage max_columns show_all p options) ≡ true
options_usage-Ends max_columns show_all p [] w = refl
options_usage-Ends max_columns show_all p (opt ∷ options) w =
    ground (
      arith,
      option_usage-Ends max_columns p opt,
      options_usage-Ends max_columns show_all p options,
    )

-- `getUsage` ends for each list of options where there are more than 28 columns.
pub get_usage-Ends :
    (max_columns : ℕ) (show_all : Bool) (p : Settings) (options : List ParserOption)
    → 28 < max_columns
    → is_some (get_usage max_columns show_all p options) ≡ true
unfolding get_usage
get_usage-Ends max_columns show_all p options w =
    is_some-map _ (options_usage max_columns show_all p options)
    ∙ options_usage-Ends max_columns show_all p options w
