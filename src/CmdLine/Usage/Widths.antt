-- ===== src/CmdLine/Usage/Widths.antt =====
-- How wide the lines of a usage text are, and where too few columns leave the loop without an end.
use libblocxx_deb.Prelude.{
  ℕ, zero, suc, ◌≤◌, ◌<◌, ◌≡◌, refl, true, false, List, [], ◌∷◌, ◌++◌, Option, none, some, leb,
  length, take, drop, is_some, replicate, length-append, length-drop, length-take, arith, All,
  Bool-cases, inl, inr, ltb→lt, leb→le, lt→ltb,
}
use mathlib.Core.Option
use libblocxx_deb.CmdLine.Options.{
  String, ArgumentType, no_arg, required_arg, optional_arg, grouping, ParserOption, Settings,
}
use libblocxx_deb.CmdLine.Parse.{index_of}
use libblocxx_deb.CmdLine.Usage.{
  last_index, last_index_of, option_spaces, cut_at_space, cut_at, cut, too_long, wrap, newlines,
  turns, option_line, indent,
}
use libblocxx_deb.CmdLine.Usage.Wrapping.{
  option_wrap-Ends, index_of-lt, no_newline, newlines-append, newlines-drop, last_index_of-space,
}

last_index-lt : (c : ℕ) (s : String) (j : ℕ) → last_index c s ≡ some j → j < length s
last_index-lt c [] j h = absurd (cc h)
last_index-lt c (a ∷ s) zero h = omega arith
last_index-lt c (a ∷ s) (suc j) h = ground (arith, last_index-lt c s j)

last_index_of-le : (c from : ℕ) (s : String) (j : ℕ) → last_index_of c from s ≡ some j → j ≤ from
unfolding last_index_of
last_index_of-le c from s j h =
    ground (arith, last_index-lt c (take (suc from) s) j, length-take (suc from) s)

index_of-unbroken : (s : String) → newlines s ≡ 0 → index_of 10 s ≡ none
index_of-unbroken [] h = refl
index_of-unbroken (a ∷ s) h = ground (arith, index_of-unbroken s)

-- The next line begins at or before the last column.
cut_at_space-le :
    (max_columns : ℕ) (line : String) (o : Option ℕ)
    → max_columns ≤ 28
    → ((j : ℕ) → o ≡ some j → j ≤ max_columns)
    → (cut_at_space max_columns line o).1 ≤ max_columns
cut_at_space-le max_columns line none w h = omega arith
cut_at_space-le max_columns line (some j) w h = ground (arith, h j refl)

cut-le :
    (max_columns : ℕ) (line : String)
    → max_columns ≤ 28
    → newlines line ≡ 0
    → (cut max_columns line).1 ≤ max_columns
unfolding cut
cut-le max_columns line w n = rw (index_of-unbroken line n) (
    cut_at_space-le max_columns line (last_index_of 32 max_columns line) w
      (last_index_of-le 32 max_columns line))

too_long-length :
    (max_columns : ℕ) (line : String) → max_columns < length line → too_long max_columns line ≡ true
unfolding too_long
too_long-length max_columns line h = rw (lt→ltb max_columns (length line) h) refl

-- Where there are at most 28 columns, the loop does not end, however many turns it is given, on a
-- line that begins with a space, has no end of line and is longer than the columns, if it is not
-- that of a group.
pub wrap-Never :
    (fuel max_columns : ℕ) (s : String)
    → max_columns ≤ 28
    → max_columns < length (32 ∷ s)
    → newlines s ≡ 0
    → wrap fuel max_columns option_spaces (32 ∷ s) ≡ none
unfolding wrap
wrap-Never zero max_columns s w l n = refl
wrap-Never (suc fuel) max_columns s w l n =
    let rest = drop (cut max_columns (32 ∷ s)).1 (32 ∷ s) in
    rw
      (
        too_long-length max_columns (32 ∷ s) l,
        wrap-Never fuel max_columns (replicate 27 32 ++ rest) w
            (omega (
              arith,
              length-append (replicate 27 32) rest,
              length-drop (cut max_columns (32 ∷ s)).1 (32 ∷ s),
              cut-le max_columns (32 ∷ s) w n,
            ))
            (omega (
              arith,
              n,
              newlines-append (replicate 27 32) rest,
              newlines-drop (cut max_columns (32 ∷ s)).1 (32 ∷ s),
            )),
      )
      refl

-- A line that is cut ends at or before the last column.
cut_at_space-width :
    (max_columns : ℕ) (line : String) (o : Option ℕ)
    → is_some o ≡ true
    → ((j : ℕ) → o ≡ some j → j ≤ max_columns)
    → (cut_at_space max_columns line o).0 ≤ max_columns
cut_at_space-width max_columns line none s h = absurd (cc s)
cut_at_space-width max_columns line (some j) s h = ground (arith, h j refl)

cut_at-width :
    (max_columns : ℕ) (line : String) (o o' : Option ℕ)
    → (o ≡ none → max_columns < length line)
    → (max_columns < length line → is_some o' ≡ true)
    → ((j : ℕ) → o' ≡ some j → j ≤ max_columns)
    → index_of 10 line ≡ o
    → (cut_at max_columns line o o').0 ≤ max_columns
cut_at-width max_columns line none o' l s h e =
    cut_at_space-width max_columns line o' (s (l refl)) h
cut_at-width max_columns line (some i) o' l s h e = elim (Bool-cases (leb i max_columns)) [
  | inl near ↦ rw near (leb→le i max_columns near)
  | inr far ↦
      rw far
        (cut_at_space-width max_columns line o' (s (ground (arith, index_of-lt 10 line i e))) h)
]

cut-width :
    (max_columns : ℕ) (s : String)
    → too_long max_columns (32 ∷ s) ≡ true
    → (cut max_columns (32 ∷ s)).0 ≤ max_columns
unfolding cut
cut-width max_columns s t =
    cut_at-width max_columns (32 ∷ s) (index_of 10 (32 ∷ s)) (last_index_of 32 max_columns (32 ∷ s))
      (λ n. ltb→lt max_columns (length (32 ∷ s)) (no_newline (32 ∷ s) max_columns n t))
      (last_index_of-space max_columns s) (last_index_of-le 32 max_columns (32 ∷ s)) refl

-- Each line that a loop that ended has written.
abbrev Fit : ℕ → Option (List String) → Type 0
Fit max_columns none = Unit
Fit max_columns (some ls) = All (λ l. length l ≤ max_columns) ls

Fit-cons :
    (max_columns : ℕ) (l : String) (o : Option (List String))
    → length l ≤ max_columns
    → Fit max_columns o
    → Fit max_columns (Option.map (λ ls. l ∷ ls) o)
Fit-cons max_columns l none h k = tt
Fit-cons max_columns l (some ls) h k = (h, k)

too_long-false :
    (max_columns : ℕ) (line : String)
    → too_long max_columns line ≡ false
    → length line ≤ max_columns
unfolding too_long
too_long-false max_columns line h = ground arith

wrap-Fit :
    (fuel max_columns : ℕ) (r s : String)
    → Fit max_columns (wrap fuel max_columns (32 ∷ r) (32 ∷ s))
unfolding wrap
wrap-Fit zero max_columns r s = tt
wrap-Fit (suc fuel) max_columns r s = elim (Bool-cases (too_long max_columns (32 ∷ s))) [
  | inl long ↦ rw long (
      Fit-cons max_columns (take (cut max_columns (32 ∷ s)).0 (32 ∷ s))
        (wrap fuel max_columns (32 ∷ r) (32 ∷ r ++ drop (cut max_columns (32 ∷ s)).1 (32 ∷ s)))
        (omega
          (arith, length-take (cut max_columns (32 ∷ s)).0 (32 ∷ s), cut-width max_columns s long))
        (wrap-Fit fuel max_columns r (r ++ drop (cut max_columns (32 ∷ s)).1 (32 ∷ s))))
  | inr short ↦ rw short (too_long-false max_columns (32 ∷ s) short, tt)
]

indent-wrap-Fit :
    (fuel max_columns : ℕ) (argtype : ArgumentType) (s : String)
    → Fit max_columns (wrap fuel max_columns (indent argtype) (32 ∷ s))
indent-wrap-Fit fuel max_columns no_arg s = wrap-Fit fuel max_columns _ s
indent-wrap-Fit fuel max_columns required_arg s = wrap-Fit fuel max_columns _ s
indent-wrap-Fit fuel max_columns optional_arg s = wrap-Fit fuel max_columns _ s
indent-wrap-Fit fuel max_columns grouping s = wrap-Fit fuel max_columns _ s

lines_of :
    (max_columns : ℕ) (o : Option (List String))
    → is_some o ≡ true
    → Fit max_columns o
    → (ls : List String) × (o ≡ some ls) × All (λ l. length l ≤ max_columns) ls
lines_of max_columns none s f = absurd (cc s)
lines_of max_columns (some ls) s f = (ls, refl, f)

-- Where there are more than 28 columns, the line of an option is wrapped into lines none of which
-- has more characters than there are columns.
pub option_line-Fits :
    (max_columns : ℕ) (p : Settings) (opt : ParserOption)
    → 28 < max_columns
    → (ls : List String) × (wrap
          (suc (turns (option_line p opt)))
          max_columns
          (indent opt.argtype)
          (option_line p opt)
        ≡ some ls)
      × All (λ l. length l ≤ max_columns) ls
unfolding option_line
option_line-Fits max_columns p opt w =
    lines_of max_columns _ (option_wrap-Ends max_columns opt.argtype _ w)
      (indent-wrap-Fit _ max_columns opt.argtype _)
