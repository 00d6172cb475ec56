-- ===== src/CmdLine/Parse/RoundTrip.antt =====
-- A command line of long options with their values, parsed again.
use libblocxx_deb.Prelude.{
  ℕ, suc, ◌≡◌, refl, ◌∙◌, ap, Bool, true, false, List, [], ◌∷◌, ◌++◌, Option, none, some,
  if◌then◌else◌, ◌&&◌, arith, Bool-cases, inl, inr, ◌==◌, ==_iff, length, sym, drop, drop-append,
  take-append, map, All,
}
use mathlib.Core.List.{append-nil, append_assoc}
use libblocxx_deb.Prelude.Int.{ℤ}
use libblocxx_deb.Containers.Ordering.{ℤ_StrictWeak, equivalent}
use libblocxx_deb.Containers.SortedVectorMap.{find}
use libblocxx_deb.Containers.SortedVectorMap.Lookup.{
  find-subscript, find-equivalent, find-nil, or_new,
}
use libblocxx_deb.CmdLine.Options.{
  String, ParserOption, Settings, find_if, ambiguity_exists, long_opt_is, empty,
}
use libblocxx_deb.CmdLine.Options.Names.{starts_with-append}
use libblocxx_deb.CmdLine.Parse.{
  long_type, Parsed, kept, push_value, examine, split_argument, split_name, index_of, parse_from,
  parse_cmd_line, cleared, is_no_arg, values_or_none, get_option_value_list,
}

-- An option that takes a value, and the value.
pub record Setting : Type 0 where
  pub opt : ParserOption
  pub value : String

module _ (p : Settings) where
  abbrev pub switch : ParserOption → String
  switch opt = p.long_option_prefix ++ opt.longopt

  abbrev pub render : Setting → String
  render s = switch s.opt ++ p.value_separator ∷ s.value

  -- The parser finds the option, which takes a value, by its long name; the switch has no separator
  -- and is not one that may be a short option.
  pub record Renders (options : List ParserOption) (s : Setting) : Type 0 where
    pub known : find_if (long_opt_is p s.opt.longopt) options ≡ some s.opt
    pub takes_value : is_no_arg s.opt.argtype ≡ false
    pub named : empty s.opt.longopt ≡ false
    pub unseparated : index_of p.value_separator (switch s.opt) ≡ none
    pub unambiguous : ((length (switch s.opt) == 2) && ambiguity_exists p) ≡ false

abbrev push : Setting → Parsed → Parsed
push s st = push_value s.opt.id s.value st

abbrev push_all : List Setting → Parsed → Parsed
push_all [] st = st
push_all (s ∷ ss) st = push_all ss (push s st)

-- The values that the settings give to an id, in their order.
abbrev pub values_of : ℤ → List Setting → List String
values_of id [] = []
values_of id (s ∷ ss) =
    if equivalent id s.opt.id then s.value ∷ values_of id ss else values_of id ss

pub index_of-append :
    (c : ℕ) (s t : String) → index_of c s ≡ none → index_of c (s ++ c ∷ t) ≡ some (length s)
index_of-append c [] t h = rw ((==_iff c c).1 refl) refl
index_of-append c (a ∷ s) t h = elim (Bool-cases (a == c)) [
  | inl same ↦ absurd (ground arith)
  | inr other ↦ rw (other, index_of-append c s t (ground arith)) refl
]

pub drop_past : (s t : String) (c : ℕ) → drop (suc (length s)) (s ++ c ∷ t) ≡ t
drop_past [] t c = refl
drop_past (a ∷ s) t c = drop_past s t c

split_name_lem :
    (p : Settings) (opt : ParserOption)
    → ((length (switch p opt) == 2) && ambiguity_exists p) ≡ false
    → split_name p (switch p opt) ≡ (long_type, opt.longopt)
unfolding split_name
split_name_lem p opt h =
    rw
      (
        starts_with-append p.long_option_prefix opt.longopt,
        h,
        drop-append p.long_option_prefix opt.longopt,
      )
      refl

split_argument-render :
    (p : Settings) (options : List ParserOption) (s : Setting)
    → Renders p options s
    → split_argument p (render p s) ≡ record {
      option_type = long_type;
      base_option = s.opt.longopt;
      value = s.value;
      value_attached = true;
    }
unfolding split_argument
split_argument-render p options s h =
    rw
      (
        index_of-append p.value_separator (switch p s.opt) s.value h.unseparated,
        take-append (switch p s.opt) (p.value_separator ∷ s.value),
        split_name_lem p s.opt h.unambiguous,
        drop_past (switch p s.opt) s.value p.value_separator,
      )
      refl

examine-render :
    (p : Settings) (allow : Bool) (options : List ParserOption) (s : Setting) (next : Option String)
    (st : Parsed)
    → Renders p options s
    → examine p allow options (render p s) next st ≡ kept (push s st)
unfolding examine
examine-render p allow options s next st h =
    rw (split_argument-render p options s h, h.named, h.known, h.takes_value) refl

parse_from-render :
    (p : Settings) (allow : Bool) (options : List ParserOption) (ss : List Setting) (st : Parsed)
    → All (Renders p options) ss
    → parse_from p allow options (map (render p) ss) st ≡ (push_all ss st, none)
unfolding parse_from
parse_from-render p allow options [] st h = refl
parse_from-render p allow options (s ∷ []) st h =
    rw (examine-render p allow options s none st h.0) refl
parse_from-render p allow options (s ∷ t ∷ ss) st h =
    rw (examine-render p allow options s (some (render p t)) st h.0)
      (parse_from-render p allow options (t ∷ ss) (push s st) h.1)

or_new-nil : (o : Option (List String)) → or_new [] o ≡ values_or_none o
or_new-nil none = refl
or_new-nil (some values) = refl

pushed :
    (s : Setting) (st : Parsed) (id : ℤ)
    → values_or_none (find id (push s st).parsed_options)
      ≡ values_or_none (find id st.parsed_options) ++ values_of id (s ∷ [])
pushed s st id =
    let m = st.parsed_options in
    elim (Bool-cases (equivalent id s.opt.id)) [
      | inl same ↦
          rw
            (
              find-subscript id s.opt.id [] (λ values. values ++ s.value ∷ []) m,
              same,
              find-equivalent id s.opt.id m same,
            )
            (ap (λ values. values ++ s.value ∷ []) (or_new-nil (find s.opt.id m)))
      | inr other ↦
          rw (find-subscript id s.opt.id [] (λ values. values ++ s.value ∷ []) m, other)
            (sym (append-nil (values_or_none (find id m))))
    ]

values_of-cons :
    (id : ℤ) (s : Setting) (ss : List Setting)
    → values_of id (s ∷ []) ++ values_of id ss ≡ values_of id (s ∷ ss)
values_of-cons id s ss = elim (Bool-cases (equivalent id s.opt.id)) [
  | inl same ↦ rw same refl
  | inr other ↦ rw other refl
]

push_all-values :
    (ss : List Setting) (st : Parsed) (id : ℤ)
    → values_or_none (find id (push_all ss st).parsed_options)
      ≡ values_or_none (find id st.parsed_options) ++ values_of id ss
push_all-values [] st id = sym (append-nil (values_or_none (find id st.parsed_options)))
push_all-values (s ∷ ss) st id =
    push_all-values ss (push s st) id
    ∙ rw (pushed s st id) (
        append_assoc (values_or_none (find id st.parsed_options)) (values_of id (s ∷ []))
          (values_of id ss)
        ∙ ap (λ values. values_or_none (find id st.parsed_options) ++ values)
            (values_of-cons id s ss))

push_all-non_options :
    (ss : List Setting) (st : Parsed) → (push_all ss st).non_option_args ≡ st.non_option_args
push_all-non_options [] st = refl
push_all-non_options (s ∷ ss) st = push_all-non_options ss (push s st)

-- A command line of long options with attached values is parsed with no exception and no argument
-- left over, and `getOptionValueList` of each id returns the values that were given to options of
-- that id, in their order. Each option takes a value and is the one found by its long name, and no
-- switch has a separator or may be a short option.
pub parse_cmd_line-render :
    (p : Settings) (allow : Bool) (options : List ParserOption) (program : String)
    (ss : List Setting) (id : ℤ)
    → All (Renders p options) ss
    → ((parse_cmd_line p allow options (program ∷ map (render p) ss)).1 ≡ none)
      × ((parse_cmd_line p allow options (program ∷ map (render p) ss)).0.non_option_args ≡ [])
      × (get_option_value_list (parse_cmd_line p allow options (program ∷ map (render p) ss)).0 id
          ≡ values_of id ss)
unfolding parse_cmd_line get_option_value_list
parse_cmd_line-render p allow options program ss id h =
    rw (parse_from-render p allow options ss cleared h) (
      refl,
      push_all-non_options ss cleared,
      push_all-values ss cleared id ∙ rw (find-nil {V = List String} id) refl,
    )
