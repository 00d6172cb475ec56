-- ===== src/EnvVars.antt =====
-- src/blocxx/EnvVars.cpp: the variables of an environment, and the array that is made of them. The
-- map is a `std::map` over the order of texts: its entries in that order.
pub mod Sound
pub mod RoundTrip
mod Tests
use libblocxx_deb.Prelude.{
  ℕ, suc, ◌≡◌, refl, ap, Bool, true, false, ◌&&◌, ◌||◌, not, Option, none, some, List, [], ◌∷◌,
  ◌++◌, ltb, ◌==◌, if◌then◌else◌, is_some, take, drop, arith, ◌⊎◌, inl, inr,
}
use libblocxx_deb.Containers.Ordering.{StrictWeak}
use libblocxx_deb.Containers.SortedVectorMap.{Entries, find, subscript, erase}
use libblocxx_deb.CmdLine.Options.{String, empty}
use libblocxx_deb.CmdLine.Parse.{index_of}

-- `compareTo` of two texts is negative.
abbrev pub less_text : String → String → Bool
less_text [] [] = false
less_text [] (b ∷ t) = true
less_text (a ∷ s) [] = false
less_text (a ∷ s) (b ∷ t) = ltb a b || ((a == b) && less_text s t)

pub less_text_irreflexive : (s : String) → less_text s s ≡ false
less_text_irreflexive [] = refl
less_text_irreflexive (a ∷ s) = ground (arith, less_text_irreflexive s)

pub less_text_transitive :
    (s t u : String) → less_text s t ≡ true → less_text t u ≡ true → less_text s u ≡ true
less_text_transitive [] [] u h k = absurd (cc h)
less_text_transitive [] (b ∷ t) [] h k = absurd (cc k)
less_text_transitive [] (b ∷ t) (c ∷ u) h k = refl
less_text_transitive (a ∷ s) [] u h k = absurd (cc h)
less_text_transitive (a ∷ s) (b ∷ t) [] h k = absurd (cc k)
less_text_transitive (a ∷ s) (b ∷ t) (c ∷ u) h k = ground (arith, less_text_transitive s t u)

pub less_text_divides :
    (s t u : String) → less_text s u ≡ true → (less_text s t ≡ true) ⊎ (less_text t u ≡ true)
less_text_divides [] [] u h = inr h
less_text_divides [] (b ∷ t) u h = inl refl
less_text_divides (a ∷ s) t [] h = absurd (cc h)
less_text_divides (a ∷ s) [] (c ∷ u) h = inr refl
less_text_divides (a ∷ s) (b ∷ t) (c ∷ u) h = ground (arith, less_text_divides s t u)

instance abbrev pub String_StrictWeak : StrictWeak String
String_StrictWeak = record {
  less = less_text;
  irreflexive = less_text_irreflexive;
  transitive = less_text_transitive;
  divides = less_text_divides;
}

abbrev pub EnvMap : Type 0
EnvMap = Entries String String

pub record EnvVars : Type 0 where
  pub env_map : EnvMap
  pub envp : Option (List String)

-- The texts before and behind the first '=' of an entry.
abbrev pub key_value_at : String → Option ℕ → String × String
key_value_at arg none = ([], [])
key_value_at arg (some i) = (take i arg, drop (suc i) arg)

unfoldable pub get_key_value : String → String × String
get_key_value arg = key_value_at arg (index_of 61 arg)

abbrev pub is_valid_key : String → Bool
is_valid_key key = not (empty key) && not (is_some (index_of 61 key))

abbrev pub put : String → String → EnvMap → EnvMap
put key value m = subscript key [] (λ _. value) m

abbrev pub fill_entry : String × String → EnvMap → EnvMap
fill_entry kv m = if is_valid_key kv.0 then put kv.0 kv.1 m else m

abbrev pub fill_from : List String → EnvMap → EnvMap
fill_from [] m = m
fill_from (entry ∷ envp) m = fill_from envp (fill_entry (get_key_value entry) m)

unfoldable pub fill_env_map : List String → EnvMap
fill_env_map envp = fill_from envp []

unfoldable pub create : List String → EnvVars
create envp = record { env_map = fill_env_map envp; envp = none }

abbrev pub get_value : String → String → EnvVars → String
get_value key not_found s = elim (find key s.env_map) [ none ↦ not_found | some value ↦ value ]

-- The entries of the map as texts, in its order.
abbrev pub entries : EnvMap → List String
entries [] = []
entries (e ∷ m) = (e.0 ++ 61 ∷ e.1) ∷ entries m

-- The array is made once, and kept.
abbrev pub kept_or_new : EnvMap → Option (List String) → List String
kept_or_new m none = entries m
kept_or_new m (some envp) = envp

unfoldable pub getenvp : EnvVars → EnvVars × List String
getenvp s =
    let envp = kept_or_new s.env_map s.envp in
    (record { env_map = s.env_map; envp = some envp }, envp)

-- A change of the map deletes the array.
abbrev pub changed : EnvMap → EnvVars
changed m = record { env_map = m; envp = none }

unfoldable pub remove_var : String → EnvVars → EnvVars × Bool
remove_var name s =
    if is_some (find name s.env_map) then (changed (erase name s.env_map).0, true) else (s, false)

unfoldable pub add_var : String → String → EnvVars → EnvVars × Bool
add_var name value s =
    if is_valid_key name && not (is_some (find name s.env_map))
    then (changed (put name value s.env_map), true)
    else (s, false)

unfoldable pub set_var : String → String → EnvVars → EnvVars × Bool
set_var key value s =
    if is_valid_key key then (changed (put key value s.env_map), true) else (s, false)

unfoldable pub set_var_entry : String → EnvVars → EnvVars × Bool
set_var_entry key_value s = let kv = get_key_value key_value in set_var kv.0 kv.1 s

unfoldable pub update_var : String → String → EnvVars → EnvVars × Bool
update_var name value s =
    if is_some (find name s.env_map) then (changed (put name value s.env_map), true) else (s, false)

-- The calls of a client.
pub data Call : Type 0 where
  gets : Call
  removes sets_entry : String → Call
  adds sets updates : String → String → Call

abbrev pub call : Call → EnvVars → EnvVars
call gets s = (getenvp s).0
call (removes name) s = (remove_var name s).0
call (adds name value) s = (add_var name value s).0
call (sets key value) s = (set_var key value s).0
call (sets_entry key_value) s = (set_var_entry key_value s).0
call (updates name value) s = (update_var name value s).0

unfoldable pub call_all : List Call → EnvVars → EnvVars
call_all [] s = s
call_all (c ∷ cs) s = call_all cs (call c s)
