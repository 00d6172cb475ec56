-- ===== src/EnvVars/RoundTrip.antt =====
-- That the array made of an environment gives the same environment again, after any calls.
use libblocxx_deb.Prelude.{
  ◌≡◌, refl, ap, sym, ◌∙◌, true, none, List, [], ◌∷◌, ◌++◌, take-append, arith, inl, inr,
  Option-cases,
}
use mathlib.Core.List.{append_assoc, append-nil}
use libblocxx_deb.Containers.SortedVectorMap.Lookup.{
  subscript-cons, subscript-nil, IsAscending, Above,
}
use libblocxx_deb.CmdLine.Options.{String}
use libblocxx_deb.CmdLine.Parse.{index_of}
use libblocxx_deb.CmdLine.Parse.RoundTrip.{index_of-append, drop_past}
use libblocxx_deb.EnvVars.{
  EnvMap, String_StrictWeak, less_text, get_key_value, is_valid_key, put, fill_entry, fill_from,
  fill_env_map, create, entries, getenvp, Call, call_all,
}
use libblocxx_deb.EnvVars.Sound.{Keys, call_all-IsSound, fill_from-IsSound}

-- Behind all keys of a map, an entry is put at its end.
Below : EnvMap → String → Type 0
Below [] k = Unit
Below (e ∷ m) k = (less_text e.0 k ≡ true) × Below m k

put_last : (k v : String) (m : EnvMap) → Below m k → put k v m ≡ m ++ (k, v) ∷ []
unfolding Below
put_last k v [] h = subscript-nil k [] (λ _. v)
put_last k v (e ∷ m) h = rw (subscript-cons k [] (λ _. v) e m, h.0, put_last k v m h.1) refl

Below-snoc :
    (m : EnvMap) (e : String × String) (k : String)
    → Below m k
    → less_text e.0 k ≡ true
    → Below (m ++ e ∷ []) k
unfolding Below
Below-snoc [] e k h g = (g, tt)
Below-snoc (x ∷ m) e k h g = (h.0, Below-snoc m e k h.1 g)

no_separator : (k : String) → is_valid_key k ≡ true → index_of 61 k ≡ none
no_separator k h = elim (Option-cases (index_of 61 k)) [
  | inl nowhere ↦ nowhere
  | inr somewhere ↦ absurd (ground (arith, somewhere.1))
]

-- An entry as a text gives its key and value.
get_key_value-entry : (k v : String) → is_valid_key k ≡ true → get_key_value (k ++ 61 ∷ v) ≡ (k, v)
unfolding get_key_value
get_key_value-entry k v h =
    rw (index_of-append 61 k v (no_separator k h), take-append k (61 ∷ v), drop_past k v 61) refl

-- All keys of the rest are above all keys so far.
Follows : EnvMap → EnvMap → Type 0
Follows m [] = Unit
Follows m (e ∷ rest) = Below m e.0 × Follows m rest

Follows-snoc :
    (m : EnvMap) (e : String × String) (rest : EnvMap)
    → Follows m rest
    → Above e.0 rest
    → Follows (m ++ e ∷ []) rest
unfolding Follows
Follows-snoc m e [] h a = tt
Follows-snoc m e (x ∷ rest) h a = (Below-snoc m e x.0 h.0 a.0, Follows-snoc m e rest h.1 a.1)

fill_entry-last :
    (e : String × String) (m : EnvMap)
    → is_valid_key e.0 ≡ true
    → Below m e.0
    → fill_entry (get_key_value (e.0 ++ 61 ∷ e.1)) m ≡ m ++ e ∷ []
fill_entry-last e m k b = rw (get_key_value-entry e.0 e.1 k, k, put_last e.0 e.1 m b) refl

fill_from-entries :
    (rest m : EnvMap)
    → IsAscending rest
    → Keys rest
    → Follows m rest
    → fill_from (entries rest) m ≡ m ++ rest
unfolding Follows
fill_from-entries [] m a k f = sym (append-nil m)
fill_from-entries (e ∷ rest) m a k f =
    ap (fill_from (entries rest)) (fill_entry-last e m k.0 f.0)
    ∙ fill_from-entries rest (m ++ e ∷ []) a.1 k.1 (Follows-snoc m e rest f.1 a.0)
    ∙ append_assoc m (e ∷ []) rest

nothing_before : (m : EnvMap) → Follows [] m
unfolding Follows Below
nothing_before [] = tt
nothing_before (e ∷ m) = (tt, nothing_before m)

-- After any calls on an environment that was made of an array, the array that `getenvp` returns
-- gives an environment with the same variables again.
pub fill_env_map-getenvp :
    (envp : List String) (cs : List Call)
    → fill_env_map (getenvp (call_all cs (create envp))).1 ≡ (call_all cs (create envp)).env_map
unfolding fill_env_map getenvp create
fill_env_map-getenvp envp cs =
    let v = call_all-IsSound cs (create envp) (fill_from-IsSound envp [] tt tt) in
    ap (λ t. fill_from t []) v.coherent
    ∙ fill_from-entries (call_all cs (create envp)).env_map [] v.ascending v.valid
        (nothing_before (call_all cs (create envp)).env_map)
