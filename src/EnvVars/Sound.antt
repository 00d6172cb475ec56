-- ===== src/EnvVars/Sound.antt =====
-- What holds of an environment after any calls.
use libblocxx_deb.Prelude.{
  ◌≡◌, refl, ap, sym, ◌∙◌, Bool, true, false, ◌&&◌, not, none, List, [], ◌∷◌, if◌then◌else◌,
  is_some, arith, inl, inr, Bool-cases,
}
use libblocxx_deb.Containers.Ordering.{equivalent}
use libblocxx_deb.Containers.SortedVectorMap.{find, erase}
use libblocxx_deb.Containers.SortedVectorMap.Lookup.{
  find-cons, find-nil, subscript-cons, subscript-nil, erase-cons, IsAscending,
  subscript-IsAscending, erase-IsAscending,
}
use libblocxx_deb.CmdLine.Options.{String}
use libblocxx_deb.EnvVars.{
  EnvMap, EnvVars, String_StrictWeak, less_text, get_key_value, is_valid_key, put, fill_from,
  entries, kept_or_new, getenvp, changed, remove_var, add_var, set_var, set_var_entry, update_var,
  Call, gets, removes, sets_entry, adds, sets, updates, call, call_all,
}

abbrev pub Keys : EnvMap → Type 0
Keys [] = Unit
Keys (e ∷ m) = (is_valid_key e.0 ≡ true) × Keys m

Keys-put : (k v : String) (m : EnvMap) → is_valid_key k ≡ true → Keys m → Keys (put k v m)
Keys-put k v [] h g = rw (subscript-nil k [] (λ _. v)) (h, tt)
Keys-put k v (e ∷ m) h g = rw (subscript-cons k [] (λ _. v) e m) (ground (arith, Keys-put k v m))

Keys-erase : (k : String) (m : EnvMap) → Keys m → Keys (erase k m).0
unfolding erase
Keys-erase k [] g = tt
Keys-erase k (e ∷ m) g = rw (erase-cons k e m) (ground (arith, Keys-erase k m))

-- Texts neither of which comes before the other are the same.
equivalent-eq : (s t : String) → equivalent s t ≡ true → s ≡ t
equivalent-eq [] [] h = refl
equivalent-eq [] (b ∷ t) h = absurd (cc h)
equivalent-eq (a ∷ s) [] h = absurd (cc h)
equivalent-eq (a ∷ s) (b ∷ t) h =
    let heads : a ≡ b = ground arith in
    let tails : equivalent s t ≡ true = ground arith in cc (heads, equivalent-eq s t tails)

-- A key that is found is that of an entry.
found-valid : (k : String) (m : EnvMap) → is_some (find k m) ≡ true → Keys m → is_valid_key k ≡ true
found-valid k [] h g = absurd (cc (h, find-nil {V = String} k))
found-valid k (e ∷ m) h g = elim (Bool-cases (less_text e.0 k)) [
  | inl below ↦
      let rest : find k (e ∷ m) ≡ find k m = find-cons k e m ∙ rw below refl in
      found-valid k m (ap is_some (sym rest) ∙ h) g.1
  | inr above ↦ elim (Bool-cases (equivalent e.0 k)) [
    | inl same ↦ ap is_valid_key (sym (equivalent-eq e.0 k same)) ∙ g.0
    | inr other ↦
        let nothing : find k (e ∷ m) ≡ none = ground (arith, find-cons k e m) in
        absurd (cc (sym (ap is_some nothing) ∙ h))
  ]
]

-- The keys ascend and are valid, and the array, where there is one, is that of the map.
pub record IsSound (s : EnvVars) : Type 0 where
  pub ascending : IsAscending s.env_map
  pub valid : Keys s.env_map
  pub coherent : kept_or_new s.env_map s.envp ≡ entries s.env_map

changed-IsSound : (m : EnvMap) → IsAscending m → Keys m → IsSound (changed m)
changed-IsSound m a k = record { ascending = a; valid = k; coherent = refl }

put-IsSound :
    (key value : String) (s : EnvVars)
    → is_valid_key key ≡ true
    → IsSound s
    → IsSound (changed (put key value s.env_map))
put-IsSound key value s h v =
    changed-IsSound (put key value s.env_map)
      (subscript-IsAscending key [] (λ _. value) s.env_map v.ascending)
      (Keys-put key value s.env_map h v.valid)

-- A call that changes the map, or leaves all as it is.
abbrev changed_if : Bool → EnvMap → EnvVars → EnvVars × Bool
changed_if b m s = if b then (changed m, true) else (s, false)

if-IsSound :
    (b : Bool) (m : EnvMap) (s : EnvVars)
    → (b ≡ true → IsSound (changed m))
    → IsSound s
    → IsSound (changed_if b m s).0
if-IsSound true m s h v = h refl
if-IsSound false m s h v = v

set_var-IsSound : (key value : String) (s : EnvVars) → IsSound s → IsSound (set_var key value s).0
unfolding set_var
set_var-IsSound key value s v =
    if-IsSound (is_valid_key key) (put key value s.env_map) s (λ h. put-IsSound key value s h v) v

call-IsSound : (c : Call) (s : EnvVars) → IsSound s → IsSound (call c s)
unfolding getenvp remove_var add_var set_var_entry update_var
call-IsSound gets s v = record { ascending = v.ascending; valid = v.valid; coherent = v.coherent }
call-IsSound (removes name) s v =
    if-IsSound (is_some (find name s.env_map)) (erase name s.env_map).0 s
      (λ _.
        changed-IsSound (erase name s.env_map).0 (erase-IsAscending name s.env_map v.ascending)
          (Keys-erase name s.env_map v.valid))
      v
call-IsSound (adds name value) s v =
    if-IsSound (is_valid_key name && not (is_some (find name s.env_map))) (put name value s.env_map)
      s (λ h. put-IsSound name value s (ground arith) v) v
call-IsSound (sets key value) s v = set_var-IsSound key value s v
call-IsSound (sets_entry key_value) s v =
    set_var-IsSound (get_key_value key_value).0 (get_key_value key_value).1 s v
call-IsSound (updates name value) s v =
    if-IsSound (is_some (find name s.env_map)) (put name value s.env_map) s
      (λ h. put-IsSound name value s (found-valid name s.env_map h v.valid) v) v

pub call_all-IsSound : (cs : List Call) (s : EnvVars) → IsSound s → IsSound (call_all cs s)
unfolding call_all
call_all-IsSound [] s v = v
call_all-IsSound (c ∷ cs) s v = call_all-IsSound cs (call c s) (call-IsSound c s v)

pub fill_from-IsSound :
    (envp : List String) (m : EnvMap)
    → IsAscending m
    → Keys m
    → IsSound (changed (fill_from envp m))
fill_from-IsSound [] m a k = changed-IsSound m a k
fill_from-IsSound (entry ∷ envp) m a k = elim (Bool-cases (is_valid_key (get_key_value entry).0)) [
  | inl good ↦
      let next =
        put-IsSound (get_key_value entry).0 (get_key_value entry).1 (changed m) good
          (changed-IsSound m a k) in
      rw good (fill_from-IsSound envp _ next.ascending next.valid)
  | inr bad ↦ rw bad (fill_from-IsSound envp m a k)
]
