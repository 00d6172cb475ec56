-- ===== src/EnvVars/Tests.antt =====
-- Environments of one-letter names.
use libblocxx_deb.Prelude.{◌≡◌, refl, List, [], ◌∷◌}
use libblocxx_deb.Containers.SortedVectorMap.{find, subscript, erase, lower_bound}
use libblocxx_deb.CmdLine.Options.{String}
use libblocxx_deb.EnvVars.{
  Call, gets, removes, sets_entry, updates, call_all, create, getenvp, fill_env_map, get_key_value,
  set_var, set_var_entry, remove_var, update_var,
}
use libblocxx_deb.EnvVars.RoundTrip.{fill_env_map-getenvp}

-- "b=1", "a=x=y" and "=z", which has no key.
abbrev array : List String
array = (98 ∷ 61 ∷ 49 ∷ []) ∷ (97 ∷ 61 ∷ 120 ∷ 61 ∷ 121 ∷ []) ∷ (61 ∷ 122 ∷ []) ∷ []

abbrev calls : List Call
calls =
    gets ∷ sets_entry (99 ∷ 61 ∷ []) ∷ gets ∷ updates (98 ∷ []) (50 ∷ []) ∷ removes (100 ∷ []) ∷ []

-- The array in the order of the names.
array_of_calls :
    (getenvp (call_all calls (create array))).1
    ≡ (97 ∷ 61 ∷ 120 ∷ 61 ∷ 121 ∷ []) ∷ (98 ∷ 61 ∷ 50 ∷ []) ∷ (99 ∷ 61 ∷ []) ∷ []
unfolding getenvp call_all create fill_env_map get_key_value set_var set_var_entry remove_var
    update_var find subscript erase lower_bound
array_of_calls = refl

fill_env_map-getenvp_example :
    fill_env_map (getenvp (call_all calls (create array))).1
    ≡ (call_all calls (create array)).env_map
fill_env_map-getenvp_example = fill_env_map-getenvp array calls
