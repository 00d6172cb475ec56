-- ===== src/Containers/SortedVectorMap/Tests.antt =====
-- Runs of the map's operations on numbers.
use libblocxx_deb.Prelude.{ℕ, ◌≡◌, refl, List, [], ◌∷◌, none, some, ◌+◌}
use libblocxx_deb.Containers.Ordering.{ℕ_StrictWeak}
use libblocxx_deb.Containers.SortedVectorMap.{
  Entries, lower_bound, upper_bound, find, insert, erase, subscript,
}
use libblocxx_deb.Containers.SortedVectorMap.Lookup.{IsAscending}
use libblocxx_deb.Containers.SortedVectorMap.Refinement.{
  Change, assign, inserts, erases, apply_all, replay_all, view, apply_all-refines,
}

abbrev changes : List (Change ℕ ℕ)
changes =
    assign 4 0 (λ x. x + 1) ∷ inserts 2 7 ∷ inserts 4 9 ∷ assign 4 0 (λ x. x + 1) ∷ erases 2 ∷ []

abbrev two_entries : Entries ℕ ℕ
two_entries = (2, 7) ∷ (4, 1) ∷ []

apply_changes : apply_all changes [] ≡ (4, 2) ∷ []
unfolding apply_all
apply_changes = unfold subscript insert erase lower_bound in refl

-- `lower_bound` stands before an equivalent key, `upper_bound` behind it.
bounds_differ : ((lower_bound 4 two_entries).1 ≡ (4, 1) ∷ []) × ((upper_bound 4 two_entries).1 ≡ [])
unfolding lower_bound upper_bound
bounds_differ = (refl, refl)

apply_all-refines_example :
    IsAscending (apply_all changes [])
    × (view (apply_all changes []) ≡ replay_all changes (λ _. none))
apply_all-refines_example = apply_all-refines changes

find_four : find 4 two_entries ≡ some 1
unfolding find
find_four = refl
