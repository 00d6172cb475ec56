-- ===== src/Containers/SortedVectorMap/Refinement.antt =====
-- A map as a function from keys to values, when it is changed by keys.
use mathlib.Core.Path.{fun_ext}
use libblocxx_deb.Prelude.{◌≡◌, refl, ◌∙◌, ap, Option, none, some, List, [], ◌∷◌, if◌then◌else◌}
use libblocxx_deb.Containers.Ordering.{StrictWeak, equivalent}
use libblocxx_deb.Containers.SortedVectorMap.{Entries, find, subscript, insert, erase}
use libblocxx_deb.Containers.SortedVectorMap.Lookup.{
  or_new, find-nil, find-subscript, find-erase, insert-eq-subscript, IsAscending,
  subscript-IsAscending, erase-IsAscending,
}

-- What a client does to a map by a key, and `clear`; `assign` goes through the reference that
-- `operator[]` returns. Insertion with a hint, which may give a key two entries, insertion of a
-- range, erasure at iterators and changes through iterators are not among them.
pub data Change {ℓ κ} (K : Type ℓ) (V : Type κ) : Type (ℓ ⊔ κ) where
  assign : K → V → (V → V) → Change K V
  inserts : K → V → Change K V
  erases : K → Change K V
  clears : Change K V

module _ {ℓ κ} {K : Type ℓ} {V : Type κ} ⦃o : StrictWeak K⦄ where
  abbrev pub apply : Change K V → Entries K V → Entries K V
  apply (assign k d f) m = subscript k d f m
  apply (inserts k v) m = (insert k v m).0
  apply (erases k) m = (erase k m).0
  apply clears m = []

  unfoldable pub apply_all : List (Change K V) → Entries K V → Entries K V
  apply_all [] m = m
  apply_all (c ∷ cs) m = apply_all cs (apply c m)

  -- The same on a function.
  abbrev pub set_at : (K → Option V) → K → Option V → K → Option V
  set_at g k w j = if equivalent j k then w else g j

  abbrev pub replay : Change K V → (K → Option V) → K → Option V
  replay (assign k d f) g = set_at g k (some (f (or_new d (g k))))
  replay (inserts k v) g = set_at g k (some (or_new v (g k)))
  replay (erases k) g = set_at g k none
  replay clears g = λ _. none

  unfoldable pub replay_all : List (Change K V) → (K → Option V) → K → Option V
  replay_all [] g = g
  replay_all (c ∷ cs) g = replay_all cs (replay c g)

  abbrev pub view : Entries K V → K → Option V
  view m k = find k m

  apply-IsAscending : (c : Change K V) (m : Entries K V) → IsAscending m → IsAscending (apply c m)
  apply-IsAscending (assign k d f) m v = subscript-IsAscending k d f m v
  apply-IsAscending (inserts k w) m v =
      rw (insert-eq-subscript k w m) (subscript-IsAscending k w (λ x. x) m v)
  apply-IsAscending (erases k) m v = erase-IsAscending k m v
  apply-IsAscending clears m v = tt

  view-apply :
      (c : Change K V) (m : Entries K V) → IsAscending m → view (apply c m) ≡ replay c (view m)
  view-apply (assign k d f) m v = fun_ext λ j. find-subscript j k d f m
  view-apply (inserts k w) m v =
      fun_ext λ j. rw (insert-eq-subscript k w m) (find-subscript j k w (λ x. x) m)
  view-apply (erases k) m v = fun_ext λ j. find-erase j k m v
  view-apply clears m v = fun_ext λ j. find-nil j

  apply_all_refines :
      (cs : List (Change K V)) (m : Entries K V)
      → IsAscending m
      → IsAscending (apply_all cs m) × (view (apply_all cs m) ≡ replay_all cs (view m))
  unfolding apply_all replay_all
  apply_all_refines [] m v = (v, refl)
  apply_all_refines (c ∷ cs) m v =
      let rest = apply_all_refines cs (apply c m) (apply-IsAscending c m v) in
      (rest.0, rest.1 ∙ ap (replay_all cs) (view-apply c m v))

  -- A map that was changed from the empty one on by `operator[]`, with any change of the value behind
  -- its reference, by `insert` of an entry without a hint, by `erase` of a key and by `clear`, in any
  -- order, keeps its keys in ascending order, and `find` answers as the same changes of a function
  -- from keys to values give it.
  pub apply_all-refines :
      (cs : List (Change K V))
      → IsAscending (apply_all cs []) × (view (apply_all cs []) ≡ replay_all cs (λ _. none))
  apply_all-refines cs =
      let rest = apply_all_refines cs [] tt in
      (rest.0, rest.1 ∙ ap (replay_all cs) (fun_ext λ j. find-nil j))
