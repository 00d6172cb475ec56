-- ===== src/Containers/SortedVectorMap.antt =====
-- src/blocxx/SortedVectorMap.hpp: a map as a vector of entries in the order of their keys. An
-- iterator into the vector is the entries before it and those from it on.
pub mod Lookup
pub mod Refinement
pub mod Counts
mod Tests
use libblocxx_deb.Prelude.{
  ℕ, Bool, true, false, Option, none, some, List, [], ◌∷◌, ◌++◌, ◌&&◌, not, if◌then◌else◌,
}
use libblocxx_deb.Containers.Ordering.{StrictWeak, equivalent}

abbrev pub Entries {ℓ κ} : Type ℓ → Type κ → Type (ℓ ⊔ κ)
Entries K V = List (K × V)

abbrev pub one_if : Bool → ℕ
one_if true = 1
one_if false = 0

module _ {ℓ κ} {K : Type ℓ} {V : Type κ} ⦃o : StrictWeak K⦄ where
  abbrev pub onto : K × V → Entries K V × Entries K V → Entries K V × Entries K V
  onto e (before, from) = (e ∷ before, from)

  -- `std::lower_bound`: the first position whose key is not below `k`.
  unfoldable pub lower_bound : K → Entries K V → Entries K V × Entries K V
  lower_bound k [] = ([], [])
  lower_bound k (e ∷ m) = if o.less e.0 k then onto e (lower_bound k m) else ([], e ∷ m)

  -- `std::upper_bound`: the first position whose key is above `k`.
  unfoldable pub upper_bound : K → Entries K V → Entries K V × Entries K V
  upper_bound k [] = ([], [])
  upper_bound k (e ∷ m) = if o.less k e.0 then ([], e ∷ m) else onto e (upper_bound k m)

  abbrev pub value_at : K → Entries K V → Option V
  value_at k [] = none
  value_at k (e ∷ m) = if equivalent e.0 k then some e.1 else none

  -- `find`, as the value at the position that it returns.
  unfoldable pub find : K → Entries K V → Option V
  unfolding lower_bound
  find k m = value_at k (lower_bound k m).1

  -- `count` asks `std::binary_search`, whose answer is that of the lower bound.
  abbrev pub starts_at : K → Entries K V → Bool
  starts_at k [] = false
  starts_at k (e ∷ m) = not (o.less k e.0)

  unfoldable pub count : K → Entries K V → ℕ
  unfolding lower_bound
  count k m = one_if (starts_at k (lower_bound k m).1)

  -- `operator[]`, and what the caller does with the reference: `f` on the value there, or on the new
  -- value `d`.
  abbrev pub subscript_at : K → V → (V → V) → Entries K V → Entries K V → Entries K V
  subscript_at k d f before [] = before ++ (k, f d) ∷ []
  subscript_at k d f before (e ∷ m) =
      if equivalent e.0 k then before ++ (e.0, f e.1) ∷ m else before ++ (k, f d) ∷ e ∷ m

  unfoldable pub subscript : K → V → (V → V) → Entries K V → Entries K V
  unfolding lower_bound
  subscript k d f m = subscript_at k d f (lower_bound k m).0 (lower_bound k m).1

  -- `insert` of an entry: an entry that is there stays. With the position the flag that tells
  -- whether it was inserted.
  abbrev pub insert_at : K → V → Entries K V → Entries K V → Entries K V × Bool
  insert_at k v before [] = (before ++ (k, v) ∷ [], true)
  insert_at k v before (e ∷ m) =
      if equivalent e.0 k then (before ++ e ∷ m, false) else (before ++ (k, v) ∷ e ∷ m, true)

  unfoldable pub insert : K → V → Entries K V → Entries K V × Bool
  unfolding lower_bound
  insert k v m = insert_at k v (lower_bound k m).0 (lower_bound k m).1

  -- `insert` with a hint.
  unfoldable pub insert_hint : K → V → Entries K V → Entries K V
  unfolding lower_bound
  insert_hint k v m = (lower_bound k m).0 ++ (k, v) ∷ (lower_bound k m).1

  -- `erase` of a key, with the number of entries erased.
  abbrev pub erase_at : K → Entries K V → Entries K V → Entries K V × ℕ
  erase_at k before [] = (before, 0)
  erase_at k before (e ∷ m) = if equivalent e.0 k then (before ++ m, 1) else (before ++ e ∷ m, 0)

  unfoldable pub erase : K → Entries K V → Entries K V × ℕ
  unfolding lower_bound
  erase k m = erase_at k (lower_bound k m).0 (lower_bound k m).1
