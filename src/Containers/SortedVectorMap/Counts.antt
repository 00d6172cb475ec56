-- ===== src/Containers/SortedVectorMap/Counts.antt =====
-- The numbers and flags that the operations return, and `insert` with a hint.
use libblocxx_deb.Prelude.{
  ◌≡◌, refl, some, [], ◌∷◌, not, arith, if◌then◌else◌, is_some, Bool-cases, inl, inr,
}
use libblocxx_deb.Containers.Ordering.{StrictWeak, equivalent}
use libblocxx_deb.Containers.SortedVectorMap.{
  Entries, lower_bound, find, count, insert_at, erase_at, one_if, insert, insert_hint, erase,
}
use libblocxx_deb.Containers.SortedVectorMap.Lookup.{
  find-cons, find-subscript, insert-eq-subscript, erase-cons,
}

module _ {ℓ κ} {K : Type ℓ} {V : Type κ} ⦃o : StrictWeak K⦄ where
  count-cons :
      (k : K) (e : K × V) (m : Entries K V)
      → count k (e ∷ m) ≡ (if o.less e.0 k then count k m else one_if (not (o.less k e.0)))
  unfolding count
  count-cons k e m = ground arith

  erased_at-cons :
      (k : K) (e : K × V) (b r : Entries K V) → (erase_at k (e ∷ b) r).1 ≡ (erase_at k b r).1
  erased_at-cons k e b [] = refl
  erased_at-cons k e b (x ∷ r) = ground arith

  erased-cons :
      (k : K) (e : K × V) (m : Entries K V)
      → (erase k (e ∷ m)).1
        ≡ (if o.less e.0 k then (erase k m).1 else if equivalent e.0 k then 1 else 0)
  unfolding erase
  erased-cons k e m = ground (arith, erased_at-cons k e (lower_bound k m).0 (lower_bound k m).1)

  inserted_at-cons :
      (k : K) (v : V) (e : K × V) (b r : Entries K V)
      → (insert_at k v (e ∷ b) r).1 ≡ (insert_at k v b r).1
  inserted_at-cons k v e b [] = refl
  inserted_at-cons k v e b (x ∷ r) = ground arith

  inserted-cons :
      (k : K) (v : V) (e : K × V) (m : Entries K V)
      → (insert k v (e ∷ m)).1 ≡ (if o.less e.0 k then (insert k v m).1 else not (equivalent e.0 k))
  unfolding insert
  inserted-cons k v e m =
      ground (arith, inserted_at-cons k v e (lower_bound k m).0 (lower_bound k m).1)

  insert_hint-cons :
      (k : K) (v : V) (e : K × V) (m : Entries K V)
      → insert_hint k v (e ∷ m) ≡ (if o.less e.0 k then e ∷ insert_hint k v m else (k, v) ∷ e ∷ m)
  unfolding insert_hint
  insert_hint-cons k v e m = ground arith

  -- `count` and the number that `erase` returns are 1 if `find` finds the key and 0 otherwise, and
  -- `insert` tells that it has inserted an entry exactly if `find` did not find the key.
  pub counts_agree :
      (k : K) (v : V) (m : Entries K V)
      → (count k m ≡ one_if (is_some (find k m)))
        × ((erase k m).1 ≡ count k m)
        × ((insert k v m).1 ≡ not (is_some (find k m)))
  counts_agree k v [] = unfold count erase insert find in (refl, refl, refl)
  counts_agree k v (e ∷ m) = ground (
    arith,
    counts_agree k v m,
    count-cons k e m,
    erased-cons k e m,
    inserted-cons k v e m,
    find-cons k e m,
  )

  erase-insert_hint : (k : K) (v : V) (m : Entries K V) → (erase k (insert_hint k v m)).0 ≡ m
  erase-insert_hint k v [] = unfold erase insert_hint in ground (arith, o.irreflexive k)
  erase-insert_hint k v (e ∷ m) = elim (Bool-cases (o.less e.0 k)) [
    | inl below ↦
        rw
          (
            insert_hint-cons k v e m,
            below,
            erase-cons k e (insert_hint k v m),
            below,
            erase-insert_hint k v m,
          )
          refl
    | inr above ↦
        rw (insert_hint-cons k v e m, above, erase-cons k (k, v) (e ∷ m), o.irreflexive k) refl
  ]

  -- A key that is in a map keeps its value by `insert`. `insert` with a hint gives it a second
  -- entry: after `erase` of the key, `find` finds the key again, with its value before the insertion.
  pub insert_hint-Doubles :
      (k : K) (v w : V) (m : Entries K V)
      → find k m ≡ some w
      → (find k (insert k v m).0 ≡ some w) × (find k (erase k (insert_hint k v m)).0 ≡ some w)
  insert_hint-Doubles k v w m h = (
    rw (insert-eq-subscript k v m, find-subscript k k v (λ x. x) m, o.irreflexive k, h) refl,
    rw (erase-insert_hint k v m) h,
  )
