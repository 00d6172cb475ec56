-- ===== src/Containers/SortedVectorMap/Lookup.antt =====
-- What `find` answers after each change of a map.
use libblocxx_deb.Prelude.{
  ◌∙◌, Bool-cases, ◌≡◌, refl, inl, inr, true, false, Option, none, some, [], ◌∷◌, arith,
  if◌then◌else◌,
}
use libblocxx_deb.Containers.Ordering.{StrictWeak, equivalent, weak}
use libblocxx_deb.Containers.SortedVectorMap.{
  Entries, lower_bound, find, subscript_at, insert_at, erase_at, subscript, insert, erase,
}

-- The value there, or a new one.
abbrev pub or_new {κ} : {V : Type κ} → V → Option V → V
or_new d none = d
or_new d (some v) = v

module _ {ℓ κ} {K : Type ℓ} {V : Type κ} ⦃o : StrictWeak K⦄ where
  -- Each operation, one entry at a time.
  pub find-cons :
      (k : K) (e : K × V) (m : Entries K V)
      → find k (e ∷ m)
        ≡ (if o.less e.0 k then find k m else if equivalent e.0 k then some e.1 else none)
  unfolding find
  find-cons k e m = ground arith

  subscript_at-cons :
      (k : K) (d : V) (f : V → V) (e : K × V) (b r : Entries K V)
      → subscript_at k d f (e ∷ b) r ≡ e ∷ subscript_at k d f b r
  subscript_at-cons k d f e b [] = refl
  subscript_at-cons k d f e b (x ∷ r) = ground arith

  pub subscript-cons :
      (k : K) (d : V) (f : V → V) (e : K × V) (m : Entries K V)
      → subscript k d f (e ∷ m) ≡ (
          if o.less e.0 k
          then e ∷ subscript k d f m
          else if equivalent e.0 k
          then (e.0, f e.1) ∷ m
          else (k, f d) ∷ e ∷ m)
  unfolding subscript
  subscript-cons k d f e m =
      ground (arith, subscript_at-cons k d f e (lower_bound k m).0 (lower_bound k m).1)

  pub find-subscript :
      (j k : K) (d : V) (f : V → V) (m : Entries K V)
      → find j (subscript k d f m)
        ≡ (if equivalent j k then some (f (or_new d (find k m))) else find j m)
  find-subscript j k d f [] = unfold find subscript lower_bound in ground (arith, o.irreflexive k)
  find-subscript j k d f (e ∷ m) = ground (
    arith,
    find-subscript j k d f m,
    find-cons j e m,
    find-cons k e m,
    subscript-cons k d f e m,
    find-cons j e (subscript k d f m),
    find-cons j (e.0, f e.1) m,
    find-cons j (k, f d) (e ∷ m),
    weak e.0 j k,
  )

  pub find-nil : (k : K) → find {V = V} k [] ≡ none
  unfolding find
  find-nil k = refl

  pub find-equivalent : (j k : K) (m : Entries K V) → equivalent j k ≡ true → find j m ≡ find k m
  find-equivalent j k [] h = unfold find in refl
  find-equivalent j k (e ∷ m) h =
      ground (arith, find-equivalent j k m, find-cons j e m, find-cons k e m, weak e.0 j k)

  -- An entry that is there stays, so `insert` is `operator[]` and a look at the reference.
  insert_at_lem :
      (k : K) (v : V) (b r : Entries K V) → (insert_at k v b r).0 ≡ subscript_at k v (λ x. x) b r
  insert_at_lem k v b [] = refl
  insert_at_lem k v b (e ∷ r) = ground arith

  pub insert-eq-subscript :
      (k : K) (v : V) (m : Entries K V) → (insert k v m).0 ≡ subscript k v (λ x. x) m
  unfolding insert subscript
  insert-eq-subscript k v m = insert_at_lem k v (lower_bound k m).0 (lower_bound k m).1

  erase_at-cons :
      (k : K) (e : K × V) (b r : Entries K V)
      → erase_at k (e ∷ b) r ≡ (e ∷ (erase_at k b r).0, (erase_at k b r).1)
  erase_at-cons k e b [] = refl
  erase_at-cons k e b (x ∷ r) = ground arith

  pub erase-cons :
      (k : K) (e : K × V) (m : Entries K V)
      → (erase k (e ∷ m)).0
        ≡ (if o.less e.0 k then e ∷ (erase k m).0 else if equivalent e.0 k then m else e ∷ m)
  unfolding erase
  erase-cons k e m = ground (arith, erase_at-cons k e (lower_bound k m).0 (lower_bound k m).1)

  -- All keys lie above a key; the keys ascend.
  abbrev pub Above : K → Entries K V → Type 0
  Above k [] = Unit
  Above k (e ∷ m) = (o.less k e.0 ≡ true) × Above k m

  abbrev pub IsAscending : Entries K V → Type 0
  IsAscending [] = Unit
  IsAscending (e ∷ m) = Above e.0 m × IsAscending m

  Above-trans : (a b : K) (m : Entries K V) → o.less a b ≡ true → Above b m → Above a m
  Above-trans a b [] h v = tt
  Above-trans a b (e ∷ m) h v = (o.transitive a b e.0 h v.0, Above-trans a b m h v.1)

  find-Above : (k j : K) (m : Entries K V) → Above k m → o.less k j ≡ false → find j m ≡ none
  find-Above k j [] v h = find-nil j
  find-Above k j (e ∷ m) v h = ground (arith, find-cons j e m, weak e.0 j k, find-Above k j m)

  pub subscript-nil : (k : K) (d : V) (f : V → V) → subscript k d f [] ≡ (k, f d) ∷ []
  unfolding subscript
  subscript-nil k d f = refl

  pub Above-subscript :
      (a k : K) (d : V) (f : V → V) (m : Entries K V)
      → o.less a k ≡ true
      → Above a m
      → Above a (subscript k d f m)
  Above-subscript a k d f [] h v = rw (subscript-nil k d f) (h, tt)
  Above-subscript a k d f (e ∷ m) h v =
      rw (subscript-cons k d f e m) (ground (arith, Above-subscript a k d f m))

  pub subscript-IsAscending :
      (k : K) (d : V) (f : V → V) (m : Entries K V)
      → IsAscending m
      → IsAscending (subscript k d f m)
  subscript-IsAscending k d f [] v = rw (subscript-nil k d f) (tt, tt)
  subscript-IsAscending k d f (e ∷ m) v = rw (subscript-cons k d f e m) (
      ground
        (arith, subscript-IsAscending k d f m, Above-subscript e.0 k d f m, Above-trans k e.0 m))

  Above-erase : (a k : K) (m : Entries K V) → Above a m → Above a (erase k m).0
  unfolding erase
  Above-erase a k [] v = tt
  Above-erase a k (e ∷ m) v = rw (erase-cons k e m) (ground (arith, Above-erase a k m))

  pub erase-IsAscending : (k : K) (m : Entries K V) → IsAscending m → IsAscending (erase k m).0
  unfolding erase
  erase-IsAscending k [] v = tt
  erase-IsAscending k (e ∷ m) v =
      rw (erase-cons k e m) (ground (arith, erase-IsAscending k m, Above-erase e.0 k m))

  erase_after :
      (j k : K) (e : K × V) (m : Entries K V)
      → o.less e.0 k ≡ true
      → (if o.less e.0 j
          then (if equivalent j k then none else find j m)
          else if equivalent e.0 j
          then some e.1
          else none)
        ≡ (if equivalent j k then none else find j (e ∷ m))
  erase_after j k e m h = ground (arith, find-cons j e m, weak e.0 j k)

  erase_before :
      (j k : K) (e : K × V) (m : Entries K V)
      → o.less k e.0 ≡ true
      → find j (e ∷ m) ≡ (if equivalent j k then none else find j (e ∷ m))
  erase_before j k e m h = ground (arith, find-cons j e m, weak e.0 j k)

  erase_here :
      (j k : K) (e : K × V) (m : Entries K V)
      → Above e.0 m
      → o.less e.0 k ≡ false
      → o.less k e.0 ≡ false
      → find j m ≡ (if equivalent j k then none else find j (e ∷ m))
  erase_here j k e m v h g = ground (arith, find-cons j e m, find-Above e.0 j m v, weak e.0 j k)

  pub find-erase :
      (j k : K) (m : Entries K V)
      → IsAscending m
      → find j (erase k m).0 ≡ (if equivalent j k then none else find j m)
  unfolding erase
  find-erase j k [] v = rw (find-nil j) (ground arith)
  find-erase j k (e ∷ m) v = elim (Bool-cases (o.less e.0 k)) [
    | inl below ↦
        rw (erase-cons k e m, below)
          (find-cons j e (erase k m).0 ∙ rw (find-erase j k m v.1) (erase_after j k e m below))
    | inr not_below ↦ elim (Bool-cases (o.less k e.0)) [
      | inl above ↦ rw (erase-cons k e m, not_below, above) (erase_before j k e m above)
      | inr not_above ↦
          rw (erase-cons k e m, not_below, not_above) (erase_here j k e m v.0 not_below not_above)
    ]
  ]
