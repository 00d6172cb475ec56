-- ===== src/RwLock/Tally.antt =====
-- Sums over the threads of a lock, and how a change of one thread changes them.
use libblocxx_deb.Prelude.{
  ℕ, zero, suc, ◌+◌, ◌≤◌, ◌≡◌, ◌≢◌, refl, ap, some, List, [], ◌∷◌, map, arith, get_elem?, set,
}

module _ {ℓ} {A : Type ℓ} where
  abbrev pub tally : (A → ℕ) → List A → ℕ
  tally f [] = 0
  tally f (t ∷ ts) = f t + tally f ts

  pub tally-set :
      (f : A → ℕ) (ts : List A) (i : ℕ) (t u : A)
      → get_elem? ts i ≡ some t
      → tally f (set ts i u) + f t ≡ tally f ts + f u
  tally-set f [] i t u h = ground arith
  tally-set f (x ∷ ts) zero t u h = ground arith
  tally-set f (x ∷ ts) (suc i) t u h = ground (arith, tally-set f ts i t u h)

  pub tally-map :
      (f : A → ℕ) (g : A → A) (ts : List A)
      → ((t : A) → f (g t) ≡ f t)
      → tally f (map g ts) ≡ tally f ts
  tally-map f g [] h = refl
  tally-map f g (t ∷ ts) h = ground (arith, h t, tally-map f g ts h)

  pub tally_member :
      (f : A → ℕ) (ts : List A) (i : ℕ) (t : A) → get_elem? ts i ≡ some t → f t ≤ tally f ts
  tally_member f [] i t h = ground arith
  tally_member f (x ∷ ts) zero t h = ground arith
  tally_member f (x ∷ ts) (suc i) t h = ground (arith, tally_member f ts i t h)

  pub tally_two :
      (f : A → ℕ) (ts : List A) (i j : ℕ) (t u : A)
      → i ≢ j
      → get_elem? ts i ≡ some t
      → get_elem? ts j ≡ some u
      → f t + f u ≤ tally f ts
  tally_two f [] i j t u n g h = ground arith
  tally_two f (x ∷ ts) zero zero t u n g h = absurd (n refl)
  tally_two f (x ∷ ts) zero (suc j) t u n g h = ground (arith, tally_member f ts j u h)
  tally_two f (x ∷ ts) (suc i) zero t u n g h = ground (arith, tally_member f ts i t g)
  tally_two f (x ∷ ts) (suc i) (suc j) t u n g h =
      ground (arith, tally_two f ts i j t u (λ e. n (ap suc e)) g h)

  pub tally_none :
      (f : A → ℕ) (ts : List A)
      → ((j : ℕ) (u : A) → get_elem? ts j ≡ some u → f u ≡ 0)
      → tally f ts ≡ 0
  tally_none f [] h = refl
  tally_none f (x ∷ ts) h = ground (arith, h 0 x refl, tally_none f ts (λ j u e. h (suc j) u e))

  -- Where the others count nothing, the sum is what one counts.
  pub tally_only :
      (f : A → ℕ) (ts : List A) (i : ℕ) (t : A)
      → get_elem? ts i ≡ some t
      → ((j : ℕ) (u : A) → j ≢ i → get_elem? ts j ≡ some u → f u ≡ 0)
      → tally f ts ≡ f t
  tally_only f [] i t g h = ground arith
  tally_only f (x ∷ ts) zero t g h =
      ground (arith, tally_none f ts (λ j u e. h (suc j) u (λ p. absurd (omega arith)) e))
  tally_only f (x ∷ ts) (suc i) t g h = ground (
    arith,
    h 0 x (λ p. absurd (omega arith)) refl,
    tally_only f ts i t g (λ j u n e. h (suc j) u (λ p. n (omega arith)) e),
  )

  pub get_elem?-set_at :
      (ts : List A) (i : ℕ) (t u : A) → get_elem? ts i ≡ some t → get_elem? (set ts i u) i ≡ some u
  get_elem?-set_at [] i t u h = ground arith
  get_elem?-set_at (x ∷ ts) zero t u h = refl
  get_elem?-set_at (x ∷ ts) (suc i) t u h = get_elem?-set_at ts i t u h
