-- ===== src/Containers/Ordering.antt =====
-- What a container asks of its `Compare` (src/blocxx/StrictWeakOrdering.hpp tells it for the
-- library's own): a strict weak ordering.
use libblocxx_deb.Prelude.{ℕ, ◌≡◌, ◌⊎◌, Bool, true, false, ◌&&◌, not, arith, ltb, ◌+◌}
use libblocxx_deb.Prelude.Int.{ℤ, pos_part, neg_part, ltb_ℤ}

pub record StrictWeak {ℓ} (K : Type ℓ) : Type ℓ where
  pub less : K → K → Bool
  pub irreflexive : (a : K) → less a a ≡ false
  pub transitive : (a b c : K) → less a b ≡ true → less b c ≡ true → less a c ≡ true
  pub divides : (a b c : K) → less a c ≡ true → (less a b ≡ true) ⊎ (less b c ≡ true)

-- Neither comes before the other.
abbrev pub equivalent {ℓ} : {K : Type ℓ} ⦃o : StrictWeak K⦄ → K → K → Bool
equivalent ⦃o⦄ x y = not (o.less x y) && not (o.less y x)

pub ltb_irreflexive : (a : ℕ) → ltb a a ≡ false
ltb_irreflexive a = ground arith

pub ltb_transitive : (a b c : ℕ) → ltb a b ≡ true → ltb b c ≡ true → ltb a c ≡ true
ltb_transitive a b c h k = ground arith

pub ltb_divides : (a b c : ℕ) → ltb a c ≡ true → (ltb a b ≡ true) ⊎ (ltb b c ≡ true)
ltb_divides a b c h = ground arith

instance abbrev pub ℕ_StrictWeak : StrictWeak ℕ
ℕ_StrictWeak = record {
  less = ltb;
  irreflexive = ltb_irreflexive;
  transitive = ltb_transitive;
  divides = ltb_divides;
}

-- The same on differences.
ltb_shift :
    (a a' b b' c c' : ℕ)
    → ltb (a + b') (b + a') ≡ true
    → ltb (b + c') (c + b') ≡ true
    → ltb (a + c') (c + a') ≡ true
ltb_shift a a' b b' c c' h k = ground arith

ltb_part :
    (a a' b b' c c' : ℕ)
    → ltb (a + c') (c + a') ≡ true
    → (ltb (a + b') (b + a') ≡ true) ⊎ (ltb (b + c') (c + b') ≡ true)
ltb_part a a' b b' c c' h = ground arith

-- The order of the integers, as differences of their parts.
pub ltb_ℤ_irreflexive : (a : ℤ) → ltb_ℤ a a ≡ false
ltb_ℤ_irreflexive a = ltb_irreflexive (pos_part a + neg_part a)

pub ltb_ℤ_transitive : (a b c : ℤ) → ltb_ℤ a b ≡ true → ltb_ℤ b c ≡ true → ltb_ℤ a c ≡ true
ltb_ℤ_transitive a b c h k =
    ltb_shift (pos_part a) (neg_part a) (pos_part b) (neg_part b) (pos_part c) (neg_part c) h k

pub ltb_ℤ_divides : (a b c : ℤ) → ltb_ℤ a c ≡ true → (ltb_ℤ a b ≡ true) ⊎ (ltb_ℤ b c ≡ true)
ltb_ℤ_divides a b c h =
    ltb_part (pos_part a) (neg_part a) (pos_part b) (neg_part b) (pos_part c) (neg_part c) h

instance abbrev pub ℤ_StrictWeak : StrictWeak ℤ
ℤ_StrictWeak = record {
  less = ltb_ℤ;
  irreflexive = ltb_ℤ_irreflexive;
  transitive = ltb_ℤ_transitive;
  divides = ltb_ℤ_divides;
}

module _ {ℓ} {K : Type ℓ} ⦃o : StrictWeak K⦄ where
  -- The laws at three keys.
  abbrev pub Weak : K → K → K → Type 0
  Weak a b c =
      (o.less a a ≡ false)
      × (o.less b b ≡ false)
      × (o.less c c ≡ false)
      × ((o.less a b ≡ false) ⊎ ((o.less b c ≡ false) ⊎ (o.less a c ≡ true)))
      × ((o.less a c ≡ false) ⊎ ((o.less c b ≡ false) ⊎ (o.less a b ≡ true)))
      × ((o.less b a ≡ false) ⊎ ((o.less a c ≡ false) ⊎ (o.less b c ≡ true)))
      × ((o.less b c ≡ false) ⊎ ((o.less c a ≡ false) ⊎ (o.less b a ≡ true)))
      × ((o.less c a ≡ false) ⊎ ((o.less a b ≡ false) ⊎ (o.less c b ≡ true)))
      × ((o.less c b ≡ false) ⊎ ((o.less b a ≡ false) ⊎ (o.less c a ≡ true)))
      × ((o.less a b ≡ false) ⊎ (o.less b a ≡ false))
      × ((o.less b c ≡ false) ⊎ (o.less c b ≡ false))
      × ((o.less a c ≡ false) ⊎ (o.less c a ≡ false))
      × ((o.less a b ≡ false) ⊎ ((o.less a c ≡ true) ⊎ (o.less c b ≡ true)))
      × ((o.less a c ≡ false) ⊎ ((o.less a b ≡ true) ⊎ (o.less b c ≡ true)))
      × ((o.less b a ≡ false) ⊎ ((o.less b c ≡ true) ⊎ (o.less c a ≡ true)))
      × ((o.less b c ≡ false) ⊎ ((o.less b a ≡ true) ⊎ (o.less a c ≡ true)))
      × ((o.less c a ≡ false) ⊎ ((o.less c b ≡ true) ⊎ (o.less b a ≡ true)))
      × ((o.less c b ≡ false) ⊎ ((o.less c a ≡ true) ⊎ (o.less a b ≡ true)))

  trans_or : (a b c : K) → (o.less a b ≡ false) ⊎ ((o.less b c ≡ false) ⊎ (o.less a c ≡ true))
  trans_or a b c = ground (arith, o.transitive a b c)

  asym : (a b : K) → (o.less a b ≡ false) ⊎ (o.less b a ≡ false)
  asym a b = ground (arith, o.transitive a b a, o.irreflexive a)

  divides_or : (a b c : K) → (o.less a b ≡ false) ⊎ ((o.less a c ≡ true) ⊎ (o.less c b ≡ true))
  divides_or a b c = ground (arith, o.divides a c b)

  pub weak : (a b c : K) → Weak a b c
  weak a b c = (
    o.irreflexive a,
    o.irreflexive b,
    o.irreflexive c,
    trans_or a b c,
    trans_or a c b,
    trans_or b a c,
    trans_or b c a,
    trans_or c a b,
    trans_or c b a,
    asym a b,
    asym b c,
    asym a c,
    divides_or a b c,
    divides_or a c b,
    divides_or b a c,
    divides_or b c a,
    divides_or c a b,
    divides_or c b a,
  )
