-- ===== src/Time/Period/Laws.antt =====
-- The dates in an intersection of periods.
use libblocxx_deb.Prelude.{
  ◌+◌, ◌≡◌, refl, sym, ◌∙◌, true, false, ◌&&◌, not, arith, ltb, leb, inl, inr, Bool-cases,
}
use libblocxx_deb.Time.DateTime.{DateTime, Limits, of_flag, lt, le, ge, eq}
use libblocxx_deb.Time.Duration.{pos_infinity, neg_infinity}
use libblocxx_deb.Time.DateTime.Laws.{IsNormal, ahead, behind}
use libblocxx_deb.Time.Period.{
  TimePeriod, period, contains, intersect, intersection, is_invalid, later_of, earlier_of,
}

-- The comparisons of normal values, as comparisons of their microseconds.
lt-Normal :
    (l : Limits) (x y : DateTime)
    → IsNormal l x
    → IsNormal l y
    → lt x y ≡ ltb (ahead x + behind y) (behind x + ahead y)
unfolding lt
lt-Normal l x y h k =
    ground (arith, h.not_negative, h.less_than_second, k.not_negative, k.less_than_second)

le-Normal :
    (l : Limits) (x y : DateTime)
    → IsNormal l x
    → IsNormal l y
    → le x y ≡ leb (ahead x + behind y) (behind x + ahead y)
unfolding le lt eq
le-Normal l x y h k =
    ground (arith, h.not_negative, h.less_than_second, k.not_negative, k.less_than_second)

-- A period between two dates that are not special, like the default one also where its begin is not
-- before its end.
pub record IsProper (l : Limits) (p : TimePeriod) : Type 0 where
  pub begin_normal : IsNormal l p.begin
  pub finish_normal : IsNormal l p.finish

normal-valid : (l : Limits) (x : DateTime) → IsNormal l x → is_invalid x ≡ false
normal-valid l x h = ground (arith, h.not_negative, h.less_than_second)

ge-lt : (l : Limits) (x y : DateTime) → IsNormal l x → IsNormal l y → ge x y ≡ not (lt x y)
unfolding ge lt eq
ge-lt l x y h k =
    ground (arith, h.not_negative, h.less_than_second, k.not_negative, k.less_than_second)

-- The period that the constructor makes of ends that are not in order contains no date.
infinities_contain :
    (t : DateTime) → (le (of_flag pos_infinity) t && lt t (of_flag neg_infinity)) ≡ false
unfolding le lt eq
infinities_contain t = ground arith

no_date_between :
    (l : Limits) (x y t : DateTime)
    → IsNormal l x
    → IsNormal l y
    → IsNormal l t
    → lt x y ≡ false
    → (le x t && lt t y) ≡ false
no_date_between l x y t h k n e =
    rw (le-Normal l x t h n)
      (rw (lt-Normal l t y n k) (ground (arith, sym (lt-Normal l x y h k) ∙ e)))

contains-period :
    (l : Limits) (x y t : DateTime)
    → IsNormal l x
    → IsNormal l y
    → IsNormal l t
    → contains (period x y) t ≡ (le x t && lt t y)
unfolding period contains
contains-period l x y t h k n = rw (normal-valid l x h) (
    rw (normal-valid l y k) (
      rw (ge-lt l x y h k) (elim (Bool-cases (lt x y)) [
        | inl e ↦ rw e refl
        | inr e ↦ rw e (infinities_contain t ∙ sym (no_date_between l x y t h k n e))
      ])))

module _ (l : Limits) (p q : TimePeriod) (t : DateTime) (h : IsProper l p) (k : IsProper l q)
    (n : IsNormal l t) where
  -- Both tests against both periods, and the order of their ends.
  abbrev Both : DateTime → DateTime → Type 0
  Both x y =
      (le x t && lt t y) ≡ ((le p.begin t && lt t p.finish) && (le q.begin t && lt t q.finish))

  pb : IsNormal l p.begin
  pb = h.begin_normal

  pf : IsNormal l p.finish
  pf = h.finish_normal

  qb : IsNormal l q.begin
  qb = k.begin_normal

  qf : IsNormal l q.finish
  qf = k.finish_normal

  Both-ends :
      (x y : DateTime)
      → IsNormal l x
      → IsNormal l y
      → (le x t ≡ (le p.begin t && le q.begin t))
      → (lt t y ≡ (lt t p.finish && lt t q.finish))
      → Both x y
  Both-ends x y nx ny e f = rw e (rw f (ground arith))

  later-le : le (later_of p.begin q.begin) t ≡ (le p.begin t && le q.begin t)
  later-le = rw (le-Normal l p.begin t pb n) (
      rw (le-Normal l q.begin t qb n) (elim (Bool-cases (lt p.begin q.begin)) [
        | inl e ↦ rw e (
            rw (le-Normal l q.begin t qb n)
              (ground (arith, sym (lt-Normal l p.begin q.begin pb qb) ∙ e)))
        | inr e ↦ rw e (
            rw (le-Normal l p.begin t pb n)
              (ground (arith, sym (lt-Normal l p.begin q.begin pb qb) ∙ e)))
      ]))

  earlier-lt : lt t (earlier_of p.finish q.finish) ≡ (lt t p.finish && lt t q.finish)
  earlier-lt = rw (lt-Normal l t p.finish n pf) (
      rw (lt-Normal l t q.finish n qf) (elim (Bool-cases (lt q.finish p.finish)) [
        | inl e ↦ rw e (
            rw (lt-Normal l t q.finish n qf)
              (ground (arith, sym (lt-Normal l q.finish p.finish qf pf) ∙ e)))
        | inr e ↦ rw e (
            rw (lt-Normal l t p.finish n pf)
              (ground (arith, sym (lt-Normal l q.finish p.finish qf pf) ∙ e)))
      ]))

  later-IsNormal : IsNormal l (later_of p.begin q.begin)
  later-IsNormal = elim (Bool-cases (lt p.begin q.begin)) [ inl e ↦ rw e qb | inr e ↦ rw e pb ]

  earlier-IsNormal : IsNormal l (earlier_of p.finish q.finish)
  earlier-IsNormal = elim (Bool-cases (lt q.finish p.finish)) [ inl e ↦ rw e qf | inr e ↦ rw e pf ]

  in_intersection :
      intersect p q ≡ true → contains (intersection p q) t ≡ (contains p t && contains q t)
  unfolding intersection contains
  in_intersection e =
      let x = later_of p.begin q.begin in
      let y = earlier_of p.finish q.finish in
      rw e (contains-period l x y t later-IsNormal earlier-IsNormal n ∙ ends)
    where
      ends : Both (later_of p.begin q.begin) (earlier_of p.finish q.finish)
      ends = Both-ends _ _ later-IsNormal earlier-IsNormal later-le earlier-lt

-- Of two periods that intersect, between dates that are not special, whether or not their begins are
-- before their ends, the intersection contains a date that is not special exactly where both of them
-- do.
pub contains-intersection :
    (l : Limits) (p q : TimePeriod) (t : DateTime)
    → IsProper l p
    → IsProper l q
    → IsNormal l t
    → intersect p q ≡ true
    → contains (intersection p q) t ≡ (contains p t && contains q t)
contains-intersection l p q t h k n e = in_intersection l p q t h k n e
