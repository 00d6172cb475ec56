-- ===== src/Time/DivRem.antt =====
-- src/blocxx/DivRem.hpp: division of signed integers, towards zero and downwards. The machine's
-- `/` and `%` round towards zero, so `DivRounds<T>::tozero` holds and `down` does not.
use native.Mathlib.Nat.{div-add-mod, mod-lt, zero-div, zero-mod, mul-suc}
use native.Mathlib.Numerals.{add-one}
use libblocxx_deb.Prelude.{
  ℕ, zero, suc, ◌+◌, ◌-◌, ◌*◌, ◌/◌, ◌%◌, ◌<◌, ◌≡◌, refl, ap, arith, if◌then◌else◌,
}
use libblocxx_deb.Prelude.Int.{
  ℤ, pos, negsuc, pos_part, neg_part, ◌+ℤ◌, ◌-ℤ◌, ltb_ℤ, minus, minus_parts, -ℤ_parts, +ℤ_parts,
  eq_of_parts,
}

-- `x / y` and `x % y` of the machine, for y > 0.
unfoldable pub div_machine : ℤ → ℕ → ℤ
div_machine (pos n) y = pos (n / y)
div_machine (negsuc n) y = minus ((n + 1) / y)

unfoldable pub rem_machine : ℤ → ℕ → ℤ
rem_machine (pos n) y = pos (n % y)
rem_machine (negsuc n) y = minus ((n + 1) % y)

unfoldable pub div_floor : ℤ → ℕ → ℤ
div_floor x y = if ltb_ℤ x (pos 0) then div_machine (x +ℤ pos 1) y -ℤ pos 1 else div_machine x y

unfoldable pub rem_floor : ℤ → ℕ → ℤ
rem_floor x y =
    if ltb_ℤ x (pos 0) then rem_machine (x +ℤ pos 1) y +ℤ pos y -ℤ pos 1 else rem_machine x y

plus_one : (n : ℕ) → negsuc n +ℤ pos 1 ≡ minus n
unfolding ◌+ℤ◌
plus_one zero = refl
plus_one (suc n) = ground arith

-- `divTrunc` and `remTrunc` are the machine's operations, where those round towards zero.
unfoldable pub div_trunc : ℤ → ℕ → ℤ
div_trunc x y = div_machine x y

unfoldable pub rem_trunc : ℤ → ℕ → ℤ
rem_trunc x y = rem_machine x y

pub div_machine-minus : (n y : ℕ) → div_machine (minus n) y ≡ minus (n / y)
unfolding div_machine
div_machine-minus zero y = ground (arith, zero-div y)
div_machine-minus (suc n) y = ap (λ k. minus (k / y)) (add-one n)

pub rem_machine-minus : (n y : ℕ) → rem_machine (minus n) y ≡ minus (n % y)
unfolding rem_machine
rem_machine-minus zero y = ground (arith, zero-mod y)
rem_machine-minus (suc n) y = ap (λ k. minus (k % y)) (add-one n)

-- The branch for negative numbers, in closed form.
pub div_floor-negsuc : (n y : ℕ) → div_floor (negsuc n) y ≡ negsuc (n / y)
unfolding div_floor
div_floor-negsuc n y = ground (
  arith,
  plus_one n,
  div_machine-minus n y,
  eq_of_parts (minus (n / y) -ℤ pos 1) (negsuc (n / y)),
  -ℤ_parts (minus (n / y)) (pos 1),
  minus_parts (n / y),
)

pub rem_floor-negsuc : (n y : ℕ) → 0 < y → rem_floor (negsuc n) y ≡ pos (y - (n % y + 1))
unfolding rem_floor
rem_floor-negsuc n y h = ground (
  arith,
  plus_one n,
  rem_machine-minus n y,
  eq_of_parts (minus (n % y) +ℤ pos y -ℤ pos 1) (pos (y - (n % y + 1))),
  -ℤ_parts (minus (n % y) +ℤ pos y) (pos 1),
  +ℤ_parts (minus (n % y)) (pos y),
  minus_parts (n % y),
  mod-lt n h,
)

-- For y > 0 the floor remainder r of x lies in 0 ≤ r < y, and with the floor quotient q it makes
-- up x = y * q + r, stated on the positive and negative parts.
pub div_floor_lem :
    (x : ℤ) (y : ℕ)
    → 0 < y
    → (neg_part (rem_floor x y) ≡ 0)
      × (pos_part (rem_floor x y) < y)
      × (y * pos_part (div_floor x y) + pos_part (rem_floor x y) + neg_part x
          ≡ y * neg_part (div_floor x y) + pos_part x)
div_floor_lem (pos n) y h =
    unfold div_floor rem_floor div_machine rem_machine in
    ground (arith, div-add-mod n y, mod-lt n h)
div_floor_lem (negsuc n) y h =
    rw (div_floor-negsuc n y, rem_floor-negsuc n y h)
      (ground (arith, div-add-mod n y, mod-lt n h, mul-suc y (n / y)))
