-- ===== src/Prelude/Bits.antt =====
-- The operators `<<`, `>>`, `&` and `|` on unsigned words, and their reading as arithmetic.
use Prim.Native.Nat.{
  ℕ, zero, suc, ◌+◌, ◌-◌, ◌*◌, ◌/◌, ◌%◌, ◌^◌, ◌≤◌, ◌<◌, min, max, bit_and, bit_or, digits,
  bit_and-bitwise, bit_or-bitwise,
}
use mathlib.Core.Path.{◌≡◌, refl, ap}
use mathlib.Core.WellFounded
use native.Mathlib.Nat.{pow-suc, one-le-pow}
use native.Mathlib.Omega.{arith}
use libblocxx_deb.Prelude.Order.{lt_wf}

infixl 75 ◌<<◌ ◌>>◌
abbrev pub ◌<<◌ : ℕ → ℕ → ℕ
x << k = x * 2 ^ k

abbrev pub ◌>>◌ : ℕ → ℕ → ℕ
x >> k = x / 2 ^ k

module _ (keep : ℕ → ℕ) (op : ℕ → ℕ → ℕ) where
  -- Fuel past the first operand changes nothing.
  digits_enough : (m n a b : ℕ) → a ≤ m → a ≤ n → digits keep op m a b ≡ digits keep op n a b
  digits_enough zero zero a b le_m le_n = refl
  digits_enough (suc m) (suc n) zero b le_m le_n = refl
  digits_enough (suc m) (suc n) (suc a) b le_m le_n =
      let half = digits_enough m n (suc a / 2) (b / 2) (omega arith) (omega arith) in
      ap (λ (d : ℕ). d * 2 + op (suc a % 2) (b % 2)) half
  digits_enough (suc m) zero zero b le_m le_n = refl
  digits_enough (suc m) zero (suc a) b le_m le_n = absurd (omega arith)
  digits_enough zero (suc n) zero b le_m le_n = refl
  digits_enough zero (suc n) (suc a) b le_m le_n = absurd (omega arith)

  -- All binary digits but the last, and the last.
  digits_last :
      (a b : ℕ)
      → digits keep op (suc a) (suc a) b
        ≡ digits keep op (suc a / 2) (suc a / 2) (b / 2) * 2 + op (suc a % 2) (b % 2)
  digits_last a b =
      ap (λ (d : ℕ). d * 2 + op (suc a % 2) (b % 2))
        (digits_enough a (suc a / 2) (suc a / 2) (b / 2) (omega arith) (omega arith))

bit_and_last : (a b : ℕ) → bit_and a b ≡ bit_and (a / 2) (b / 2) * 2 + min (a % 2) (b % 2)
bit_and_last zero b = omega (arith, bit_and-bitwise 0 b, bit_and-bitwise 0 (b / 2))
bit_and_last (suc a) b = omega (
  arith,
  digits_last (λ _. zero) min a b,
  bit_and-bitwise (suc a) b,
  bit_and-bitwise (suc a / 2) (b / 2),
)

bit_or_last : (a b : ℕ) → bit_or a b ≡ bit_or (a / 2) (b / 2) * 2 + max (a % 2) (b % 2)
bit_or_last zero b = omega (arith, bit_or-bitwise 0 b, bit_or-bitwise 0 (b / 2))
bit_or_last (suc a) b = omega (
  arith,
  digits_last (λ d. d) max a b,
  bit_or-bitwise (suc a) b,
  bit_or-bitwise (suc a / 2) (b / 2),
)

-- With no digit on the right, by halving the left operand.
bit_and-zero : (a : ℕ) → bit_and a 0 ≡ 0
bit_and-zero a =
    WellFounded.induction lt_wf {C = λ n. bit_and n 0 ≡ 0} a
      λ n ih. ground (arith, bit_and_last n 0, bit_and-bitwise 0 0, ih (n / 2))

bit_or-zero : (a : ℕ) → bit_or a 0 ≡ a
bit_or-zero a =
    WellFounded.induction lt_wf {C = λ n. bit_or n 0 ≡ n} a
      λ n ih. ground (arith, bit_or_last n 0, bit_or-bitwise 0 0, ih (n / 2))

-- `2 ^ k` doubles, also under a factor.
pub pow_double : (q k : ℕ) → q * 2 ^ suc k ≡ q * 2 ^ k * 2
pow_double q k = omega (arith, ap (λ (t : ℕ). q * t) (pow-suc 2 k))

-- A mask of `k` ones keeps the last field of `k` binary digits.
bit_and_field : (k q r a : ℕ) → r < 2 ^ k → a ≡ q * 2 ^ k + r → bit_and a (2 ^ k - 1) ≡ r
bit_and_field zero q r a fits e = ground (arith, bit_and-zero a)
bit_and_field (suc k) q r a fits e = ground (
  arith,
  bit_and_last a (2 ^ suc k - 1),
  pow_double q k,
  pow_double 1 k,
  one-le-pow k 2,
  bit_and_field k q (r / 2) (a / 2),
)

pub bit_and_ones : (k a : ℕ) → bit_and a (2 ^ k - 1) ≡ a % 2 ^ k
bit_and_ones k a = ground (arith, one-le-pow k 2, bit_and_field k (a / 2 ^ k) (a % 2 ^ k) a)

-- Fields that do not overlap add up.
pub bit_or_disjoint : (k hi lo : ℕ) → lo < 2 ^ k → bit_or (hi << k) lo ≡ (hi << k) + lo
bit_or_disjoint zero hi lo fits = ground (arith, bit_or-zero hi)
bit_or_disjoint (suc k) hi lo fits = ground (
  arith,
  bit_or_last (hi * 2 ^ suc k) lo,
  pow_double hi k,
  pow_double 1 k,
  bit_or_disjoint k hi (lo / 2),
)

-- The digit above all digits of a number is not set in it.
pub bit_and_above : (k a : ℕ) → a < 2 ^ k → bit_and a (2 ^ k) ≡ 0
bit_and_above zero a h = ground (arith, bit_and-bitwise 0 1)
bit_and_above (suc k) a h =
    ground (arith, bit_and_last a (2 ^ suc k), pow_double 1 k, bit_and_above k (a / 2))
