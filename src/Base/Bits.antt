-- ===== src/Base/Bits.antt =====
-- The mask `x & -16` on a 64-bit word, as arithmetic.
use Prim.Native.Nat.{
  ℕ, zero, suc, ◌+◌, ◌-◌, ◌*◌, ◌/◌, ◌%◌, ◌^◌, ◌≤◌, ◌<◌, min, digits, bit_and, bit_and-bitwise,
}
use mathlib.Core.Path.{◌≡◌, refl}
use native.Mathlib.Nat.{pow-suc, one-le-pow}
use native.Mathlib.Omega.{arith}

abbrev and_digits : ℕ → ℕ → ℕ → ℕ
and_digits n a b = digits (λ b. zero) min n a b

-- The digits do not depend on the fuel, once there is enough.
fuel-irrelevant : (n m a b : ℕ) → a ≤ n → a ≤ m → and_digits n a b ≡ and_digits m a b
fuel-irrelevant zero zero a b p q = refl
fuel-irrelevant zero (suc m) zero b p q = refl
fuel-irrelevant zero (suc m) (suc a) b p q = absurd (omega arith)
fuel-irrelevant (suc n) zero zero b p q = refl
fuel-irrelevant (suc n) zero (suc a) b p q = absurd (omega arith)
fuel-irrelevant (suc n) (suc m) zero b p q = refl
fuel-irrelevant (suc n) (suc m) (suc a) b p q =
    omega (arith, fuel-irrelevant n m (suc a / 2) (b / 2) (omega arith) (omega arith))

zero-bit_and : (b : ℕ) → bit_and 0 b ≡ 0
zero-bit_and b = bit_and-bitwise 0 b

-- The lowest binary digit of a conjunction.
and_low_digit : (a b : ℕ) → bit_and a b ≡ bit_and (a / 2) (b / 2) * 2 + min (a % 2) (b % 2)
and_low_digit zero b = omega (arith, zero-bit_and b, zero-bit_and (b / 2))
and_low_digit (suc a) b = omega (
  arith,
  bit_and-bitwise (suc a) b,
  bit_and-bitwise (suc a / 2) (b / 2),
  fuel-irrelevant a (suc a / 2) (suc a / 2) (b / 2) (omega arith) (omega arith),
)

-- Below `2 ^ k` the mask of `k` ones changes nothing.
ones_mask : (k a : ℕ) → a < 2 ^ k → bit_and a (2 ^ k - 1) ≡ a
ones_mask zero zero h = refl
ones_mask zero (suc a) h = absurd (omega arith)
ones_mask (suc k) a h = ground (
  arith,
  pow-suc 2 k,
  one-le-pow k 2,
  and_low_digit a (2 ^ suc k - 1),
  half_mask,
  ones_mask k (a / 2) (omega (arith, pow-suc 2 k)),
)
  where
    half_mask : (2 ^ suc k - 1) / 2 ≡ 2 ^ k - 1
    half_mask = omega (arith, pow-suc 2 k, one-le-pow k 2)

-- `x & -16` on a word drops the remainder by 16.
pub and_minus_16 : (x : ℕ) → x < 2 ^ 64 → bit_and x (2 ^ 64 - 16) ≡ x - x % 16
and_minus_16 x h = omega (
  arith,
  and_low_digit x (2 ^ 64 - 16),
  and_low_digit (x / 2) (2 ^ 63 - 8),
  and_low_digit (x / 2 / 2) (2 ^ 62 - 4),
  and_low_digit (x / 2 / 2 / 2) (2 ^ 61 - 2),
  ones_mask 60 (x / 2 / 2 / 2 / 2) (omega arith),
)
