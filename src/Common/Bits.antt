-- ===== src/Common/Bits.antt =====
-- The law of `bit_or` for the lowest digit, and the byte with its top bit set.
use Prim.Native.Nat.{ℕ, zero, suc, ◌+◌, ◌*◌, ◌/◌, ◌%◌, ◌≤◌, max, bit_or, digits, bit_or-bitwise}
use mathlib.Core.Path.{◌≡◌, refl, ap}
use native.Mathlib.Omega.{arith}

abbrev or_digits : ℕ → ℕ → ℕ → ℕ
or_digits n a b = digits (λ b. b) max n a b

or_digits_fuel : (n m a b : ℕ) → a ≤ n → a ≤ m → or_digits n a b ≡ or_digits m a b
or_digits_fuel zero zero a b p q = refl
or_digits_fuel zero (suc m) zero b p q = refl
or_digits_fuel zero (suc m) (suc a) b p q = absurd (omega arith)
or_digits_fuel (suc n) zero zero b p q = refl
or_digits_fuel (suc n) zero (suc a) b p q = absurd (omega arith)
or_digits_fuel (suc n) (suc m) zero b p q = refl
or_digits_fuel (suc n) (suc m) (suc a) b p q =
    omega (arith, or_digits_fuel n m (suc a / 2) (b / 2) (omega arith) (omega arith))

zero-bit_or : (b : ℕ) → bit_or 0 b ≡ b
zero-bit_or b = bit_or-bitwise 0 b

bit_or_step : (a b : ℕ) → bit_or a b ≡ bit_or (a / 2) (b / 2) * 2 + max (a % 2) (b % 2)
bit_or_step zero b = omega (arith, zero-bit_or b, zero-bit_or (b / 2))
bit_or_step (suc a) b = omega (
  arith,
  bit_or-bitwise (suc a) b,
  bit_or-bitwise (suc a / 2) (b / 2),
  or_digits_fuel a (suc a / 2) (suc a / 2) (b / 2) (omega arith) (omega arith),
)

or_even : (a b : ℕ) → bit_or a (2 * b) ≡ bit_or (a / 2) b * 2 + a % 2
or_even a b =
    let half : 2 * b / 2 ≡ b = omega arith in
    omega (arith, bit_or_step a (2 * b), ap (bit_or (a / 2)) half)

-- `byte(x | 0x80)` keeps the low seven bits and sets the eighth.
pub or_top_bit : (x : ℕ) → bit_or x 0x80 % 256 ≡ x % 128 + 128
or_top_bit x = omega (
  arith,
  or_even x 64,
  or_even (x / 2) 32,
  or_even (x / 2 / 2) 16,
  or_even (x / 2 / 2 / 2) 8,
  or_even (x / 2 / 2 / 2 / 2) 4,
  or_even (x / 2 / 2 / 2 / 2 / 2) 2,
  or_even (x / 2 / 2 / 2 / 2 / 2 / 2) 1,
  bit_or_step (x / 2 / 2 / 2 / 2 / 2 / 2 / 2) 1,
)
