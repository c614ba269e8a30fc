-- ===== src/Base/Bits.antt =====
-- Laws of `bit_and` and `bit_or` at variables, from the digit recursion that they stand for.
use Prim.Native.Nat.{
  ℕ, zero, suc, ◌+◌, ◌*◌, ◌/◌, ◌%◌, ◌^◌, ◌≤◌, ◌<◌, min, max, bit_and, bit_or, digits,
  bit_and-bitwise, bit_or-bitwise,
}
use mathlib.Core.Path.{◌≡◌, refl, ap}
use native.Mathlib.Omega.{arith}

-- The count of digits given to the recursion does not matter once it covers the first number.
module _ (z : ℕ → ℕ) (f : ℕ → ℕ → ℕ) where
  none_left : (n m b : ℕ) → digits z f n 0 b ≡ digits z f m 0 b
  none_left zero zero b = refl
  none_left zero (suc m) b = refl
  none_left (suc n) zero b = refl
  none_left (suc n) (suc m) b = refl

  digits_count : (n a m b : ℕ) → a ≤ n → a ≤ m → digits z f n a b ≡ digits z f m a b
  digits_count n zero m b p q = none_left n m b
  digits_count zero (suc a) m b p q = elim p [ ]
  digits_count (suc n) (suc a) zero b p q = elim q [ ]
  digits_count (suc n) (suc a) (suc m) b p q =
      ap (λ (t : ℕ). t * 2 + f (suc a % 2) (b % 2))
        (digits_count n (suc a / 2) m (b / 2) (omega arith) (omega arith))

zero-bit_and : (b : ℕ) → bit_and 0 b ≡ 0
zero-bit_and b = bit_and-bitwise 0 b

zero-bit_or : (b : ℕ) → bit_or 0 b ≡ b
zero-bit_or b = bit_or-bitwise 0 b

-- One digit of each operation.
pub bit_and_digit : (a b : ℕ) → bit_and a b ≡ bit_and (a / 2) (b / 2) * 2 + min (a % 2) (b % 2)
bit_and_digit zero b = omega (arith, zero-bit_and b, zero-bit_and (b / 2))
bit_and_digit (suc a) b = omega (
  arith,
  bit_and-bitwise (suc a) b,
  bit_and-bitwise (suc a / 2) (b / 2),
  digits_count (λ b. zero) min a (suc a / 2) (suc a / 2) (b / 2),
)

pub bit_or_digit : (a b : ℕ) → bit_or a b ≡ bit_or (a / 2) (b / 2) * 2 + max (a % 2) (b % 2)
bit_or_digit zero b = omega (arith, zero-bit_or b, zero-bit_or (b / 2))
bit_or_digit (suc a) b = omega (
  arith,
  bit_or-bitwise (suc a) b,
  bit_or-bitwise (suc a / 2) (b / 2),
  digits_count (λ b. b) max a (suc a / 2) (suc a / 2) (b / 2),
)

bit_and-le_right_digits : (n a b : ℕ) → a ≤ n → bit_and a b ≤ b
bit_and-le_right_digits n zero b h = omega (arith, zero-bit_and b)
bit_and-le_right_digits zero (suc a) b h = elim h [ ]
bit_and-le_right_digits (suc n) (suc a) b h =
    omega
      (arith, bit_and_digit (suc a) b, bit_and-le_right_digits n (suc a / 2) (b / 2) (omega arith))

-- A masked value is at most the mask.
pub bit_and-le_right : (a b : ℕ) → bit_and a b ≤ b
bit_and-le_right a b = bit_and-le_right_digits a a b (omega arith)

bit_or-ge_right_digits : (n a b : ℕ) → a ≤ n → b ≤ bit_or a b
bit_or-ge_right_digits n zero b h = omega (arith, zero-bit_or b)
bit_or-ge_right_digits zero (suc a) b h = elim h [ ]
bit_or-ge_right_digits (suc n) (suc a) b h =
    omega
      (arith, bit_or_digit (suc a) b, bit_or-ge_right_digits n (suc a / 2) (b / 2) (omega arith))

pub bit_or-ge_right : (a b : ℕ) → b ≤ bit_or a b
bit_or-ge_right a b = bit_or-ge_right_digits a a b (omega arith)

bit_or-ge_left_digits : (n a b : ℕ) → a ≤ n → a ≤ bit_or a b
bit_or-ge_left_digits n zero b h = omega arith
bit_or-ge_left_digits zero (suc a) b h = elim h [ ]
bit_or-ge_left_digits (suc n) (suc a) b h =
    omega (arith, bit_or_digit (suc a) b, bit_or-ge_left_digits n (suc a / 2) (b / 2) (omega arith))

pub bit_or-ge_left : (a b : ℕ) → a ≤ bit_or a b
bit_or-ge_left a b = bit_or-ge_left_digits a a b (omega arith)

pub two_pow : (m : ℕ) → 2 ^ suc m ≡ 2 * 2 ^ m
two_pow m = omega arith

-- `bit_or` stays within the width of its arguments.
pub bit_or-lt_pow : (m a b : ℕ) → a < 2 ^ m → b < 2 ^ m → bit_or a b < 2 ^ m
bit_or-lt_pow zero zero zero p q = omega (arith, zero-bit_or 0)
bit_or-lt_pow zero zero (suc b) p q = absurd (omega arith)
bit_or-lt_pow zero (suc a) b p q = absurd (omega arith)
bit_or-lt_pow (suc m) a b p q = omega (
  arith,
  two_pow m,
  bit_or_digit a b,
  bit_or-lt_pow m (a / 2) (b / 2) (omega (arith, two_pow m)) (omega (arith, two_pow m)),
)

bit_or-zero_digits : (n a : ℕ) → a ≤ n → bit_or a 0 ≡ a
bit_or-zero_digits n zero h = zero-bit_or 0
bit_or-zero_digits zero (suc a) h = elim h [ ]
bit_or-zero_digits (suc n) (suc a) h =
    omega (arith, bit_or_digit (suc a) 0, bit_or-zero_digits n (suc a / 2) (omega arith))

twice_mul : (h m : ℕ) → h * 2 ^ suc m ≡ 2 * (h * 2 ^ m)
twice_mul h m = omega (arith, ap (λ (t : ℕ). h * t) (two_pow m))

half_of_high : (m h r : ℕ) → (h * 2 ^ suc m + r) / 2 ≡ h * 2 ^ m + r / 2
half_of_high m h r = omega (arith, twice_mul h m)

-- The bits above the width of the second argument are kept.
pub bit_or-high :
    (m h r b : ℕ) → r < 2 ^ m → b < 2 ^ m → bit_or (h * 2 ^ m + r) b ≡ h * 2 ^ m + bit_or r b
bit_or-high zero h zero zero p q =
    omega (arith, bit_or-zero_digits (h * 1 + 0) (h * 1 + 0) (omega arith), zero-bit_or 0)
bit_or-high zero h zero (suc b) p q = absurd (omega arith)
bit_or-high zero h (suc r) b p q = absurd (omega arith)
bit_or-high (suc m) h r b p q = omega (
  arith,
  twice_mul h m,
  bit_or_digit (h * 2 ^ suc m + r) b,
  bit_or_digit r b,
  ap (λ (t : ℕ). bit_or t (b / 2)) (half_of_high m h r),
  bit_or-high m h (r / 2) (b / 2) (omega (arith, two_pow m)) (omega (arith, two_pow m)),
)
