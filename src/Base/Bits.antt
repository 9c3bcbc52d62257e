-- ===== src/Base/Bits.antt =====
-- The bit operations of C on unsigned values: what `|` of disjoint fields and `^` with zero give.
use Prim.Native.Nat.{
  ℕ, zero, suc, ◌+◌, ◌*◌, ◌/◌, ◌%◌, ◌^◌, ◌≤◌, ◌<◌, max, digits, bit_or, bit_xor, bit_or-bitwise,
  bit_xor-bitwise,
}
use mathlib.Core.Path.{◌≡◌, refl}
use native.Mathlib.Omega.{arith}

-- A value moved left by `k` bits in a type that is wide enough.
infixl 75 ◌<<<◌
abbrev pub ◌<<<◌ : ℕ → ℕ → ℕ
x <<< k = x * 2 ^ k

-- 0 ^ b = b: the check sum's first step.
pub zero-bit_xor : (b : ℕ) → bit_xor 0 b ≡ b
zero-bit_xor b = bit_xor-bitwise 0 b

or_digits : ℕ → ℕ → ℕ → ℕ
or_digits n a b = digits (λ b. b) max n a b

-- Fuel beyond the first argument changes nothing.
or_digits_enough : (n m a b : ℕ) → a ≤ n → a ≤ m → or_digits n a b ≡ or_digits m a b
unfolding or_digits
or_digits_enough zero zero a b p q = refl
or_digits_enough zero (suc m) zero b p q = refl
or_digits_enough zero (suc m) (suc a) b p q = absurd (omega arith)
or_digits_enough (suc n) zero zero b p q = refl
or_digits_enough (suc n) zero (suc a) b p q = absurd (omega arith)
or_digits_enough (suc n) (suc m) zero b p q = refl
or_digits_enough (suc n) (suc m) (suc a) b p q =
    omega (arith, or_digits_enough n m (suc a / 2) (b / 2) (omega arith) (omega arith))

-- `|` digit by digit, from the lowest.
bit_or_digit : (a b : ℕ) → bit_or a b ≡ bit_or (a / 2) (b / 2) * 2 + max (a % 2) (b % 2)
unfolding or_digits
bit_or_digit zero b = omega (arith, bit_or-bitwise 0 b, bit_or-bitwise 0 (b / 2))
bit_or_digit (suc a) b = omega (
  arith,
  bit_or-bitwise (suc a) b,
  bit_or-bitwise (suc a / 2) (b / 2),
  or_digits_enough a (suc a / 2) (suc a / 2) (b / 2) (omega arith) (omega arith),
)

bit_or-zero_bounded : (n a : ℕ) → a ≤ n → bit_or a 0 ≡ a
bit_or-zero_bounded n zero h = refl
bit_or-zero_bounded zero (suc a) h = absurd (omega arith)
bit_or-zero_bounded (suc n) (suc a) h =
    omega (arith, bit_or_digit (suc a) 0, bit_or-zero_bounded n (suc a / 2) (omega arith))

bit_or-zero : (a : ℕ) → bit_or a 0 ≡ a
bit_or-zero a = bit_or-zero_bounded a a (omega arith)

bit_or-double : (a b : ℕ) → bit_or (a * 2) b ≡ bit_or a (b / 2) * 2 + b % 2
bit_or-double a b = ground (arith, bit_or_digit (a * 2) b)

-- `(hi << 8) | lo` is a sum where `lo` is a byte.
pub bit_or-shift_byte : (hi lo : ℕ) → lo < 256 → bit_or (hi <<< 8) lo ≡ hi * 256 + lo
bit_or-shift_byte hi lo h = ground (
  arith,
  bit_or-double (hi * 128) lo,
  bit_or-double (hi * 64) (lo / 2),
  bit_or-double (hi * 32) (lo / 4),
  bit_or-double (hi * 16) (lo / 8),
  bit_or-double (hi * 8) (lo / 16),
  bit_or-double (hi * 4) (lo / 32),
  bit_or-double (hi * 2) (lo / 64),
  bit_or-double hi (lo / 128),
  bit_or-zero hi,
)
