-- ===== src/Base/Bits.antt =====
-- Single bits of a machine word, and `|` of fields that do not overlap.
use Prim.Native.Nat.{
  ℕ, zero, suc, ◌+◌, ◌*◌, ◌/◌, ◌%◌, ◌^◌, ◌≤◌, ◌<◌, max, bit_or, digits, bit_or-bitwise,
}
use mathlib.Core.Path.{◌≡◌, refl}
use mathlib.Core.Bool.{Bool, ◌||◌}
use native.Mathlib.Omega.{arith}
use native.Mathlib.Nat.{pow-suc, div-one, div-eq_of_lt-le, div-mul-le_self, lt-div-mul-add}
use testcode.Base.Tests.{◌==◌}

-- `x & (1 << k)` as a condition.
abbrev pub has_bit : ℕ → ℕ → Bool
has_bit x k = (x / 2 ^ k) % 2 == 1

or_digits_fuel :
    (n m a b : ℕ) → a ≤ n → a ≤ m → digits (λ y. y) max n a b ≡ digits (λ y. y) max m a b
or_digits_fuel zero zero a b p q = refl
or_digits_fuel zero (suc m) zero b p q = refl
or_digits_fuel zero (suc m) (suc a) b p q = absurd (omega arith)
or_digits_fuel (suc n) zero zero b p q = refl
or_digits_fuel (suc n) zero (suc a) b p q = absurd (omega arith)
or_digits_fuel (suc n) (suc m) zero b p q = refl
or_digits_fuel (suc n) (suc m) (suc a) b p q =
    omega (arith, or_digits_fuel n m (suc a / 2) (b / 2) (omega arith) (omega arith))

zero-bit_or : (b : ℕ) → bit_or 0 b ≡ b
zero-bit_or b = bit_or-bitwise 0 b

-- The lowest bit of `a | b` and the rest of it.
pub bit_or_step : (a b : ℕ) → bit_or a b ≡ bit_or (a / 2) (b / 2) * 2 + max (a % 2) (b % 2)
bit_or_step zero b = omega (arith, zero-bit_or b, zero-bit_or (b / 2))
bit_or_step (suc a) b = omega (
  arith,
  bit_or-bitwise (suc a) b,
  bit_or-bitwise (suc a / 2) (b / 2),
  or_digits_fuel a (suc a / 2) (suc a / 2) (b / 2) (omega arith) (omega arith),
)

bit_or-zero_fuel : (n a : ℕ) → a ≤ n → bit_or a 0 ≡ a
bit_or-zero_fuel n zero h = refl
bit_or-zero_fuel zero (suc a) h = absurd (omega arith)
bit_or-zero_fuel (suc n) (suc a) h =
    omega (arith, bit_or_step (suc a) 0, bit_or-zero_fuel n (suc a / 2) (omega arith))

pub bit_or-zero : (a : ℕ) → bit_or a 0 ≡ a
bit_or-zero a = bit_or-zero_fuel a a (omega arith)

bit_or-half : (a b : ℕ) → bit_or a b / 2 ≡ bit_or (a / 2) (b / 2)
bit_or-half a b = omega (arith, bit_or_step a b)

pow_step : (k q : ℕ) → q * 2 ^ suc k ≡ q * 2 ^ k * 2
pow_step k q = simp pow-suc (omega arith)

pow-pos : (k : ℕ) → 0 < 2 ^ k
pow-pos zero = omega arith
pow-pos (suc k) = rw pow-suc (omega (arith, pow-pos k))

div-pow_step : (k x : ℕ) → x / 2 ^ suc k ≡ x / 2 / 2 ^ k
div-pow_step k x = rw pow-suc (
    div-eq_of_lt-le (2 ^ k * 2) (grind (arith, div-mul-le_self (x / 2) (2 ^ k)))
      (grind (arith, lt-div-mul-add {a = x / 2} (pow-pos k))))

-- A right shift distributes over `|`.
pub bit_or-div : (k a b : ℕ) → bit_or a b / 2 ^ k ≡ bit_or (a / 2 ^ k) (b / 2 ^ k)
bit_or-div zero a b = simp div-one
bit_or-div (suc k) a b = simp (div-pow_step, bit_or-half) (bit_or-div k (a / 2) (b / 2))

-- A bit of `a | b` is set if it is set in `a` or in `b`.
pub has_bit-bit_or : (k a b : ℕ) → has_bit (bit_or a b) k ≡ (has_bit a k || has_bit b k)
has_bit-bit_or k a b = ground (arith, bit_or-div k a b, bit_or_step (a / 2 ^ k) (b / 2 ^ k))

small : (k r : ℕ) → r < 2 ^ suc k → r / 2 < 2 ^ k
small k r h = omega (arith, pow-suc 2 k)

-- Fields that do not overlap add up.
pub bit_or-fields : (k q r : ℕ) → r < 2 ^ k → bit_or (q * 2 ^ k) r ≡ q * 2 ^ k + r
bit_or-fields zero q r h = ground (arith, bit_or-zero q)
bit_or-fields (suc k) q r h =
    rw pow_step
      (ground (arith, bit_or_step (q * 2 ^ k * 2) r, bit_or-fields k q (r / 2) (small k r h)))
