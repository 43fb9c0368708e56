-- ===== src/Base/Bits.antt =====
-- `|` of a shifted field and a value below it, as a sum.
use Prim.Native.Nat.{
  ℕ, zero, suc, ◌+◌, ◌*◌, ◌/◌, ◌%◌, ◌^◌, ◌≤◌, ◌<◌, max, bit_or, digits, bit_or-bitwise,
}
use mathlib.Core.Path.{◌≡◌, refl, ap}
use native.Mathlib.Nat.{pow-suc}
use native.Mathlib.Omega.{arith}

-- The recursion that `bit_or` stands for, with its fuel.
abbrev or_digits : ℕ → ℕ → ℕ → ℕ
or_digits fuel a b = digits (λ y. y) max fuel a b

-- Any fuel from the first number up gives the same digits.
or_digits_fuel : (f g a b : ℕ) → a ≤ f → a ≤ g → or_digits f a b ≡ or_digits g a b
or_digits_fuel zero zero a b p q = refl
or_digits_fuel zero (suc g) zero b p q = refl
or_digits_fuel zero (suc g) (suc a) b p q = absurd (omega arith)
or_digits_fuel (suc f) zero zero b p q = refl
or_digits_fuel (suc f) zero (suc a) b p q = absurd (omega arith)
or_digits_fuel (suc f) (suc g) zero b p q = refl
or_digits_fuel (suc f) (suc g) (suc a) b p q =
    omega (arith, or_digits_fuel f g (suc a / 2) (b / 2) (omega arith) (omega arith))

pub zero-bit_or : (b : ℕ) → bit_or 0 b ≡ b
zero-bit_or b = bit_or-bitwise 0 b

-- The lowest digit of `a | b`.
bit_or_step : (a b : ℕ) → bit_or a b ≡ bit_or (a / 2) (b / 2) * 2 + max (a % 2) (b % 2)
bit_or_step zero b = omega (arith, zero-bit_or b, zero-bit_or (b / 2))
bit_or_step (suc a) b = omega (
  arith,
  bit_or-bitwise (suc a) b,
  bit_or-bitwise (suc a / 2) (b / 2),
  or_digits_fuel a (suc a / 2) (suc a / 2) (b / 2) (omega arith) (omega arith),
)

bit_or-zero_below : (n a : ℕ) → a ≤ n → bit_or a 0 ≡ a
bit_or-zero_below n zero h = refl
bit_or-zero_below zero (suc a) h = absurd (omega arith)
bit_or-zero_below (suc n) (suc a) h =
    omega (arith, bit_or_step (suc a) 0, bit_or-zero_below n (suc a / 2) (omega arith))

double_shift : (k q : ℕ) → q * 2 ^ suc k ≡ 2 * (q * 2 ^ k)
double_shift k q = omega (arith, ap (λ (t : ℕ). q * t) (pow-suc 2 k))

-- `(hi << k) | lo` is a sum when `lo` has at most k bits.
pub bit_or-shifted : (k hi lo : ℕ) → lo < 2 ^ k → bit_or (hi * 2 ^ k) lo ≡ hi * 2 ^ k + lo
bit_or-shifted zero hi lo h = ground (arith, bit_or-zero_below hi hi)
bit_or-shifted (suc k) hi lo h = ground (
  arith,
  bit_or_step (hi * 2 ^ suc k) lo,
  double_shift k hi,
  bit_or-shifted k hi (lo / 2) (omega arith),
)
