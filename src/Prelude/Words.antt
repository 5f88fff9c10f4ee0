-- ===== src/Prelude/Words.antt =====
-- Fixed-width words: casts, shifts, and `|` of disjoint fields as a sum.
use Prim.Native.Nat.{
  ℕ, zero, suc, ◌+◌, ◌*◌, ◌/◌, ◌%◌, ◌^◌, ◌≤◌, ◌<◌, max, bit_or, digits, bit_or-bitwise,
}
use mathlib.Core.Path.{◌≡◌, refl, ap}
use native.Mathlib.Nat.{pow-suc}
use native.Mathlib.Omega.{arith}

abbrev pub u8 : ℕ → ℕ
u8 n = n % 2 ^ 8

abbrev pub u16 : ℕ → ℕ
u16 n = n % 2 ^ 16

abbrev pub u32 : ℕ → ℕ
u32 n = n % 2 ^ 32

abbrev pub u64 : ℕ → ℕ
u64 n = n % 2 ^ 64

infixl 75 ◌<<◌ ◌>>>◌
abbrev pub ◌<<◌ : ℕ → ℕ → ℕ
x << k = x * 2 ^ k

abbrev pub ◌>>>◌ : ℕ → ℕ → ℕ
x >>> k = x / 2 ^ k

-- `bit_or` on binary digits, with the fuel that its definition carries.
abbrev or_digits : ℕ → ℕ → ℕ → ℕ
or_digits fuel a b = digits (λ y. y) max fuel a b

or_digits_stable : (n m a b : ℕ) → a ≤ n → a ≤ m → or_digits n a b ≡ or_digits m a b
or_digits_stable zero zero a b p q = refl
or_digits_stable zero (suc m) zero b p q = refl
or_digits_stable zero (suc m) (suc a) b p q = absurd (omega arith)
or_digits_stable (suc n) zero zero b p q = refl
or_digits_stable (suc n) zero (suc a) b p q = absurd (omega arith)
or_digits_stable (suc n) (suc m) zero b p q = refl
or_digits_stable (suc n) (suc m) (suc a) b p q =
    omega (arith, or_digits_stable n m (suc a / 2) (b / 2) (omega arith) (omega arith))

zero-bit_or : (b : ℕ) → bit_or 0 b ≡ b
zero-bit_or b = bit_or-bitwise 0 b

-- The lowest digit of `a | b` is the larger of the two.
bit_or_digit : (a b : ℕ) → bit_or a b ≡ bit_or (a / 2) (b / 2) * 2 + max (a % 2) (b % 2)
bit_or_digit zero b = omega (arith, zero-bit_or b, zero-bit_or (b / 2))
bit_or_digit (suc a) b = omega (
  arith,
  bit_or-bitwise (suc a) b,
  bit_or-bitwise (suc a / 2) (b / 2),
  or_digits_stable a (suc a / 2) (suc a / 2) (b / 2) (omega arith) (omega arith),
)

bit_or-zero_fuel : (n a : ℕ) → a ≤ n → bit_or a 0 ≡ a
bit_or-zero_fuel n zero h = zero-bit_or 0
bit_or-zero_fuel zero (suc a) h = absurd (omega arith)
bit_or-zero_fuel (suc n) (suc a) h =
    omega (arith, bit_or_digit (suc a) 0, bit_or-zero_fuel n (suc a / 2) (omega arith))

double : (q k : ℕ) → q * 2 ^ suc k ≡ 2 * (q * 2 ^ k)
double q k = omega (arith, ap (λ (t : ℕ). q * t) (pow-suc 2 k))

-- `(q << k) | r` is a sum if `r` fits `k` bits, and so is `r | (q << k)`.
pub bit_or_high : (k q r : ℕ) → r < 2 ^ k → bit_or (q << k) r ≡ q * 2 ^ k + r
bit_or_high zero q r h = ground (arith, bit_or-zero_fuel q q)
bit_or_high (suc k) q r h = ground (
  arith,
  bit_or_digit (q * 2 ^ suc k) r,
  double q k,
  pow-suc 2 k,
  bit_or_high k q (r / 2) (omega (arith, pow-suc 2 k)),
)

pub bit_or_low : (k q r : ℕ) → r < 2 ^ k → bit_or r (q << k) ≡ q * 2 ^ k + r
bit_or_low zero q r h = ground (arith, zero-bit_or q)
bit_or_low (suc k) q r h = ground (
  arith,
  bit_or_digit r (q * 2 ^ suc k),
  double q k,
  pow-suc 2 k,
  bit_or_low k q (r / 2) (omega (arith, pow-suc 2 k)),
)
