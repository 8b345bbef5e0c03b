-- ===== src/Base/Bits.antt =====
-- The bit operations at variables: one equation for the lowest digit, then `|` of disjoint
-- fields as a sum and `|` of zeros.
use Prim.Native.Nat.{ℕ, zero, suc, ◌+◌, ◌-◌, ◌*◌, ◌/◌, ◌%◌, ◌^◌, ◌≤◌, ◌<◌, min, max}
use Prim.Native.Nat.{
  bit_and, bit_or, bit_xor, differ, digits, bitwise, bit_and-bitwise, bit_or-bitwise,
  bit_xor-bitwise,
}
use mathlib.Core.Path.{◌≡◌, refl, ap}
use mathlib.Core.Logic.{◌↔◌}
use native.Mathlib.Nat.{le_refl, pow-suc, one-le-pow}
use native.Mathlib.Omega.{arith}

-- Fuel beyond the first number changes nothing.
module _ (z : ℕ → ℕ) (f : ℕ → ℕ → ℕ) where
  same_digits : (n m a b : ℕ) → a ≤ n → a ≤ m → digits z f n a b ≡ digits z f m a b
  same_digits zero zero a b p q = refl
  same_digits zero (suc m) zero b p q = refl
  same_digits zero (suc m) (suc a) b p q = absurd (omega arith)
  same_digits (suc n) zero zero b p q = refl
  same_digits (suc n) zero (suc a) b p q = absurd (omega arith)
  same_digits (suc n) (suc m) zero b p q = refl
  same_digits (suc n) (suc m) (suc a) b p q =
      rw (same_digits n m (suc a / 2) (b / 2) (omega arith) (omega arith))

  lowest_digit :
      (a b : ℕ)
      → bitwise z f (suc a) b ≡ bitwise z f (suc a / 2) (b / 2) * 2 + f (suc a % 2) (b % 2)
  lowest_digit a b =
      omega (arith, same_digits a (suc a / 2) (suc a / 2) (b / 2) (omega arith) (le_refl _))

pub bit_or_digit : (a b : ℕ) → bit_or a b ≡ bit_or (a / 2) (b / 2) * 2 + max (a % 2) (b % 2)
bit_or_digit zero b = simp bit_or-bitwise (omega arith)
bit_or_digit (suc a) b = simp bit_or-bitwise (lowest_digit (λ y. y) max a b)

pub bit_and_digit : (a b : ℕ) → bit_and a b ≡ bit_and (a / 2) (b / 2) * 2 + min (a % 2) (b % 2)
bit_and_digit zero b = simp bit_and-bitwise (omega arith)
bit_and_digit (suc a) b = simp bit_and-bitwise (lowest_digit (λ y. 0) min a b)

zero-bit_or : (b : ℕ) → bit_or 0 b ≡ b
zero-bit_or b = bit_or-bitwise 0 b

bit_or-zero_below : (n a : ℕ) → a ≤ n → bit_or a 0 ≡ a
bit_or-zero_below n zero h = refl
bit_or-zero_below zero (suc a) h = absurd (omega arith)
bit_or-zero_below (suc n) (suc a) h =
    omega (arith, bit_or_digit (suc a) 0, bit_or-zero_below n (suc a / 2) (omega arith))

pub bit_or-zero : (a : ℕ) → bit_or a 0 ≡ a
bit_or-zero a = bit_or-zero_below a a (le_refl _)

double_power : (k a : ℕ) → a * 2 ^ suc k ≡ 2 * (a * 2 ^ k)
double_power k a = omega (arith, ap (λ (t : ℕ). a * t) (pow-suc 2 k))

-- A number below `2 ^ k` is or-ed into the `k` low zeros of another.
pub bit_or-add : (k a b : ℕ) → b < 2 ^ k → bit_or (a * 2 ^ k) b ≡ a * 2 ^ k + b
bit_or-add zero a b h =
    let nothing : b ≡ 0 = omega arith in rw nothing (omega (arith, bit_or-zero (a * 1)))
bit_or-add (suc k) a b h = ground (
  arith,
  bit_or_digit (a * 2 ^ suc k) b,
  double_power k a,
  bit_or-add k a (b / 2) (omega (arith, pow-suc 2 k)),
)

-- A disjunction is zero exactly when both parts are.
bit_or-eq_zero_below : (n a b : ℕ) → a ≤ n → bit_or a b ≡ 0 → (a ≡ 0) × (b ≡ 0)
bit_or-eq_zero_below n zero b h e = (refl, omega (arith, zero-bit_or b))
bit_or-eq_zero_below zero (suc a) b h e = absurd (omega arith)
bit_or-eq_zero_below (suc n) (suc a) b h e =
    let digit = bit_or_digit (suc a) b in
    let halves = bit_or-eq_zero_below n (suc a / 2) (b / 2) (omega arith) (omega arith) in
    (omega (arith, digit, halves), omega (arith, digit, halves))

pub bit_or-eq_zero : (a b : ℕ) → (bit_or a b ≡ 0) ↔ ((a ≡ 0) × (b ≡ 0))
bit_or-eq_zero a b = (bit_or-eq_zero_below a a b (le_refl _), λ h. rw (h.0, h.1))

bit_or_comm_below : (n a b : ℕ) → a ≤ n → b ≤ n → bit_or a b ≡ bit_or b a
bit_or_comm_below n zero b p q = omega (arith, zero-bit_or b, bit_or-zero b)
bit_or_comm_below zero (suc a) b p q = absurd (omega arith)
bit_or_comm_below (suc n) (suc a) b p q = omega (
  arith,
  bit_or_digit (suc a) b,
  bit_or_digit b (suc a),
  bit_or_comm_below n (suc a / 2) (b / 2) (omega arith) (omega arith),
)

pub bit_or_comm : (a b : ℕ) → bit_or a b ≡ bit_or b a
bit_or_comm a b = bit_or_comm_below (a + b) a b (omega arith) (omega arith)

bit_and-zero_below : (n a : ℕ) → a ≤ n → bit_and a 0 ≡ 0
bit_and-zero_below n zero h = refl
bit_and-zero_below zero (suc a) h = absurd (omega arith)
bit_and-zero_below (suc n) (suc a) h =
    omega (arith, bit_and_digit (suc a) 0, bit_and-zero_below n (suc a / 2) (omega arith))

mask_of_sum : (k q r : ℕ) → r < 2 ^ k → bit_and (q * 2 ^ k + r) (2 ^ k - 1) ≡ r
mask_of_sum zero q r h = omega (arith, bit_and-zero_below (q * 1 + r) (q * 1 + r) (le_refl _))
mask_of_sum (suc k) q r h = ground (
  arith,
  bit_and_digit (q * 2 ^ suc k + r) (2 ^ suc k - 1),
  double_power k q,
  pow-suc 2 k,
  one-le-pow k 2,
  mask_of_sum k q (r / 2) (omega (arith, pow-suc 2 k)),
)

-- `a & (2^k - 1)` is a remainder.
pub bit_and-mask : (k a : ℕ) → bit_and a (2 ^ k - 1) ≡ a % 2 ^ k
bit_and-mask k a = ground (arith, one-le-pow k 2, mask_of_sum k (a / 2 ^ k) (a % 2 ^ k))

-- Numbers of `k` bits give numbers of `k` bits.
pub bit_or-lt : (k a b : ℕ) → a < 2 ^ k → b < 2 ^ k → bit_or a b < 2 ^ k
bit_or-lt zero a b p q =
    let a_zero : a ≡ 0 = omega arith in
    let b_zero : b ≡ 0 = omega arith in rw (a_zero, b_zero) (omega arith)
bit_or-lt (suc k) a b p q =
    let rest =
      bit_or-lt k (a / 2) (b / 2) (omega (arith, pow-suc 2 k)) (omega (arith, pow-suc 2 k)) in
    omega (arith, bit_or_digit a b, pow-suc 2 k, rest)

differ-lt : (x y : ℕ) → x < 2 → y < 2 → differ x y < 2
differ-lt zero y p q = q
differ-lt (suc x) zero p q = p
differ-lt (suc zero) (suc y) p q = omega arith
differ-lt (suc (suc x)) (suc y) p q = absurd (omega arith)

bit_xor_digit : (a b : ℕ) → bit_xor a b ≡ bit_xor (a / 2) (b / 2) * 2 + differ (a % 2) (b % 2)
bit_xor_digit zero b = simp bit_xor-bitwise (omega arith)
bit_xor_digit (suc a) b = simp bit_xor-bitwise (lowest_digit (λ y. y) differ a b)

pub bit_xor-lt : (k a b : ℕ) → a < 2 ^ k → b < 2 ^ k → bit_xor a b < 2 ^ k
bit_xor-lt zero a b p q =
    let a_zero : a ≡ 0 = omega arith in
    let b_zero : b ≡ 0 = omega arith in rw (a_zero, b_zero) (omega arith)
bit_xor-lt (suc k) a b p q =
    let rest =
      bit_xor-lt k (a / 2) (b / 2) (omega (arith, pow-suc 2 k)) (omega (arith, pow-suc 2 k)) in
    omega (
      arith,
      bit_xor_digit a b,
      differ-lt (a % 2) (b % 2) (omega arith) (omega arith),
      pow-suc 2 k,
      rest,
    )

bit_and-le_below : (n a b : ℕ) → a ≤ n → bit_and a b ≤ a
bit_and-le_below n zero b h = omega (arith, bit_and-bitwise 0 b)
bit_and-le_below zero (suc a) b h = absurd (omega arith)
bit_and-le_below (suc n) (suc a) b h =
    omega (arith, bit_and_digit (suc a) b, bit_and-le_below n (suc a / 2) (b / 2) (omega arith))

pub bit_and-le : (a b : ℕ) → bit_and a b ≤ a
bit_and-le a b = bit_and-le_below a a b (le_refl _)
