-- ===== src/Evm256/Uint256/Order.antt =====
-- The comparisons of pkg/evm256/uint256.go against the numbers that the words stand for.
use crypto.Base.{
  ℕ, ◌+◌, ◌*◌, ◌^◌, ◌<◌, ◌≡◌, arith, bit_or, ltb, leb, ◌==◌, if◌then◌else◌, modulus, Bool, true,
  false, word,
}
use crypto.Base.Bits.{bit_or-eq_zero}
use crypto.Base.Powers.{mul_gap}
use crypto.Evm256.Uint256.{
  Uint256, IsWord, value, from_u64, is_zero, eq, Sign, less, same, more, cmp, is_neg, cmp_limb,
}

pub value-lt : (z : Uint256) → IsWord z → value z < modulus
value-lt z w = omega arith

-- The sign of a comparison of two numbers.
abbrev pub compare_values : ℕ → ℕ → Sign
compare_values a b = if ltb a b then less else if ltb b a then more else same

-- A comparison of numbers of two digits is decided by the high digits first.
compare_digits :
    (m a a' b b' : ℕ)
    → a < m
    → b < m
    → compare_values (a + m * a') (b + m * b') ≡ cmp_limb a' b' (compare_values a b)
compare_digits m a a' b b' p q = ground (arith, mul_gap m a' b', mul_gap m b' a')

-- `Cmp` of two words gives the order of the numbers that they stand for.
pub cmp-value : (a b : Uint256) → IsWord a → IsWord b → cmp a b ≡ compare_values (value a) (value b)
unfolding cmp
cmp-value a b wa wb = rw (
  compare_digits (2 ^ 192) (a.w0 + 2 ^ 64 * a.w1 + 2 ^ 128 * a.w2) a.w3
      (b.w0 + 2 ^ 64 * b.w1 + 2 ^ 128 * b.w2) b.w3 (omega arith) (omega arith),
  compare_digits (2 ^ 128) (a.w0 + 2 ^ 64 * a.w1) a.w2 (b.w0 + 2 ^ 64 * b.w1) b.w2 (omega arith)
      (omega arith),
  compare_digits (2 ^ 64) a.w0 a.w1 b.w0 b.w1 (omega arith) (omega arith),
)

-- Two words with one value are equal.
pub value-injective : (a b : Uint256) → IsWord a → IsWord b → value a ≡ value b → a ≡ b
value-injective a b wa wb e = ground arith

pub is_zero-value : (z : Uint256) → is_zero z ≡ (value z == 0)
unfolding is_zero
is_zero-value z = ground (
  arith,
  bit_or-eq_zero z.w0 z.w1,
  bit_or-eq_zero (bit_or z.w0 z.w1) z.w2,
  bit_or-eq_zero (bit_or (bit_or z.w0 z.w1) z.w2) z.w3,
)

pub eq-value : (a b : Uint256) → IsWord a → IsWord b → eq a b ≡ (value a == value b)
unfolding eq
eq-value a b wa wb = ground arith

-- The sign bit of two's complement.
pub is_neg-value : (z : Uint256) → IsWord z → is_neg z ≡ leb (2 ^ 255) (value z)
unfolding is_neg
is_neg-value z w = ground arith

pub if-IsWord : (b : Bool) (x y : Uint256) → IsWord x → IsWord y → IsWord (if b then x else y)
if-IsWord true x y p q = p
if-IsWord false x y p q = q

pub from_u64-IsWord : (n : ℕ) → n < word → IsWord (from_u64 n)
unfolding from_u64
from_u64-IsWord n h = omega arith
