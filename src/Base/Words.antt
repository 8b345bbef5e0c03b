-- ===== src/Base/Words.antt =====
-- 64-bit machine words as native numbers, and the functions of Go's math/bits on them.
use Prim.Native.Nat.{ℕ, ◌+◌, ◌-◌, ◌*◌, ◌/◌, ◌%◌, ◌^◌}
use crypto.Base.Tests.{ltb, if◌then◌else◌}

-- 2 ^ 64 and 2 ^ 256.
abbrev pub word : ℕ
word = 2 ^ 64

abbrev pub modulus : ℕ
modulus = 2 ^ 256

abbrev pub max_word : ℕ
max_word = 2 ^ 64 - 1

-- bits.Add64: the sum modulo 2 ^ 64, and the carry out.
abbrev pub add64 : ℕ → ℕ → ℕ → ℕ × ℕ
add64 a b carry = ((a + b + carry) % word, (a + b + carry) / word)

-- bits.Sub64: the difference modulo 2 ^ 64, and the borrow out.
abbrev pub sub64 : ℕ → ℕ → ℕ → ℕ × ℕ
sub64 a b borrow = ((a + (word + word) - b - borrow) % word, if ltb a (b + borrow) then 1 else 0)

-- bits.Mul64: the high and the low word of the product.
abbrev pub mul64 : ℕ → ℕ → ℕ × ℕ
mul64 a b = (a * b / word, a * b % word)

-- bits.Div64, for a divisor above the high word: the quotient and the remainder.
abbrev pub div64 : ℕ → ℕ → ℕ → ℕ × ℕ
div64 hi lo y = ((hi * word + lo) / y, (hi * word + lo) % y)

-- The operators of uint64 that can wrap, and the complement.
abbrev pub wrap_add : ℕ → ℕ → ℕ
wrap_add a b = (a + b) % word

abbrev pub wrap_sub : ℕ → ℕ → ℕ
wrap_sub a b = (a + word - b) % word

abbrev pub wrap_mul : ℕ → ℕ → ℕ
wrap_mul a b = a * b % word

abbrev pub flip : ℕ → ℕ
flip a = max_word - a

-- Shifts of a uint64.
abbrev pub shl : ℕ → ℕ → ℕ
shl a k = a * 2 ^ k % word

abbrev pub shr : ℕ → ℕ → ℕ
shr a k = a / 2 ^ k
