-- ===== src/Evm256/Arith/Sum.antt =====
-- Addition, subtraction and negation of pkg/evm256/arith.go, modulo 2 ^ 256.
use crypto.Base.{◌+◌, ◌-◌, ◌*◌, ◌%◌, ◌^◌, ◌≡◌, arith, modulus, leb, if◌then◌else◌}
use crypto.Evm256.Uint256.{Uint256, IsWord, value}
use crypto.Evm256.Uint256.Order.{value-lt, value-injective, is_neg-value}
use crypto.Evm256.Arith.{add_carry, add256, sub256, neg256, abs256}

pub add_carry-IsWord : (a b : Uint256) → IsWord (add_carry a b).0
unfolding add_carry
add_carry-IsWord a b = omega arith

-- With the carry the sum is exact.
pub add_carry-value :
    (a b : Uint256) → value (add_carry a b).0 + modulus * (add_carry a b).1 ≡ value a + value b
unfolding add_carry
add_carry-value a b = omega arith

pub add256-value : (a b : Uint256) → value (add256 a b) ≡ (value a + value b) % modulus
unfolding add256
add256-value a b =
    omega (arith, add_carry-value a b, value-lt (add_carry a b).0 (add_carry-IsWord a b))

pub sub256-value :
    (a b : Uint256)
    → IsWord a
    → IsWord b
    → value (sub256 a b) ≡ (value a + modulus - value b) % modulus
unfolding sub256
sub256-value a b wa wb = ground arith

pub add256-IsWord : (a b : Uint256) → IsWord (add256 a b)
unfolding add256
add256-IsWord a b = add_carry-IsWord a b

pub sub256-IsWord : (a b : Uint256) → IsWord (sub256 a b)
unfolding sub256
sub256-IsWord a b = omega arith

pub neg256-IsWord : (x : Uint256) → IsWord (neg256 x)
unfolding neg256
neg256-IsWord x = omega arith

pub neg256-value : (x : Uint256) → IsWord x → value (neg256 x) ≡ (modulus - value x) % modulus
unfolding neg256
neg256-value x w = omega arith

-- `abs256` of a word is the magnitude of the two's complement number that it stands for.
pub abs256-value :
    (x : Uint256)
    → IsWord x
    → value (abs256 x) ≡ (if leb (2 ^ 255) (value x) then modulus - value x else value x)
unfolding abs256
abs256-value x w = rw (is_neg-value x w) (ground (arith, neg256-value x w, value-lt x w))

-- Adding a word back to a difference modulo 2 ^ 256 gives the other word, also when the subtraction
-- borrowed.
pub add256-sub256 : (a b : Uint256) → IsWord a → IsWord b → add256 (sub256 a b) b ≡ a
add256-sub256 a b wa wb =
    value-injective (add256 (sub256 a b) b) a (add256-IsWord (sub256 a b) b) wa (
      omega
        (arith, add256-value (sub256 a b) b, sub256-value a b wa wb, value-lt a wa, value-lt b wb))
