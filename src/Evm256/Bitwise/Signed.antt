-- ===== src/Evm256/Bitwise/Signed.antt =====
-- The signed comparisons of pkg/evm256/bitwise.go.
use crypto.Base.{ℕ, ◌+◌, ◌%◌, ◌^◌, ◌≡◌, arith, modulus, ltb}
use crypto.Evm256.Uint256.{Uint256, IsWord, value}
use crypto.Evm256.Uint256.Order.{cmp-value, is_neg-value, value-lt}
use crypto.Evm256.Bitwise.{slt256, sgt256}

-- The two's complement number of a word, moved up by 2 ^ 255 so that it is not negative.
abbrev pub biased : Uint256 → ℕ
biased z = (value z + 2 ^ 255) % modulus

-- `Slt256` of two words is the order of the two's complement numbers that they stand for.
pub slt256-biased : (a b : Uint256) → IsWord a → IsWord b → slt256 a b ≡ ltb (biased a) (biased b)
unfolding slt256
slt256-biased a b wa wb =
    rw (is_neg-value a wa, is_neg-value b wb, cmp-value a b wa wb)
      (ground (arith, value-lt a wa, value-lt b wb))

-- `Sgt256` of two words is the converse order.
pub sgt256-biased : (a b : Uint256) → IsWord a → IsWord b → sgt256 a b ≡ ltb (biased b) (biased a)
unfolding sgt256
sgt256-biased a b wa wb =
    rw (is_neg-value a wa, is_neg-value b wb, cmp-value a b wa wb)
      (ground (arith, value-lt a wa, value-lt b wb))
