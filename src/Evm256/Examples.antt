-- ===== src/Evm256/Examples.antt =====
-- The theorems on pkg/evm256 at concrete words.
use crypto.Base.{
  ℕ, ◌+◌, ◌-◌, ◌*◌, ◌/◌, ◌%◌, ◌^◌, ◌≡◌, arith, some, modulus, leb, ltb, if◌then◌else◌, length,
}
use crypto.Evm256.Uint256.{Uint256, IsWord, value, from_bytes_be, bytes_be, cmp}
use crypto.Evm256.Uint256.Order.{compare_values, cmp-value}
use crypto.Evm256.Uint256.Bytes.{from_bytes_be-bytes_be}
use crypto.Evm256.Arith.{add256, sub256, mul256, mul512, exp256, abs256}
use crypto.Evm256.Arith.Sum.{add256-sub256, abs256-value}
use crypto.Evm256.Arith.Product.{limbs_value, AreWords, mul512-value, mul256-value}
use crypto.Evm256.Arith.Power.{exp256-value}
use crypto.Evm256.Bitwise.{shl256, shr256, slt256}
use crypto.Evm256.Bitwise.RightShift.{shr256-value}
use crypto.Evm256.Bitwise.Signed.{biased, slt256-biased}
use crypto.Evm256.Bitwise.Shift.{shl256-value}
use crypto.Evm256.Tests.{of_number}

pub of_number-IsWord : (n : ℕ) → IsWord (of_number n)
of_number-IsWord n = record {
  fits0 = omega arith;
  fits1 = omega arith;
  fits2 = omega arith;
  fits3 = omega arith;
}

abbrev seven : Uint256
seven = of_number 7

abbrev huge : Uint256
huge = of_number (2 ^ 255 + 12345)

mul512-value_example :
    (limbs_value (mul512 seven huge) ≡ value seven * value huge)
    × (length (mul512 seven huge) ≡ 8)
    × AreWords (mul512 seven huge)
mul512-value_example =
    mul512-value seven huge (of_number-IsWord 7) (of_number-IsWord (2 ^ 255 + 12345))

mul256-value_example : value (mul256 seven huge) ≡ value seven * value huge % modulus
mul256-value_example =
    mul256-value seven huge (of_number-IsWord 7) (of_number-IsWord (2 ^ 255 + 12345))

exp256-value_example :
    (out : Uint256) × (exp256 huge seven ≡ some out)
    × IsWord out
    × (value out ≡ value huge ^ value seven % modulus)
exp256-value_example =
    exp256-value huge seven (of_number-IsWord (2 ^ 255 + 12345)) (of_number-IsWord 7)

add256-sub256_example : add256 (sub256 seven huge) huge ≡ seven
add256-sub256_example =
    add256-sub256 seven huge (of_number-IsWord 7) (of_number-IsWord (2 ^ 255 + 12345))

abs256-value_example :
    value (abs256 huge) ≡ (if leb (2 ^ 255) (value huge) then modulus - value huge else value huge)
abs256-value_example = abs256-value huge (of_number-IsWord (2 ^ 255 + 12345))

shl256-value_example :
    value (shl256 seven huge)
    ≡ (if leb 256 (value seven) then 0 else value huge * 2 ^ value seven % modulus)
shl256-value_example =
    shl256-value seven huge (of_number-IsWord 7) (of_number-IsWord (2 ^ 255 + 12345))

cmp-value_example : cmp seven huge ≡ compare_values (value seven) (value huge)
cmp-value_example = cmp-value seven huge (of_number-IsWord 7) (of_number-IsWord (2 ^ 255 + 12345))

from_bytes_be-bytes_be_example : from_bytes_be (bytes_be huge) ≡ huge
from_bytes_be-bytes_be_example = from_bytes_be-bytes_be huge (of_number-IsWord (2 ^ 255 + 12345))

slt256-biased_example : slt256 huge seven ≡ ltb (biased huge) (biased seven)
slt256-biased_example =
    slt256-biased huge seven (of_number-IsWord (2 ^ 255 + 12345)) (of_number-IsWord 7)

shr256-value_example :
    value (shr256 seven huge) ≡ (if leb 256 (value seven) then 0 else value huge / 2 ^ value seven)
shr256-value_example =
    shr256-value seven huge (of_number-IsWord 7) (of_number-IsWord (2 ^ 255 + 12345))
