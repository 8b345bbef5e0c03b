-- ===== src/Evm256/Tests.antt =====
-- Runs of pkg/evm256 at concrete words.
use crypto.Base.{ℕ, ◌+◌, ◌-◌, ◌*◌, ◌/◌, ◌%◌, ◌^◌, ◌≡◌, refl, some, word, modulus}
use crypto.Evm256.Uint256.{Uint256, value, u256, is_zero, from_bytes_be, bytes_be, byte_buffer}
use crypto.Evm256.Arith.{
  add_carry, mul256, exp256, exp_loop, mul512, mul_rows, mul_row, mul_step, low_limbs, shr1,
}
use crypto.Evm256.Division.{
  udivrem, significant, long_division, single_limb, leading_zeros, normalize, shift_up,
  reciprocal2by1, div_by_limb, div_rounds, div_round, estimate, udivrem2by1, sub_mul_to_un,
  add_back, add_to_un, shift_down, divmod256, rem_limbs, div256, mod256, add_mod256, mul_mod256,
}
use crypto.Evm256.Bitwise.{
  shl256, shift_ge256, shl_limb, join_up, byte256, sign_extend256, extend_from, extend_limb,
}

abbrev pub of_number : ℕ → Uint256
of_number n = u256 (n % word) (n / 2 ^ 64 % word) (n / 2 ^ 128 % word) (n / 2 ^ 192 % word)

abbrev big : ℕ
big = 0x123456789abcdef0fedcba9876543210_0f1e2d3c4b5a69788796a5b4c3d2e1f0

abbrev odd : ℕ
odd = 0x1_0000000000000003_fffffffffffffffe

div_runs : value (div256 (of_number big) (of_number odd)) ≡ big / odd
unfolding div256 divmod256 low_limbs is_zero udivrem significant long_division single_limb
    leading_zeros normalize shift_up reciprocal2by1 div_by_limb div_rounds div_round estimate
    udivrem2by1 sub_mul_to_un add_back add_to_un shift_down
div_runs = refl

div_runs2 : value (div256 (of_number big) (of_number 12345)) ≡ big / 12345
unfolding div256 divmod256 low_limbs is_zero udivrem significant long_division single_limb
    leading_zeros normalize shift_up reciprocal2by1 div_by_limb div_rounds div_round estimate
    udivrem2by1 sub_mul_to_un add_back add_to_un shift_down
div_runs2 = refl

mod_runs : value (mod256 (of_number big) (of_number odd)) ≡ big % odd
unfolding mod256 divmod256 low_limbs is_zero udivrem significant long_division single_limb
    leading_zeros normalize shift_up reciprocal2by1 div_by_limb div_rounds div_round estimate
    udivrem2by1 sub_mul_to_un add_back add_to_un shift_down
mod_runs = refl

mul_runs : value (mul256 (of_number big) (of_number odd)) ≡ big * odd % modulus
unfolding mul256 mul512 mul_rows mul_row mul_step low_limbs
mul_runs = refl

mulmod_runs :
    value (mul_mod256 (of_number big) (of_number (big + 5)) (of_number (2 ^ 255 + 9)))
    ≡ big * (big + 5) % (2 ^ 255 + 9)
unfolding mul_mod256 mul512 rem_limbs low_limbs is_zero mul_rows mul_row mul_step udivrem
    significant long_division single_limb leading_zeros normalize shift_up reciprocal2by1
    div_by_limb div_rounds div_round estimate udivrem2by1 sub_mul_to_un add_back add_to_un
    shift_down
mulmod_runs = refl

addmod_runs :
    value (add_mod256 (of_number (modulus - 1)) (of_number (modulus - 5)) (of_number odd))
    ≡ (modulus - 1 + (modulus - 5)) % odd
unfolding add_mod256 add_carry rem_limbs low_limbs is_zero udivrem significant long_division
    single_limb leading_zeros normalize shift_up reciprocal2by1 div_by_limb div_rounds div_round
    estimate udivrem2by1 sub_mul_to_un add_back add_to_un shift_down
addmod_runs = refl

exp_runs : exp256 (of_number 7) (of_number 301) ≡ some (of_number (7 ^ 301 % modulus))
unfolding exp256 exp_loop mul256 mul512 mul_rows mul_row mul_step low_limbs shr1 is_zero
exp_runs = refl

shl_runs : value (shl256 (of_number 77) (of_number big)) ≡ big * 2 ^ 77 % modulus
unfolding shl256 shift_ge256 shl_limb join_up
shl_runs = refl

sign_runs : value (sign_extend256 1 (of_number 0x8001)) ≡ modulus - 0x7fff
unfolding sign_extend256 extend_from extend_limb
sign_runs = refl

byte_runs : value (byte256 30 (of_number big)) ≡ 0xe1
unfolding byte256
byte_runs = refl

bytes_round : from_bytes_be (bytes_be (of_number big)) ≡ of_number big
unfolding from_bytes_be bytes_be byte_buffer
bytes_round = refl
