-- ===== src/Seq/Gas.antt =====
-- The checked arithmetic of pkg/c2seq/retryable.go.
pub mod Exact
use crypto.Base.{
  ℕ, ◌+◌, ◌*◌, Bool, true, false, not, ◌&&◌, ◌==◌, if◌then◌else◌, List, [], ◌∷◌, get_or, add64,
  sub64, mul64,
}
use crypto.Evm256.Uint256.{Uint256, Sign, less, same, more, limbs, is_zero, cmp}
use crypto.Evm256.Arith.{add256}
use crypto.Seq.Types.{Result, ok, fail, ◌>>=◌, gas_overflow, gas_underflow}

abbrev pub retryable_overhead_gas : ℕ
retryable_overhead_gas = 1400

abbrev pub retryable_per_byte_gas : ℕ
retryable_per_byte_gas = 6

unfoldable pub safe_add_gas : ℕ → ℕ → Result ℕ
safe_add_gas a b = let r = add64 a b 0 in if r.1 == 0 then ok r.0 else fail gas_overflow

unfoldable pub safe_sub_gas : ℕ → ℕ → Result ℕ
safe_sub_gas a b = let r = sub64 a b 0 in if r.1 == 0 then ok r.0 else fail gas_underflow

unfoldable pub safe_mul_gas : ℕ → ℕ → Result ℕ
safe_mul_gas a b = let r = mul64 a b in if r.0 == 0 then ok r.1 else fail gas_overflow

-- `Cmp(…) < 0`.
abbrev pub is_less : Sign → Bool
is_less less = true
is_less same = false
is_less more = false

-- `addU256Checked`.
unfoldable pub add_u256_checked : Uint256 → Uint256 → Result Uint256
add_u256_checked a b =
    let out = add256 a b in
    if not (is_zero b) && is_less (cmp out a) then fail gas_overflow else ok out

-- The loop of `mulU256U64Checked`, on the limbs that are left.
unfoldable pub mul_limbs_checked : List ℕ → ℕ → ℕ → Result (List ℕ)
mul_limbs_checked [] n carry = if carry == 0 then ok [] else fail gas_overflow
mul_limbs_checked (x ∷ xs) n carry =
    let product = mul64 x n in
    let sum = add64 product.1 carry 0 in
    let next = add64 product.0 0 sum.1 in
    let rest = mul_limbs_checked xs n next.0 in
    if next.1 == 0 then rest >>= (λ out. ok (sum.0 ∷ out)) else fail gas_overflow

-- `mulU256U64Checked`.
unfoldable pub mul_u256_u64_checked : Uint256 → ℕ → Result Uint256
mul_u256_u64_checked a n = mul_limbs_checked (limbs a) n 0 >>= λ out.
    ok (record {
      w0 = get_or out 0 0;
      w1 = get_or out 1 0;
      w2 = get_or out 2 0;
      w3 = get_or out 3 0;
    })

-- `submissionGas`; the length of a slice is not negative.
unfoldable pub submission_gas : ℕ → Result ℕ
submission_gas data_len = do
  n ← safe_mul_gas retryable_per_byte_gas data_len
  safe_add_gas retryable_overhead_gas n
