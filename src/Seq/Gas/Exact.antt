-- ===== src/Seq/Gas/Exact.antt =====
-- The checked arithmetic of pkg/c2seq/retryable.go against exact numbers.
use crypto.Base.{
  ℕ, ◌+◌, ◌-◌, ◌*◌, ◌/◌, ◌%◌, ◌<◌, ◌≤◌, ◌≡◌, ◌⊎◌, inl, inr, refl, arith, List, [], ◌∷◌, ltb, ◌==◌,
  if◌then◌else◌, word, modulus, length, get_or, max_word, Bool-cases, true,
}
use crypto.Evm256.Uint256.{Uint256, IsWord, value, limbs}
use crypto.Evm256.Uint256.Order.{cmp-value, is_zero-value, value-lt}
use crypto.Evm256.Arith.{add256}
use crypto.Evm256.Arith.Sum.{add256-value, add256-IsWord}
use crypto.Evm256.Arith.Product.{limbs_value, AreWords, limbs-AreWords}
use crypto.Seq.Types.{Result, ok, fail, gas_overflow, gas_underflow, ◌>>=◌}
use crypto.Seq.Gas.{
  safe_add_gas, safe_sub_gas, safe_mul_gas, add_u256_checked, mul_limbs_checked,
  mul_u256_u64_checked, submission_gas,
}

pub safe_add_gas-exact :
    (a b : ℕ) → safe_add_gas a b ≡ (if ltb (a + b) word then ok (a + b) else fail gas_overflow)
unfolding safe_add_gas
safe_add_gas-exact a b = ground arith

pub safe_sub_gas-exact :
    (a b : ℕ)
    → a < word
    → b < word
    → safe_sub_gas a b ≡ (if ltb a b then fail gas_underflow else ok (a - b))
unfolding safe_sub_gas
safe_sub_gas-exact a b ha hb = ground arith

pub safe_mul_gas-exact :
    (a b : ℕ) → safe_mul_gas a b ≡ (if ltb (a * b) word then ok (a * b) else fail gas_overflow)
unfolding safe_mul_gas
safe_mul_gas-exact a b = ground arith

-- `addU256Checked` of two words gives their sum `Add256`, which is then exact, if that is below
-- 2 ^ 256, and an error otherwise.
pub add_u256_checked-exact :
    (a b : Uint256)
    → IsWord a
    → IsWord b
    → add_u256_checked a b
      ≡ (if ltb (value a + value b) modulus then ok (add256 a b) else fail gas_overflow)
unfolding add_u256_checked
add_u256_checked-exact a b wa wb =
    rw (cmp-value (add256 a b) a (add256-IsWord a b) wa, is_zero-value b, add256-value a b)
      (ground (arith, value-lt a wa, value-lt b wb))

-- One limb of the product, whose own carry cannot overflow.
mul_limb :
    (x n c : ℕ) → x < word → n < word → c < word → (x * n / word + (x * n % word + c) / word) < word
mul_limb x n c hx hn hc = omega (arith, product-le x n (omega arith) (omega arith))
  where
    product-le : (x n : ℕ) → x ≤ max_word → n ≤ max_word → x * n ≤ max_word * max_word
    product-le x n p q = grind arith

-- The first number that so many limbs do not hold.
abbrev pub limit : List ℕ → ℕ
limit [] = 1
limit (x ∷ xs) = word * limit xs

-- What the loop gives for the limbs `xs` and the carry `c`.
pub data IsScaled (xs : List ℕ) (n c : ℕ) (r : Result (List ℕ)) : Type 0 where
  fits :
      (out : List ℕ)
      → r ≡ ok out
      → AreWords out
      → length out ≡ length xs
      → limbs_value out ≡ limbs_value xs * n + c
      → IsScaled xs n c r
  overflows : r ≡ fail gas_overflow → limit xs ≤ limbs_value xs * n + c → IsScaled xs n c r

mul_limbs_checked-step :
    (x : ℕ) (xs : List ℕ) (n c : ℕ)
    → x < word
    → n < word
    → c < word
    → mul_limbs_checked (x ∷ xs) n c ≡ (
        mul_limbs_checked xs n (x * n / word + (x * n % word + c) / word) >>= λ out.
        ok ((x * n % word + c) % word ∷ out))
unfolding mul_limbs_checked
mul_limbs_checked-step x xs n c hx hn hc =
    let small = mul_limb x n c hx hn hc in
    let sum : x * n % word + c + 0 ≡ x * n % word + c = omega arith in
    let next : (x * n / word + 0 + (x * n % word + c) / word)
        ≡ x * n / word + (x * n % word + c) / word =
      omega arith in
    let low : (x * n / word + (x * n % word + c) / word) % word
        ≡ x * n / word + (x * n % word + c) / word =
      omega arith in
    let no_carry : ((x * n / word + (x * n % word + c) / word) / word == 0) ≡ true = ground arith in
    rw (sum, next, low, no_carry) refl

mul_limbs_checked-end : (n c : ℕ) → IsScaled [] n c (mul_limbs_checked [] n c)
unfolding mul_limbs_checked
mul_limbs_checked-end n c = elim (Bool-cases (c == 0)) [
  | inl done ↦
      let none_left : c ≡ 0 = ground arith in rw done (IsScaled.fits [] refl tt refl (omega arith))
  | inr left_over ↦ rw left_over (IsScaled.overflows refl (ground arith))
]

mul_limbs_checked-IsScaled :
    (xs : List ℕ) (n c : ℕ)
    → AreWords xs
    → n < word
    → c < word
    → IsScaled xs n c (mul_limbs_checked xs n c)
mul_limbs_checked-IsScaled [] n c h hn hc = mul_limbs_checked-end n c
mul_limbs_checked-IsScaled (x ∷ xs) n c h hn hc =
    let next = x * n / word + (x * n % word + c) / word in
    rw (mul_limbs_checked-step x xs n c h.0 hn hc)
      (elim (mul_limbs_checked-IsScaled xs n next h.1 hn (mul_limb x n c h.0 hn hc)) [
        | IsScaled.fits out e words size total ↦ rw e (
            IsScaled.fits ((x * n % word + c) % word ∷ out) refl (omega arith, words) (omega arith)
              (omega arith))
        | IsScaled.overflows e large ↦ rw e (IsScaled.overflows refl (omega arith))
      ])

-- The word of four limbs.
IsWord-of_limbs :
    (out : List ℕ)
    → AreWords out
    → length out ≡ 4
    → let z : Uint256 = record {
      w0 = get_or out 0 0;
      w1 = get_or out 1 0;
      w2 = get_or out 2 0;
      w3 = get_or out 3 0;
    } in
      IsWord z × (value z ≡ limbs_value out)
IsWord-of_limbs (a ∷ b ∷ c ∷ d ∷ []) w e = (
  record {
    fits0 = w.0;
    fits1 = omega (arith, w);
    fits2 = omega (arith, w);
    fits3 = omega (arith, w);
  },
  omega arith,
)
IsWord-of_limbs [] w e = absurd (omega arith)
IsWord-of_limbs (a ∷ []) w e = absurd (omega arith)
IsWord-of_limbs (a ∷ b ∷ []) w e = absurd (omega arith)
IsWord-of_limbs (a ∷ b ∷ c ∷ []) w e = absurd (omega arith)
IsWord-of_limbs (a ∷ b ∷ c ∷ d ∷ x ∷ xs) w e = absurd (omega arith)

-- `mulU256U64Checked` on words: an error where the product is 2 ^ 256 or more, and else a word
-- that stands for the product.
pub mul_u256_u64_checked-exact :
    (a : Uint256) (n : ℕ)
    → IsWord a
    → n < word
    → ((modulus ≤ value a * n) × (mul_u256_u64_checked a n ≡ fail gas_overflow))
      ⊎ ((z : Uint256) × (mul_u256_u64_checked a n ≡ ok z) × IsWord z × (value z ≡ value a * n))
unfolding mul_u256_u64_checked
mul_u256_u64_checked-exact a n wa hn =
    elim (mul_limbs_checked-IsScaled (limbs a) n 0 (limbs-AreWords a wa) hn (omega arith)) [
      | IsScaled.overflows e large ↦ inl (omega arith, rw e refl)
      | IsScaled.fits out e words size total ↦
          let z = IsWord-of_limbs out words size in
          rw e (inr (_, refl, z.0, omega (arith, z.1, total)))
    ]

-- `submissionGas` of as many bytes: 1400 and 6 for each, or an error where that is no uint64.
pub submission_gas-exact :
    (n : ℕ)
    → submission_gas n ≡ (if ltb (1400 + 6 * n) word then ok (1400 + 6 * n) else fail gas_overflow)
unfolding submission_gas
submission_gas-exact n = rw (safe_mul_gas-exact 6 n) (elim (Bool-cases (ltb (6 * n) word)) [
  | inl small ↦ rw small (safe_add_gas-exact 1400 (6 * n))
  | inr large ↦ rw large (ground arith)
])
