-- ===== src/Seq/Retryable/Fees.antt =====
-- What `quoteRetryable` of pkg/c2seq/retryable.go accepts.
use crypto.Base.{
  ℕ, ◌+◌, ◌-◌, ◌*◌, ◌<◌, ◌≤◌, ◌≡◌, ◌⊎◌, refl, arith, subst, Bool-cases, inl, inr, length, word,
  modulus, ltb, if◌then◌else◌,
}
use crypto.Evm256.Uint256.{Uint256, IsWord, value}
use crypto.Evm256.Uint256.Order.{cmp-value, compare_values, value-lt}
use crypto.Evm256.Arith.{add256}
use crypto.Evm256.Arith.Sum.{add256-value, add256-IsWord}
use crypto.Seq.Types.{Result, ok, fail, Error, ◌>>=◌, deposit, gas_underflow, Result-cases}
use crypto.Seq.Gas.{add_u256_checked, is_less}
use crypto.Seq.Gas.Exact.{
  submission_gas-exact, mul_u256_u64_checked-exact, add_u256_checked-exact, safe_sub_gas-exact,
}
use crypto.Seq.Retryable.{RetryableParams, Quote, quote_fees, quote_retryable, is_more}

-- Parameters whose numbers fit their types.
pub record IsParams (p : RetryableParams) : Type 0 where
  pub call_value_fits : IsWord p.call_value
  pub deposit_fits : IsWord p.deposited
  pub cap_fits : IsWord p.max_submission_fee
  pub fee_fits : IsWord p.max_fee_per_gas
  pub base_fee_fits : IsWord p.l1_base_fee
  pub limit_fits : p.gas_limit < word
  pub provided_fits : p.gas_provided < word

-- The gas that the data costs, and the sum of the fees, as exact numbers.
abbrev pub data_gas : RetryableParams → ℕ
data_gas p = 1400 + 6 * length p.payload

-- The deposit covers the submission fee, the execution and the value, the fee is below its cap,
-- and the gas is there.
pub record IsAffordable (p : RetryableParams) : Type 0 where
  pub under_cap : value p.l1_base_fee * data_gas p ≤ value p.max_submission_fee
  pub covered :
      value p.l1_base_fee * data_gas p + value p.max_fee_per_gas * p.gas_limit + value p.call_value
      ≤ value p.deposited
  pub gas_there : data_gas p ≤ p.gas_provided

-- A quote of the exact amounts.
pub record IsExact (p : RetryableParams) (q : Quote) : Type 0 where
  pub gas_exact : q.sub_gas ≡ data_gas p
  pub fee_exact : value q.sub_fee ≡ value p.l1_base_fee * data_gas p
  pub exec_exact : value q.exec ≡ value p.max_fee_per_gas * p.gas_limit
  pub total_exact : value q.total ≡ value q.sub_fee + value q.exec + value p.call_value

-- What a result says about the parameters.
abbrev Decides : RetryableParams → Result Quote → Type 0
Decides p (ok q) = IsAffordable p × IsExact p q
Decides p (fail e) = ¬ IsAffordable p

module _ (p : RetryableParams) (v : IsParams p) (sub_fee exec : Uint256) where
  -- The two sums of the fees and the value.
  abbrev sums : Result Uint256
  sums = add_u256_checked sub_fee exec >>= λ fees. add_u256_checked fees p.call_value

  sums-exact :
      IsWord sub_fee
      → IsWord exec
      → ((z : Uint256) × (sums ≡ ok z)
          × IsWord z
          × (value z ≡ value sub_fee + value exec + value p.call_value))
        ⊎ ((e : Error) × (sums ≡ fail e)
            × (modulus ≤ value sub_fee + value exec + value p.call_value))
  sums-exact wf we =
      rw (add_u256_checked-exact sub_fee exec wf we)
        (elim (Bool-cases (ltb (value sub_fee + value exec) modulus)) [
          | inr large ↦ rw large (inr (_, refl, ground arith))
          | inl small ↦
              let fees = add256 sub_fee exec in
              let wfees = add256-IsWord sub_fee exec in
              let exact : value fees ≡ value sub_fee + value exec =
                ground (arith, add256-value sub_fee exec) in
              rw (small, add_u256_checked-exact fees p.call_value wfees v.call_value_fits)
                (elim (Bool-cases (ltb (value fees + value p.call_value) modulus)) [
                  | inr large ↦ rw large (inr (_, refl, ground arith))
                  | inl low ↦ rw low (
                      inl (
                        add256 fees p.call_value,
                        refl,
                        add256-IsWord fees p.call_value,
                        ground (arith, add256-value fees p.call_value),
                      ))
                ])
        ])

is_less_of : (a b : ℕ) → is_less (compare_values a b) ≡ ltb a b
is_less_of a b = ground arith

is_more_of : (a b : ℕ) → is_more (compare_values a b) ≡ ltb b a
is_more_of a b = ground arith

module _ (p : RetryableParams) (v : IsParams p) (sub_gas : ℕ) (sub_fee : Uint256)
    (eg : sub_gas ≡ data_gas p) (ef : value sub_fee ≡ value p.l1_base_fee * data_gas p) where
  -- The last two checks.
  funded :
      (exec total : Uint256)
      → value p.l1_base_fee * data_gas p ≤ value p.max_submission_fee
      → value exec ≡ value p.max_fee_per_gas * p.gas_limit
      → value total ≡ value sub_fee + value exec + value p.call_value
      → Decides p (
          if ltb (value p.deposited) (value total)
          then fail deposit
          else ((if ltb p.gas_provided sub_gas
                then fail gas_underflow
                else ok (p.gas_provided - sub_gas))
              >>= λ left.
                  ok (record { sub_gas = sub_gas; sub_fee = sub_fee; exec = exec; total = total })))
  funded exec total cap ee et = elim (Bool-cases (ltb (value p.deposited) (value total))) [
    | inl poor ↦ rw poor (λ a. absurd (ground (arith, a.covered)))
    | inr rich ↦ rw rich (elim (Bool-cases (ltb p.gas_provided sub_gas)) [
      | inl short ↦ rw short (λ a. absurd (ground (arith, a.gas_there)))
      | inr there ↦ rw there (
        record { under_cap = cap; covered = ground arith; gas_there = ground arith },
        record { gas_exact = eg; fee_exact = ef; exec_exact = ee; total_exact = et },
      )
    ])
  ]

  -- The tail, for the exact gas and fee.
  quote_fees-Decides : IsWord sub_fee → sub_gas < word → Decides p (quote_fees p sub_gas sub_fee)
  unfolding quote_fees
  quote_fees-Decides w small =
      rw
        (
          cmp-value sub_fee p.max_submission_fee w v.cap_fits,
          is_more_of (value sub_fee) (value p.max_submission_fee),
        )
        (elim (Bool-cases (ltb (value p.max_submission_fee) (value sub_fee))) [
          | inl over ↦ rw over (λ a. absurd (ground (arith, a.under_cap)))
          | inr under ↦
              rw under
                (elim (mul_u256_u64_checked-exact p.max_fee_per_gas p.gas_limit v.fee_fits
                  v.limit_fits) [
                    | inl big ↦ rw big.1 (λ a.
                        absurd
                          (omega (arith, big.0, a.covered, value-lt p.deposited v.deposit_fits)))
                    | inr exec ↦ rw exec.1 (elim (sums-exact p v sub_fee exec.0 w exec.2) [
                      | inr big ↦ rw big.1 (λ a. absurd (
                          omega
                            (arith, big.2, exec.3, a.covered, value-lt p.deposited v.deposit_fits)))
                      | inl total ↦
                          let cap : value p.l1_base_fee * data_gas p ≤ value p.max_submission_fee =
                            ground (arith, ef) in
                          rw
                            (
                              total.1,
                              cmp-value p.deposited total.0 v.deposit_fits total.2,
                              is_less_of (value p.deposited) (value total.0),
                              safe_sub_gas-exact p.gas_provided sub_gas v.provided_fits small,
                            )
                            (funded exec.0 total.0 cap exec.3 total.3)
                    ])
                  ])
        ])

quote_retryable-Decides : (p : RetryableParams) → IsParams p → Decides p (quote_retryable p)
unfolding quote_retryable
quote_retryable-Decides p v =
    rw (submission_gas-exact (length p.payload)) (elim (Bool-cases (ltb (data_gas p) word)) [
      | inr large ↦ rw large (λ a. absurd (ground (arith, a.gas_there, v.provided_fits)))
      | inl small ↦
          let fits : data_gas p < word = ground arith in
          rw small
            (elim (mul_u256_u64_checked-exact p.l1_base_fee (data_gas p) v.base_fee_fits fits) [
              | inl big ↦ rw big.1 (λ a.
                  absurd
                    (omega (arith, big.0, a.under_cap, value-lt p.max_submission_fee v.cap_fits)))
              | inr fee ↦ rw fee.1 (quote_fees-Decides p v (data_gas p) fee.0 refl fee.3 fee.2 fits)
            ])
    ])

-- `quoteRetryable`, on parameters that fit their Go types, accepts exactly those where the
-- submission fee is within its cap, the deposit covers that fee, the execution and the call value
-- as exact numbers, and the gas provided covers the gas of the data; the quote it then gives has
-- the exact amounts, and it returns an error otherwise.
pub quote_retryable-IsExact :
    (p : RetryableParams)
    → IsParams p
    → ((q : Quote) × (quote_retryable p ≡ ok q) × IsAffordable p × IsExact p q)
      ⊎ ((e : Error) × (quote_retryable p ≡ fail e) × ¬ IsAffordable p)
quote_retryable-IsExact p v = elim (Result-cases (quote_retryable p)) [
  | inl r ↦ let d = subst (Decides p) r.1 (quote_retryable-Decides p v) in inl (r.0, r.1, d.0, d.1)
  | inr r ↦ inr (r.0, r.1, subst (Decides p) r.1 (quote_retryable-Decides p v))
]
