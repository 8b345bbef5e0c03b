-- ===== src/Block/Settle.antt =====
-- The prices and the gas of a transaction, as exact numbers.
use crypto.Base.{
  ℕ, ◌+◌, ◌-◌, ◌/◌, ◌<◌, ◌≤◌, ◌≡◌, arith, Bool-cases, inl, inr, ltb, Option, none, some, word, min,
}
use crypto.Evm256.Uint256.{Uint256, IsWord, value, cmp, less, same, more}
use crypto.Evm256.Uint256.Order.{cmp-value, value-lt}
use crypto.Evm256.Arith.{sub256}
use crypto.Evm256.Arith.Sum.{add256-value, sub256-value, sub256-IsWord}
use crypto.State.Balance.{is_less-cmp}
use crypto.Block.Fees.{settle_gas, with_refund, min_u256, market_fees}

-- For a run that leaves no more gas than there was: the gas used and the gas left are together all
-- the gas, and the gas left has grown by the refund counter, or by a fifth of the gas that the run
-- used if that is less.
pub settle_gas-exact :
    (gas left refund : ℕ)
    → gas < word
    → left ≤ gas
    → ((settle_gas gas left refund).0 + (settle_gas gas left refund).1 ≡ gas)
      × ((settle_gas gas left refund).1 ≡ left + min refund ((gas - left) / 5))
unfolding settle_gas with_refund
settle_gas-exact gas left refund w l = ground arith

min_u256-value :
    (a b : Uint256) → IsWord a → IsWord b → value (min_u256 a b) ≡ min (value a) (value b)
unfolding min_u256
min_u256-value a b wa wb = rw (cmp-value a b wa wb, min_u256) (ground arith)

min_u256-IsWord : (a b : Uint256) → IsWord a → IsWord b → IsWord (min_u256 a b)
unfolding min_u256
min_u256-IsWord a b wa wb = elim (cmp a b) as (λ s. IsWord (elim s [ more ↦ b | _ ↦ a ])) [
  | less ↦ wa
  | same ↦ wa
  | more ↦ wb
]

-- What the fees of a market are: none, or a price and a tip.
abbrev pub IsPriced : Uint256 → Uint256 → Uint256 → Option (Uint256 × Uint256) → Type 0
IsPriced base cap tip_cap none = value cap < value base
IsPriced base cap tip_cap (some fees) =
    (value base ≤ value cap)
    × (value fees.0 ≡ min (value cap) (value base + value tip_cap))
    × (value fees.0 ≡ value base + value fees.1)

-- For three words, the fees of a dynamic-fee or a blob transaction: an error exactly where the cap is
-- below the base fee, and else the price is the cap, or the base fee and the tip cap together if that
-- is less, and the tip is what the price has above the base fee, all as exact numbers.
pub market_fees-IsPriced :
    (base cap tip_cap : Uint256)
    → IsWord base
    → IsWord cap
    → IsWord tip_cap
    → IsPriced base cap tip_cap (market_fees base cap tip_cap)
unfolding market_fees
market_fees-IsPriced base cap tip_cap wb wc wt = elim (Bool-cases (ltb (value cap) (value base))) [
  | inl low ↦ rw (is_less-cmp cap base wc wb, low) (ground arith)
  | inr enough ↦
      let room = sub256 cap base in
      let tip = min_u256 tip_cap room in
      let room_fits = sub256-IsWord cap base in
      let in_room = sub256-value cap base wc wb in
      let tip_is = min_u256-value tip_cap room wt room_fits in
      let sum = add256-value base tip in
      let cap_fits = value-lt cap wc in
      let base_fits = value-lt base wb in
      let covered : value base ≤ value cap = ground arith in
      let difference : value room ≡ value cap - value base = omega arith in
      rw (is_less-cmp cap base wc wb, enough) (covered, omega arith, omega arith)
]
