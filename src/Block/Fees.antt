-- ===== src/Block/Fees.antt =====
-- `intrinsicGas`, `effectiveFees` and the gas that a transaction used.
use crypto.Base.{
  ℕ, ◌/◌, not, ◌&&◌, ◌||◌, ◌==◌, ltb, if◌then◌else◌, List, [], ◌∷◌, Option, none, some, length,
  wrap_add, wrap_sub, wrap_mul,
}
use crypto.Evm256.Uint256.{Uint256, more, is_zero, from_u64, cmp}
use crypto.Evm256.Arith.{add256, sub256, mul256}
use crypto.Seq.Types.{Transaction, AccessTuple}
use crypto.Seq.Gas.{is_less}
use crypto.Rlp.Encode.{Bytes}

pub record BlockHeader : Type 0 where
  pub parent_hash : Bytes
  pub coinbase : Bytes
  pub state_root : Bytes
  pub receipts_root : Bytes
  pub bloom : Bytes
  pub number : ℕ
  pub gas_limit : ℕ
  pub gas_used : ℕ
  pub timestamp : ℕ
  pub extra : Bytes
  pub mix_digest : Bytes
  pub nonce : ℕ
  pub base_fee : Uint256
  pub blob_gas_used : ℕ
  pub excess_blob_gas : ℕ
  pub difficulty : Uint256
  pub chain_id : Uint256

-- `words32` of pkg/c2block/precompiles.go.
unfoldable pub words32 : ℕ → ℕ
words32 n = if n == 0 then 0 else wrap_add n 31 / 32

unfoldable pub data_gas : ℕ → Bytes → ℕ
data_gas gas [] = gas
data_gas gas (b ∷ bs) = data_gas (wrap_add gas (if b == 0 then 4 else 16)) bs

unfoldable pub tuples_gas : ℕ → List AccessTuple → ℕ
tuples_gas gas [] = gas
tuples_gas gas (t ∷ ts) =
    tuples_gas (wrap_add gas (wrap_add 2400 (wrap_mul (length t.slots) 1900))) ts

-- The gas of a call, or of a creation by its code.
unfoldable pub base_gas : Option Bytes → Bytes → ℕ
base_gas none code = wrap_add 53000 (wrap_mul (words32 (length code)) 2)
base_gas (some to) code = 21000

unfoldable pub intrinsic_gas : Transaction → ℕ
intrinsic_gas tx = tuples_gas (data_gas (base_gas tx.to tx.payload) tx.payload) tx.access_list

unfoldable pub min_u256 : Uint256 → Uint256 → Uint256
min_u256 a b = elim (cmp a b) [ more ↦ b | _ ↦ a ]

-- The price of a unit of gas, and the part of it that the miner gets; `none` is `ErrFeeCap`.
unfoldable pub market_fees : Uint256 → Uint256 → Uint256 → Option (Uint256 × Uint256)
market_fees base cap tip_cap =
    if is_less (cmp cap base)
    then none
    else let tip = min_u256 tip_cap (sub256 cap base) in some (add256 base tip, tip)

unfoldable pub legacy_fees : Uint256 → Uint256 → Option (Uint256 × Uint256)
legacy_fees base price =
    if not (is_zero base) && is_less (cmp price base)
    then none
    else some (price, if is_zero base then price else sub256 price base)

unfoldable pub effective_fees : BlockHeader → Transaction → Option (Uint256 × Uint256)
effective_fees header tx =
    if (tx.kind == 2) || (tx.kind == 3)
    then market_fees header.base_fee tx.gas_fee_cap tx.gas_tip_cap
    else legacy_fees header.base_fee tx.gas_price

unfoldable pub u256_mul_u64 : Uint256 → ℕ → Uint256
u256_mul_u64 a n = mul256 a (from_u64 n)

-- The gas used and the gas left, of all the gas, what the execution left, and the refund counter.
unfoldable pub with_refund : ℕ → ℕ → ℕ → ℕ → ℕ × ℕ
with_refund gas used left refund =
    let actual = if ltb (used / 5) refund then used / 5 else refund in
    if ltb 0 actual
    then (wrap_sub gas (wrap_add left actual), wrap_add left actual)
    else (used, left)

unfoldable pub settle_gas : ℕ → ℕ → ℕ → ℕ × ℕ
settle_gas gas left refund =
    if ltb gas (wrap_sub gas left)
    then with_refund gas gas 0 refund
    else with_refund gas (wrap_sub gas left) left refund
