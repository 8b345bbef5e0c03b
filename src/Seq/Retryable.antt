-- ===== src/Seq/Retryable.antt =====
-- The retryable tickets of pkg/c2seq/retryable.go. The engine's mutex makes each operation one
-- step; its map is a function of the ID, and a nil map reads as an empty one.
pub mod Fees
pub mod Once
use crypto.Base.{
  ℕ, ◌+◌, ◌*◌, ◌<◌, Bool, true, false, not, ◌==◌, ltb, if◌then◌else◌, List, [], ◌∷◌, ◌++◌, Option,
  none, some, length, bit_xor, word,
}
use crypto.Evm256.Uint256.{
  Uint256, IsWord, Sign, less, same, more, cmp, zero256, bytes_be, from_u64,
}
use crypto.Keccak.{keccak256}
use crypto.Seq.Types.{
  Result, ok, fail, ◌>>=◌, Bytes, bytes_eq, Transaction, submission_fee, deposit, ticket_missing,
  ticket_state,
}
use crypto.Seq.Gas.{submission_gas, mul_u256_u64_checked, add_u256_checked, safe_sub_gas, is_less}

pub data RetryableStatus : Type 0 where
  created auto_redeemed manual_redeemed : RetryableStatus

pub record RetryableParams : Type 0 where
  pub from : Bytes
  pub to : Option Bytes
  pub call_value : Uint256
  pub deposited : Uint256
  pub max_submission_fee : Uint256
  pub excess_fee_refund_to : Bytes
  pub call_value_refund_to : Bytes
  pub gas_limit : ℕ
  pub max_fee_per_gas : Uint256
  pub payload : Bytes
  pub l1_base_fee : Uint256
  pub gas_provided : ℕ

pub record RetryableTicket : Type 0 where
  pub id : Bytes
  pub from : Bytes
  pub to : Option Bytes
  pub call_value : Uint256
  pub deposited : Uint256
  pub max_submission_fee : Uint256
  pub excess_fee_refund_to : Bytes
  pub call_value_refund_to : Bytes
  pub gas_limit : ℕ
  pub max_fee_per_gas : Uint256
  pub payload : Bytes
  pub status : RetryableStatus
  pub submission_gas : ℕ
  pub submission_fee : Uint256

-- What `quoteRetryable` returns.
pub record Quote : Type 0 where
  pub sub_gas : ℕ
  pub sub_fee : Uint256
  pub exec : Uint256
  pub total : Uint256

-- `Cmp(…) > 0`.
abbrev is_more : Sign → Bool
is_more less = false
is_more same = false
is_more more = true

-- `quoteRetryable` from the cap on the submission fee on.
unfoldable pub quote_fees : RetryableParams → ℕ → Uint256 → Result Quote
quote_fees p sub_gas sub_fee =
    if is_more (cmp sub_fee p.max_submission_fee) then fail submission_fee else (do
      exec ← mul_u256_u64_checked p.max_fee_per_gas p.gas_limit
      total ← (do fees ← add_u256_checked sub_fee exec; add_u256_checked fees p.call_value)
      if is_less (cmp p.deposited total) then fail deposit else (do
        left ← safe_sub_gas p.gas_provided sub_gas
        ok (record { sub_gas = sub_gas; sub_fee = sub_fee; exec = exec; total = total })))

unfoldable pub quote_retryable : RetryableParams → Result Quote
quote_retryable p = do
  sub_gas ← submission_gas (length p.payload)
  sub_fee ← mul_u256_u64_checked p.l1_base_fee sub_gas
  quote_fees p sub_gas sub_fee

-- `ticketID`.
unfoldable pub ticket_id : RetryableParams → Bytes
ticket_id p =
    let receiver : Bytes = elim p.to [ some a ↦ 0x01 ∷ a | none ↦ 0x00 ∷ [] ] in
    keccak256
      (p.from ++ receiver ++ bytes_be p.call_value ++ p.payload ++ bytes_be (from_u64 p.gas_limit))

-- `h[0] ^= 0xa5`.
abbrev tag_hash : Bytes → Bytes
tag_hash [] = []
tag_hash (b ∷ bs) = bit_xor b 0xa5 ∷ bs

-- `ticketToTx`; TxDynamicFee is 2.
unfoldable pub ticket_to_tx : RetryableTicket → ℕ → Transaction
ticket_to_tx t nonce = record {
  kind = 2;
  chain_id = zero256;
  nonce = nonce;
  gas_price = t.max_fee_per_gas;
  gas_tip_cap = t.max_fee_per_gas;
  gas_fee_cap = t.max_fee_per_gas;
  gas = t.gas_limit;
  to = t.to;
  tx_value = t.call_value;
  payload = t.payload;
  access_list = [];
  blob_fee_cap = zero256;
  blob_hashes = [];
  v = zero256;
  r = zero256;
  s = zero256;
  from = t.from;
  hash = tag_hash t.id;
}

-- `RetryableEngine`.
abbrev pub RetryableEngine : Type 0
RetryableEngine = Bytes → Option RetryableTicket

abbrev pub new_retryable_engine : RetryableEngine
new_retryable_engine _ = none

-- `e.tickets[id] = t`.
unfoldable pub store : RetryableEngine → Bytes → RetryableTicket → RetryableEngine
store e id t key = if bytes_eq key id then some t else e key

abbrev pub is_created : RetryableStatus → Bool
is_created created = true
is_created auto_redeemed = false
is_created manual_redeemed = false

-- The ticket that `Create` makes.
abbrev pub new_ticket : RetryableParams → Quote → RetryableTicket
new_ticket p q = record {
  id = ticket_id p;
  from = p.from;
  to = p.to;
  call_value = p.call_value;
  deposited = p.deposited;
  max_submission_fee = p.max_submission_fee;
  excess_fee_refund_to = p.excess_fee_refund_to;
  call_value_refund_to = p.call_value_refund_to;
  gas_limit = p.gas_limit;
  max_fee_per_gas = p.max_fee_per_gas;
  payload = p.payload;
  status = created;
  submission_gas = q.sub_gas;
  submission_fee = q.sub_fee;
}

-- `Create`, past its checks: the engine, the ticket as it then is, and the transaction if the gas
-- pays for one.
unfoldable pub admit :
    RetryableEngine → RetryableTicket → ℕ → RetryableEngine × (RetryableTicket × Option Transaction)
admit e t left =
    if t.gas_limit == 0
    then (store e t.id t, (t, none))
    else if ltb left t.gas_limit
    then (store e t.id t, (t, none))
    else let redeemed : RetryableTicket = record t { status = auto_redeemed } in
      (store e t.id redeemed, (redeemed, some (ticket_to_tx redeemed 0)))

unfoldable pub create :
    RetryableEngine
    → RetryableParams
    → RetryableEngine × Result (RetryableTicket × Option Transaction)
create e p =
    let checked : Result (Quote × ℕ) = do
      q ← quote_retryable p
      left ← safe_sub_gas p.gas_provided q.sub_gas
      ok (q, left)
    in elim checked [
      | fail err ↦ (e, fail err)
      | ok ql ↦ let done = admit e (new_ticket p ql.0) ql.1 in (done.0, ok done.1)
    ]

-- A redemption of the ticket that is stored under the ID, at the gas and the fee of `with_terms`.
unfoldable pub redeem :
    RetryableEngine
    → Bytes
    → (RetryableTicket → Bool)
    → (RetryableTicket → RetryableTicket)
    → RetryableEngine × Result Transaction
redeem e id has_gas with_terms = elim (e id) [
  | none ↦ (e, fail ticket_missing)
  | some t ↦
      if is_created t.status
      then if has_gas t
        then (store e id (with_terms t), ok (ticket_to_tx (with_terms t) 0))
        else (e, fail ticket_state)
      else (e, fail ticket_state)
]

unfoldable pub auto_redeem : RetryableEngine → Bytes → RetryableEngine × Result Transaction
auto_redeem e id =
    redeem e id (λ t. not (t.gas_limit == 0)) (λ t. record t { status = auto_redeemed })

unfoldable pub manual_redeem :
    RetryableEngine → Bytes → ℕ → Uint256 → RetryableEngine × Result Transaction
manual_redeem e id gas_limit max_fee = elim (mul_u256_u64_checked max_fee gas_limit) [
  | fail err ↦ (e, fail err)
  | ok _ ↦
      redeem e id (λ _. not (gas_limit == 0))
        (λ t. record t {
          gas_limit = gas_limit;
          max_fee_per_gas = max_fee;
          status = manual_redeemed;
        })
]

-- `Get`, which copies.
abbrev pub get : RetryableEngine → Bytes → Option RetryableTicket
get e id = e id
