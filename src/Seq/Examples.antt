-- ===== src/Seq/Examples.antt =====
-- The theorems on pkg/c2seq at concrete tickets, amounts and queues.
use crypto.Base.{
  ℕ, ◌+◌, ◌*◌, ◌^◌, ◌≤◌, ◌≡◌, ◌⊎◌, ◌++◌, refl, arith, List, [], ◌∷◌, none, some, ltb, not, length,
  if◌then◌else◌, replicate, modulus, word,
}
use crypto.Evm256.Uint256.{Uint256, IsWord, value, zero256}
use crypto.Evm256.Arith.{add256}
use crypto.Evm256.Tests.{of_number}
use crypto.Evm256.Examples.{of_number-IsWord}
use crypto.Seq.Types.{ok, fail, Error, gas_overflow, Bytes, bytes_eq, Transaction}
use crypto.Seq.Gas.{add_u256_checked, mul_u256_u64_checked, submission_gas, safe_add_gas}
use crypto.Seq.Gas.Exact.{add_u256_checked-exact, mul_u256_u64_checked-exact, submission_gas-exact}
use crypto.Seq.Retryable.{
  RetryableParams, RetryableTicket, Quote, quote_retryable, new_ticket, store, new_retryable_engine,
  ticket_to_tx, RetryableEngine,
}
use crypto.Seq.Retryable.Fees.{IsParams, IsAffordable, IsExact, quote_retryable-IsExact}
use crypto.Seq.Retryable.Once.{Call, automatic, manual, redemptions, redeemed-once}
use crypto.Seq.Mempool.{Mempool, new_mempool, put_at, find_nonce, insert_nonce, add_new, add_tx}
use crypto.Seq.Mempool.Order.{IsOrdered, IsReachable, reachable-IsOrdered}
use crypto.Seq.Batch.{choose_batch, choose, choose_fitting}
use crypto.Seq.Batch.Chosen.{total_gas, AreInOrder, choose_batch-AreInOrder}
use crypto.Seq.Queues.{DelayedMessage, DelayedInbox, pop_ready, Timeboost, push_express, drain}
use crypto.Seq.Queues.Delayed.{select, is_due, pop_ready-exact}
use crypto.Seq.Queues.Express.{last_moment, drain-push}

abbrev sender : Bytes
sender = replicate 20 0x11

abbrev ticket_params : RetryableParams
ticket_params = record {
  from = sender;
  to = none;
  call_value = of_number 5;
  deposited = of_number 1000000;
  max_submission_fee = of_number 2000;
  excess_fee_refund_to = sender;
  call_value_refund_to = sender;
  gas_limit = 21000;
  max_fee_per_gas = of_number 7;
  payload = 0xab ∷ 0xcd ∷ [];
  l1_base_fee = of_number 1;
  gas_provided = 30000;
}

ticket_params-IsParams : IsParams ticket_params
ticket_params-IsParams = record {
  call_value_fits = of_number-IsWord 5;
  deposit_fits = of_number-IsWord 1000000;
  cap_fits = of_number-IsWord 2000;
  fee_fits = of_number-IsWord 7;
  base_fee_fits = of_number-IsWord 1;
  limit_fits = omega arith;
  provided_fits = omega arith;
}

quote_retryable-IsExact_example :
    ((q : Quote) × (quote_retryable ticket_params ≡ ok q)
      × IsAffordable ticket_params
      × IsExact ticket_params q)
    ⊎ ((e : Error) × (quote_retryable ticket_params ≡ fail e) × ¬ IsAffordable ticket_params)
quote_retryable-IsExact_example = quote_retryable-IsExact ticket_params ticket_params-IsParams

abbrev some_ticket : RetryableTicket
some_ticket = new_ticket ticket_params (record {
  sub_gas = 1412;
  sub_fee = of_number 1412;
  exec = of_number 147000;
  total = of_number 148417;
})

abbrev some_id : Bytes
some_id = replicate 32 0x22

abbrev one_ticket : RetryableEngine
one_ticket = store new_retryable_engine some_id some_ticket

abbrev redeem_calls : List Call
redeem_calls = manual some_id 50000 (of_number 3) ∷ automatic some_id ∷ automatic sender ∷ []

redeemed-once_example : redemptions some_id one_ticket redeem_calls ≤ 1
redeemed-once_example = redeemed-once some_id one_ticket redeem_calls (tt, (tt, (tt, tt)))

mul_u256_u64_checked-exact_example :
    ((modulus ≤ value (of_number (2 ^ 200)) * 2 ^ 60)
      × (mul_u256_u64_checked (of_number (2 ^ 200)) (2 ^ 60) ≡ fail gas_overflow))
    ⊎ ((z : Uint256) × (mul_u256_u64_checked (of_number (2 ^ 200)) (2 ^ 60) ≡ ok z)
        × IsWord z
        × (value z ≡ value (of_number (2 ^ 200)) * 2 ^ 60))
mul_u256_u64_checked-exact_example =
    mul_u256_u64_checked-exact (of_number (2 ^ 200)) (2 ^ 60) (of_number-IsWord (2 ^ 200))
      (omega arith)

add_u256_checked-exact_example : add_u256_checked (of_number (2 ^ 255)) (of_number (2 ^ 255)) ≡ (
    if ltb (value (of_number (2 ^ 255)) + value (of_number (2 ^ 255))) modulus
    then ok (add256 (of_number (2 ^ 255)) (of_number (2 ^ 255)))
    else fail gas_overflow)
add_u256_checked-exact_example =
    add_u256_checked-exact (of_number (2 ^ 255)) (of_number (2 ^ 255)) (of_number-IsWord (2 ^ 255))
      (of_number-IsWord (2 ^ 255))

submission_gas-exact_example :
    submission_gas 100
    ≡ (if ltb (1400 + 6 * 100) word then ok (1400 + 6 * 100) else fail gas_overflow)
submission_gas-exact_example = submission_gas-exact 100

abbrev message_at : ℕ → DelayedMessage
message_at t = record {
  kind = 0;
  from = sender;
  to = some sender;
  msg_value = of_number 9;
  payload = [];
  gas_limit = 0;
  max_fee_per_gas = zero256;
  deposited = zero256;
  max_submission_fee = zero256;
  l1_base_fee = zero256;
  gas_provided = 0;
  posted_at = t;
}

abbrev inbox : DelayedInbox
inbox = record { delay = 10; q = message_at 95 ∷ message_at 80 ∷ message_at 90 ∷ [] }

pop_ready-exact_example : pop_ready inbox 100 ≡ (
  record inbox { q = select (λ m. not (is_due 100 10 m)) inbox.q },
  select (is_due 100 10) inbox.q,
)
pop_ready-exact_example =
    pop_ready-exact inbox 100 (omega arith) (omega arith, (omega arith, (omega arith, tt)))

abbrev lane : Timeboost
lane = record { window = 60; items = [] }

abbrev express_tx : Transaction
express_tx = ticket_to_tx some_ticket 0

abbrev filled : Timeboost
filled = record { window = 60; items = record { tx = express_tx; deadline = 160 } ∷ [] }

lane-pushed : push_express lane (some express_tx) 100 ≡ ok filled
unfolding push_express safe_add_gas
lane-pushed = refl

drain-push_example : drain filled 161 ≡ (
  record lane { items = [] },
  (drain lane 161).1 ++ (if ltb (last_moment 100 60) 161 then [] else express_tx ∷ []),
)
drain-push_example = drain-push lane filled express_tx 100 161 lane-pushed

abbrev plain_tx : ℕ → Bytes → Transaction
plain_tx nonce hash = record {
  kind = 2;
  chain_id = zero256;
  nonce = nonce;
  gas_price = of_number 10;
  gas_tip_cap = of_number 10;
  gas_fee_cap = of_number 10;
  gas = 21000;
  to = none;
  tx_value = zero256;
  payload = [];
  access_list = [];
  blob_fee_cap = zero256;
  blob_hashes = [];
  v = zero256;
  r = zero256;
  s = zero256;
  from = sender;
  hash = hash;
}

abbrev late_tx : Transaction
late_tx = plain_tx 3 (0x33 ∷ [])

abbrev early_tx : Transaction
early_tx = plain_tx 1 (0x11 ∷ [])

abbrev one_pooled : Mempool
one_pooled = record {
  by_hash = put_at (λ _. none) (0x33 ∷ []) (some late_tx);
  by_sender = put_at (λ _. []) sender (late_tx ∷ []);
}

abbrev two_pooled : Mempool
two_pooled = record {
  by_hash = put_at one_pooled.by_hash (0x11 ∷ []) (some early_tx);
  by_sender = put_at one_pooled.by_sender sender (early_tx ∷ late_tx ∷ []);
}

late_added : add_tx new_mempool (some late_tx) ≡ ok one_pooled
unfolding add_tx add_new find_nonce insert_nonce
late_added = refl

early_added : add_tx one_pooled (some early_tx) ≡ ok two_pooled
unfolding add_tx add_new find_nonce insert_nonce bytes_eq
early_added = refl

two_pooled-IsReachable : IsReachable two_pooled
two_pooled-IsReachable =
    IsReachable.added one_pooled two_pooled (some early_tx)
      (IsReachable.added new_mempool one_pooled (some late_tx) IsReachable.fresh late_added)
      early_added

reachable-IsOrdered_example : IsOrdered two_pooled
reachable-IsOrdered_example = reachable-IsOrdered two_pooled two_pooled-IsReachable

-- Two transactions of a sender, and one behind a gap.
abbrev candidate : ℕ → Transaction
candidate n = record {
  kind = 2;
  chain_id = zero256;
  nonce = n;
  gas_price = zero256;
  gas_tip_cap = zero256;
  gas_fee_cap = zero256;
  gas = 30000;
  to = none;
  tx_value = zero256;
  payload = [];
  access_list = [];
  blob_fee_cap = zero256;
  blob_hashes = [];
  v = zero256;
  r = zero256;
  s = zero256;
  from = sender;
  hash = [];
}

abbrev candidates : List Transaction
candidates = candidate 5 ∷ candidate 6 ∷ candidate 8 ∷ []

abbrev chosen : List Transaction
chosen = choose_batch 10 100000 (λ addr. 5) (λ addr. none) 0 0 candidates

chosen_run : chosen ≡ candidate 5 ∷ candidate 6 ∷ []
unfolding choose_batch choose choose_fitting safe_add_gas bytes_eq
chosen_run = refl

choose_batch-AreInOrder_example :
    (length chosen ≤ 10) × (total_gas chosen ≤ 100000) × AreInOrder (λ addr. 5) chosen
choose_batch-AreInOrder_example =
    choose_batch-AreInOrder 10 100000 (λ addr. 5) candidates (omega arith) (omega arith)
      (omega arith)
