-- ===== src/Block/Examples.antt =====
-- A block of two transactions, of which the second is over the gas limit, and the theorems about
-- blocks at concrete inputs.
use crypto.Base.{
  ℕ, ◌+◌, ◌-◌, ◌/◌, ◌≡◌, refl, arith, true, false, if◌then◌else◌, ◌==◌, Option, none, List, [], ◌∷◌,
  some, replicate, length, min,
}
use crypto.Evm256.Uint256.{u256, zero256, is_zero, from_u64, from_bytes_be, byte_buffer, cmp, eq}
use crypto.Evm256.Arith.{
  add256, sub256, add_carry, mul256, mul512, mul_rows, mul_row, mul_step, low_limbs,
}
use crypto.Seq.Types.{Transaction}
use crypto.Rlp.Encode.{Bytes}
use crypto.State.Store.{
  StateTrie, new_state_trie, get_storage, normalize_addr, get_account, set_account, get_balance,
  add_balance, sub_balance, change_account, set_storage, snapshot, revert_to_snapshot, go_back,
  undo, apply_revert,
}
use crypto.Block.Fees.{
  BlockHeader, intrinsic_gas, data_gas, tuples_gas, base_gas, effective_fees, market_fees, min_u256,
  u256_mul_u64, settle_gas, with_refund,
}
use crypto.Block.Process.{
  settled, finished, execute, after_run, process_priced, process_transaction, process_txs,
  process_block, call_of, tx_env, run_tx, behind,
}
use crypto.Block.Types.{
  CallParams, VmEnv, Ran, zero_account, TxsOutcome, all_done, stopped, broken, rejected,
  over_gas_limit, addr_to_u256, nonce_of, set_nonce, pay,
}
use crypto.Block.Settle.{settle_gas-exact, IsPriced, market_fees-IsPriced}
use crypto.Block.Restore.{process_block-restores}
use crypto.Block.Frames.{perform-run}
use crypto.Seq.Types.{bytes_eq}
use crypto.Evm.Frame.{success, revert}
use crypto.Block.Script.{returns, stores, leave_frame, perform}
use crypto.Block.Call.{
  Execution, errs, run, run_frame, run_body, run_code, transfers, touch, is_in, is_precompile,
  precompile_from, code_of, account, creates, frame_ends, deposits, succeeds, fails, clean_touched,
  clean_empty, clean_suicided, clean_if, empty_account, roll_back,
}

-- A frame that sets a slot of its address and uses half of the gas; one byte of code succeeds, more
-- code reverts.
abbrev one_slot : Execution
one_slot = record {
  exec_frame = λ calls e p code next. stores (addr_to_u256 p.target) (u256 1 0 0 0) (u256 2 0 0 0) (
      next (record {
        env = e;
        ret = [];
        status = if length code == 1 then success else revert;
        gas = p.gas / 2;
        refund = 0;
        wrote = false;
      }));
  run_precompile = λ id input gas. errs;
  range = λ marks. marks;
  slots = λ t addr. [];
}

abbrev no_root : StateTrie → Bytes
no_root t = []

abbrev header : BlockHeader
header = record {
  parent_hash = [];
  coinbase = replicate 20 7;
  state_root = [];
  receipts_root = [];
  bloom = [];
  number = 1;
  gas_limit = 50000;
  gas_used = 0;
  timestamp = 5;
  extra = [];
  mix_digest = [];
  nonce = 0;
  base_fee = u256 2 0 0 0;
  blob_gas_used = 0;
  excess_blob_gas = 0;
  difficulty = zero256;
  chain_id = u256 1 0 0 0;
}

abbrev transfer_of : ℕ → Transaction
transfer_of gas = record {
  kind = 2;
  chain_id = u256 1 0 0 0;
  nonce = 0;
  gas_price = u256 9 0 0 0;
  gas_tip_cap = u256 1 0 0 0;
  gas_fee_cap = u256 9 0 0 0;
  gas = gas;
  to = some (replicate 20 3);
  tx_value = u256 4 0 0 0;
  payload = [];
  access_list = [];
  blob_fee_cap = zero256;
  blob_hashes = [];
  v = zero256;
  r = zero256;
  s = zero256;
  from = replicate 20 1;
  hash = [];
}

abbrev with_code : Bytes → StateTrie
with_code code =
    set_account (addr_to_u256 (replicate 20 3)) (record zero_account { code = code })
      (add_balance (addr_to_u256 (replicate 20 1)) (u256 1000000 0 0 0) new_state_trie)

abbrev rich : StateTrie
rich = with_code (0 ∷ [])

abbrev both : List Transaction
both = transfer_of 30000 ∷ transfer_of 60000 ∷ []

-- The state where the loop stops.
state_of : TxsOutcome → StateTrie
state_of (all_done t rs cum) = t
state_of (stopped t e) = t
state_of broken = new_state_trie

second_is_over :
    process_txs one_slot no_root header both (snapshot rich).0 0 []
    ≡ stopped
        (state_of (process_txs one_slot no_root header both (snapshot rich).0 0 []))
        over_gas_limit
unfolding state_of process_txs process_transaction process_priced execute after_run finished settled
    pay nonce_of set_nonce effective_fees market_fees min_u256 intrinsic_gas data_gas tuples_gas
    base_gas cmp sub256 add256 add_carry u256_mul_u64 mul256 mul512 mul_rows mul_row mul_step
    low_limbs from_u64 get_balance get_account normalize_addr add_balance sub_balance change_account
    is_zero addr_to_u256 from_bytes_be byte_buffer new_state_trie eq snapshot set_account settle_gas
    with_refund set_storage call_of perform leave_frame run run_frame run_body run_code transfers
    touch is_in is_precompile precompile_from code_of account creates frame_ends deposits succeeds
    clean_touched clean_empty clean_suicided clean_if empty_account roll_back tx_env run_tx behind
    bytes_eq
second_is_over = refl

process_block-restores_example :
    process_block one_slot no_root header both rich ≡ rejected rich over_gas_limit
process_block-restores_example =
    process_block-restores one_slot no_root header both rich _ over_gas_limit second_is_over

abbrev caller_env : VmEnv
caller_env = record {
  header = header;
  origin = replicate 20 1;
  gas_price = u256 3 0 0 0;
  logs = [];
  ret_data = [];
  refund = 0;
  touched = [];
  created = [];
  suicided = [];
}

-- A call with a value to code that reverts.
abbrev reverting : CallParams
reverting = record {
  caller = replicate 20 1;
  target = replicate 20 3;
  code_addr = replicate 20 0;
  origin = replicate 20 1;
  amount = u256 4 0 0 0;
  call_val = u256 4 0 0 0;
  input = [];
  code = [];
  gas = 9000;
  read_only = false;
  kind = 0xf1;
}

-- What a program returns, and the state that it leaves.
ran_of : Option (Ran × StateTrie) → Ran
ran_of none = record { env = caller_env; ret = []; gas_left = 0; succeeded = true }
ran_of (some left) = left.0

left_of : Option (Ran × StateTrie) → StateTrie
left_of none = new_state_trie
left_of (some left) = left.1

abbrev called : StateTrie
called = with_code (1 ∷ 2 ∷ [])

abbrev reverted : Option (Ran × StateTrie)
reverted = perform (run_frame one_slot (run one_slot 1023) caller_env reverting) (snapshot called).0

-- The body has failed, has used half of the gas, and has changed a slot.
is_reverted :
    (reverted ≡ some (ran_of reverted, left_of reverted))
    × ((ran_of reverted).succeeded ≡ false)
    × ((ran_of reverted).gas_left ≡ 4500)
    × (get_storage (left_of reverted) (addr_to_u256 (replicate 20 3)) (u256 1 0 0 0) ≡ u256 2 0 0 0)
unfolding get_storage ran_of left_of perform leave_frame run run_frame run_body run_code transfers
    touch is_in is_precompile precompile_from code_of account creates frame_ends fails roll_back
    bytes_eq cmp sub256 add256 add_carry get_balance get_account normalize_addr add_balance
    sub_balance change_account is_zero addr_to_u256 from_bytes_be byte_buffer new_state_trie eq
    snapshot set_account set_storage revert_to_snapshot go_back undo apply_revert
is_reverted = (refl, refl, refl, refl)

perform-run_example :
    perform (run one_slot 1024 caller_env reverting returns) called
    ≡ some (ran_of reverted, (if (ran_of reverted).succeeded then left_of reverted else called))
perform-run_example =
    perform-run one_slot 1023 caller_env reverting called (left_of reverted) (ran_of reverted)
      is_reverted.0

settle_gas-exact_example :
    ((settle_gas 30000 5000 9000).0 + (settle_gas 30000 5000 9000).1 ≡ 30000)
    × ((settle_gas 30000 5000 9000).1 ≡ 5000 + min 9000 ((30000 - 5000) / 5))
settle_gas-exact_example = settle_gas-exact 30000 5000 9000 (omega arith) (omega arith)

market_fees-IsPriced_example :
    IsPriced
      (u256 7 0 0 0)
      (u256 10 0 0 0)
      (u256 5 0 0 0)
      (market_fees (u256 7 0 0 0) (u256 10 0 0 0) (u256 5 0 0 0))
market_fees-IsPriced_example =
    market_fees-IsPriced (u256 7 0 0 0) (u256 10 0 0 0) (u256 5 0 0 0) (ground arith) (ground arith)
      (ground arith)
