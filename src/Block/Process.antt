-- ===== src/Block/Process.antt =====
-- `ProcessTransaction` and `ProcessBlock`.
use crypto.Base.{
  ℕ, ◌-◌, not, false, ◌&&◌, ◌==◌, ltb, if◌then◌else◌, List, [], ◌∷◌, ◌++◌, Option, none, some,
  reverse, wrap_add,
}
use crypto.Evm256.Uint256.{Uint256, cmp}
use crypto.Evm256.Arith.{add256}
use crypto.Seq.Types.{Transaction}
use crypto.Seq.Gas.{is_less}
use crypto.Rlp.Encode.{Bytes}
use crypto.Rlp.Decode.{Outcome, ok, fail, panic, out_of_fuel}
use crypto.Tx.Parse.{no_address}
use crypto.Trie.Receipts.{Log, Receipt, logs_bloom, receipts_root}
use crypto.State.Store.{StateTrie, get_balance, sub_balance, snapshot, revert_to_snapshot, commit}
use crypto.Block.Fees.{BlockHeader, intrinsic_gas, effective_fees, u256_mul_u64, settle_gas}
use crypto.Block.Types.{
  TxError, CallParams, VmEnv, Ran, addr_to_u256, create_address, nonce_of, set_nonce, pay,
  TxOutcome, BlockOutcome, TxsOutcome, bad_nonce, insufficient_funds, low_intrinsic_gas,
  low_fee_cap, over_gas_limit, insufficient_balance, refused, processed, crashed, accepted,
  rejected, panicked, all_done, stopped, broken,
}
use crypto.Block.Script.{returns, perform}
use crypto.Block.Call.{
  Execution, max_call_depth, touch, mark_created, roll_back, run, clean_touched,
}

module _ (X : Execution) (compute_root : StateTrie → Bytes) where
  -- The environment of a transaction, with the accounts that it touches at once.
  unfoldable pub tx_env : BlockHeader → Transaction → Uint256 → VmEnv
  tx_env header tx eff =
      let env : VmEnv = record {
        header = header;
        origin = tx.from;
        gas_price = eff;
        logs = [];
        ret_data = [];
        refund = 0;
        touched = [];
        created = [];
        suicided = [];
      } in
      let touching = touch header.coinbase (touch tx.from env) in
      elim tx.to [ none ↦ touching | some to ↦ touch to touching ]

  unfoldable pub call_of : Transaction → ℕ → CallParams
  call_of tx gas = elim tx.to [
    | none ↦ record {
      caller = tx.from;
      target = create_address tx.from tx.nonce;
      code_addr = no_address;
      origin = tx.from;
      amount = tx.tx_value;
      call_val = tx.tx_value;
      input = [];
      code = tx.payload;
      gas = gas;
      read_only = false;
      kind = 0xf0;
    }
    | some to ↦ record {
      caller = tx.from;
      target = to;
      code_addr = no_address;
      origin = tx.from;
      amount = tx.tx_value;
      call_val = tx.tx_value;
      input = tx.payload;
      code = [];
      gas = gas;
      read_only = false;
      kind = 0xf1;
    }
  ]

  unfoldable pub contract_of : Transaction → Bytes
  contract_of tx = elim tx.to [ none ↦ create_address tx.from tx.nonce | some to ↦ no_address ]

  -- Behind a run that succeeded, and behind one that failed: its effects are undone.
  unfoldable pub after_run : VmEnv → ℕ → Transaction → Ran → StateTrie → Option (VmEnv × StateTrie)
  after_run before rev tx ran u =
      if ran.succeeded
      then some
          ((elim tx.to [ none ↦ mark_created (contract_of tx) ran.env | some to ↦ ran.env ]), u)
      else (elim (revert_to_snapshot rev u) [
        | none ↦ none
        | some t ↦ some (roll_back before ran.env, t)
      ])

  -- The settlement of the gas, the payments, and the receipt.
  unfoldable pub settled :
      BlockHeader → Transaction → Uint256 → Uint256 → Ran → VmEnv → StateTrie → TxOutcome
  settled header tx eff tip ran env t =
      let gas = settle_gas tx.gas ran.gas_left env.refund in
      let paid =
        pay header.coinbase (u256_mul_u64 tip gas.0) (pay tx.from (u256_mul_u64 eff gas.1) t) in
      processed (clean_touched X env paid) (record {
        status = if ran.succeeded then 1 else 0;
        cumulative_gas_used = 0;
        bloom = logs_bloom env.logs;
        logs = env.logs;
        tx_hash = tx.hash;
        contract_address = contract_of tx;
        gas_used = gas.0;
        return_data = ran.ret;
      })

  -- After the run; there is nothing where the return to the snapshot panics.
  unfoldable pub finished :
      BlockHeader → Transaction → Uint256 → Uint256 → Ran → Option (VmEnv × StateTrie) → TxOutcome
  finished header tx eff tip ran none = crashed
  finished header tx eff tip ran (some left) = settled header tx eff tip ran left.0 left.1

  -- Behind the run, of which a panic goes on.
  unfoldable pub behind :
      BlockHeader
      → Transaction
      → Uint256
      → Uint256
      → VmEnv
      → ℕ
      → Option (Ran × StateTrie)
      → TxOutcome
  behind header tx eff tip env rev none = crashed
  behind header tx eff tip env rev (some left) =
      finished header tx eff tip left.0 (after_run env rev tx left.0 left.1)

  -- The run of a transaction, from its environment and from the state behind its snapshot.
  unfoldable pub run_tx : VmEnv → Transaction → StateTrie → Option (Ran × StateTrie)
  run_tx env tx =
      perform (run X max_call_depth env (call_of tx (tx.gas - intrinsic_gas tx)) returns)

  unfoldable pub execute : BlockHeader → Transaction → Uint256 → Uint256 → StateTrie → TxOutcome
  execute header tx eff tip t =
      let env = tx_env header tx eff in
      behind header tx eff tip env (snapshot t).1 (run_tx env tx (snapshot t).0)

  -- Behind the checks that need no state.
  unfoldable pub process_priced :
      BlockHeader → Transaction → Uint256 → Uint256 → StateTrie → TxOutcome
  process_priced header tx eff tip t =
      if not (nonce_of t tx.from == tx.nonce)
      then refused bad_nonce
      else if is_less (
          cmp (get_balance t (addr_to_u256 tx.from)) (add256 (u256_mul_u64 eff tx.gas) tx.tx_value))
      then refused insufficient_funds
      else (elim (sub_balance (addr_to_u256 tx.from) (u256_mul_u64 eff tx.gas) t) [
        | none ↦ refused insufficient_balance
        | some paid ↦ execute header tx eff tip (set_nonce tx.from (wrap_add tx.nonce 1) paid)
      ])

  unfoldable pub process_transaction : BlockHeader → Transaction → StateTrie → TxOutcome
  process_transaction header tx t =
      if not (header.gas_limit == 0) && ltb header.gas_limit tx.gas
      then refused over_gas_limit
      else if ltb tx.gas (intrinsic_gas tx)
      then refused low_intrinsic_gas
      else (elim (effective_fees header tx) [
        | none ↦ refused low_fee_cap
        | some fees ↦ process_priced header tx fees.0 fees.1 t
      ])

  -- The loop of `ProcessBlock`, with the gas so far and the receipts so far, the last one first.
  unfoldable pub process_txs :
      BlockHeader → List Transaction → StateTrie → ℕ → List Receipt → TxsOutcome
  process_txs header [] t cum done = all_done t (reverse done) cum
  process_txs header (tx ∷ txs) t cum done = elim (process_transaction header tx t) [
    | refused e ↦ stopped t e
    | crashed ↦ broken
    | processed u r ↦
        if not (header.gas_limit == 0) && ltb header.gas_limit (wrap_add cum r.gas_used)
        then stopped u over_gas_limit
        else process_txs header txs u (wrap_add cum r.gas_used)
            (record r { cumulative_gas_used = wrap_add cum r.gas_used } ∷ done)
  ]

  abbrev all_logs : List Receipt → List Log
  all_logs [] = []
  all_logs (r ∷ rs) = r.logs ++ all_logs rs

  -- What an error gives, behind the return to the snapshot.
  unfoldable pub rejection : TxError → Option StateTrie → BlockOutcome
  rejection e none = panicked
  rejection e (some back) = rejected back e

  -- What the block gives; Go also writes the gas, the bloom and the roots to the header.
  unfoldable pub acceptance : StateTrie → List Receipt → ℕ → Outcome Bytes → BlockOutcome
  acceptance u rs cum (ok root) = accepted (commit u) (record {
    receipts = rs;
    gas_used = cum;
    root_of_receipts = root;
    block_bloom = logs_bloom (all_logs rs);
    root_of_state = compute_root u;
  })
  acceptance u rs cum (fail e) = panicked
  acceptance u rs cum panic = panicked
  acceptance u rs cum out_of_fuel = panicked

  -- The end of the block that was begun with the snapshot `rev`.
  unfoldable pub block_end : ℕ → TxsOutcome → BlockOutcome
  block_end rev broken = panicked
  block_end rev (stopped u e) = rejection e (revert_to_snapshot rev u)
  block_end rev (all_done u rs cum) = acceptance u rs cum (receipts_root rs)

  unfoldable pub process_block : BlockHeader → List Transaction → StateTrie → BlockOutcome
  process_block header txs t = block_end (snapshot t).1 (process_txs header txs (snapshot t).0 0 [])
