-- ===== src/Block/Restore.antt =====
-- The state that a transaction leaves, and the one that a rejected block leaves.
use crypto.Base.{
  ℕ, ◌<◌, ◌≡◌, refl, arith, not, Option-cases, inl, inr, ◌&&◌, ◌==◌, ltb, if◌then◌else◌, if_elim,
  List, [], ◌∷◌, Option, none, some, length, subst, wrap_add,
}
use crypto.Evm256.Uint256.{Uint256, cmp}
use crypto.Evm256.Arith.{add256}
use crypto.Seq.Types.{Transaction}
use crypto.Seq.Gas.{is_less}
use crypto.Rlp.Encode.{Bytes}
use crypto.Trie.Receipts.{Receipt}
use crypto.State.Store.{StateTrie, get_balance, sub_balance, snapshot}
use crypto.State.Snapshots.{History, done, subtracts, snaps, revert_to_snapshot-restores}
use crypto.State.Held.{History-trans, History-length, length-snapshot}
use crypto.Block.Fees.{BlockHeader, intrinsic_gas, effective_fees, u256_mul_u64, settle_gas}
use crypto.Block.Call.{Execution}
use crypto.Block.Process.{
  after_run, settled, finished, behind, run_tx, execute, rejection, block_end, process_priced,
  process_transaction, process_txs, process_block,
}
use crypto.Block.Types.{
  Ran, VmEnv, addr_to_u256, pay, nonce_of, TxError, over_gas_limit, TxOutcome, refused, processed,
  crashed, TxsOutcome, all_done, stopped, broken, rejected,
}
use crypto.Block.Effects.{
  one, Follows, Follows-trans, pay-History, set_nonce-History, perform-Follows,
  clean_touched-History,
}

-- What a transaction does to the state can be undone; a refused one does nothing to it.
abbrev Keeps : ℕ → StateTrie → TxOutcome → Type 0
Keeps rev t (refused e) = Unit
Keeps rev t (processed u r) = History rev t u
Keeps rev t crashed = Unit

abbrev KeepsAll : ℕ → StateTrie → TxsOutcome → Type 0
KeepsAll rev t (all_done u rs cum) = History rev t u
KeepsAll rev t (stopped u e) = History rev t u
KeepsAll rev t broken = Unit

module _ (X : Execution) (compute_root : StateTrie → Bytes) where
  settled-Keeps :
      (rev : ℕ) (header : BlockHeader) (tx : Transaction) (eff tip : Uint256) (ran : Ran)
      (env : VmEnv) (t u : StateTrie)
      → History rev t u
      → Keeps rev t (settled X compute_root header tx eff tip ran env u)
  unfolding settled
  settled-Keeps rev header tx eff tip ran env t u h =
      let gas = settle_gas tx.gas ran.gas_left env.refund in
      let back = pay tx.from (u256_mul_u64 eff gas.1) u in
      let to_miner = pay header.coinbase (u256_mul_u64 tip gas.0) back in
      let paid = History-trans rev t u to_miner h (
        History-trans rev u back to_miner (pay-History rev tx.from (u256_mul_u64 eff gas.1) u)
          (pay-History rev header.coinbase (u256_mul_u64 tip gas.0) back)) in
      History-trans rev t to_miner _ paid (clean_touched-History X rev env to_miner)

  after_run-Follows :
      (rev : ℕ) (env : VmEnv) (tx : Transaction) (ran : Ran) (t u : StateTrie)
      → History rev t u
      → History (snapshot t).1 (snapshot t).0 u
      → Follows rev t (after_run X compute_root env (snapshot t).1 tx ran u)
  unfolding after_run
  after_run-Follows rev env tx ran t u forward inside =
      if_elim (Follows rev t) ran.succeeded _ _ forward
        (rw (revert_to_snapshot-restores t u inside) (done t))

  finished-Keeps :
      (rev : ℕ) (header : BlockHeader) (tx : Transaction) (eff tip : Uint256) (ran : Ran)
      (t : StateTrie) (left : Option (VmEnv × StateTrie))
      → Follows rev t left
      → Keeps rev t (finished X compute_root header tx eff tip ran left)
  unfolding finished
  finished-Keeps rev header tx eff tip ran t none h = tt
  finished-Keeps rev header tx eff tip ran t (some left) h =
      settled-Keeps rev header tx eff tip ran left.0 t left.1 h

  behind-Keeps :
      (rev : ℕ) (header : BlockHeader) (tx : Transaction) (eff tip : Uint256) (env : VmEnv)
      (t : StateTrie) (o : Option (Ran × StateTrie))
      → Follows rev t o
      → Follows (snapshot t).1 (snapshot t).0 o
      → Keeps rev t (behind X compute_root header tx eff tip env (snapshot t).1 o)
  unfolding behind
  behind-Keeps rev header tx eff tip env t none h inside = tt
  behind-Keeps rev header tx eff tip env t (some left) h inside =
      finished-Keeps rev header tx eff tip left.0 t _
        (after_run-Follows rev env tx left.0 t left.1 h inside)

  execute-Keeps :
      (rev : ℕ) (header : BlockHeader) (tx : Transaction) (eff tip : Uint256) (t : StateTrie)
      → rev < length t.reverts
      → Keeps rev t (execute X compute_root header tx eff tip t)
  unfolding execute run_tx
  execute-Keeps rev header tx eff tip t l =
      let longer = length-snapshot t in
      behind-Keeps rev header tx eff tip _ t _
        (Follows-trans rev t (snapshot t).0 _ (one rev t _ (snaps t))
          (perform-Follows rev _ (snapshot t).0 (omega arith)))
        (perform-Follows (snapshot t).1 _ (snapshot t).0 (omega arith))

  -- A state that a history leads to, and what is done to it.
  Keeps-trans :
      (rev : ℕ) (t u : StateTrie) (o : TxOutcome) → History rev t u → Keeps rev u o → Keeps rev t o
  Keeps-trans rev t u (refused e) h k = tt
  Keeps-trans rev t u (processed w r) h k = History-trans rev t u w h k
  Keeps-trans rev t u crashed h k = tt

  process_priced-Keeps :
      (rev : ℕ) (header : BlockHeader) (tx : Transaction) (eff tip : Uint256) (t : StateTrie)
      → rev < length t.reverts
      → Keeps rev t (process_priced X compute_root header tx eff tip t)
  unfolding process_priced
  process_priced-Keeps rev header tx eff tip t l =
      if_elim (Keeps rev t) (not (nonce_of t tx.from == tx.nonce)) _ _ tt (
        if_elim (Keeps rev t)
          (is_less (
            cmp (get_balance t (addr_to_u256 tx.from))
              (add256 (u256_mul_u64 eff tx.gas) tx.tx_value)))
          _ _ tt
          (elim (Option-cases (sub_balance (addr_to_u256 tx.from) (u256_mul_u64 eff tx.gas) t)) [
            | inl short ↦ rw short tt
            | inr paid ↦
                let bought =
                  one rev t paid.0
                    (subtracts (addr_to_u256 tx.from) (u256_mul_u64 eff tx.gas) t paid.0 paid.1) in
                let ready =
                  History-trans rev t paid.0 _ bought
                    (set_nonce-History rev tx.from (wrap_add tx.nonce 1) paid.0) in
                rw paid.1 (
                  Keeps-trans rev t _ _ ready
                    (execute-Keeps rev header tx eff tip _ (History-length rev t _ ready l)))
          ]))

  process_transaction-Keeps :
      (rev : ℕ) (header : BlockHeader) (tx : Transaction) (t : StateTrie)
      → rev < length t.reverts
      → Keeps rev t (process_transaction X compute_root header tx t)
  unfolding process_transaction
  process_transaction-Keeps rev header tx t l =
      if_elim (Keeps rev t) (not (header.gas_limit == 0) && ltb header.gas_limit tx.gas) _ _ tt (
        if_elim (Keeps rev t) (ltb tx.gas (intrinsic_gas tx)) _ _ tt
          (elim (Option-cases (effective_fees header tx)) [
            | inl low ↦ rw low tt
            | inr fees ↦ rw fees.1 (process_priced-Keeps rev header tx fees.0.0 fees.0.1 t l)
          ]))

  -- One transaction of the loop, whose outcome is known.
  KeepsAll-trans :
      (rev : ℕ) (t u : StateTrie) (o : TxsOutcome)
      → History rev t u
      → KeepsAll rev u o
      → KeepsAll rev t o
  KeepsAll-trans rev t u (all_done w rs cum) h k = History-trans rev t u w h k
  KeepsAll-trans rev t u (stopped w e) h k = History-trans rev t u w h k
  KeepsAll-trans rev t u broken h k = tt

  process_txs-KeepsAll :
      (rev : ℕ) (header : BlockHeader) (txs : List Transaction) (t : StateTrie) (cum : ℕ)
      (past : List Receipt)
      → rev < length t.reverts
      → KeepsAll rev t (process_txs X compute_root header txs t cum past)
  unfolding process_txs
  process_txs-KeepsAll rev header [] t cum past l = done t
  process_txs-KeepsAll rev header (tx ∷ txs) t cum past l =
      elim (process_transaction X compute_root header tx t)
          as (λ o.
            Keeps rev t o
            → KeepsAll rev t (elim o [
              | refused e ↦ stopped t e
              | crashed ↦ broken
              | processed u r ↦
                  if not (header.gas_limit == 0) && ltb header.gas_limit (wrap_add cum r.gas_used)
                  then stopped u over_gas_limit
                  else process_txs X compute_root header txs u (wrap_add cum r.gas_used)
                      (record r { cumulative_gas_used = wrap_add cum r.gas_used } ∷ past)
            ])) [
              | refused e ↦ λ k. done t
              | crashed ↦ λ k. k
              | processed u r ↦ λ k.
                  if_elim (KeepsAll rev t)
                    (not (header.gas_limit == 0) && ltb header.gas_limit (wrap_add cum r.gas_used))
                    _ _ k
                    (KeepsAll-trans rev t u _ k (
                      process_txs-KeepsAll rev header txs u (wrap_add cum r.gas_used) _
                        (History-length rev t u k l)))
            ]
        (process_transaction-Keeps rev header tx t l)

  -- If the loop of `ProcessBlock` ends with an error, by a transaction that is refused or that takes
  -- the block over its gas limit, `ProcessBlock` returns that error, does not panic, and leaves just
  -- the state that it was given, whatever the programs of the transactions before it did.
  pub process_block-restores :
      (header : BlockHeader) (txs : List Transaction) (t u : StateTrie) (e : TxError)
      → process_txs X compute_root header txs (snapshot t).0 0 [] ≡ stopped u e
      → process_block X compute_root header txs t ≡ rejected t e
  unfolding process_block block_end rejection
  process_block-restores header txs t u e stop =
      let rev = (snapshot t).1 in
      let past : History rev (snapshot t).0 u = subst (KeepsAll rev (snapshot t).0) stop (
        process_txs-KeepsAll rev header txs (snapshot t).0 0 []
          (let n = length-snapshot t in omega arith)) in
      rw (stop, revert_to_snapshot-restores t u past) refl
