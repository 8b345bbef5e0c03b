-- ===== src/Seq/Batch.antt =====
-- The choice of a block's transactions in `ProduceBlock` of pkg/c2seq/sequencer.go.
pub mod Chosen
use crypto.Base.{
  ℕ, zero, suc, ◌+◌, ◌-◌, Bool, true, false, not, ◌&&◌, ◌==◌, ltb, leb, if◌then◌else◌, List, [],
  ◌∷◌, Option, none, some, wrap_add,
}
use crypto.Seq.Types.{ok, fail, Bytes, Transaction}
use crypto.Seq.Gas.{safe_add_gas}
use crypto.Seq.Mempool.{put_at}

-- The map `seen`: the next nonce of a sender.
abbrev pub Seen : Type 0
Seen = Bytes → Option ℕ

abbrev pub or_else : ℕ → Option ℕ → ℕ
or_else n none = n
or_else n (some m) = m

-- The nonce that is wanted of a sender, in the map or else in the state.
abbrev pub wanted : (Bytes → ℕ) → Seen → Bytes → ℕ
wanted nonce_of seen addr = or_else (nonce_of addr) (seen addr)

-- What a round of the loop does with a transaction.
pub data Choice : Type 0 where
  stop : Choice
  skip : Seen → Choice
  pick : Seen → ℕ → Choice

-- A transaction that there is room for.
unfoldable pub choose_fitting : (Bytes → ℕ) → Seen → ℕ → Transaction → Choice
choose_fitting nonce_of seen reserved tx =
    let want = wanted nonce_of seen tx.from in
    let known = put_at seen tx.from (some want) in
    if not (tx.nonce == want) then skip known else (elim (safe_add_gas reserved tx.gas) [
      | fail e ↦ skip known
      | ok next ↦ pick (put_at known tx.from (some (wrap_add want 1))) next
    ])

-- The tests of a round, with `count` transactions and `reserved` gas chosen before.
unfoldable pub choose : ℕ → ℕ → (Bytes → ℕ) → Seen → ℕ → ℕ → Transaction → Choice
choose max_txs gas_limit nonce_of seen count reserved tx =
    if ltb 0 max_txs && leb max_txs count
    then stop
    else if not (gas_limit == 0) && leb gas_limit reserved
    then stop
    else if not (gas_limit == 0) && ltb (gas_limit - reserved) tx.gas
    then skip seen
    else choose_fitting nonce_of seen reserved tx

-- The loop over the candidates.
unfoldable pub choose_batch :
    ℕ → ℕ → (Bytes → ℕ) → Seen → ℕ → ℕ → List Transaction → List Transaction
choose_batch max_txs gas_limit nonce_of seen count reserved [] = []
choose_batch max_txs gas_limit nonce_of seen count reserved (tx ∷ txs) =
    elim (choose max_txs gas_limit nonce_of seen count reserved tx) [
      | stop ↦ []
      | skip known ↦ choose_batch max_txs gas_limit nonce_of known count reserved txs
      | pick known next ↦ tx ∷ choose_batch max_txs gas_limit nonce_of known (suc count) next txs
    ]
