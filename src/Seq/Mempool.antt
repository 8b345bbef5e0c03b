-- ===== src/Seq/Mempool.antt =====
-- `AddTx` and `RemoveTx` of pkg/c2seq/mempool.go. Its maps are functions of the key; a sender whose
-- list was deleted has the empty list, which is what Go reads for a missing key.
pub mod Order
use crypto.Base.{ℕ, ltb, ◌==◌, if◌then◌else◌, Bool, true, false, List, [], ◌∷◌, Option, none, some}
use crypto.Evm256.Uint256.{Uint256, Sign, less, same, more, is_zero, cmp}
use crypto.Seq.Types.{
  Result, ok, fail, Bytes, bytes_eq, Transaction, nil_tx, duplicate, underpriced,
}

pub record Mempool : Type 0 where
  pub by_hash : Bytes → Option Transaction
  pub by_sender : Bytes → List Transaction

abbrev pub new_mempool : Mempool
new_mempool = record { by_hash = λ _. none; by_sender = λ _. [] }

abbrev pub put_at {ℓ} : {A : Type ℓ} → (Bytes → A) → Bytes → A → Bytes → A
put_at m k a key = if bytes_eq key k then a else m key

-- `txTip`.
unfoldable pub tx_tip : Transaction → Uint256
tx_tip tx = if is_zero tx.gas_tip_cap then tx.gas_price else tx.gas_tip_cap

-- `Cmp(…) <= 0`.
abbrev pub is_at_most : Sign → Bool
is_at_most less = true
is_at_most same = true
is_at_most more = false

-- The first loop of `AddTx`: the transaction that has the nonce, and the list with another in its
-- place.
unfoldable pub find_nonce : ℕ → List Transaction → Option Transaction
find_nonce n [] = none
find_nonce n (ex ∷ exs) = let rest = find_nonce n exs in if ex.nonce == n then some ex else rest

unfoldable pub replace_nonce : Transaction → List Transaction → List Transaction
replace_nonce tx [] = []
replace_nonce tx (ex ∷ exs) =
    let rest = replace_nonce tx exs in if ex.nonce == tx.nonce then tx ∷ exs else ex ∷ rest

-- The second loop, and the insertion before the first larger nonce.
unfoldable pub insert_nonce : Transaction → List Transaction → List Transaction
insert_nonce tx [] = tx ∷ []
insert_nonce tx (ex ∷ exs) =
    let rest = insert_nonce tx exs in if ltb tx.nonce ex.nonce then tx ∷ ex ∷ exs else ex ∷ rest

-- `AddTx` of a transaction that is not nil and whose hash is not there.
unfoldable pub add_new : Mempool → Transaction → Result Mempool
add_new m tx =
    let list : List Transaction = m.by_sender tx.from in
    elim (find_nonce tx.nonce list) [
      | some ex ↦
          if is_at_most (cmp (tx_tip tx) (tx_tip ex))
          then fail underpriced
          else (ok (record {
            by_hash = put_at (put_at m.by_hash ex.hash none) tx.hash (some tx);
            by_sender = put_at m.by_sender tx.from (replace_nonce tx list);
          }))
      | none ↦ ok (record {
        by_hash = put_at m.by_hash tx.hash (some tx);
        by_sender = put_at m.by_sender tx.from (insert_nonce tx list);
      })
    ]

unfoldable pub add_tx : Mempool → Option Transaction → Result Mempool
add_tx m none = fail nil_tx
add_tx m (some tx) = elim (m.by_hash tx.hash) [ some _ ↦ fail duplicate | none ↦ add_new m tx ]

-- The loop of `removeLocked`.
unfoldable pub remove_hash : Bytes → List Transaction → List Transaction
remove_hash h [] = []
remove_hash h (ex ∷ exs) =
    let rest = remove_hash h exs in if bytes_eq ex.hash h then exs else ex ∷ rest

-- `RemoveTx`.
unfoldable pub remove_tx : Mempool → Bytes → Mempool
remove_tx m h = elim (m.by_hash h) [
  | none ↦ m
  | some tx ↦ record {
    by_hash = put_at m.by_hash h none;
    by_sender = put_at m.by_sender tx.from (remove_hash h (m.by_sender tx.from));
  }
]
