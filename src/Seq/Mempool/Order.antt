-- ===== src/Seq/Mempool/Order.antt =====
-- The order of the lists of pkg/c2seq/mempool.go.
use crypto.Base.{
  ℕ, ◌<◌, ◌≡◌, arith, subst, ltb, ◌==◌, if_elim, List, [], ◌∷◌, Option, none, some, All, Bool-cases,
  Option-cases, inl, inr,
}
use crypto.Evm256.Uint256.{cmp}
use crypto.Seq.Types.{Result, ok, fail, Bytes, bytes_eq, Transaction}
use crypto.Seq.Mempool.{
  Mempool, new_mempool, put_at, is_at_most, tx_tip, find_nonce, replace_nonce, insert_nonce,
  add_new, add_tx, remove_hash, remove_tx,
}

-- Every nonce is above `n`.
abbrev AreAbove : ℕ → List Transaction → Type 0
AreAbove n = All (λ tx. n < tx.nonce)

-- The nonces rise.
abbrev pub IsAscending : List Transaction → Type 0
IsAscending [] = Unit
IsAscending (tx ∷ txs) = AreAbove tx.nonce txs × IsAscending txs

AreAbove-mono : (m n : ℕ) (txs : List Transaction) → m < n → AreAbove n txs → AreAbove m txs
AreAbove-mono m n [] h p = tt
AreAbove-mono m n (tx ∷ txs) h p = (omega (arith, p.0), AreAbove-mono m n txs h p.1)

module _ (tx : Transaction) where
  replace_nonce-AreAbove :
      (n : ℕ) (txs : List Transaction) → AreAbove n txs → AreAbove n (replace_nonce tx txs)
  unfolding replace_nonce
  replace_nonce-AreAbove n [] p = tt
  replace_nonce-AreAbove n (ex ∷ exs) p = elim (Bool-cases (ex.nonce == tx.nonce)) [
    | inl here ↦ let above : n < tx.nonce = ground (arith, p.0) in rw here (above, p.1)
    | inr there ↦ rw there (p.0, replace_nonce-AreAbove n exs p.1)
  ]

  replace_nonce-IsAscending :
      (txs : List Transaction) → IsAscending txs → IsAscending (replace_nonce tx txs)
  unfolding replace_nonce
  replace_nonce-IsAscending [] h = tt
  replace_nonce-IsAscending (ex ∷ exs) h = elim (Bool-cases (ex.nonce == tx.nonce)) [
    | inl here ↦
        let same : ex.nonce ≡ tx.nonce = ground arith in
        rw here (subst (λ n. AreAbove n exs) same h.0, h.1)
    | inr there ↦
        rw there (replace_nonce-AreAbove ex.nonce exs h.0, replace_nonce-IsAscending exs h.1)
  ]

  insert_nonce-AreAbove :
      (n : ℕ) (txs : List Transaction)
      → n < tx.nonce
      → AreAbove n txs
      → AreAbove n (insert_nonce tx txs)
  unfolding insert_nonce
  insert_nonce-AreAbove n [] h p = (h, tt)
  insert_nonce-AreAbove n (ex ∷ exs) h p =
      if_elim (AreAbove n) (ltb tx.nonce ex.nonce) _ _ (h, p)
        (p.0, insert_nonce-AreAbove n exs h p.1)

  -- A list in which the nonce is not.
  insert_nonce-IsAscending :
      (txs : List Transaction)
      → find_nonce tx.nonce txs ≡ none
      → IsAscending txs
      → IsAscending (insert_nonce tx txs)
  unfolding insert_nonce find_nonce
  insert_nonce-IsAscending [] e h = (tt, tt)
  insert_nonce-IsAscending (ex ∷ exs) e h = elim (Bool-cases (ltb tx.nonce ex.nonce)) [
    | inl before ↦
        let lt : tx.nonce < ex.nonce = ground arith in
        rw before ((lt, AreAbove-mono tx.nonce ex.nonce exs lt h.0), h)
    | inr behind ↦
        let gt : ex.nonce < tx.nonce = ground (arith, e) in
        let absent : find_nonce tx.nonce exs ≡ none = ground (arith, e) in
        rw behind
          (insert_nonce-AreAbove ex.nonce exs gt h.0, insert_nonce-IsAscending exs absent h.1)
  ]

module _ (hash : Bytes) where
  remove_hash-AreAbove :
      (n : ℕ) (txs : List Transaction) → AreAbove n txs → AreAbove n (remove_hash hash txs)
  unfolding remove_hash
  remove_hash-AreAbove n [] p = tt
  remove_hash-AreAbove n (ex ∷ exs) p =
      if_elim (AreAbove n) (bytes_eq ex.hash hash) _ _ p.1 (p.0, remove_hash-AreAbove n exs p.1)

  remove_hash-IsAscending :
      (txs : List Transaction) → IsAscending txs → IsAscending (remove_hash hash txs)
  unfolding remove_hash
  remove_hash-IsAscending [] h = tt
  remove_hash-IsAscending (ex ∷ exs) h =
      if_elim IsAscending (bytes_eq ex.hash hash) _ _ h.1
        (remove_hash-AreAbove ex.nonce exs h.0, remove_hash-IsAscending exs h.1)

-- The list of every sender rises by nonce.
abbrev pub IsOrdered : Mempool → Type 0
IsOrdered m = (sender : Bytes) → IsAscending (m.by_sender sender)

put_at-IsAscending :
    (m : Bytes → List Transaction) (k : Bytes) (txs : List Transaction)
    → ((key : Bytes) → IsAscending (m key))
    → IsAscending txs
    → (key : Bytes) → IsAscending (put_at m k txs key)
put_at-IsAscending m k txs h p key = if_elim IsAscending (bytes_eq key k) txs (m key) p (h key)

-- What holds of a pool that an operation gives, if it gives one.
abbrev GivesOrdered : Result Mempool → Type 0
GivesOrdered (ok m) = IsOrdered m
GivesOrdered (fail e) = Unit

add_new-GivesOrdered : (m : Mempool) (tx : Transaction) → IsOrdered m → GivesOrdered (add_new m tx)
unfolding add_new
add_new-GivesOrdered m tx h = elim (Option-cases (find_nonce tx.nonce (m.by_sender tx.from))) [
  | inl absent ↦
      rw (absent, add_new, GivesOrdered)
        (put_at-IsAscending m.by_sender tx.from _ h
          (insert_nonce-IsAscending tx (m.by_sender tx.from) absent (h tx.from)))
  | inr found ↦
      rw (found.1, add_new, GivesOrdered)
        (if_elim GivesOrdered (is_at_most (cmp (tx_tip tx) (tx_tip found.0))) _ _ tt (
          put_at-IsAscending m.by_sender tx.from _ h
            (replace_nonce-IsAscending tx (m.by_sender tx.from) (h tx.from))))
]

add_tx-GivesOrdered :
    (m : Mempool) (tx : Option Transaction) → IsOrdered m → GivesOrdered (add_tx m tx)
unfolding add_tx
add_tx-GivesOrdered m none h = tt
add_tx-GivesOrdered m (some tx) h = elim (Option-cases (m.by_hash tx.hash)) [
  | inl fresh ↦ rw (fresh, add_tx, GivesOrdered) (add_new-GivesOrdered m tx h)
  | inr known ↦ rw (known.1, add_tx, GivesOrdered) tt
]

-- `AddTx`, where it succeeds in a pool whose lists rise by nonce, each sender's without a nonce
-- twice, leaves such a pool, whether it inserts the transaction or replaces one of the same nonce.
add_tx-IsOrdered :
    (m m' : Mempool) (tx : Option Transaction) → IsOrdered m → add_tx m tx ≡ ok m' → IsOrdered m'
add_tx-IsOrdered m m' tx h e = subst GivesOrdered e (add_tx-GivesOrdered m tx h)

-- `RemoveTx` keeps the lists of such a pool in that order.
remove_tx-IsOrdered : (m : Mempool) (hash : Bytes) → IsOrdered m → IsOrdered (remove_tx m hash)
unfolding remove_tx
remove_tx-IsOrdered m hash h = elim (Option-cases (m.by_hash hash)) [
  | inl missing ↦ rw (missing, remove_tx) h
  | inr found ↦
      rw (found.1, remove_tx)
        (put_at-IsAscending m.by_sender (found.0).from _ h
          (remove_hash-IsAscending hash (m.by_sender (found.0).from) (h (found.0).from)))
]

-- The pools that calls of `AddTx` and `RemoveTx` make from an empty one; `PopBatch` changes a pool
-- only by removals.
pub data IsReachable : Mempool → Type 0 where
  fresh : IsReachable new_mempool
  added :
      (m m' : Mempool) (tx : Option Transaction)
      → IsReachable m
      → add_tx m tx ≡ ok m'
      → IsReachable m'
  removed : (m : Mempool) (hash : Bytes) → IsReachable m → IsReachable (remove_tx m hash)

-- In every pool that calls of `AddTx` that succeed and calls of `RemoveTx`, in any order, make from
-- an empty one, the list of each sender has strictly rising nonces.
pub reachable-IsOrdered : (m : Mempool) → IsReachable m → IsOrdered m
reachable-IsOrdered _ IsReachable.fresh = λ sender. tt
reachable-IsOrdered _ (IsReachable.added before m tx r e) =
    add_tx-IsOrdered before m tx (reachable-IsOrdered before r) e
reachable-IsOrdered _ (IsReachable.removed before hash r) =
    remove_tx-IsOrdered before hash (reachable-IsOrdered before r)
