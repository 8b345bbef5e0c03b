-- ===== src/Seq/Batch/Chosen.antt =====
-- The transactions that the loop chooses.
use crypto.Base.{
  ℕ, suc, ◌+◌, ◌-◌, ◌<◌, ◌≤◌, ◌≡◌, refl, sym, ap, ◌∙◌, arith, Bool, true, false, Bool-cases, inl,
  inr, ◌==◌, ltb, leb, if◌then◌else◌, List, [], ◌∷◌, Option, none, some, length, wrap_add, subst,
  word,
}
use mathlib.Core.Path.{fun_ext}
use crypto.Seq.Types.{ok, Result-cases, Bytes, bytes_eq, bytes_eq→≡, Transaction}
use crypto.Seq.Gas.{safe_add_gas}
use crypto.Seq.Mempool.{put_at}
use crypto.Seq.Batch.{
  Seen, or_else, wanted, Choice, stop, skip, pick, choose_fitting, choose, choose_batch,
}

abbrev pub total_gas : List Transaction → ℕ
total_gas [] = 0
total_gas (tx ∷ txs) = tx.gas + total_gas txs

-- Each transaction has the nonce that is next for its sender.
abbrev pub AreInOrder : (Bytes → ℕ) → List Transaction → Type 0
AreInOrder next [] = Unit
AreInOrder next (tx ∷ txs) =
    (tx.nonce ≡ next tx.from) × AreInOrder (put_at next tx.from (wrap_add (next tx.from) 1)) txs

-- What is asked of a choice: where a transaction is left out, the next nonces stay, and where one is
-- taken, it has the nonce that is next, and its gas fits.
abbrev IsSound : ℕ → ℕ → (Bytes → ℕ) → Seen → ℕ → ℕ → Transaction → Choice → Type 0
IsSound max_txs gas_limit nonce_of seen count reserved tx stop = Unit
IsSound max_txs gas_limit nonce_of seen count reserved tx (skip known) =
    wanted nonce_of known ≡ wanted nonce_of seen
IsSound max_txs gas_limit nonce_of seen count reserved tx (pick known next) =
    (count < max_txs)
    × (next ≡ reserved + tx.gas)
    × (next ≤ gas_limit)
    × (tx.nonce ≡ wanted nonce_of seen tx.from)
    × (wanted nonce_of known
        ≡ put_at (wanted nonce_of seen) tx.from (wrap_add (wanted nonce_of seen tx.from) 1))

or_else-if :
    (b : Bool) (n m : ℕ) (o : Option ℕ)
    → or_else n (if b then some m else o) ≡ (if b then m else or_else n o)
or_else-if true n m o = refl
or_else-if false n m o = refl

wanted-put_at :
    (nonce_of : Bytes → ℕ) (seen : Seen) (addr : Bytes) (n : ℕ)
    → wanted nonce_of (put_at seen addr (some n)) ≡ put_at (wanted nonce_of seen) addr n
wanted-put_at nonce_of seen addr n =
    fun_ext (λ key. or_else-if (bytes_eq key addr) (nonce_of key) n (seen key))

put_at-same : (next : Bytes → ℕ) (addr : Bytes) → put_at next addr (next addr) ≡ next
put_at-same next addr = fun_ext (λ key. elim (Bool-cases (bytes_eq key addr)) [
  | inl here ↦ rw here (ap next (sym (bytes_eq→≡ key addr here)))
  | inr away ↦ rw away refl
])

-- The entry of a sender that was looked up changes no wanted nonce.
known_same :
    (nonce_of : Bytes → ℕ) (seen : Seen) (addr : Bytes)
    → wanted nonce_of (put_at seen addr (some (wanted nonce_of seen addr))) ≡ wanted nonce_of seen
known_same nonce_of seen addr =
    wanted-put_at nonce_of seen addr (wanted nonce_of seen addr)
    ∙ put_at-same (wanted nonce_of seen) addr

safe_add-sum : (a b c : ℕ) → a < word → b < word → safe_add_gas a b ≡ ok c → c ≡ a + b
unfolding safe_add_gas
safe_add-sum a b c p q e = ground arith

fitting-IsSound :
    (max_txs gas_limit : ℕ) (nonce_of : Bytes → ℕ) (seen : Seen) (count reserved : ℕ)
    (tx : Transaction)
    → count < max_txs
    → reserved + tx.gas ≤ gas_limit
    → gas_limit < word
    → IsSound max_txs gas_limit nonce_of seen count reserved tx
        (choose_fitting nonce_of seen reserved tx)
unfolding choose_fitting
fitting-IsSound max_txs gas_limit nonce_of seen count reserved tx c g w =
    let want = wanted nonce_of seen tx.from in
    let known = put_at seen tx.from (some want) in
    let same = known_same nonce_of seen tx.from in
    elim (Bool-cases (tx.nonce == want)) [
      | inr other ↦ rw other same
      | inl next_one ↦ elim (Result-cases (safe_add_gas reserved tx.gas)) [
        | inr e ↦ rw (next_one, e.1) same
        | inl sum ↦
            let exact = safe_add-sum reserved tx.gas sum.0 (omega arith) (omega arith) sum.1 in
            let nonce_is : tx.nonce ≡ want = ground arith in
            rw (next_one, sum.1)
              (
                c,
                exact,
                omega arith,
                nonce_is,
                wanted-put_at nonce_of known tx.from (wrap_add want 1)
                    ∙ ap (λ (f : Bytes → ℕ). put_at f tx.from (wrap_add want 1)) same,
              )
      ]
    ]

choose-IsSound :
    (max_txs gas_limit : ℕ) (nonce_of : Bytes → ℕ) (seen : Seen) (count reserved : ℕ)
    (tx : Transaction)
    → 0 < max_txs
    → 0 < gas_limit
    → gas_limit < word
    → IsSound max_txs gas_limit nonce_of seen count reserved tx
        (choose max_txs gas_limit nonce_of seen count reserved tx)
unfolding choose
choose-IsSound max_txs gas_limit nonce_of seen count reserved tx m g w =
    let limited : (gas_limit == 0) ≡ false = ground arith in
    let counted : ltb 0 max_txs ≡ true = ground arith in
    elim (Bool-cases (leb max_txs count)) [
      | inl full ↦ rw (counted, full) tt
      | inr room ↦ elim (Bool-cases (leb gas_limit reserved)) [
        | inl used ↦ rw (counted, room, limited, used) tt
        | inr left ↦ elim (Bool-cases (ltb (gas_limit - reserved) tx.gas)) [
          | inl large ↦ rw (counted, room, limited, left, large) refl
          | inr fits ↦
              rw (counted, room, limited, left, fits)
                (fitting-IsSound max_txs gas_limit nonce_of seen count reserved tx (ground arith)
                  (ground arith) w)
        ]
      ]
    ]

-- What is shown of the transactions chosen from a place of the loop on.
abbrev IsBatch : ℕ → ℕ → (Bytes → ℕ) → ℕ → ℕ → List Transaction → Type 0
IsBatch max_txs gas_limit next count reserved batch =
    (count + length batch ≤ max_txs)
    × (reserved + total_gas batch ≤ gas_limit)
    × AreInOrder next batch

IsBatch-from :
    (max_txs gas_limit : ℕ) (nonce_of : Bytes → ℕ) (txs : List Transaction) (seen : Seen)
    (count reserved : ℕ)
    → 0 < max_txs
    → 0 < gas_limit
    → gas_limit < word
    → count ≤ max_txs
    → reserved ≤ gas_limit
    → IsBatch max_txs gas_limit
        (wanted nonce_of seen)
        count
        reserved
        (choose_batch max_txs gas_limit nonce_of seen count reserved txs)
unfolding choose_batch
IsBatch-from max_txs gas_limit nonce_of [] seen count reserved m g w c r =
    (omega arith, omega arith, tt)
IsBatch-from max_txs gas_limit nonce_of (tx ∷ txs) seen count reserved m g w c r =
    elim (choose max_txs gas_limit nonce_of seen count reserved tx)
        as (λ o.
          IsSound max_txs gas_limit nonce_of seen count reserved tx o
          → IsBatch max_txs gas_limit (wanted nonce_of seen) count reserved (elim o [
            | stop ↦ []
            | skip known ↦ choose_batch max_txs gas_limit nonce_of known count reserved txs
            | pick known next ↦
                tx ∷ choose_batch max_txs gas_limit nonce_of known (suc count) next txs
          ])) [
            | stop ↦ λ s. (omega arith, omega arith, tt)
            | skip known ↦ λ s.
                subst
                  (λ (f : Bytes → ℕ).
                    IsBatch max_txs gas_limit f count reserved
                      (choose_batch max_txs gas_limit nonce_of known count reserved txs))
                  s (IsBatch-from max_txs gas_limit nonce_of txs known count reserved m g w c r)
            | pick known next ↦ λ s.
                let rest =
                  IsBatch-from max_txs gas_limit nonce_of txs known (suc count) next m g w
                    (omega arith) s.2 in
                (
                  omega arith,
                  omega arith,
                  (
                    s.3,
                    subst
                        (λ (f : Bytes → ℕ).
                          AreInOrder f
                            (choose_batch max_txs gas_limit nonce_of known (suc count) next txs))
                        s.4 rest.2,
                  ),
                )
          ]
      (choose-IsSound max_txs gas_limit nonce_of seen count reserved tx m g w)

-- With a gas limit that fits a uint64 and a limit on the number of transactions, neither of them
-- zero: the loop of `ProduceBlock` chooses, from any candidates, no more transactions and no more gas
-- in all than the limits, and those of each sender have the nonces that follow its nonce in the state,
-- one after the other.
pub choose_batch-AreInOrder :
    (max_txs gas_limit : ℕ) (nonce_of : Bytes → ℕ) (txs : List Transaction)
    → 0 < max_txs
    → 0 < gas_limit
    → gas_limit < word
    → (length (choose_batch max_txs gas_limit nonce_of (λ addr. none) 0 0 txs) ≤ max_txs)
      × (total_gas (choose_batch max_txs gas_limit nonce_of (λ addr. none) 0 0 txs) ≤ gas_limit)
      × AreInOrder nonce_of (choose_batch max_txs gas_limit nonce_of (λ addr. none) 0 0 txs)
choose_batch-AreInOrder max_txs gas_limit nonce_of txs m g w =
    let b =
      IsBatch-from max_txs gas_limit nonce_of txs (λ addr. none) 0 0 m g w (omega arith)
        (omega arith) in
    (omega arith, omega arith, b.2)
