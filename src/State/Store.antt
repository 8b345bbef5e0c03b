-- ===== src/State/Store.antt =====
-- account.go and state_trie.go of pkg/statetrie, without the computation of roots and proofs. A Go
-- map is a function of the key, and a method that holds the mutex is one step.
use crypto.Base.{
  ℕ, zero, suc, ◌-◌, Bool, true, false, ◌&&◌, ◌==◌, leb, if◌then◌else◌, List, [], ◌∷◌, ◌++◌, length,
  take, drop, get_elem?, Option, none, some, bit_and, replicate,
}
use crypto.Evm256.Uint256.{Uint256, u256, zero256, is_zero, eq, cmp}
use crypto.Evm256.Arith.{add256, sub256}
use crypto.Seq.Gas.{is_less}
use crypto.Keccak.{keccak256}
use crypto.Rlp.Encode.{Bytes}

pub record Account : Type 0 where
  pub nonce : ℕ
  pub balance : Uint256
  pub storage_root : Bytes
  pub code_hash : Bytes
  pub code : Bytes

abbrev pub Accounts : Type 0
Accounts = Uint256 → Option Account

abbrev pub Storage : Type 0
Storage = Uint256 → Uint256 → Option Uint256

-- `journalEntry`: what an account or a slot was before a change; `none` where there was nothing.
pub data JournalEntry : Type 0 where
  journal_acc : Uint256 → Option Account → JournalEntry
  journal_stor : Uint256 → Uint256 → Option Uint256 → JournalEntry

-- The journal has its newest entry first.
pub record StateTrie : Type 0 where
  pub accounts : Accounts
  pub storage : Storage
  pub journal : List JournalEntry
  pub reverts : List ℕ

-- `accounts[k] = v`, or `delete(accounts, k)` for `none`; and the same for the storage.
abbrev pub put_account : Accounts → Uint256 → Option Account → Accounts
put_account m k v = λ x. if eq x k then v else m x

abbrev pub put_slot : Storage → Uint256 → Uint256 → Option Uint256 → Storage
put_slot m a k v = λ x y. if eq x a && eq y k then v else m x y

unfoldable pub new_state_trie : StateTrie
new_state_trie = record { accounts = λ a. none; storage = λ a k. none; journal = []; reverts = [] }

unfoldable pub normalize_addr : Uint256 → Uint256
normalize_addr addr = u256 addr.w0 addr.w1 (bit_and addr.w2 0x00000000ffffffff) 0

unfoldable pub get_account : StateTrie → Uint256 → Option Account
get_account t addr = t.accounts (normalize_addr addr)

-- One round of the loop over the storage of a deleted account, on a slot and what is there.
unfoldable pub delete_slot : Option Uint256 → Uint256 → Uint256 → StateTrie → StateTrie
delete_slot none a k t = t
delete_slot (some v) a k t = record t {
  storage = put_slot t.storage a k none;
  journal = journal_stor a k (some v) ∷ t.journal;
}

-- The loop, in the order in which `range` gives the slots.
unfoldable pub delete_slots : Uint256 → List Uint256 → StateTrie → StateTrie
delete_slots a [] t = t
delete_slots a (k ∷ ks) t = delete_slots a ks (delete_slot (t.storage a k) a k t)

-- `SetAccount` with an account, and with nil; `order` is the order of the slots. Go's
-- `range` gives each slot of the account once; here any list may stand for the order.
unfoldable pub set_account : Uint256 → Account → StateTrie → StateTrie
set_account addr acc t =
    let a = normalize_addr addr in
    record t {
      accounts = put_account t.accounts a (some acc);
      journal = journal_acc a (t.accounts a) ∷ t.journal;
    }

unfoldable pub delete_account : List Uint256 → Uint256 → StateTrie → StateTrie
delete_account order addr t =
    let a = normalize_addr addr in
    delete_slots a order (record t {
      accounts = put_account t.accounts a none;
      journal = journal_acc a (t.accounts a) ∷ t.journal;
    })

-- The balance of what may be an account.
abbrev pub balance_of : Option Account → Uint256
balance_of none = zero256
balance_of (some acc) = acc.balance

unfoldable pub get_balance : StateTrie → Uint256 → Uint256
get_balance t addr = balance_of (t.accounts (normalize_addr addr))

abbrev pub empty_code_hash : Bytes
empty_code_hash = keccak256 []

abbrev pub new_account : Account
new_account = record {
  nonce = 0;
  balance = zero256;
  storage_root = replicate 32 0;
  code_hash = empty_code_hash;
  code = [];
}

abbrev pub or_new_account : Option Account → Account
or_new_account none = new_account
or_new_account (some acc) = acc

-- `ensureAccount`, and the change that its caller then makes to the account.
unfoldable pub change_account : Uint256 → (Account → Account) → StateTrie → StateTrie
change_account addr change t =
    let a = normalize_addr addr in
    record t {
      accounts = put_account t.accounts a (some (change (or_new_account (t.accounts a))));
      journal = journal_acc a (t.accounts a) ∷ t.journal;
    }

abbrev pub is_none {ℓ} : {A : Type ℓ} → Option A → Bool
is_none none = true
is_none (some a) = false

unfoldable pub add_balance : Uint256 → Uint256 → StateTrie → StateTrie
add_balance addr delta t =
    if is_none (t.accounts (normalize_addr addr)) && is_zero delta
    then t
    else change_account addr (λ acc. record acc { balance = add256 acc.balance delta }) t

-- `none` is `ErrInsufficientBalance`.
unfoldable pub sub_balance : Uint256 → Uint256 → StateTrie → Option StateTrie
sub_balance addr delta t =
    if is_less (cmp (get_balance t addr) delta)
    then none
    else if is_none (t.accounts (normalize_addr addr)) && is_zero delta
    then some t
    else some (change_account addr (λ acc. record acc { balance = sub256 acc.balance delta }) t)

unfoldable pub get_storage : StateTrie → Uint256 → Uint256 → Uint256
get_storage t addr key = elim (t.storage (normalize_addr addr) key) [ none ↦ zero256 | some v ↦ v ]

unfoldable pub set_storage : Uint256 → Uint256 → Uint256 → StateTrie → StateTrie
set_storage addr key val t =
    let a = normalize_addr addr in
    record t {
      storage = put_slot t.storage a key (if is_zero val then none else some val);
      journal = journal_stor a key (t.storage a key) ∷ t.journal;
    }

-- The state, and the number of the snapshot.
unfoldable pub snapshot : StateTrie → StateTrie × ℕ
snapshot t = (record t { reverts = t.reverts ++ (length t.journal ∷ []) }, length t.reverts)

-- The two maps, which `applyRevert` changes.
abbrev pub Tables : Type 0
Tables = Accounts × Storage

abbrev pub tables : StateTrie → Tables
tables t = (t.accounts, t.storage)

unfoldable pub apply_revert : JournalEntry → Tables → Tables
apply_revert (journal_acc a prev) m = (put_account m.0 a prev, m.1)
apply_revert (journal_stor a k prev) m = (m.0, put_slot m.1 a k prev)

-- The newest entries, as many as are given, undone one after the other.
unfoldable pub undo : ℕ → List JournalEntry → Tables → Tables
undo zero entries m = m
undo (suc n) [] m = m
undo (suc n) (e ∷ entries) m = undo n entries (apply_revert e m)

-- The return to the snapshot `revision`, which is at `jidx` in the journal.
unfoldable pub go_back : ℕ → ℕ → StateTrie → StateTrie
go_back revision jidx t =
    let m = undo (length t.journal - jidx) t.journal (tables t) in
    record {
      accounts = m.0;
      storage = m.1;
      journal = drop (length t.journal - jidx) t.journal;
      reverts = take revision t.reverts;
    }

-- `none` is the panic on a number that is no snapshot.
unfoldable pub revert_to_snapshot : ℕ → StateTrie → Option StateTrie
revert_to_snapshot revision t = elim (get_elem? t.reverts revision) [
  | none ↦ none
  | some jidx ↦ some (go_back revision jidx t)
]

unfoldable pub commit : StateTrie → StateTrie
commit t = record t { journal = []; reverts = [] }

unfoldable pub discard_snapshot : ℕ → StateTrie → StateTrie
discard_snapshot rev t = if leb (length t.reverts) rev then t else record t {
  reverts = take rev t.reverts;
  journal = if length (take rev t.reverts) == 0 then [] else t.journal;
}
