-- ===== src/Block/Types.antt =====
-- The types of pkg/c2block around a transaction, and the changes of one account.
use crypto.Base.{ℕ, Bool, if◌then◌else◌, List, [], ◌∷◌, ◌++◌, none, some, take, drop, replicate}
use crypto.Evm256.Uint256.{Uint256, zero256, is_zero, from_bytes_be}
use crypto.Keccak.{keccak256}
use crypto.Rlp.Encode.{Bytes, rlp_encode_bytes, rlp_list_enc, rlp_u64_enc}
use crypto.Trie.Receipts.{Log, Receipt}
use crypto.State.Store.{Account, StateTrie, get_account, set_account, add_balance}
use crypto.Block.Fees.{BlockHeader}

pub data TxError : Type 0 where
  bad_nonce insufficient_funds low_intrinsic_gas low_fee_cap over_gas_limit insufficient_balance :
      TxError

pub record CallParams : Type 0 where
  pub caller : Bytes
  pub target : Bytes
  pub code_addr : Bytes
  pub origin : Bytes
  pub amount : Uint256
  pub call_val : Uint256
  pub input : Bytes
  pub code : Bytes
  pub gas : ℕ
  pub read_only : Bool
  pub kind : ℕ

-- The `vmEnv`, apart from the state that it points to and from its depth, which is an argument of
-- `run`. A map and its journal are changed together, and the list is the journal, oldest first.
pub record VmEnv : Type 0 where
  pub header : BlockHeader
  pub origin : Bytes
  pub gas_price : Uint256
  pub logs : List Log
  pub ret_data : Bytes
  pub refund : ℕ
  pub touched : List Bytes
  pub created : List Bytes
  pub suicided : List Bytes

-- What a run returns, with the environment behind it.
pub record Ran : Type 0 where
  pub env : VmEnv
  pub ret : Bytes
  pub gas_left : ℕ
  pub succeeded : Bool

-- `addrToU256` and `createAddress` of pkg/c2block/call_context.go.
unfoldable pub addr_to_u256 : Bytes → Uint256
addr_to_u256 a = from_bytes_be (replicate 12 0 ++ a)

unfoldable pub create_address : Bytes → ℕ → Bytes
create_address sender nonce =
    take 20 (drop 12 (keccak256 (rlp_list_enc (rlp_encode_bytes sender ∷ rlp_u64_enc nonce ∷ []))))

unfoldable pub nonce_of : StateTrie → Bytes → ℕ
nonce_of t addr = elim (get_account t (addr_to_u256 addr)) [ none ↦ 0 | some acc ↦ acc.nonce ]

-- `&statetrie.Account{}`.
abbrev pub zero_account : Account
zero_account = record {
  nonce = 0;
  balance = zero256;
  storage_root = replicate 32 0;
  code_hash = replicate 32 0;
  code = [];
}

unfoldable pub set_nonce : Bytes → ℕ → StateTrie → StateTrie
set_nonce addr n t =
    let acc : Account = elim (get_account t (addr_to_u256 addr)) [
      | none ↦ zero_account
      | some old ↦ old
    ] in
    set_account (addr_to_u256 addr) (record acc { nonce = n }) t

-- The balance grows, if the amount is not zero.
unfoldable pub pay : Bytes → Uint256 → StateTrie → StateTrie
pay addr amount t = if is_zero amount then t else add_balance (addr_to_u256 addr) amount t

pub data TxOutcome : Type 0 where
  refused : TxError → TxOutcome
  processed : StateTrie → Receipt → TxOutcome
  crashed : TxOutcome

-- What a block leaves: the state with the result or with the error, or a panic.
pub record BlockResult : Type 0 where
  pub receipts : List Receipt
  pub gas_used : ℕ
  pub root_of_receipts : Bytes
  pub block_bloom : Bytes
  pub root_of_state : Bytes

pub data BlockOutcome : Type 0 where
  accepted : StateTrie → BlockResult → BlockOutcome
  rejected : StateTrie → TxError → BlockOutcome
  panicked : BlockOutcome

pub data TxsOutcome : Type 0 where
  all_done : StateTrie → List Receipt → ℕ → TxsOutcome
  stopped : StateTrie → TxError → TxsOutcome
  broken : TxsOutcome
