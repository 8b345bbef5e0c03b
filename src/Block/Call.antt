-- ===== src/Block/Call.antt =====
-- `run` of pkg/c2block/call_context.go, and what it calls, apart from `execFrame`.
use crypto.Base.{
  ℕ, zero, suc, ◌*◌, ◌-◌, ◌||◌, ◌&&◌, Bool, true, false, not, ◌==◌, ltb, if◌then◌else◌, List, [],
  ◌∷◌, ◌++◌, Option, none, some, length, take, wrap_add,
}
use crypto.Evm256.Uint256.{Uint256, is_zero}
use crypto.Keccak.{keccak256}
use crypto.Seq.Types.{bytes_eq}
use crypto.Rlp.Encode.{Bytes}
use crypto.Tx.Parse.{no_address}
use crypto.State.Store.{Account, StateTrie, get_account, delete_account}
use crypto.Evm.Frame.{
  Status, running, success, revert, stack_underflow, stack_overflow, out_of_gas, invalid_opcode,
  jump_dest_invalid,
}
use crypto.Block.Types.{CallParams, VmEnv, Ran, addr_to_u256, zero_account}
use crypto.Block.Script.{Script, returns, panics, reads, sets, adds, subtracts, frames}

-- The fields of a frame that `run` reads behind `execFrame`, and whether a read-only frame wrote.
pub record FrameEnd : Type 0 where
  pub env : VmEnv
  pub ret : Bytes
  pub status : Status
  pub gas : ℕ
  pub refund : ℕ
  pub wrote : Bool

-- What `RunPrecompile` gives: its output and the gas left, an error, or a panic.
pub data Precompiled : Type 0 where
  gives : Bytes → ℕ → Precompiled
  errs : Precompiled
  breaks : Precompiled

-- A run, and the program that follows what it returns.
abbrev pub Run : Type 0
Run = VmEnv → CallParams → (Ran → Script) → Script

-- `execFrame` as any program, which may run calls by its first argument; the precompiled contracts;
-- and the orders in which Go ranges over a set of addresses and over the slots of an account.
pub record Execution : Type 0 where
  pub exec_frame : Run → VmEnv → CallParams → Bytes → (FrameEnd → Script) → Script
  pub run_precompile : ℕ → Bytes → ℕ → Precompiled
  pub range : List Bytes → List Bytes
  pub slots : StateTrie → Uint256 → List Uint256

abbrev pub max_call_depth : ℕ
max_call_depth = 1024

abbrev pub max_code_size : ℕ
max_code_size = 24576

abbrev pub gas_code_deposit : ℕ
gas_code_deposit = 200

unfoldable pub is_in : Bytes → List Bytes → Bool
is_in a [] = false
is_in a (b ∷ bs) = bytes_eq a b || is_in a bs

-- A key is added to a map and to its journal, if the map does not have it.
abbrev pub mark : Bytes → List Bytes → List Bytes
mark a marks = if is_in a marks then marks else marks ++ (a ∷ [])

unfoldable pub touch : Bytes → VmEnv → VmEnv
touch a e = record e { touched = mark a e.touched }

unfoldable pub mark_created : Bytes → VmEnv → VmEnv
mark_created a e = record e { created = mark a e.created }

-- The logs and the marks of the environment `e` cut back to those of `before`.
unfoldable pub roll_back : VmEnv → VmEnv → VmEnv
roll_back before e = record e {
  logs = take (length before.logs) e.logs;
  touched = take (length before.touched) e.touched;
  created = take (length before.created) e.created;
  suicided = take (length before.suicided) e.suicided;
}

unfoldable pub account : StateTrie → Bytes → Account
account t addr = elim (get_account t (addr_to_u256 addr)) [ none ↦ zero_account | some acc ↦ acc ]

unfoldable pub empty_account : StateTrie → Bytes → Bool
empty_account t addr =
    let acc = account t addr in acc.nonce == 0 && is_zero acc.balance && length acc.code == 0

-- The number of the precompiled contract at an address.
unfoldable pub precompile_from : ℕ → Bytes → Option ℕ
precompile_from n [] = none
precompile_from zero (b ∷ bs) = if not (b == 0) && ltb b 11 then some b else none
precompile_from (suc n) (b ∷ bs) = if b == 0 then precompile_from n bs else none

unfoldable pub is_precompile : Bytes → Option ℕ
is_precompile a = precompile_from 19 a

unfoldable pub code_of : StateTrie → Bytes → Bytes
code_of t addr = elim (is_precompile addr) [ none ↦ (account t addr).code | some id ↦ [] ]

unfoldable pub creates : ℕ → Bool
creates kind = kind == 0xf0 || kind == 0xf5

-- `setCode` and `setNonce`.
unfoldable pub sets_code : Bytes → Bytes → Script → Script
sets_code addr code next = reads λ t.
    sets (addr_to_u256 addr) (record (account t addr) { code = code; code_hash = keccak256 code })
      next

unfoldable pub sets_nonce : Bytes → ℕ → Script → Script
sets_nonce addr n next =
    reads λ t. sets (addr_to_u256 addr) (record (account t addr) { nonce = n }) next

-- `transfer`, with the environment and whether there was no error.
unfoldable pub transfers : VmEnv → Bytes → Bytes → Uint256 → (VmEnv → Bool → Script) → Script
transfers e from to val next =
    let touching = touch to (touch from e) in
    if is_zero val
    then next touching true
    else subtracts (addr_to_u256 from) val λ enough.
      if enough then adds (addr_to_u256 to) val (next touching true) else next touching false

-- A frame that fails, of which `before` is the environment at its snapshot.
unfoldable pub fails : VmEnv → VmEnv → Bytes → ℕ → Script
fails before e ret left =
    returns (record { env = roll_back before e; ret = ret; gas_left = left; succeeded = false })

unfoldable pub succeeds : VmEnv → Bytes → ℕ → Script
succeeds e ret left =
    returns
      (record { env = record e { ret_data = ret }; ret = ret; gas_left = left; succeeded = true })

-- Behind a frame that succeeded: a creation stores the code, if it is small enough and paid for.
unfoldable pub deposits : VmEnv → CallParams → VmEnv → Bytes → ℕ → Script
deposits before p e ret gas =
    if not (creates p.kind)
    then succeeds e ret gas
    else if is_in p.target e.suicided
    then succeeds e [] gas
    else if ltb max_code_size (length ret)
    then fails before e [] 0
    else if ltb gas (length ret * gas_code_deposit)
    then fails before e [] 0
    else sets_code p.target ret (
        sets_nonce p.target 1
          (succeeds (mark_created p.target e) ret (gas - length ret * gas_code_deposit)))

-- Behind `execFrame`.
unfoldable pub frame_ends : VmEnv → CallParams → FrameEnd → Script
frame_ends before p end =
    let status = if end.wrote then invalid_opcode else end.status in
    let gas = if end.wrote then 0 else end.gas in
    let failing = record end.env { ret_data = end.ret } in
    elim status [
      | success ↦
          deposits before p (record end.env { refund = wrap_add end.env.refund end.refund }) end.ret
            gas
      | revert ↦ fails before failing end.ret gas
      | running ↦ fails before failing end.ret 0
      | stack_underflow ↦ fails before failing end.ret 0
      | stack_overflow ↦ fails before failing end.ret 0
      | out_of_gas ↦ fails before failing end.ret 0
      | invalid_opcode ↦ fails before failing end.ret 0
      | jump_dest_invalid ↦ fails before failing end.ret 0
    ]

unfoldable pub precompile_ends : VmEnv → VmEnv → Precompiled → Script
precompile_ends before e (gives out gas) = succeeds e out gas
precompile_ends before e errs = fails before e [] 0
precompile_ends before e breaks = panics

-- The kinds of calls whose code `run` looks up.
abbrev pub looks_up : ℕ → Bool
looks_up kind = not (creates kind) && not (kind == 0xf2) && not (kind == 0xf4)

module _ (X : Execution) where
  -- Behind the transfer, without a precompiled contract.
  unfoldable pub run_code : Run → VmEnv → VmEnv → CallParams → Bytes → Script
  run_code calls before e p code =
      if length code == 0 && not (creates p.kind)
      then succeeds e [] p.gas
      else X.exec_frame calls e p code (frame_ends before p)

  -- Behind the transfer.
  unfoldable pub run_body : Run → VmEnv → CallParams → VmEnv → Script
  run_body calls before p e =
      let at = if bytes_eq p.code_addr no_address then p.target else p.code_addr in
      let plain =
        reads
          λ t. run_code calls before e p (if looks_up p.kind then code_of t p.target else p.code) in
      elim (is_precompile at) [
        | none ↦ plain
        | some id ↦
            if creates p.kind
            then plain
            else precompile_ends before e (X.run_precompile id p.input p.gas)
      ]

  -- Behind the snapshot.
  unfoldable pub run_frame : Run → VmEnv → CallParams → Script
  run_frame calls before p =
      let marked = if creates p.kind then mark_created p.target before else before in
      let entered = touch p.target (touch p.caller marked) in
      if p.kind == 0xf4
      then run_body calls before p entered
      else transfers entered p.caller p.target p.call_val
          λ e paid. if paid then run_body calls before p e else fails before e [] p.gas

  -- `run`, at a depth that is so much below `maxCallDepth`.
  unfoldable pub run : ℕ → Run
  run zero e p next = next (record { env = e; ret = []; gas_left = p.gas; succeeded = false })
  run (suc depth) e p next = frames (run_frame (run depth) e p) next

  -- One account, and `cleanTouchedEmptyAccounts`.
  unfoldable pub clean_if : Bool → Bytes → StateTrie → StateTrie
  clean_if c a t = if c then delete_account (X.slots t (addr_to_u256 a)) (addr_to_u256 a) t else t

  unfoldable pub clean_empty : List Bytes → StateTrie → StateTrie
  clean_empty [] t = t
  clean_empty (a ∷ rest) t = clean_empty rest (clean_if (empty_account t a) a t)

  unfoldable pub clean_suicided : List Bytes → List Bytes → StateTrie → StateTrie
  clean_suicided created [] t = t
  clean_suicided created (a ∷ rest) t = clean_suicided created rest (clean_if (is_in a created) a t)

  unfoldable pub clean_touched : VmEnv → StateTrie → StateTrie
  clean_touched e t =
      clean_suicided e.created (X.range e.suicided) (clean_empty (X.range e.touched) t)
