-- ===== src/Block/Script.antt =====
-- The calls on a state that a run of pkg/c2block/call_context.go makes, as a program, and what such
-- a program does. Its one return to a snapshot is that of `run` to the one which it took.
use crypto.Base.{ℕ, Bool, true, false, if◌then◌else◌, List, Option, none, some}
use crypto.Evm256.Uint256.{Uint256}
use crypto.State.Store.{
  Account, StateTrie, set_account, delete_account, add_balance, sub_balance, set_storage, snapshot,
  revert_to_snapshot,
}
use crypto.Block.Types.{Ran}

-- A call and what follows it; `reads` stands for every call that only reads the state. The answer
-- of `subtracts` is whether the balance was enough. `frames` is `Snapshot`, the calls of the first
-- program, and `RevertToSnapshot` if the run that it ends with has failed.
pub data Script : Type 0 where
  returns : Ran → Script
  panics : Script
  reads : (StateTrie → Script) → Script
  sets : Uint256 → Account → Script → Script
  deletes : List Uint256 → Uint256 → Script → Script
  adds : Uint256 → Uint256 → Script → Script
  subtracts : Uint256 → Uint256 → (Bool → Script) → Script
  stores : Uint256 → Uint256 → Uint256 → Script → Script
  frames : Script → (Ran → Script) → Script

-- What is done behind a frame: the program `next` in the state that the frame leaves, which is the
-- one of its snapshot `rev` if the run failed.
unfoldable pub leave_frame : ℕ → Ran → StateTrie → Option StateTrie
leave_frame rev ran t = if ran.succeeded then some t else revert_to_snapshot rev t

-- What a program returns and the state that it leaves; `none` is a panic.
unfoldable pub perform : Script → StateTrie → Option (Ran × StateTrie)
perform (returns ran) t = some (ran, t)
perform panics t = none
perform (reads next) t = perform (next t) t
perform (sets addr acc next) t = perform next (set_account addr acc t)
perform (deletes order addr next) t = perform next (delete_account order addr t)
perform (adds addr delta next) t = perform next (add_balance addr delta t)
perform (subtracts addr delta next) t = elim (sub_balance addr delta t) [
  | none ↦ perform (next false) t
  | some u ↦ perform (next true) u
]
perform (stores addr key val next) t = perform next (set_storage addr key val t)
perform (frames body next) t = elim (perform body (snapshot t).0) [
  | none ↦ none
  | some left ↦ (elim (leave_frame (snapshot t).1 left.0 left.1) [
    | none ↦ none
    | some u ↦ perform (next left.0) u
  ])
]
