-- ===== src/State/Examples.antt =====
-- A history of a state, and the theorem about it.
use crypto.Base.{◌≡◌, refl, arith, some, []}
use crypto.Evm256.Uint256.{Uint256, u256, is_zero, eq}
use crypto.Evm256.Arith.{add256, add_carry}
use crypto.State.Store.{
  StateTrie, new_state_trie, normalize_addr, get_balance, change_account, sub_balance, add_balance,
  set_storage, delete_account, snapshot, revert_to_snapshot,
}
use crypto.State.Balance.{IsDebited, sub_balance-IsDebited}
use crypto.State.Snapshots.{
  History, done, after, adds, stores, snaps, deletes, revert_to_snapshot-restores,
}

abbrev alice : Uint256
alice = u256 10 0 0 0

abbrev funded : StateTrie
funded = add_balance alice (u256 500 0 0 0) new_state_trie

-- A deposit, a second snapshot, a slot, and the end of the account.
abbrev changed : StateTrie
changed = delete_account [] alice (
    set_storage alice (u256 1 0 0 0) (u256 2 0 0 0)
      (snapshot (add_balance alice (u256 7 0 0 0) (snapshot funded).0)).0)

changes : History (snapshot funded).1 (snapshot funded).0 changed
changes =
    after _ _ _
      (after _ _ _
        (after _ _ _
          (after _ _ _ (done (snapshot funded).0) (adds alice (u256 7 0 0 0) (snapshot funded).0))
          (snaps _))
        (stores alice (u256 1 0 0 0) (u256 2 0 0 0) _))
      (deletes [] alice _)

revert_to_snapshot-restores_example : revert_to_snapshot (snapshot funded).1 changed ≡ some funded
revert_to_snapshot-restores_example = revert_to_snapshot-restores funded changed changes

funded_balance : get_balance funded alice ≡ u256 500 0 0 0
unfolding get_balance add_balance change_account normalize_addr new_state_trie is_zero eq add256
    add_carry
funded_balance = refl

sub_balance-IsDebited_example :
    IsDebited funded alice (u256 30 0 0 0) (sub_balance alice (u256 30 0 0 0) funded)
sub_balance-IsDebited_example =
    sub_balance-IsDebited funded alice (u256 30 0 0 0) (rw funded_balance (ground arith))
      (ground arith)
