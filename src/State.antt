-- ===== src/State.antt =====
-- pkg/statetrie: the accounts and the storage, and the journal that undoes their changes.
pub mod Store
pub mod Undo
pub mod Revisions
pub mod Snapshots
pub mod Held
pub mod Balance
mod Examples
