-- ===== src/Trie.antt =====
-- The Merkle Patricia trie of a block's receipts: pkg/c2block/block_processor.go and
-- pkg/c2crypto/mpt.go.
pub mod Node
pub mod Prefix
pub mod Split
pub mod Lookup
pub mod Entries
pub mod Shape
pub mod Same
pub mod Unique
pub mod Encode
pub mod Receipts
pub mod Settled
pub mod Oversize
pub mod Keys
pub mod Content
pub mod Compact
mod Examples
