-- ===== src/Seq.antt =====
-- pkg/c2seq: the sequencer's gas arithmetic, its retryable tickets, and its queues.
pub mod Types
pub mod Gas
pub mod Retryable
pub mod Queues
pub mod Examples
pub mod Mempool
pub mod Batch
