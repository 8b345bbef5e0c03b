-- ===== src/Block.antt =====
-- The processing of transactions and blocks, pkg/c2block/block_processor.go. Script
-- and Call are the runs of pkg/c2block/call_context.go.
pub mod Fees
pub mod Types
pub mod Script
pub mod Call
pub mod Process
pub mod Effects
pub mod Frames
pub mod Restore
pub mod Settle
mod Examples
