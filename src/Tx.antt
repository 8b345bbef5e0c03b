-- ===== src/Tx.antt =====
-- The transactions of pkg/c2block: their decoding, and the recovery of their sender.
pub mod Parse
pub mod Signing
pub mod Values
pub mod Fields
pub mod RoundTrip
mod Examples
