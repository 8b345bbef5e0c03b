-- ===== src/Rlp.antt =====
-- RLP: the encoders of pkg/c2crypto/mpt.go and pkg/c2block/tx_decode.go, and the decoder of the
-- latter.
pub mod Encode
pub mod Decode
pub mod Numbers
pub mod Head
pub mod RoundTrip
pub mod Lengths
pub mod Fields
pub mod Fuel
mod Examples
