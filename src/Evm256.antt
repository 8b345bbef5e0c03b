-- ===== src/Evm256.antt =====
-- pkg/evm256: 256-bit words as four 64-bit limbs.
pub mod Uint256
pub mod Arith
pub mod Division
pub mod Bitwise
pub mod Tests
pub mod Examples
