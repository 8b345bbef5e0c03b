-- ===== src/Keccak/Tests.antt =====
-- Known digests.
use crypto.Base.{◌≡◌, refl, [], ◌∷◌}
use crypto.Evm256.Uint256.{be_value}
use crypto.Keccak.{
  keccak256, keccak_sponge, keccak_f1600, xor_bytes, absorb, squeeze, extract_bytes,
}

empty_digest :
    be_value 0 (keccak256 []) ≡ 0xc5d2460186f7233c927e7db2dcc703c0e500b653ca82273b7bfad8045d85a470
unfolding keccak256 keccak_sponge keccak_f1600 xor_bytes absorb squeeze extract_bytes
empty_digest = refl

abc_digest :
    be_value 0 (keccak256 (0x61 ∷ 0x62 ∷ 0x63 ∷ []))
    ≡ 0x4e03657aea45a94fc7d47ba826c8d667c0d1e6e33a64a036ec44f58fa12d6c45
unfolding keccak256 keccak_sponge keccak_f1600 xor_bytes absorb squeeze extract_bytes
abc_digest = refl
