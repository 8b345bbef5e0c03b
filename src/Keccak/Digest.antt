-- ===== src/Keccak/Digest.antt =====
-- A digest is made of bytes.
use crypto.Base.{ℕ, zero, suc, ◌+◌, ◌-◌, arith, List, if_elim, leb}
use crypto.Evm256.Uint256.Bytes.{AreBytes, append-AreBytes}
use crypto.Keccak.{keccak_f1600, extract_bytes, squeeze, keccak_sponge, keccak256}

extract_bytes-AreBytes : (st : List ℕ) (j n : ℕ) → AreBytes (extract_bytes st j n)
unfolding extract_bytes
extract_bytes-AreBytes st j zero = tt
extract_bytes-AreBytes st j (suc n) = (omega arith, extract_bytes-AreBytes st (j + 1) n)

squeeze-AreBytes : (fuel rate : ℕ) (st : List ℕ) (n : ℕ) → AreBytes (squeeze fuel rate st n)
unfolding squeeze
squeeze-AreBytes zero rate st n = extract_bytes-AreBytes st 0 n
squeeze-AreBytes (suc fuel) rate st n =
    if_elim AreBytes (leb rate n) _ _
      (append-AreBytes _ _ (extract_bytes-AreBytes st 0 rate)
        (squeeze-AreBytes fuel rate (keccak_f1600 st) (n - rate)))
      (extract_bytes-AreBytes st 0 n)

pub keccak256-AreBytes : (inp : List ℕ) → AreBytes (keccak256 inp)
unfolding keccak256 keccak_sponge
keccak256-AreBytes inp = squeeze-AreBytes 32 136 _ 32
