-- ===== src/Evm256/Uint256/Bytes.antt =====
-- The big-endian bytes of pkg/evm256/uint256.go.
use crypto.Base.{
  ℕ, zero, suc, ◌+◌, ◌-◌, ◌*◌, ◌^◌, ◌<◌, ◌≡◌, refl, ap, arith, List, [], ◌∷◌, ◌++◌, All, length,
  take, drop, word, replicate, length-take, if_elim, leb,
}
use native.Mathlib.Nat.{pow-suc, pow-le-pow_right}
use crypto.Evm256.Uint256.{
  Uint256, IsWord, be_value, be_uint64, byte_buffer, from_bytes_be, bytes_be,
}

abbrev pub AreBytes : List ℕ → Type 0
AreBytes = All (λ b. b < 256)

-- Bytes behind a number below `k`.
be_value-lt :
    (acc k : ℕ) (bs : List ℕ) → AreBytes bs → acc < k → be_value acc bs < k * 256 ^ length bs
be_value-lt acc k [] h p = omega arith
be_value-lt acc k (b ∷ bs) h p = omega (
  arith,
  be_value-lt (acc * 256 + b) (k * 256) bs h.1 (omega arith),
  ap (λ (t : ℕ). k * t) (pow-suc 256 (length bs)),
)

take-AreBytes : (n : ℕ) (xs : List ℕ) → AreBytes xs → AreBytes (take n xs)
take-AreBytes zero xs h = tt
take-AreBytes (suc n) [] h = tt
take-AreBytes (suc n) (x ∷ xs) h = (h.0, take-AreBytes n xs h.1)

drop-AreBytes : (n : ℕ) (xs : List ℕ) → AreBytes xs → AreBytes (drop n xs)
drop-AreBytes zero xs h = h
drop-AreBytes (suc n) [] h = tt
drop-AreBytes (suc n) (x ∷ xs) h = drop-AreBytes n xs h.1

pub append-AreBytes : (xs ys : List ℕ) → AreBytes xs → AreBytes ys → AreBytes (xs ++ ys)
append-AreBytes [] ys p q = q
append-AreBytes (x ∷ xs) ys p q = (p.0, append-AreBytes xs ys p.1 q)

pub zeros-AreBytes : (n : ℕ) (xs : List ℕ) → AreBytes xs → AreBytes (replicate n 0 ++ xs)
zeros-AreBytes zero xs h = h
zeros-AreBytes (suc n) xs h = (omega arith, zeros-AreBytes n xs h)

be_uint64-lt : (xs : List ℕ) → AreBytes xs → be_uint64 (take 8 xs) < word
be_uint64-lt xs h = omega (
  arith,
  be_value-lt 0 1 (take 8 xs) (take-AreBytes 8 xs h) (omega arith),
  pow-le-pow_right {n = 256} (omega arith) {i = length (take 8 xs)} {j = 8}
      (omega (arith, length-take 8 xs)),
)

byte_buffer-AreBytes : (b : List ℕ) → AreBytes b → AreBytes (byte_buffer b)
unfolding byte_buffer
byte_buffer-AreBytes b h =
    if_elim AreBytes (leb 32 (length b)) _ _
      (take-AreBytes 32 (drop (length b - 32) b) (drop-AreBytes (length b - 32) b h))
      (zeros-AreBytes (32 - length b) b h)

pub from_bytes_be-IsWord : (b : List ℕ) → AreBytes b → IsWord (from_bytes_be b)
unfolding from_bytes_be
from_bytes_be-IsWord b h =
    let bytes = byte_buffer-AreBytes b h in
    record {
      fits0 = be_uint64-lt (drop 24 (byte_buffer b)) (drop-AreBytes 24 (byte_buffer b) bytes);
      fits1 = be_uint64-lt (drop 16 (byte_buffer b)) (drop-AreBytes 16 (byte_buffer b) bytes);
      fits2 = be_uint64-lt (drop 8 (byte_buffer b)) (drop-AreBytes 8 (byte_buffer b) bytes);
      fits3 = be_uint64-lt (byte_buffer b) bytes;
    }

pub bytes_be-AreBytes : (z : Uint256) → AreBytes (bytes_be z) × (length (bytes_be z) ≡ 32)
unfolding bytes_be
bytes_be-AreBytes z = (omega arith, refl)

-- Writing a word as 32 bytes with `BytesBE` and reading them with `FromBytesBE` gives the word.
pub from_bytes_be-bytes_be : (z : Uint256) → IsWord z → from_bytes_be (bytes_be z) ≡ z
unfolding from_bytes_be bytes_be byte_buffer
from_bytes_be-bytes_be z w = ground arith
