-- ===== src/Evm256/Uint256.antt =====
-- pkg/evm256/uint256.go: the type, its bytes, and its comparisons.
pub mod Order
pub mod Bytes
use crypto.Base.{
  ℕ, ◌+◌, ◌-◌, ◌*◌, ◌/◌, ◌%◌, ◌^◌, ◌<◌, bit_or, Bool, not, ◌&&◌, List, [], ◌∷◌, ◌++◌, ltb, leb,
  ◌==◌, if◌then◌else◌, word, shr, length, take, drop, replicate,
}

-- `[4]uint64`: `w0` is the least significant limb, `z[0]`.
pub record Uint256 : Type 0 where
  pub w0 : ℕ
  pub w1 : ℕ
  pub w2 : ℕ
  pub w3 : ℕ

-- Each limb is a uint64.
pub record IsWord (z : Uint256) : Type 0 where
  pub fits0 : z.w0 < word
  pub fits1 : z.w1 < word
  pub fits2 : z.w2 < word
  pub fits3 : z.w3 < word

-- The number that the limbs stand for.
abbrev pub value : Uint256 → ℕ
value z = z.w0 + 2 ^ 64 * z.w1 + 2 ^ 128 * z.w2 + 2 ^ 192 * z.w3

abbrev pub u256 : ℕ → ℕ → ℕ → ℕ → Uint256
u256 a b c d = record { w0 = a; w1 = b; w2 = c; w3 = d }

abbrev pub limbs : Uint256 → List ℕ
limbs z = z.w0 ∷ z.w1 ∷ z.w2 ∷ z.w3 ∷ []

-- `Uint256{}`.
abbrev pub zero256 : Uint256
zero256 = u256 0 0 0 0

unfoldable pub from_u64 : ℕ → Uint256
from_u64 v = u256 v 0 0 0

-- binary.BigEndian.Uint64 and PutUint64, and the same for any number of bytes.
abbrev pub be_value : ℕ → List ℕ → ℕ
be_value acc [] = acc
be_value acc (b ∷ bs) = be_value (acc * 256 + b) bs

abbrev pub be_uint64 : List ℕ → ℕ
be_uint64 bs = be_value 0 bs

abbrev pub put_uint64 : ℕ → List ℕ
put_uint64 v =
    (v / 2 ^ 56 % 256)
    ∷ (v / 2 ^ 48 % 256)
    ∷ (v / 2 ^ 40 % 256)
    ∷ (v / 2 ^ 32 % 256)
    ∷ (v / 2 ^ 24 % 256)
    ∷ (v / 2 ^ 16 % 256)
    ∷ (v / 2 ^ 8 % 256)
    ∷ (v % 256)
    ∷ []

-- The 32-byte buffer: the last 32 bytes of `b`, or `b` behind zeros.
unfoldable pub byte_buffer : List ℕ → List ℕ
byte_buffer b =
    if leb 32 (length b) then take 32 (drop (length b - 32) b) else replicate (32 - length b) 0 ++ b

unfoldable pub from_bytes_be : List ℕ → Uint256
from_bytes_be b =
    let buf = byte_buffer b in
    u256 (be_uint64 (take 8 (drop 24 buf))) (be_uint64 (take 8 (drop 16 buf)))
      (be_uint64 (take 8 (drop 8 buf))) (be_uint64 (take 8 buf))

unfoldable pub bytes_be : Uint256 → List ℕ
bytes_be z = put_uint64 z.w3 ++ (put_uint64 z.w2 ++ (put_uint64 z.w1 ++ put_uint64 z.w0))

unfoldable pub is_zero : Uint256 → Bool
is_zero z = bit_or (bit_or (bit_or z.w0 z.w1) z.w2) z.w3 == 0

unfoldable pub eq : Uint256 → Uint256 → Bool
eq a b = a.w0 == b.w0 && (a.w1 == b.w1 && (a.w2 == b.w2 && a.w3 == b.w3))

-- The results -1, 0 and 1 of `Cmp`.
pub data Sign : Type 0 where
  less same more : Sign

-- One round of the loop in `Cmp`, with the rounds below it.
abbrev cmp_limb : ℕ → ℕ → Sign → Sign
cmp_limb a b rest = if ltb a b then less else if ltb b a then more else rest

unfoldable pub cmp : Uint256 → Uint256 → Sign
cmp a b = cmp_limb a.w3 b.w3 (cmp_limb a.w2 b.w2 (cmp_limb a.w1 b.w1 (cmp_limb a.w0 b.w0 same)))

unfoldable pub is_neg : Uint256 → Bool
is_neg z = not (shr z.w3 63 == 0)
