-- ===== src/Keccak.antt =====
-- pkg/c2crypto/keccak.go: the permutation, the sponge, and the two hash functions.
mod Tests
pub mod Digest
use crypto.Base.{
  ℕ, zero, suc, ◌+◌, ◌-◌, ◌*◌, ◌/◌, ◌%◌, bit_and, bit_or, bit_xor, List, [], ◌∷◌, ◌++◌, leb, ◌==◌,
  if◌then◌else◌, flip, shl, shr, get_or, set, take, drop, replicate, length,
}

-- `keccakRC`.
abbrev round_constants : List ℕ
round_constants =
    0x0000000000000001 ∷ 0x0000000000008082 ∷ 0x800000000000808A ∷ 0x8000000080008000
    ∷ 0x000000000000808B ∷ 0x0000000080000001 ∷ 0x8000000080008081 ∷ 0x8000000000008009
    ∷ 0x000000000000008A ∷ 0x0000000000000088 ∷ 0x0000000080008009 ∷ 0x000000008000000A
    ∷ 0x000000008000808B ∷ 0x800000000000008B ∷ 0x8000000000008089 ∷ 0x8000000000008003
    ∷ 0x8000000000008002 ∷ 0x8000000000000080 ∷ 0x000000000000800A ∷ 0x800000008000000A
    ∷ 0x8000000080008081 ∷ 0x8000000000008080 ∷ 0x0000000080000001 ∷ 0x8000000080008008 ∷ []

-- bits.RotateLeft64, for less than 64 bits.
abbrev rotate_left : ℕ → ℕ → ℕ
rotate_left x k = bit_or (shl x k) (shr x (64 - k))

-- `bca ^ (^bce & bci)`.
abbrev chi : ℕ → ℕ → ℕ → ℕ
chi a b c = bit_xor a (bit_and (flip b) c)

-- The five lanes `eba` to `ebu`, from the rotated lanes `bca` to `bcu`.
unfoldable plane : ℕ → ℕ → ℕ → ℕ → ℕ → List ℕ
plane a e i o u = chi a e i ∷ chi e i o ∷ chi i o u ∷ chi o u a ∷ chi u a e ∷ []

unfoldable column : List ℕ → ℕ → ℕ
column st x =
    let l = λ (k : ℕ). get_or st (x + k) 0 in
    bit_xor (bit_xor (bit_xor (bit_xor (l 0) (l 5)) (l 10)) (l 15)) (l 20)

-- The lane `i`, with `d` added and then rotated.
abbrev mixed : List ℕ → ℕ → ℕ → ℕ → ℕ
mixed st i d k = rotate_left (bit_xor (get_or st i 0) d) k

-- One round. The loop of `KeccakF1600` is unrolled: its body has two, of which the second
-- writes back from the lanes `e..` to the lanes `a..`.
unfoldable pub round : ℕ → List ℕ → List ℕ
unfolding plane column
round rc st =
    let ca = column st 0 in
    let ce = column st 1 in
    let ci = column st 2 in
    let co = column st 3 in
    let cu = column st 4 in
    let da = bit_xor cu (rotate_left ce 1) in
    let de = bit_xor ca (rotate_left ci 1) in
    let di = bit_xor ce (rotate_left co 1) in
    let d_o = bit_xor ci (rotate_left cu 1) in
    let du = bit_xor co (rotate_left ca 1) in
    let a0 = bit_xor (get_or st 0 0) da in
    let e0 = mixed st 6 de 44 in
    let i0 = mixed st 12 di 43 in
    (bit_xor (chi a0 e0 i0) rc ∷ drop 1 (plane a0 e0 i0 (mixed st 18 d_o 21) (mixed st 24 du 14)))
    ++ (plane (mixed st 3 d_o 28) (mixed st 9 du 20) (mixed st 10 da 3) (mixed st 16 de 45)
          (mixed st 22 di 61)
        ++ (plane (mixed st 1 de 1) (mixed st 7 di 6) (mixed st 13 d_o 25) (mixed st 19 du 8)
              (mixed st 20 da 18)
            ++ (plane (mixed st 4 du 27) (mixed st 5 da 36) (mixed st 11 de 10) (mixed st 17 di 15)
                  (mixed st 23 d_o 56)
                ++ plane (mixed st 2 di 62) (mixed st 8 d_o 55) (mixed st 14 du 39)
                    (mixed st 15 da 41) (mixed st 21 de 2))))

unfoldable pub rounds : List ℕ → List ℕ → List ℕ
rounds [] st = st
rounds (rc ∷ rcs) st = rounds rcs (round rc st)

unfoldable pub keccak_f1600 : List ℕ → List ℕ
unfolding rounds round
keccak_f1600 st = rounds round_constants st

abbrev xor_lane : List ℕ → ℕ → ℕ → List ℕ
xor_lane st i v = set st i (bit_xor (get_or st i 0) v)

-- The bytes behind the last whole lane of `xorBytes`, from byte `j` of lane `i`.
unfoldable pub xor_tail : List ℕ → ℕ → ℕ → List ℕ → List ℕ
xor_tail st i j [] = st
xor_tail st i j (b ∷ bs) = xor_tail (xor_lane st i (shl b (j * 8))) i (j + 1) bs

abbrev le_uint64 : ℕ → ℕ → ℕ → ℕ → ℕ → ℕ → ℕ → ℕ → ℕ
le_uint64 b0 b1 b2 b3 b4 b5 b6 b7 =
    bit_or
      (bit_or
        (bit_or
          (bit_or (bit_or (bit_or (bit_or b0 (shl b1 8)) (shl b2 16)) (shl b3 24)) (shl b4 32))
          (shl b5 40))
        (shl b6 48))
      (shl b7 56)

unfoldable pub xor_bytes : List ℕ → ℕ → List ℕ → List ℕ
unfolding xor_tail
xor_bytes st i (b0 ∷ b1 ∷ b2 ∷ b3 ∷ b4 ∷ b5 ∷ b6 ∷ b7 ∷ bs) =
    xor_bytes (xor_lane st i (le_uint64 b0 b1 b2 b3 b4 b5 b6 b7)) (i + 1) bs
xor_bytes st i bs = xor_tail st i 0 bs

-- `extractBytes`: bytes `j` to `j + n - 1`, eight to a lane, the lowest first.
unfoldable pub extract_bytes : List ℕ → ℕ → ℕ → List ℕ
extract_bytes st j zero = []
extract_bytes st j (suc n) =
    shr (get_or st (j / 8) 0) (j % 8 * 8) % 256 ∷ extract_bytes st (j + 1) n

-- The loop that takes in whole blocks; the state, and the bytes left.
unfoldable pub absorb : ℕ → ℕ → List ℕ → List ℕ → List ℕ × List ℕ
absorb zero rate st inp = (st, inp)
absorb (suc fuel) rate st inp =
    let rest = absorb fuel rate (keccak_f1600 (xor_bytes st 0 (take rate inp))) (drop rate inp) in
    if leb rate (length inp) then rest else (st, inp)

unfoldable pub squeeze : ℕ → ℕ → List ℕ → ℕ → List ℕ
squeeze zero rate st n = extract_bytes st 0 n
squeeze (suc fuel) rate st n =
    let rest = extract_bytes st 0 rate ++ squeeze fuel rate (keccak_f1600 st) (n - rate) in
    if leb rate n then rest else extract_bytes st 0 n

-- `keccakSponge`, with `n` bytes of output. A block takes at least one byte, so the lengths
-- bound the rounds of both loops.
unfoldable pub keccak_sponge : List ℕ → ℕ → ℕ → List ℕ
keccak_sponge inp n rate =
    let (st, left) = absorb (length inp) rate (replicate 25 0) inp in
    let st1 = if length left == 0 then st else xor_bytes st 0 left in
    let st2 = xor_lane st1 (shr (length left) 3) (shl 1 (bit_and (length left) 7 * 8)) in
    let st3 = xor_lane st2 (shr (rate - 1) 3) (shl 0x80 (bit_and (rate - 1) 7 * 8)) in
    squeeze n rate (keccak_f1600 st3) n

unfoldable pub keccak256 : List ℕ → List ℕ
keccak256 inp = keccak_sponge inp 32 136

unfoldable pub keccak512 : List ℕ → List ℕ
unfolding keccak_sponge
keccak512 inp = keccak_sponge inp 64 72
