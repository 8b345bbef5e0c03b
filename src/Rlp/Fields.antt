-- ===== src/Rlp/Fields.antt =====
-- The values of the fields of a transaction, as the encoders write them and as `rlpUint64`,
-- `rlpU256` and `rlpAddr` read them.
use crypto.Base.{
  ℕ, zero, suc, ◌-◌, ◌/◌, ◌%◌, ◌^◌, ◌<◌, ◌≤◌, ◌≡◌, refl, sym, ap, ◌∙◌, arith, Bool-cases, leb, take,
  true, false, inl, inr, ◌==◌, ◌&&◌, ◌||◌, ltb, [], ◌∷◌, ◌++◌, Option, none, some, length, bit_or,
  replicate, word, get_or,
}
use crypto.Base.Bits.{bit_or-eq_zero}
use native.Mathlib.Nat.{pow-suc, pow-zero}
use crypto.Evm256.Uint256.{Uint256, IsWord, is_zero, bytes_be, from_bytes_be, byte_buffer}
use crypto.Evm256.Uint256.Bytes.{from_bytes_be-bytes_be, bytes_be-AreBytes}
use crypto.Rlp.Encode.{
  Bytes, int_len_from, rlp_write_int, trim_zeros, rlp_u64_enc, rlp_u256_enc, rlp_addr_enc,
  rlp_encode_bytes,
}
use crypto.Rlp.Decode.{ok, bytes, RlpVal, rlp_uint64, rlp_u256, rlp_addr, rlp_read_int}
use crypto.Rlp.Numbers.{
  int_len_from-fits, int_len_from-le, int_len_from-pos, length-rlp_write_int,
  rlp_write_int-AreBytes, be_value-rlp_write_int, rlp_read_int-value,
}
use crypto.Rlp.RoundTrip.{emit}

abbrev pub u64_val : ℕ → RlpVal
u64_val n = bytes (rlp_write_int n (int_len_from 8 n))

abbrev pub u256_val : Uint256 → RlpVal
u256_val z = bytes (trim_zeros (bytes_be z))

abbrev pub addr_val : Option Bytes → RlpVal
addr_val none = bytes []
addr_val (some a) = bytes a

int_len_from-zero : (fuel : ℕ) → int_len_from fuel 0 ≡ 0
unfolding int_len_from
int_len_from-zero zero = refl
int_len_from-zero (suc fuel) = refl

first-append : (xs ys : Bytes) → 0 < length xs → get_or (xs ++ ys) 0 0 ≡ get_or xs 0 0
first-append [] ys h = absurd (omega arith)
first-append (x ∷ xs) ys h = refl

encode_nothing : rlp_encode_bytes [] ≡ 0x80 ∷ []
unfolding rlp_encode_bytes
encode_nothing = refl

uint64_zero : rlp_uint64 (u64_val 0) ≡ ok 0
unfolding rlp_uint64 int_len_from rlp_write_int
uint64_zero = refl

write_zero : rlp_write_int 0 (int_len_from 8 0) ≡ []
unfolding int_len_from rlp_write_int
write_zero = refl

needs_bytes : (fuel m : ℕ) → m < 256 ^ fuel → 0 < m → 0 < fuel
needs_bytes zero m h p = absurd (omega (arith, pow-zero 256))
needs_bytes (suc fuel) m h p = omega arith

-- The first byte is the highest digit.
write_int-top :
    (fuel n : ℕ) → n < 256 ^ fuel → 0 < n → 0 < get_or (rlp_write_int n (int_len_from fuel n)) 0 0
unfolding int_len_from rlp_write_int
write_int-top zero n h p = absurd (omega (arith, pow-zero 256))
write_int-top (suc fuel) n h p =
    let k = int_len_from fuel (n / 256) in
    let low = (n % 256) ∷ [] in
    let not_zero : (n == 0) ≡ false = ground arith in
    rw not_zero (elim (Bool-cases (n / 256 == 0)) [
      | inl last ↦
          let none_left : n / 256 ≡ 0 = ground arith in
          rw (none_left, int_len_from-zero fuel) (omega arith)
      | inr more ↦
          let many : 0 < n / 256 = ground arith in
          let below : n / 256 < 256 ^ fuel = omega (arith, pow-suc 256 fuel) in
          let written : 0 < length (rlp_write_int (n / 256) k) = omega (
            arith,
            length-rlp_write_int (n / 256) k,
            int_len_from-pos fuel (n / 256) many (needs_bytes fuel (n / 256) below many),
          ) in
          rw (first-append (rlp_write_int (n / 256) k) low written)
            (write_int-top fuel (n / 256) below many)
    ])

uint64_reads :
    (bs : Bytes) → 0 < get_or bs 0 0 → length bs ≤ 8 → rlp_uint64 (bytes bs) ≡ ok (rlp_read_int bs)
unfolding rlp_uint64
uint64_reads [] p h = absurd (omega arith)
uint64_reads (b ∷ bs) p h =
    let fine : ((b == 0) || ltb 8 (length (b ∷ bs))) ≡ false = ground arith in rw fine refl

pub rlp_uint64-u64_val : (n : ℕ) → n < word → rlp_uint64 (u64_val n) ≡ ok n
rlp_uint64-u64_val zero h = uint64_zero
rlp_uint64-u64_val (suc m) h =
    let n = suc m in
    let k = int_len_from 8 n in
    let size = length-rlp_write_int n k in
    let at_most = int_len_from-le 8 n in
    uint64_reads (rlp_write_int n k) (write_int-top 8 n h (omega arith)) (omega arith)
    ∙ ap ok (
        rlp_read_int-value (rlp_write_int n k) (rlp_write_int-AreBytes n k) (omega arith)
        ∙ be_value-rlp_write_int k n (int_len_from-fits 8 n h))

pub emit-u64_val : (n : ℕ) → emit (u64_val n) ≡ rlp_u64_enc n
unfolding emit rlp_u64_enc
emit-u64_val zero = rw (write_zero, rlp_encode_bytes) encode_nothing
emit-u64_val (suc m) = let not_zero : (suc m == 0) ≡ false = ground arith in rw not_zero refl

pub emit-addr_val : (a : Option Bytes) → emit (addr_val a) ≡ rlp_addr_enc a
unfolding emit rlp_addr_enc
emit-addr_val none = encode_nothing
emit-addr_val (some a) = refl

length-trim_zeros : (bs : Bytes) → length (trim_zeros bs) ≤ length bs
unfolding trim_zeros
length-trim_zeros [] = omega arith
length-trim_zeros (b ∷ bs) = ground (arith, length-trim_zeros bs)

-- Behind the zeros that were cut off, the bytes are as before.
pad_trim : (bs : Bytes) → replicate (length bs - length (trim_zeros bs)) 0 ++ trim_zeros bs ≡ bs
unfolding trim_zeros
pad_trim [] = refl
pad_trim (b ∷ bs) = elim (Bool-cases (b == 0)) [
  | inl cut ↦
      let none_lost : suc (length bs) - length (trim_zeros bs)
          ≡ suc (length bs - length (trim_zeros bs)) =
        omega (arith, length-trim_zeros bs) in
      let zero_byte : b ≡ 0 = ground arith in rw (zero_byte, none_lost) (ap (◌∷◌ 0) (pad_trim bs))
  | inr kept ↦
      let none_cut : suc (length bs) - suc (length bs) ≡ 0 = omega arith in rw (kept, none_cut) refl
]

take_all : (bs : Bytes) (n : ℕ) → n ≡ length bs → take n bs ≡ bs
take_all [] zero h = refl
take_all [] (suc n) h = absurd (omega arith)
take_all (b ∷ bs) zero h = absurd (omega arith)
take_all (b ∷ bs) (suc n) h = ap (◌∷◌ b) (take_all bs n (omega arith))

byte_buffer-pad :
    (bs : Bytes) → length bs ≤ 32 → byte_buffer bs ≡ replicate (32 - length bs) 0 ++ bs
unfolding byte_buffer
byte_buffer-pad bs h = elim (Bool-cases (leb 32 (length bs))) [
  | inl full ↦ let size : length bs ≡ 32 = ground arith in rw (size, take_all bs 32 (sym size)) refl
  | inr partial ↦ rw partial refl
]

trim_zeros-first : (bs : Bytes) → 1 < length (trim_zeros bs) → 0 < get_or (trim_zeros bs) 0 0
unfolding trim_zeros
trim_zeros-first [] h = absurd (omega arith)
trim_zeros-first (b ∷ bs) h = elim (Bool-cases (b == 0)) [
  | inl cut ↦ rw (cut, trim_zeros) (trim_zeros-first bs (ground arith))
  | inr kept ↦ rw kept (ground arith)
]

u256_reads :
    (bs : Bytes)
    → length bs ≤ 32
    → (1 < length bs → 0 < get_or bs 0 0)
    → rlp_u256 (bytes bs) ≡ ok (from_bytes_be bs)
unfolding rlp_u256
u256_reads bs h top =
    let short : ltb 32 (length bs) ≡ false = ground arith in
    let minimal : (ltb 1 (length bs) && (get_or bs 0 0 == 0)) ≡ false = ground arith in
    rw (short, minimal) refl

same_buffer :
    (xs ys : Bytes) → byte_buffer xs ≡ byte_buffer ys → from_bytes_be xs ≡ from_bytes_be ys
unfolding from_bytes_be
same_buffer xs ys h = rw h refl

trimmed_buffer : (bs : Bytes) → length bs ≡ 32 → byte_buffer (trim_zeros bs) ≡ byte_buffer bs
trimmed_buffer bs size =
    let padded : replicate (32 - length (trim_zeros bs)) 0 ++ trim_zeros bs ≡ bs =
      rw (sym size) (pad_trim bs) in
    let nothing_to_pad : 32 - length bs ≡ 0 = omega arith in
    let own : byte_buffer bs ≡ bs = rw nothing_to_pad at (byte_buffer-pad bs (omega arith)) in
    byte_buffer-pad (trim_zeros bs) (omega (arith, length-trim_zeros bs)) ∙ padded ∙ sym own

pub rlp_u256-u256_val : (z : Uint256) → IsWord z → rlp_u256 (u256_val z) ≡ ok z
rlp_u256-u256_val z w =
    let be = bytes_be z in
    let size = (bytes_be-AreBytes z).1 in
    u256_reads (trim_zeros be) (omega (arith, length-trim_zeros be)) (trim_zeros-first be)
    ∙ ap ok (same_buffer (trim_zeros be) be (trimmed_buffer be size) ∙ from_bytes_be-bytes_be z w)

is_zero→zero : (z : Uint256) → is_zero z ≡ true → trim_zeros (bytes_be z) ≡ []
unfolding is_zero bytes_be trim_zeros
is_zero→zero z h =
    let z3 = (bit_or-eq_zero (bit_or (bit_or z.w0 z.w1) z.w2) z.w3).0 (ground arith) in
    let z2 = (bit_or-eq_zero (bit_or z.w0 z.w1) z.w2).0 z3.0 in
    let z1 = (bit_or-eq_zero z.w0 z.w1).0 z2.0 in rw (z1.0, z1.1, z2.1, z3.1) refl

pub emit-u256_val : (z : Uint256) → emit (u256_val z) ≡ rlp_u256_enc z
unfolding emit rlp_u256_enc
emit-u256_val z = elim (Bool-cases (is_zero z)) [
  | inl zeros ↦ rw (zeros, is_zero→zero z zeros) encode_nothing
  | inr other ↦ rw other refl
]

-- An address has 20 bytes.
abbrev pub IsAddress : Option Bytes → Type 0
IsAddress none = Unit
IsAddress (some a) = length a ≡ 20

pub rlp_addr-addr_val : (a : Option Bytes) → IsAddress a → rlp_addr (addr_val a) ≡ ok a
unfolding rlp_addr
rlp_addr-addr_val none h = refl
rlp_addr-addr_val (some a) h = rw h refl
