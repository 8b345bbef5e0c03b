-- ===== src/Trie/Keys.antt =====
-- The keys of the receipts: different numbers have different ones.
use crypto.Base.{
  ℕ, ◌+◌, ◌*◌, ◌<◌, ◌≤◌, ◌≡◌, refl, sym, ap, ◌∙◌, arith, Bool-cases, inl, inr, ltb, true, [], ◌∷◌,
  length, word, append-nil, All, if_elim,
}
use crypto.Base.Bits.{bit_and-mask}
use crypto.Evm256.Uint256.Bytes.{AreBytes}
use crypto.Rlp.Encode.{Bytes, rlp_u64_enc, rlp_encode_bytes, rlp_write_int, int_len_from, is_single}
use crypto.Rlp.Decode.{
  Outcome, ok, fail, panic, out_of_fuel, ◌>>=◌, rlp_decode, rlp_fuel, rlp_uint64,
}
use crypto.Rlp.Numbers.{int_len_from-le, length-rlp_write_int, rlp_write_int-AreBytes}
use crypto.Rlp.RoundTrip.{emit, rlp_decode-emit}
use crypto.Rlp.Fields.{u64_val, rlp_uint64-u64_val, emit-u64_val}
use crypto.Trie.Node.{bytes_to_nibbles}

abbrev pub receipt_key : ℕ → Bytes
receipt_key i = bytes_to_nibbles (rlp_u64_enc i)

-- Two nibbles make a byte again.
from_nibbles : Bytes → Bytes
from_nibbles [] = []
from_nibbles (x ∷ []) = []
from_nibbles (x ∷ y ∷ rest) = (x * 16 + y) ∷ from_nibbles rest

from_nibbles-bytes : (b : Bytes) → from_nibbles (bytes_to_nibbles b) ≡ b
unfolding from_nibbles bytes_to_nibbles
from_nibbles-bytes [] = refl
from_nibbles-bytes (x ∷ b) =
    rw (from_nibbles-bytes b) (ap (λ (t : ℕ). t ∷ b) (omega (arith, bit_and-mask 4 x)))

pub bytes_to_nibbles-AreNibbles :
    (b : Bytes) → All (λ x. x < 256) b → All (λ x. x < 16) (bytes_to_nibbles b)
unfolding bytes_to_nibbles
bytes_to_nibbles-AreNibbles [] h = tt
bytes_to_nibbles-AreNibbles (x ∷ b) h =
    (omega (arith, h.0), (omega (arith, bit_and-mask 4 x), bytes_to_nibbles-AreNibbles b h.1))

number_of : Bytes → Outcome ℕ
number_of b = rlp_decode (rlp_fuel b) b >>= λ r. rlp_uint64 r.0

length-u64 : (i : ℕ) → length (rlp_encode_bytes (rlp_write_int i (int_len_from 8 i))) ≤ 9
unfolding rlp_encode_bytes
length-u64 i =
    let b = rlp_write_int i (int_len_from 8 i) in
    let size = length-rlp_write_int i (int_len_from 8 i) in
    let at_most = int_len_from-le 8 i in
    let short : ltb (length b) 56 ≡ true = ground arith in
    elim (Bool-cases (is_single b)) [
      | inl single ↦ rw single (omega arith)
      | inr several ↦ rw (several, short) (omega arith)
    ]

number_of-u64 : (i : ℕ) → i < word → number_of (rlp_u64_enc i) ≡ ok i
unfolding number_of emit
number_of-u64 i h =
    let v = u64_val i in
    let read : rlp_decode (rlp_fuel (emit v)) (emit v) ≡ ok (v, []) =
      rw (append-nil (emit v)) at (rlp_decode-emit v [] (omega (arith, length-u64 i))) in
    rw (sym (emit-u64_val i), read) (rlp_uint64-u64_val i h)

value_or : Outcome ℕ → ℕ
value_or (ok n) = n
value_or (fail e) = 0
value_or panic = 0
value_or out_of_fuel = 0

encode-AreBytes : (b : Bytes) → length b ≤ 8 → AreBytes b → AreBytes (rlp_encode_bytes b)
unfolding rlp_encode_bytes
encode-AreBytes b short h =
    let little : ltb (length b) 56 ≡ true = ground arith in
    if_elim AreBytes (is_single b) _ _ h (rw little (omega arith, h))

pub receipt_key-AreNibbles : (i : ℕ) → All (λ x. x < 16) (receipt_key i)
unfolding emit
receipt_key-AreNibbles i =
    let b = rlp_write_int i (int_len_from 8 i) in
    rw (sym (emit-u64_val i)) (
      bytes_to_nibbles-AreNibbles (rlp_encode_bytes b) (
        encode-AreBytes b
          (omega (arith, length-rlp_write_int i (int_len_from 8 i), int_len_from-le 8 i))
          (rlp_write_int-AreBytes i (int_len_from 8 i))))

pub receipt_key-injective : (i j : ℕ) → i < word → j < word → receipt_key i ≡ receipt_key j → i ≡ j
unfolding value_or
receipt_key-injective i j p q e =
    let same : rlp_u64_enc i ≡ rlp_u64_enc j =
      sym (from_nibbles-bytes (rlp_u64_enc i))
      ∙ ap from_nibbles e
      ∙ from_nibbles-bytes (rlp_u64_enc j) in
    ap value_or (sym (number_of-u64 i p) ∙ ap number_of same ∙ number_of-u64 j q)
