-- ===== src/Rlp/Numbers.antt =====
-- The lengths and numbers that RLP writes in big-endian bytes.
use crypto.Base.{
  ℕ, zero, suc, ◌+◌, ◌*◌, ◌/◌, ◌%◌, ◌^◌, ◌<◌, ◌≤◌, ◌≡◌, refl, ap, ◌∙◌, arith, Bool-cases, inl, inr,
  ◌==◌, [], ◌∷◌, ◌++◌, length, length-append, word, bit_or, shl,
}
use crypto.Base.Bits.{bit_or-add}
use native.Mathlib.Nat.{
  pow-suc, pow-zero, one-le-pow, pow-le-pow_right, mul-le-mul_right, mul-le-mul_left,
}
use crypto.Evm256.Uint256.{be_value}
use crypto.Evm256.Uint256.Bytes.{AreBytes, append-AreBytes}
use crypto.Rlp.Encode.{Bytes, int_len_from, rlp_write_int}
use crypto.Rlp.Decode.{read_int_from}

-- A number fits the bytes that it is given.
pub int_len_from-fits : (fuel n : ℕ) → n < 256 ^ fuel → n < 256 ^ int_len_from fuel n
unfolding int_len_from
int_len_from-fits zero n h = h
int_len_from-fits (suc fuel) n h = elim (Bool-cases (n == 0)) [
  | inl none_left ↦ rw none_left (ground (arith, pow-zero 256))
  | inr some_left ↦ rw some_left (
      omega (
        arith,
        pow-suc 256 fuel,
        pow-suc 256 (int_len_from fuel (n / 256)),
        int_len_from-fits fuel (n / 256) (omega (arith, pow-suc 256 fuel)),
      ))
]

pub int_len_from-le : (fuel n : ℕ) → int_len_from fuel n ≤ fuel
unfolding int_len_from
int_len_from-le zero n = omega arith
int_len_from-le (suc fuel) n = ground (arith, int_len_from-le fuel (n / 256))

pub int_len_from-pos : (fuel n : ℕ) → 0 < n → 0 < fuel → 0 < int_len_from fuel n
unfolding int_len_from
int_len_from-pos zero n h p = absurd (omega arith)
int_len_from-pos (suc fuel) n h p = ground arith

pub length-rlp_write_int : (n k : ℕ) → length (rlp_write_int n k) ≡ k
unfolding rlp_write_int
length-rlp_write_int n zero = refl
length-rlp_write_int n (suc k) = omega (
  arith,
  length-append (rlp_write_int (n / 256) k) ((n % 256) ∷ []),
  length-rlp_write_int (n / 256) k,
)

pub rlp_write_int-AreBytes : (n k : ℕ) → AreBytes (rlp_write_int n k)
unfolding rlp_write_int
rlp_write_int-AreBytes n zero = tt
rlp_write_int-AreBytes n (suc k) =
    append-AreBytes (rlp_write_int (n / 256) k) ((n % 256) ∷ [])
      (rlp_write_int-AreBytes (n / 256) k) (omega arith, tt)

be_value-append :
    (acc : ℕ) (xs ys : Bytes) → be_value acc (xs ++ ys) ≡ be_value (be_value acc xs) ys
be_value-append acc [] ys = refl
be_value-append acc (x ∷ xs) ys = be_value-append (acc * 256 + x) xs ys

pub be_value-rlp_write_int : (k n : ℕ) → n < 256 ^ k → be_value 0 (rlp_write_int n k) ≡ n
unfolding rlp_write_int
be_value-rlp_write_int zero n h = ground (arith, pow-zero 256)
be_value-rlp_write_int (suc k) n h = omega (
  arith,
  be_value-append 0 (rlp_write_int (n / 256) k) ((n % 256) ∷ []),
  be_value-rlp_write_int k (n / 256) (omega (arith, pow-suc 256 k)),
)

-- Up to eight bytes are read without overflow.
read_int_from-value :
    (acc : ℕ) (bs : Bytes)
    → AreBytes bs
    → (acc + 1) * 256 ^ length bs ≤ word
    → read_int_from acc bs ≡ be_value acc bs
unfolding read_int_from
read_int_from-value acc [] h fits = refl
read_int_from-value acc (c ∷ cs) h fits =
    let p = 256 ^ length cs in
    let grows = pow-suc 256 (length cs) in
    let whole = ap (λ (t : ℕ). (acc + 1) * t) grows in
    let small : acc * 256 < word =
      omega (
        arith,
        fits,
        whole,
        mul-le-mul_left (acc + 1) (one-le-pow (length cs) 256 (omega arith)),
      ) in
    let joined : bit_or (shl acc 8) c ≡ acc * 256 + c =
      ap (λ (t : ℕ). bit_or t c) (omega arith) ∙ bit_or-add 8 acc c h.0 in
    rw joined (
      read_int_from-value (acc * 256 + c) cs h.1
        (omega (arith, fits, whole, mul-le-mul_right p h.0)))

pub rlp_read_int-value :
    (bs : Bytes) → AreBytes bs → length bs ≤ 8 → read_int_from 0 bs ≡ be_value 0 bs
rlp_read_int-value bs h short =
    read_int_from-value 0 bs h (omega (arith, pow-le-pow_right {n = 256} (omega arith) short))
