-- ===== src/Rlp/Lengths.antt =====
-- Heads of `rlpDecode` that no encoder writes: lengths near the limit of an int.
use crypto.Base.{
  ℕ, suc, ◌+◌, ◌-◌, ◌^◌, ◌<◌, ◌≤◌, ◌≡◌, refl, sym, arith, Bool, if◌then◌else◌, true, false, ltb,
  leb, ◌∷◌, ◌++◌, length, length-append, take, take-append,
}
use crypto.Evm256.Uint256.{be_value}
use crypto.Evm256.Uint256.Bytes.{AreBytes}
use crypto.Rlp.Encode.{Bytes}
use crypto.Rlp.Decode.{panic, rlp_head, rlp_long, rlp_payload, rlp_decode, rlp_read_int}
use crypto.Rlp.Numbers.{rlp_read_int-value}

long_panics :
    (b : Bool) (first : ℕ) (len rest : Bytes)
    → AreBytes len
    → length len ≡ 8
    → 2 ^ 63 - 9 ≤ be_value 0 len
    → be_value 0 len < 2 ^ 63
    → rlp_long b (first ∷ (len ++ rest)) 8 ≡ panic
unfolding rlp_long rlp_payload
long_panics b first len rest bytes eight low high =
    let inside : ltb (length (first ∷ (len ++ rest))) 9 ≡ false =
      let whole = length-append len rest in ground arith in
    let number : take 8 (len ++ rest) ≡ len = take-append len rest 8 (sym eight) in
    let read : rlp_read_int len ≡ be_value 0 len = rlp_read_int-value len bytes (omega arith) in
    let not_negative : leb (2 ^ 63) (be_value 0 len) ≡ false = ground arith in
    let not_short : ltb (be_value 0 len) 56 ≡ false = ground arith in
    let overflows : leb (2 ^ 63) (1 + 8 + be_value 0 len) ≡ true = ground arith in
    rw (inside, number, read, not_negative, not_short, overflows) refl

-- `rlpDecode` panics on every input that starts with the byte 0xbf or 0xff and a length of eight
-- bytes from 2 ^ 63 - 9 to 2 ^ 63 - 1, whatever follows and with any fuel but none: the end of the
-- payload overflows an int.
pub rlp_decode-overflow :
    (fuel : ℕ) (b : Bool) (len rest : Bytes)
    → AreBytes len
    → length len ≡ 8
    → 2 ^ 63 - 9 ≤ be_value 0 len
    → be_value 0 len < 2 ^ 63
    → rlp_decode (suc fuel) ((if b then 0xff else 0xbf) ∷ (len ++ rest)) ≡ panic
unfolding rlp_decode rlp_head
rlp_decode-overflow fuel true len rest bytes eight low high =
    rw (long_panics true 0xff len rest bytes eight low high) refl
rlp_decode-overflow fuel false len rest bytes eight low high =
    rw (long_panics false 0xbf len rest bytes eight low high) refl
