-- ===== src/Rlp/Head.antt =====
-- `rlpDecode`'s reading of a head, on what `RlpEncodeBytes` and `RlpEncodeListHeader` write.
use crypto.Base.{
  ℕ, suc, ◌+◌, ◌-◌, ◌^◌, ◌<◌, ◌≤◌, ◌≡◌, refl, sym, ◌∙◌, arith, Bool, true, false, Bool-cases, inl,
  inr, ◌==◌, ◌&&◌, ltb, leb, [], ◌∷◌, ◌++◌, length, length-append, take, drop, take-append,
  drop-append, append_assoc, get_or,
}
use crypto.Rlp.Encode.{
  Bytes, int_len_from, rlp_write_int, rlp_encode_bytes, rlp_list_header, is_single,
}
use crypto.Rlp.Decode.{ok, Head, rlp_payload, rlp_long, rlp_head, rlp_read_int}
use crypto.Rlp.Numbers.{
  int_len_from-fits, int_len_from-le, int_len_from-pos, length-rlp_write_int,
  rlp_write_int-AreBytes, be_value-rlp_write_int, rlp_read_int-value,
}

abbrev pub head_of : Bool → Bytes → Bytes → Head
head_of b d rest = record { is_list = b; payload = d; rest = rest }

-- A buffer that is a prefix of known length, the payload and the rest.
rlp_payload-exact :
    (b : Bool) (pre d rest : Bytes) (start n : ℕ)
    → start ≡ length pre
    → n ≡ length d
    → start + n < 2 ^ 63
    → rlp_payload b (pre ++ (d ++ rest)) start n ≡ ok (head_of b d rest)
unfolding rlp_payload
rlp_payload-exact b pre d rest start n s l small =
    let past : drop (start + n) (pre ++ (d ++ rest)) ≡ rest =
      rw (sym (append_assoc pre d rest))
        (drop-append (pre ++ d) rest (start + n) (omega (arith, length-append pre d))) in
    let whole : length (pre ++ (d ++ rest)) ≡ start + n + length rest =
      omega (arith, length-append pre (d ++ rest), length-append d rest) in
    let fits : leb (2 ^ 63) (start + n) ≡ false = ground arith in
    let inside : ltb (length (pre ++ (d ++ rest))) (start + n) ≡ false = rw whole (ground arith) in
    rw (fits, inside, past, drop-append pre (d ++ rest) start s, take-append d rest n l) refl

-- A length that its number's bytes give.
rlp_long-exact :
    (b : Bool) (first : ℕ) (d rest : Bytes) (len : ℕ)
    → len ≡ length d
    → 56 ≤ len
    → len + 9 < 2 ^ 63
    → rlp_long b
        (first ∷ (rlp_write_int len (int_len_from 8 len) ++ (d ++ rest)))
        (int_len_from 8 len)
      ≡ ok (head_of b d rest)
unfolding rlp_long
rlp_long-exact b first d rest len same large small =
    let k = int_len_from 8 len in
    let num = rlp_write_int len k in
    let tail = d ++ rest in
    let at_most = int_len_from-le 8 len in
    let some_bytes : (k == 0) ≡ false =
      let p = int_len_from-pos 8 len (omega arith) (omega arith) in ground arith in
    let size : length num ≡ k = length-rlp_write_int len k in
    let inside : ltb (length (first ∷ (num ++ tail))) (1 + k) ≡ false =
      let whole = length-append num tail in ground arith in
    let number : take k (drop 1 (first ∷ (num ++ tail))) ≡ num =
      take-append num tail k (sym size) in
    let read : rlp_read_int num ≡ len =
      rlp_read_int-value num (rlp_write_int-AreBytes len k) (omega arith)
      ∙ be_value-rlp_write_int k len (int_len_from-fits 8 len (omega arith)) in
    let not_negative : leb (2 ^ 63) len ≡ false = ground arith in
    let not_short : ltb len 56 ≡ false = ground arith in
    rw (some_bytes, inside, number, read, not_negative, not_short)
      (rlp_payload-exact b (first ∷ num) d rest (1 + k) len (omega arith) same (omega arith))

-- A payload of one byte below 0x80 is the only one that a short head may not have.
not_single :
    (d rest : Bytes) (n : ℕ)
    → n ≡ length d
    → is_single d ≡ false
    → ((n == 1) && (ltb 1 (suc (length (d ++ rest))) && ltb (get_or (d ++ rest) 0 0) 0x80)) ≡ false
not_single [] rest n same h = ground arith
not_single (x ∷ []) rest n same h = ground arith
not_single (x ∷ y ∷ d) rest n same h = ground arith

single_byte : (d : Bytes) → is_single d ≡ true → (x : ℕ) × (d ≡ x ∷ []) × (ltb x 0x80 ≡ true)
single_byte [] h = absurd (ground arith)
single_byte (x ∷ []) h = (x, refl, h)
single_byte (x ∷ y ∷ d) h = absurd (ground arith)

rlp_head-byte :
    (x : ℕ) (rest : Bytes)
    → ltb x 0x80 ≡ true
    → rlp_head (x ∷ rest) ≡ ok (head_of false (x ∷ []) rest)
unfolding rlp_head
rlp_head-byte x rest below = rw below refl

rlp_head-short :
    (d rest : Bytes)
    → is_single d ≡ false
    → length d < 56
    → rlp_head ((0x80 + length d) ∷ (d ++ rest)) ≡ ok (head_of false d rest)
unfolding rlp_head
rlp_head-short d rest several short =
    let n = length d in
    let size : 0x80 + n - 0x80 ≡ n = omega arith in
    let no_byte : ltb (0x80 + n) 0x80 ≡ false = ground arith in
    let short_head : ltb (0x80 + n) 0xb8 ≡ true = ground arith in
    rw (no_byte, short_head, size, not_single d rest n refl several)
      (rlp_payload-exact false ((0x80 + n) ∷ []) d rest 1 n (omega arith) refl (omega arith))

rlp_head-long :
    (d rest : Bytes)
    → 56 ≤ length d
    → length d + 9 < 2 ^ 63
    → rlp_head (
        (0xb7 + int_len_from 8 (length d))
        ∷ (rlp_write_int (length d) (int_len_from 8 (length d)) ++ (d ++ rest)))
      ≡ ok (head_of false d rest)
unfolding rlp_head
rlp_head-long d rest large small =
    let n = length d in
    let k = int_len_from 8 n in
    let at_most = int_len_from-le 8 n in
    let some_bytes = int_len_from-pos 8 n (omega arith) (omega arith) in
    let no_byte : ltb (0xb7 + k) 0x80 ≡ false = ground arith in
    let no_short : ltb (0xb7 + k) 0xb8 ≡ false = ground arith in
    let long_head : ltb (0xb7 + k) 0xc0 ≡ true = ground arith in
    let length_bytes : 0xb7 + k - 0xb7 ≡ k = omega arith in
    rw (no_byte, no_short, long_head, length_bytes)
      (rlp_long-exact false (0xb7 + k) d rest n refl large small)

pub rlp_head-encode_bytes :
    (d rest : Bytes)
    → length d + 9 < 2 ^ 63
    → rlp_head (rlp_encode_bytes d ++ rest) ≡ ok (head_of false d rest)
unfolding rlp_encode_bytes
rlp_head-encode_bytes d rest small = elim (Bool-cases (is_single d)) [
  | inl single ↦ let e = single_byte d single in rw (single, e.1) (rlp_head-byte e.0 rest e.2)
  | inr several ↦ elim (Bool-cases (ltb (length d) 56)) [
    | inl short ↦ rw (several, short) (rlp_head-short d rest several (ground arith))
    | inr long ↦
        rw
          (
            several,
            long,
            append_assoc (rlp_write_int (length d) (int_len_from 8 (length d))) d rest,
          )
          (rlp_head-long d rest (ground arith) small)
  ]
]

pub rlp_head-list_header :
    (p rest : Bytes)
    → length p + 9 < 2 ^ 63
    → rlp_head (rlp_list_header (length p) ++ (p ++ rest)) ≡ ok (head_of true p rest)
unfolding rlp_list_header rlp_head
rlp_head-list_header p rest small = elim (Bool-cases (ltb (length p) 56)) [
  | inl short ↦
      let n = length p in
      let no_byte : ltb (0xc0 + n) 0x80 ≡ false = ground arith in
      let no_short : ltb (0xc0 + n) 0xb8 ≡ false = ground arith in
      let no_long : ltb (0xc0 + n) 0xc0 ≡ false = ground arith in
      let list_head : ltb (0xc0 + n) 0xf8 ≡ true = ground arith in
      rw (short, no_byte, no_short, no_long, list_head)
        (rlp_payload-exact true ((0xc0 + n) ∷ []) p rest 1 (0xc0 + n - 0xc0) (omega arith)
          (omega arith) (ground arith))
  | inr long ↦
      let n = length p in
      let k = int_len_from 8 n in
      let at_most = int_len_from-le 8 n in
      let some_bytes = int_len_from-pos 8 n (ground arith) (omega arith) in
      let no_byte : ltb (0xf7 + k) 0x80 ≡ false = ground arith in
      let no_short : ltb (0xf7 + k) 0xb8 ≡ false = ground arith in
      let no_long : ltb (0xf7 + k) 0xc0 ≡ false = ground arith in
      let no_list : ltb (0xf7 + k) 0xf8 ≡ false = ground arith in
      let length_bytes : 0xf7 + k - 0xf7 ≡ k = omega arith in
      rw (long, no_byte, no_short, no_long, no_list, length_bytes)
        (rlp_long-exact true (0xf7 + k) p rest n refl (ground arith) small)
]
