-- ===== src/Rlp/Encode.antt =====
-- The encoders. The Go functions write into a buffer and return how much they wrote; here they
-- return the bytes, for a buffer that is long enough, which is what `rlpBytesEnc` and `rlpListEnc`
-- allocate.
use crypto.Base.{
  ℕ, zero, suc, ◌+◌, ◌/◌, ◌%◌, Bool, ◌&&◌, ◌==◌, ltb, if◌then◌else◌, List, [], ◌∷◌, ◌++◌, Option,
  none, some, length, get_or,
}
use crypto.Evm256.Uint256.{Uint256, is_zero, bytes_be}

abbrev pub Bytes : Type 0
Bytes = List ℕ

-- The loop of `rlpIntLen`; an int that is not negative has at most eight bytes.
unfoldable pub int_len_from : ℕ → ℕ → ℕ
int_len_from zero n = 0
int_len_from (suc fuel) n = let rest = int_len_from fuel (n / 256) in if n == 0 then 0 else suc rest

abbrev pub rlp_int_len : ℕ → ℕ
rlp_int_len n = int_len_from 8 n

-- `rlpWriteInt`: the lowest byte comes last.
unfoldable pub rlp_write_int : ℕ → ℕ → Bytes
rlp_write_int n zero = []
rlp_write_int n (suc k) = rlp_write_int (n / 256) k ++ ((n % 256) ∷ [])

-- `dataLen == 1 && data[0] < 0x80`.
abbrev pub is_single : Bytes → Bool
is_single bs = (length bs == 1) && ltb (get_or bs 0 0) 0x80

unfoldable pub rlp_bytes_size : Bytes → ℕ
rlp_bytes_size bs =
    if is_single bs
    then 1
    else if ltb (length bs) 56
    then 1 + length bs
    else 1 + rlp_int_len (length bs) + length bs

-- `RlpEncodeBytes`, and so `rlpBytesEnc`.
unfoldable pub rlp_encode_bytes : Bytes → Bytes
rlp_encode_bytes bs =
    if is_single bs
    then bs
    else if ltb (length bs) 56
    then (0x80 + length bs) ∷ bs
    else let llen = rlp_int_len (length bs) in
      (0xb7 + llen) ∷ (rlp_write_int (length bs) llen ++ bs)

unfoldable pub rlp_list_header : ℕ → Bytes
rlp_list_header n =
    if ltb n 56
    then (0xc0 + n) ∷ []
    else let llen = rlp_int_len n in (0xf7 + llen) ∷ rlp_write_int n llen

abbrev pub concat : List Bytes → Bytes
concat [] = []
concat (x ∷ xs) = x ++ concat xs

-- `rlpListEnc`.
unfoldable pub rlp_list_enc : List Bytes → Bytes
rlp_list_enc items = rlp_list_header (length (concat items)) ++ concat items

-- The bytes of a number behind its leading zeros.
unfoldable pub trim_zeros : Bytes → Bytes
trim_zeros [] = []
trim_zeros (b ∷ bs) = let rest = trim_zeros bs in if b == 0 then rest else b ∷ bs

-- `rlpU64Enc`: its loop writes as many bytes as `rlpIntLen` counts.
unfoldable pub rlp_u64_enc : ℕ → Bytes
rlp_u64_enc n = if n == 0 then 0x80 ∷ [] else rlp_encode_bytes (rlp_write_int n (int_len_from 8 n))

unfoldable pub rlp_u256_enc : Uint256 → Bytes
rlp_u256_enc z = if is_zero z then 0x80 ∷ [] else rlp_encode_bytes (trim_zeros (bytes_be z))

-- `rlpAddrEnc`.
unfoldable pub rlp_addr_enc : Option Bytes → Bytes
rlp_addr_enc none = 0x80 ∷ []
rlp_addr_enc (some a) = rlp_encode_bytes a
