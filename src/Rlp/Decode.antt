-- ===== src/Rlp/Decode.antt =====
-- `rlpDecode` of pkg/c2block/tx_decode.go, and what reads the parts of a value. An `int` has 64
-- bits; a slice with a bound that is negative or past the end panics.
use crypto.Base.{
  ℕ, zero, suc, ◌+◌, ◌-◌, ◌*◌, ◌^◌, Bool, true, false, ◌&&◌, ◌||◌, ◌==◌, ltb, leb, if◌then◌else◌,
  List, [], ◌∷◌, Option, none, some, length, get_or, take, drop, bit_or, shl,
}
use crypto.Evm256.Uint256.{Uint256, from_bytes_be}
use crypto.Rlp.Encode.{Bytes}

pub data Error : Type 0 where
  invalid_rlp invalid_tx bad_sender : Error

-- What a call does: it returns a value or an error, or panics. `out_of_fuel` has no counterpart.
pub data Outcome {ℓ} (A : Type ℓ) : Type ℓ where
  ok : A → Outcome A
  fail : Error → Outcome A
  panic out_of_fuel : Outcome A

infixl 5 ◌>>=◌
abbrev pub ◌>>=◌ {ℓ κ} : {A : Type ℓ} {B : Type κ} → Outcome A → (A → Outcome B) → Outcome B
ok a >>= f = f a
fail e >>= f = fail e
panic >>= f = panic
out_of_fuel >>= f = out_of_fuel

-- `rlpVal`, with its kind.
mutual
  pub data RlpVal : Type 0 where
    bytes : Bytes → RlpVal
    list : RlpVals → RlpVal

  pub data RlpVals : Type 0 where
    no_items : RlpVals
    item : RlpVal → RlpVals → RlpVals

-- The items of a list.
abbrev pub items_of : RlpVals → List RlpVal
items_of no_items = []
items_of (item v vs) = v ∷ items_of vs

-- `rlpReadInt`, as an unsigned number of 64 bits.
unfoldable pub read_int_from : ℕ → Bytes → ℕ
read_int_from n [] = n
read_int_from n (c ∷ cs) = read_int_from (bit_or (shl n 8) c) cs

abbrev pub rlp_read_int : Bytes → ℕ
rlp_read_int bs = read_int_from 0 bs

-- `n < 0` for an int.
abbrev pub is_negative : ℕ → Bool
is_negative n = leb (2 ^ 63) n

-- The head of a value: whether it is a list, its payload, and what follows it.
pub record Head : Type 0 where
  pub is_list : Bool
  pub payload : Bytes
  pub rest : Bytes

-- A payload of `n` bytes that begins at byte `start` of a buffer, behind its checks.
unfoldable pub rlp_payload : Bool → Bytes → ℕ → ℕ → Outcome Head
rlp_payload is_list buf start n =
    if is_negative (start + n)
    then panic
    else if ltb (length buf) (start + n)
    then fail invalid_rlp
    else ok (record {
      is_list = is_list;
      payload = take n (drop start buf);
      rest = drop (start + n) buf;
    })

-- A length of `llen` bytes, which is 56 or more.
unfoldable pub rlp_long : Bool → Bytes → ℕ → Outcome Head
rlp_long is_list buf llen =
    if (llen == 0) || ltb (length buf) (1 + llen)
    then fail invalid_rlp
    else let n = rlp_read_int (take llen (drop 1 buf)) in
      if is_negative n || ltb n 56 then fail invalid_rlp else rlp_payload is_list buf (1 + llen) n

unfoldable pub rlp_head : Bytes → Outcome Head
rlp_head [] = fail invalid_rlp
rlp_head (b ∷ bs) =
    if ltb b 0x80
    then ok (record { is_list = false; payload = b ∷ []; rest = bs })
    else if ltb b 0xb8
    then (if ((b - 0x80) == 1) && (ltb 1 (length (b ∷ bs)) && ltb (get_or bs 0 0) 0x80)
        then fail invalid_rlp
        else rlp_payload false (b ∷ bs) 1 (b - 0x80))
    else if ltb b 0xc0
    then rlp_long false (b ∷ bs) (b - 0xb7)
    else if ltb b 0xf8
    then rlp_payload true (b ∷ bs) 1 (b - 0xc0)
    else rlp_long true (b ∷ bs) (b - 0xf7)

-- `rlpDecode`: the value and the bytes behind it; and its loop over the payload of a list.
unfoldable mutual
  pub rlp_decode : ℕ → Bytes → Outcome (RlpVal × Bytes)
  rlp_decode zero buf = out_of_fuel
  rlp_decode (suc fuel) buf = rlp_head buf >>= λ h. elim h.is_list [
    | false ↦ ok (bytes h.payload, h.rest)
    | true ↦ rlp_items fuel h.payload >>= λ vs. ok (list vs, h.rest)
  ]

  pub rlp_items : ℕ → Bytes → Outcome RlpVals
  rlp_items zero buf = out_of_fuel
  rlp_items (suc fuel) [] = ok no_items
  rlp_items (suc fuel) (b ∷ bs) =
      rlp_decode fuel (b ∷ bs) >>= λ r. rlp_items fuel r.1 >>= λ vs. ok (item r.0 vs)

-- Each call takes a byte or goes from a list to its payload.
abbrev pub rlp_fuel : Bytes → ℕ
rlp_fuel buf = 2 * length buf + 2

unfoldable pub rlp_uint64 : RlpVal → Outcome ℕ
rlp_uint64 (list vs) = fail invalid_rlp
rlp_uint64 (bytes []) = ok 0
rlp_uint64 (bytes (b ∷ bs)) =
    if (b == 0) || ltb 8 (length (b ∷ bs)) then fail invalid_rlp else ok (rlp_read_int (b ∷ bs))

unfoldable pub rlp_u256 : RlpVal → Outcome Uint256
rlp_u256 (list vs) = fail invalid_rlp
rlp_u256 (bytes bs) =
    if ltb 32 (length bs)
    then fail invalid_rlp
    else if ltb 1 (length bs) && (get_or bs 0 0 == 0)
    then fail invalid_rlp
    else ok (from_bytes_be bs)

-- `rlpAddr`.
unfoldable pub rlp_addr : RlpVal → Outcome (Option Bytes)
rlp_addr (list vs) = fail invalid_rlp
rlp_addr (bytes bs) =
    if length bs == 0 then ok none else if length bs == 20 then ok (some bs) else fail invalid_rlp
