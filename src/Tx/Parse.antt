-- ===== src/Tx/Parse.antt =====
-- `parseTxList` of pkg/c2block/tx_decode.go and what it calls. A failed parse returns no
-- transaction, so what it set before it failed is not seen.
use crypto.Base.{
  ℕ, ◌-◌, ◌/◌, bit_or, ◌==◌, leb, if◌then◌else◌, List, [], ◌∷◌, Option, none, some, length, get_or,
  replicate,
}
use crypto.Evm256.Uint256.{Uint256, zero256, from_u64}
use crypto.Seq.Types.{Transaction, AccessTuple}
use crypto.Rlp.Encode.{Bytes}
use crypto.Rlp.Decode.{
  Outcome, ok, fail, ◌>>=◌, invalid_tx, RlpVal, bytes, list, items_of, rlp_uint64, rlp_u256,
  rlp_addr,
}

-- The types of a transaction.
abbrev pub tx_legacy : ℕ
tx_legacy = 0

abbrev pub tx_access_list : ℕ
tx_access_list = 1

abbrev pub tx_dynamic_fee : ℕ
tx_dynamic_fee = 2

abbrev pub tx_blob : ℕ
tx_blob = 3

-- `Address{}` and `Hash{}`.
abbrev pub no_address : Bytes
no_address = replicate 20 0

abbrev pub no_hash : Bytes
no_hash = replicate 32 0

-- `items[i]`, where the number of items has been checked.
abbrev pub field : List RlpVal → ℕ → RlpVal
field items i = get_or items i (bytes [])

-- `tx.Data`.
unfoldable pub data_field : RlpVal → Outcome Bytes
data_field (bytes b) = ok b
data_field (list vs) = fail invalid_tx

unfoldable pub hash_field : RlpVal → Outcome Bytes
hash_field (list vs) = fail invalid_tx
hash_field (bytes b) = if length b == 32 then ok b else fail invalid_tx

-- The loops over storage keys and over blob hashes.
unfoldable pub hash_list : List RlpVal → Outcome (List Bytes)
hash_list [] = ok []
hash_list (v ∷ vs) = hash_field v >>= λ h. hash_list vs >>= λ hs. ok (h ∷ hs)

-- A list of hashes, in its field.
unfoldable pub hashes_field : RlpVal → Outcome (List Bytes)
hashes_field (bytes b) = fail invalid_tx
hashes_field (list vs) = hash_list (items_of vs)

-- The address of a tuple: every error becomes `ErrInvalidTx`.
unfoldable pub tuple_address : RlpVal → Outcome Bytes
tuple_address v = elim (rlp_addr v) [ ok (some a) ↦ ok a | _ ↦ fail invalid_tx ]

unfoldable pub access_tuple : RlpVal → Outcome AccessTuple
access_tuple (bytes b) = fail invalid_tx
access_tuple (list vs) =
    if length (items_of vs) == 2
    then (tuple_address (field (items_of vs) 0) >>= λ a.
        hashes_field (field (items_of vs) 1) >>= λ keys. ok (record { addr = a; slots = keys }))
    else fail invalid_tx

unfoldable pub access_tuples : List RlpVal → Outcome (List AccessTuple)
access_tuples [] = ok []
access_tuples (v ∷ vs) = access_tuple v >>= λ t. access_tuples vs >>= λ ts. ok (t ∷ ts)

unfoldable pub parse_access_list : RlpVal → Outcome (List AccessTuple)
parse_access_list (bytes b) = fail invalid_tx
parse_access_list (list vs) = access_tuples (items_of vs)

unfoldable pub u256_to_u64 : Uint256 → Option ℕ
u256_to_u64 z = if bit_or (bit_or z.w1 z.w2) z.w3 == 0 then some z.w0 else none

-- The chain of a legacy signature; zero for one of no chain.
unfoldable pub legacy_chain : Uint256 → Uint256
legacy_chain v = elim (u256_to_u64 v) [
  | none ↦ zero256
  | some n ↦ if leb 35 n then from_u64 ((n - 35) / 2) else zero256
]

unfoldable pub parse_legacy : List RlpVal → Outcome Transaction
parse_legacy items = rlp_uint64 (field items 0) >>= λ nonce. rlp_u256 (field items 1) >>= λ price.
    rlp_uint64 (field items 2) >>= λ gas. rlp_addr (field items 3) >>= λ to.
    rlp_u256 (field items 4) >>= λ amount. data_field (field items 5) >>= λ payload.
    rlp_u256 (field items 6) >>= λ v. rlp_u256 (field items 7) >>= λ r.
    rlp_u256 (field items 8) >>= λ s. ok (record {
      kind = tx_legacy;
      chain_id = legacy_chain v;
      nonce = nonce;
      gas_price = price;
      gas_tip_cap = price;
      gas_fee_cap = price;
      gas = gas;
      to = to;
      tx_value = amount;
      payload = payload;
      access_list = [];
      blob_fee_cap = zero256;
      blob_hashes = [];
      v = v;
      r = r;
      s = s;
      from = no_address;
      hash = no_hash;
    })

unfoldable pub parse_access_list_tx : List RlpVal → Outcome Transaction
parse_access_list_tx items = rlp_u256 (field items 0) >>= λ chain.
    rlp_uint64 (field items 1) >>= λ nonce. rlp_u256 (field items 2) >>= λ price.
    rlp_uint64 (field items 3) >>= λ gas. rlp_addr (field items 4) >>= λ to.
    rlp_u256 (field items 5) >>= λ amount. data_field (field items 6) >>= λ payload.
    parse_access_list (field items 7) >>= λ tuples. rlp_u256 (field items 8) >>= λ v.
    rlp_u256 (field items 9) >>= λ r. rlp_u256 (field items 10) >>= λ s. ok (record {
      kind = tx_access_list;
      chain_id = chain;
      nonce = nonce;
      gas_price = price;
      gas_tip_cap = price;
      gas_fee_cap = price;
      gas = gas;
      to = to;
      tx_value = amount;
      payload = payload;
      access_list = tuples;
      blob_fee_cap = zero256;
      blob_hashes = [];
      v = v;
      r = r;
      s = s;
      from = no_address;
      hash = no_hash;
    })

unfoldable pub parse_dynamic_fee_tx : List RlpVal → Outcome Transaction
parse_dynamic_fee_tx items = rlp_u256 (field items 0) >>= λ chain.
    rlp_uint64 (field items 1) >>= λ nonce. rlp_u256 (field items 2) >>= λ tip.
    rlp_u256 (field items 3) >>= λ fee. rlp_uint64 (field items 4) >>= λ gas.
    rlp_addr (field items 5) >>= λ to. rlp_u256 (field items 6) >>= λ amount.
    data_field (field items 7) >>= λ payload. parse_access_list (field items 8) >>= λ tuples.
    rlp_u256 (field items 9) >>= λ v. rlp_u256 (field items 10) >>= λ r.
    rlp_u256 (field items 11) >>= λ s. ok (record {
      kind = tx_dynamic_fee;
      chain_id = chain;
      nonce = nonce;
      gas_price = fee;
      gas_tip_cap = tip;
      gas_fee_cap = fee;
      gas = gas;
      to = to;
      tx_value = amount;
      payload = payload;
      access_list = tuples;
      blob_fee_cap = zero256;
      blob_hashes = [];
      v = v;
      r = r;
      s = s;
      from = no_address;
      hash = no_hash;
    })

unfoldable pub parse_blob_tx : List RlpVal → Outcome Transaction
parse_blob_tx items = rlp_u256 (field items 0) >>= λ chain. rlp_uint64 (field items 1) >>= λ nonce.
    rlp_u256 (field items 2) >>= λ tip. rlp_u256 (field items 3) >>= λ fee.
    rlp_uint64 (field items 4) >>= λ gas. rlp_addr (field items 5) >>= λ to.
    rlp_u256 (field items 6) >>= λ amount. data_field (field items 7) >>= λ payload.
    parse_access_list (field items 8) >>= λ tuples. rlp_u256 (field items 9) >>= λ blob_fee.
    hashes_field (field items 10) >>= λ hashes. rlp_u256 (field items 11) >>= λ v.
    rlp_u256 (field items 12) >>= λ r. rlp_u256 (field items 13) >>= λ s. ok (record {
      kind = tx_blob;
      chain_id = chain;
      nonce = nonce;
      gas_price = fee;
      gas_tip_cap = tip;
      gas_fee_cap = fee;
      gas = gas;
      to = to;
      tx_value = amount;
      payload = payload;
      access_list = tuples;
      blob_fee_cap = blob_fee;
      blob_hashes = hashes;
      v = v;
      r = r;
      s = s;
      from = no_address;
      hash = no_hash;
    })

-- The parser of a type, behind the check of the number of items.
unfoldable pub counted : ℕ → (List RlpVal → Outcome Transaction) → List RlpVal → Outcome Transaction
counted n parse items = if length items == n then parse items else fail invalid_tx

unfoldable pub parse_tx_list : ℕ → List RlpVal → Outcome Transaction
parse_tx_list kind items =
    if kind == tx_legacy
    then counted 9 parse_legacy items
    else if kind == tx_access_list
    then counted 11 parse_access_list_tx items
    else if kind == tx_dynamic_fee
    then counted 12 parse_dynamic_fee_tx items
    else if kind == tx_blob
    then counted 14 parse_blob_tx items
    else fail invalid_tx
