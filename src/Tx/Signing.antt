-- ===== src/Tx/Signing.antt =====
-- `signingHash`, `recoverSender` and `DecodeTransaction` of pkg/c2block/tx_decode.go. The recovery
-- of a public key, `EcRecover` of pkg/c2crypto/secp256k1.go, is a parameter.
use crypto.Base.{
  ℕ, ◌-◌, ◌/◌, bit_and, Bool, true, false, not, ◌||◌, ◌==◌, ltb, leb, if◌then◌else◌, List, [], ◌∷◌,
  map, Option, none, some, length, take, drop,
}
use crypto.Evm256.Uint256.{Uint256, from_u64, bytes_be}
use crypto.Keccak.{keccak256}
use crypto.Seq.Types.{Transaction, AccessTuple}
use crypto.Rlp.Encode.{
  Bytes, rlp_encode_bytes, rlp_list_enc, rlp_u64_enc, rlp_u256_enc, rlp_addr_enc,
}
use crypto.Rlp.Decode.{
  Outcome, ok, fail, ◌>>=◌, invalid_tx, bad_sender, bytes, list, items_of, rlp_decode, rlp_fuel,
}
use crypto.Tx.Parse.{
  tx_legacy, tx_access_list, tx_dynamic_fee, tx_blob, no_hash, u256_to_u64, parse_tx_list,
}

unfoldable pub blob_hashes_enc : List Bytes → Bytes
blob_hashes_enc hs = rlp_list_enc (map rlp_encode_bytes hs)

unfoldable pub access_list_enc : List AccessTuple → Bytes
access_list_enc al = rlp_list_enc (
    map
      (λ (t : AccessTuple).
        rlp_list_enc (rlp_encode_bytes t.addr ∷ rlp_list_enc (map rlp_encode_bytes t.slots) ∷ []))
      al)

-- The three items of EIP-155.
unfoldable pub legacy_suffix : Uint256 → List Bytes
legacy_suffix v = elim (u256_to_u64 v) [
  | none ↦ []
  | some n ↦
      if leb 35 n
      then rlp_u256_enc (from_u64 ((n - 35) / 2)) ∷ (0x80 ∷ []) ∷ (0x80 ∷ []) ∷ []
      else []
]

unfoldable pub legacy_items : Transaction → List Bytes
legacy_items tx =
    rlp_u64_enc tx.nonce
    ∷ rlp_u256_enc tx.gas_price
    ∷ rlp_u64_enc tx.gas
    ∷ rlp_addr_enc tx.to
    ∷ rlp_u256_enc tx.tx_value
    ∷ rlp_encode_bytes tx.payload
    ∷ legacy_suffix tx.v

unfoldable pub access_list_items : Transaction → List Bytes
access_list_items tx =
    rlp_u256_enc tx.chain_id
    ∷ rlp_u64_enc tx.nonce
    ∷ rlp_u256_enc tx.gas_price
    ∷ rlp_u64_enc tx.gas
    ∷ rlp_addr_enc tx.to
    ∷ rlp_u256_enc tx.tx_value
    ∷ rlp_encode_bytes tx.payload
    ∷ access_list_enc tx.access_list
    ∷ []

unfoldable pub dynamic_fee_items : Transaction → List Bytes
dynamic_fee_items tx =
    rlp_u256_enc tx.chain_id
    ∷ rlp_u64_enc tx.nonce
    ∷ rlp_u256_enc tx.gas_tip_cap
    ∷ rlp_u256_enc tx.gas_fee_cap
    ∷ rlp_u64_enc tx.gas
    ∷ rlp_addr_enc tx.to
    ∷ rlp_u256_enc tx.tx_value
    ∷ rlp_encode_bytes tx.payload
    ∷ access_list_enc tx.access_list
    ∷ []

unfoldable pub blob_items : Transaction → List Bytes
blob_items tx =
    rlp_u256_enc tx.chain_id
    ∷ rlp_u64_enc tx.nonce
    ∷ rlp_u256_enc tx.gas_tip_cap
    ∷ rlp_u256_enc tx.gas_fee_cap
    ∷ rlp_u64_enc tx.gas
    ∷ rlp_addr_enc tx.to
    ∷ rlp_u256_enc tx.tx_value
    ∷ rlp_encode_bytes tx.payload
    ∷ access_list_enc tx.access_list
    ∷ rlp_u256_enc tx.blob_fee_cap
    ∷ blob_hashes_enc tx.blob_hashes
    ∷ []

unfoldable pub signing_hash : Transaction → Bytes
signing_hash tx =
    if tx.kind == tx_legacy
    then keccak256 (rlp_list_enc (legacy_items tx))
    else if tx.kind == tx_access_list
    then keccak256 (tx_access_list ∷ rlp_list_enc (access_list_items tx))
    else if tx.kind == tx_dynamic_fee
    then keccak256 (tx_dynamic_fee ∷ rlp_list_enc (dynamic_fee_items tx))
    else if tx.kind == tx_blob
    then keccak256 (tx_blob ∷ rlp_list_enc (blob_items tx))
    else no_hash

-- The parity of a signature whose `v` is a uint64.
unfoldable pub parity_of : ℕ → Bool → Outcome ℕ
parity_of n true = if ltb 1 n then fail bad_sender else ok n
parity_of n false =
    if (n == 27) || (n == 28)
    then ok (n - 27)
    else if (n == 0) || (n == 1)
    then ok n
    else if leb 35 n
    then ok (bit_and (n - 35) 1)
    else fail bad_sender

unfoldable pub y_parity : Uint256 → Bool → Outcome ℕ
y_parity v typed = elim (u256_to_u64 v) [ none ↦ fail bad_sender | some n ↦ parity_of n typed ]

-- `EcRecover`: the public key of a hash, a parity and the two numbers of a signature.
abbrev pub EcRecover : Type 0
EcRecover = Bytes → ℕ → Bytes → Bytes → Option Bytes

module _ (ec_recover : EcRecover) where
  unfoldable pub recover_sender : Bytes → Bool → Uint256 → Uint256 → Uint256 → Outcome Bytes
  recover_sender sighash typed v r s = y_parity v typed >>= λ yp.
      elim (ec_recover sighash yp (bytes_be r) (bytes_be s)) [
        | none ↦ fail bad_sender
        | some key ↦ ok (take 20 (drop 12 (keccak256 key)))
      ]

  -- What `DecodeTransaction` does with a payload of a known type.
  unfoldable pub decode_payload : ℕ → Bytes → Bytes → Outcome Transaction
  decode_payload kind raw payload = rlp_decode (rlp_fuel payload) payload >>= λ d. elim d.0 [
    | bytes b ↦ fail invalid_tx
    | list vs ↦
        if not (length d.1 == 0)
        then fail invalid_tx
        else (parse_tx_list kind (items_of vs) >>= λ tx.
            recover_sender (signing_hash tx) (not (kind == tx_legacy)) tx.v tx.r tx.s >>= λ from.
            ok (record tx { from = from; hash = keccak256 raw }))
  ]

  unfoldable pub decode_transaction : Bytes → Outcome Transaction
  decode_transaction [] = fail invalid_tx
  decode_transaction (b ∷ bs) =
      if ltb 0x7f b
      then decode_payload tx_legacy (b ∷ bs) (b ∷ bs)
      else if (b == tx_access_list) || ((b == tx_dynamic_fee) || (b == tx_blob))
      then decode_payload b (b ∷ bs) bs
      else fail invalid_tx
