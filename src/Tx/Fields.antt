-- ===== src/Tx/Fields.antt =====
-- The items of a typed transaction as RLP values, and how the parsers read them.
use crypto.Base.{◌<◌, ◌≡◌, refl, List, [], ◌∷◌, ◌++◌, word}
use crypto.Evm256.Uint256.{IsWord, zero256}
use crypto.Seq.Types.{Transaction}
use crypto.Rlp.Encode.{Bytes}
use crypto.Rlp.Decode.{ok, RlpVal, bytes}
use crypto.Rlp.Fields.{
  u64_val, u256_val, addr_val, IsAddress, rlp_uint64-u64_val, rlp_u256-u256_val, rlp_addr-addr_val,
}
use crypto.Tx.Parse.{
  data_field, no_address, no_hash, parse_access_list_tx, parse_dynamic_fee_tx, parse_blob_tx,
}
use crypto.Tx.Values.{
  hashes_val, tuples_val, AreHashes, AreTuples, hashes_field-hashes_val,
  parse_access_list-tuples_val,
}

-- Fields that fit their Go types.
pub record IsFit (tx : Transaction) : Type 0 where
  pub chain_fits : IsWord tx.chain_id
  pub nonce_fits : tx.nonce < word
  pub price_fits : IsWord tx.gas_price
  pub tip_fits : IsWord tx.gas_tip_cap
  pub fee_fits : IsWord tx.gas_fee_cap
  pub gas_fits : tx.gas < word
  pub to_fits : IsAddress tx.to
  pub amount_fits : IsWord tx.tx_value
  pub tuples_fit : AreTuples tx.access_list
  pub blob_fee_fits : IsWord tx.blob_fee_cap
  pub hashes_fit : AreHashes tx.blob_hashes
  pub v_fits : IsWord tx.v
  pub r_fits : IsWord tx.r
  pub s_fits : IsWord tx.s

-- The items up to the signature, by type, and the signature.
abbrev pub access_list_fields : Transaction → List RlpVal
access_list_fields tx =
    u256_val tx.chain_id
    ∷ u64_val tx.nonce
    ∷ u256_val tx.gas_price
    ∷ u64_val tx.gas
    ∷ addr_val tx.to
    ∷ u256_val tx.tx_value
    ∷ bytes tx.payload
    ∷ tuples_val tx.access_list
    ∷ []

abbrev pub dynamic_fee_fields : Transaction → List RlpVal
dynamic_fee_fields tx =
    u256_val tx.chain_id
    ∷ u64_val tx.nonce
    ∷ u256_val tx.gas_tip_cap
    ∷ u256_val tx.gas_fee_cap
    ∷ u64_val tx.gas
    ∷ addr_val tx.to
    ∷ u256_val tx.tx_value
    ∷ bytes tx.payload
    ∷ tuples_val tx.access_list
    ∷ []

abbrev pub blob_fields : Transaction → List RlpVal
blob_fields tx =
    dynamic_fee_fields tx ++ (u256_val tx.blob_fee_cap ∷ hashes_val tx.blob_hashes ∷ [])

abbrev pub signature : Transaction → List RlpVal
signature tx = u256_val tx.v ∷ u256_val tx.r ∷ u256_val tx.s ∷ []

-- What a parse gives, before the sender and the hash are known.
abbrev pub unsent : Transaction → Transaction
unsent tx = record tx { from = no_address; hash = no_hash }

-- How the fields of a type without its own fee or blobs are filled.
abbrev pub IsAccessListTx : Transaction → Type 0
IsAccessListTx tx =
    (tx.kind ≡ 1)
    × (tx.gas_tip_cap ≡ tx.gas_price)
    × (tx.gas_fee_cap ≡ tx.gas_price)
    × (tx.blob_fee_cap ≡ zero256)
    × (tx.blob_hashes ≡ [])

abbrev pub IsDynamicFeeTx : Transaction → Type 0
IsDynamicFeeTx tx =
    (tx.kind ≡ 2)
    × (tx.gas_price ≡ tx.gas_fee_cap)
    × (tx.blob_fee_cap ≡ zero256)
    × (tx.blob_hashes ≡ [])

abbrev pub IsBlobTx : Transaction → Type 0
IsBlobTx tx = (tx.kind ≡ 3) × (tx.gas_price ≡ tx.gas_fee_cap)

data_field-bytes : (b : Bytes) → data_field (bytes b) ≡ ok b
unfolding data_field
data_field-bytes b = refl

pub parse_access_list_tx-fields :
    (tx : Transaction)
    → IsFit tx
    → IsAccessListTx tx
    → parse_access_list_tx (access_list_fields tx ++ signature tx) ≡ ok (unsent tx)
unfolding parse_access_list_tx
parse_access_list_tx-fields tx f k =
    rw
      (
        rlp_u256-u256_val tx.chain_id f.chain_fits,
        rlp_uint64-u64_val tx.nonce f.nonce_fits,
        rlp_u256-u256_val tx.gas_price f.price_fits,
        rlp_uint64-u64_val tx.gas f.gas_fits,
        rlp_addr-addr_val tx.to f.to_fits,
        rlp_u256-u256_val tx.tx_value f.amount_fits,
        data_field-bytes tx.payload,
        parse_access_list-tuples_val tx.access_list f.tuples_fit,
        rlp_u256-u256_val tx.v f.v_fits,
        rlp_u256-u256_val tx.r f.r_fits,
        rlp_u256-u256_val tx.s f.s_fits,
        k.0,
        k.1,
        k.2,
        k.3,
        k.4,
      )
      refl

pub parse_dynamic_fee_tx-fields :
    (tx : Transaction)
    → IsFit tx
    → IsDynamicFeeTx tx
    → parse_dynamic_fee_tx (dynamic_fee_fields tx ++ signature tx) ≡ ok (unsent tx)
unfolding parse_dynamic_fee_tx
parse_dynamic_fee_tx-fields tx f k =
    rw
      (
        rlp_u256-u256_val tx.chain_id f.chain_fits,
        rlp_uint64-u64_val tx.nonce f.nonce_fits,
        rlp_u256-u256_val tx.gas_tip_cap f.tip_fits,
        rlp_u256-u256_val tx.gas_fee_cap f.fee_fits,
        rlp_uint64-u64_val tx.gas f.gas_fits,
        rlp_addr-addr_val tx.to f.to_fits,
        rlp_u256-u256_val tx.tx_value f.amount_fits,
        data_field-bytes tx.payload,
        parse_access_list-tuples_val tx.access_list f.tuples_fit,
        rlp_u256-u256_val tx.v f.v_fits,
        rlp_u256-u256_val tx.r f.r_fits,
        rlp_u256-u256_val tx.s f.s_fits,
        k.0,
        k.1,
        k.2,
        k.3,
      )
      refl

pub parse_blob_tx-fields :
    (tx : Transaction)
    → IsFit tx
    → IsBlobTx tx
    → parse_blob_tx (blob_fields tx ++ signature tx) ≡ ok (unsent tx)
unfolding parse_blob_tx
parse_blob_tx-fields tx f k =
    rw
      (
        rlp_u256-u256_val tx.chain_id f.chain_fits,
        rlp_uint64-u64_val tx.nonce f.nonce_fits,
        rlp_u256-u256_val tx.gas_tip_cap f.tip_fits,
        rlp_u256-u256_val tx.gas_fee_cap f.fee_fits,
        rlp_uint64-u64_val tx.gas f.gas_fits,
        rlp_addr-addr_val tx.to f.to_fits,
        rlp_u256-u256_val tx.tx_value f.amount_fits,
        data_field-bytes tx.payload,
        parse_access_list-tuples_val tx.access_list f.tuples_fit,
        rlp_u256-u256_val tx.blob_fee_cap f.blob_fee_fits,
        hashes_field-hashes_val tx.blob_hashes f.hashes_fit,
        rlp_u256-u256_val tx.v f.v_fits,
        rlp_u256-u256_val tx.r f.r_fits,
        rlp_u256-u256_val tx.s f.s_fits,
        k.0,
        k.1,
      )
      refl
