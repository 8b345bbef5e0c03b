-- ===== src/Tx/Examples.antt =====
-- A typed transaction of small fields, decoded.
use crypto.Base.{
  ℕ, ◌≡◌, refl, arith, true, [], ◌∷◌, ◌++◌, ◌<◌, ◌+◌, ◌^◌, inl, inr, some, length, replicate, take,
  drop,
}
use crypto.Evm256.Uint256.{Uint256, zero256, bytes_be, u256}
use crypto.Keccak.{keccak256}
use crypto.Seq.Types.{Transaction}
use crypto.Rlp.Encode.{
  rlp_encode_bytes, rlp_list_enc, rlp_list_header, rlp_write_int, int_len_from, trim_zeros,
}
use crypto.Rlp.Decode.{ok, list}
use crypto.Rlp.RoundTrip.{emit, emit_items}
use crypto.Tx.Parse.{no_address, no_hash, u256_to_u64}
use crypto.Tx.Signing.{
  EcRecover, recover_sender, y_parity, parity_of, decode_transaction, signing_hash,
}
use crypto.Tx.Fields.{IsFit, signature}
use crypto.Tx.Values.{vals}
use crypto.Tx.RoundTrip.{
  IsTyped, fields_of, typed_bytes, signing_hash-typed, decode_transaction-typed,
}

abbrev word_of : ℕ → Uint256
word_of n = u256 n 0 0 0

abbrev transfer : Transaction
transfer = record {
  kind = 2;
  chain_id = word_of 55;
  nonce = 7;
  gas_price = word_of 300;
  gas_tip_cap = word_of 1;
  gas_fee_cap = word_of 300;
  gas = 21000;
  to = some (replicate 20 0xaa);
  tx_value = word_of 1000;
  payload = 1 ∷ 2 ∷ [];
  access_list = record { addr = replicate 20 0xbb; slots = replicate 32 1 ∷ [] } ∷ [];
  blob_fee_cap = zero256;
  blob_hashes = [];
  v = word_of 1;
  r = word_of 5;
  s = word_of 6;
  from = no_address;
  hash = no_hash;
}

abbrev transfer_type : IsTyped transfer
transfer_type = inr (inl (refl, refl, refl, refl))

abbrev one_key : EcRecover
one_key sighash yp r s = some (replicate 64 9)

transfer-IsFit : IsFit transfer
transfer-IsFit = record {
  chain_fits = ground arith;
  nonce_fits = omega arith;
  price_fits = ground arith;
  tip_fits = ground arith;
  fee_fits = ground arith;
  gas_fits = omega arith;
  to_fits = refl;
  amount_fits = ground arith;
  tuples_fit = ((refl, (refl, tt)), tt);
  blob_fee_fits = ground arith;
  hashes_fit = tt;
  v_fits = ground arith;
  r_fits = ground arith;
  s_fits = ground arith;
}

transfer_short :
    length (emit (list (vals (fields_of transfer transfer_type ++ signature transfer)))) + 9
    < 2 ^ 63
unfolding emit emit_items rlp_encode_bytes rlp_list_enc rlp_list_header rlp_write_int int_len_from
    trim_zeros bytes_be
transfer_short = omega arith

transfer_sender :
    recover_sender one_key
      (keccak256 (typed_bytes 2 (fields_of transfer transfer_type)))
      true
      transfer.v
      transfer.r
      transfer.s
    ≡ ok (take 20 (drop 12 (keccak256 (replicate 64 9))))
unfolding recover_sender y_parity u256_to_u64 parity_of
transfer_sender = refl

decode_transaction-typed_example :
    decode_transaction one_key
      (typed_bytes 2 (fields_of transfer transfer_type ++ signature transfer))
    ≡ ok (record transfer {
      from = take 20 (drop 12 (keccak256 (replicate 64 9)));
      hash = keccak256 (typed_bytes 2 (fields_of transfer transfer_type ++ signature transfer));
    })
decode_transaction-typed_example =
    decode_transaction-typed one_key transfer transfer_type
      (take 20 (drop 12 (keccak256 (replicate 64 9)))) transfer-IsFit transfer_short transfer_sender

signing_hash-typed_example :
    signing_hash transfer ≡ keccak256 (typed_bytes 2 (fields_of transfer transfer_type))
signing_hash-typed_example = signing_hash-typed transfer transfer_type
