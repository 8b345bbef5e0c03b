-- ===== src/Tx/RoundTrip.antt =====
-- Typed transactions as EIP-2718 writes them, the signing hash, and the whole decoding.
use crypto.Base.{
  ℕ, ◌+◌, ◌^◌, ◌<◌, ◌≡◌, refl, ap, ◌∙◌, true, false, List, [], ◌∷◌, ◌++◌, map, length, inl, inr,
  ◌⊎◌, append-nil, ◌==◌, ◌||◌, ltb,
}
use crypto.Keccak.{keccak256}
use crypto.Seq.Types.{Transaction, AccessTuple}
use crypto.Rlp.Encode.{Bytes, rlp_encode_bytes, rlp_list_enc}
use crypto.Rlp.Decode.{ok, RlpVal, bytes, list, rlp_decode, rlp_fuel}
use crypto.Rlp.RoundTrip.{emit, emit_items, rlp_decode-emit}
use crypto.Rlp.Fields.{emit-u64_val, emit-u256_val, emit-addr_val}
use crypto.Tx.Parse.{parse_tx_list, counted}
use crypto.Tx.Signing.{
  access_list_enc, blob_hashes_enc, signing_hash, legacy_items, access_list_items,
  dynamic_fee_items, blob_items, recover_sender, decode_payload, decode_transaction, EcRecover,
}
use crypto.Tx.Fields.{
  IsFit, access_list_fields, dynamic_fee_fields, blob_fields, signature, unsent, IsAccessListTx,
  IsDynamicFeeTx, IsBlobTx, parse_access_list_tx-fields, parse_dynamic_fee_tx-fields,
  parse_blob_tx-fields,
}
use crypto.Tx.Values.{vals, items_of-vals, hashes_val, tuple_val, tuples_val}

abbrev pub IsTyped : Transaction → Type 0
IsTyped tx = IsAccessListTx tx ⊎ (IsDynamicFeeTx tx ⊎ IsBlobTx tx)

-- The items of a typed transaction up to the signature.
abbrev pub fields_of : (tx : Transaction) → IsTyped tx → List RlpVal
fields_of tx (inl k) = access_list_fields tx
fields_of tx (inr (inl k)) = dynamic_fee_fields tx
fields_of tx (inr (inr k)) = blob_fields tx

-- A type byte, and a list of items behind it.
abbrev pub typed_bytes : ℕ → List RlpVal → Bytes
typed_bytes kind vs = kind ∷ emit (list (vals vs))

emit_hashes : (hs : List Bytes) → emit_items (vals (map bytes hs)) ≡ map rlp_encode_bytes hs
unfolding emit_items emit
emit_hashes [] = refl
emit_hashes (x ∷ hs) = ap (◌∷◌ (rlp_encode_bytes x)) (emit_hashes hs)

emit-hashes_val : (hs : List Bytes) → emit (hashes_val hs) ≡ blob_hashes_enc hs
unfolding emit blob_hashes_enc
emit-hashes_val hs = ap rlp_list_enc (emit_hashes hs)

emit-tuple_val :
    (t : AccessTuple)
    → emit (tuple_val t)
      ≡ rlp_list_enc (rlp_encode_bytes t.addr ∷ rlp_list_enc (map rlp_encode_bytes t.slots) ∷ [])
unfolding emit emit_items
emit-tuple_val t = rw (emit_hashes t.slots) refl

emit_tuples :
    (al : List AccessTuple)
    → emit_items (vals (map tuple_val al))
      ≡ map
          (λ (t : AccessTuple).
            rlp_list_enc
              (rlp_encode_bytes t.addr ∷ rlp_list_enc (map rlp_encode_bytes t.slots) ∷ []))
          al
unfolding emit_items
emit_tuples [] = refl
emit_tuples (t ∷ al) = rw (emit-tuple_val t, emit_tuples al) refl

emit-tuples_val : (al : List AccessTuple) → emit (tuples_val al) ≡ access_list_enc al
unfolding emit access_list_enc
emit-tuples_val al = ap rlp_list_enc (emit_tuples al)

access_list_preimage :
    (tx : Transaction)
    → emit (list (vals (access_list_fields tx))) ≡ rlp_list_enc (access_list_items tx)
unfolding emit emit_items access_list_items
access_list_preimage tx =
    rw
      (
        emit-u256_val tx.chain_id,
        emit-u64_val tx.nonce,
        emit-u256_val tx.gas_price,
        emit-u64_val tx.gas,
        emit-addr_val tx.to,
        emit-u256_val tx.tx_value,
        emit-tuples_val tx.access_list,
      )
      refl

dynamic_fee_preimage :
    (tx : Transaction)
    → emit (list (vals (dynamic_fee_fields tx))) ≡ rlp_list_enc (dynamic_fee_items tx)
unfolding emit emit_items dynamic_fee_items
dynamic_fee_preimage tx =
    rw
      (
        emit-u256_val tx.chain_id,
        emit-u64_val tx.nonce,
        emit-u256_val tx.gas_tip_cap,
        emit-u256_val tx.gas_fee_cap,
        emit-u64_val tx.gas,
        emit-addr_val tx.to,
        emit-u256_val tx.tx_value,
        emit-tuples_val tx.access_list,
      )
      refl

blob_preimage :
    (tx : Transaction) → emit (list (vals (blob_fields tx))) ≡ rlp_list_enc (blob_items tx)
unfolding emit emit_items blob_items
blob_preimage tx =
    rw
      (
        emit-u256_val tx.chain_id,
        emit-u64_val tx.nonce,
        emit-u256_val tx.gas_tip_cap,
        emit-u256_val tx.gas_fee_cap,
        emit-u64_val tx.gas,
        emit-addr_val tx.to,
        emit-u256_val tx.tx_value,
        emit-tuples_val tx.access_list,
        emit-u256_val tx.blob_fee_cap,
        emit-hashes_val tx.blob_hashes,
      )
      refl

-- `signingHash` of a typed transaction is the hash of its type byte and of the list of its items
-- without the signature.
pub signing_hash-typed :
    (tx : Transaction) (typed : IsTyped tx)
    → signing_hash tx ≡ keccak256 (typed_bytes tx.kind (fields_of tx typed))
unfolding signing_hash access_list_items dynamic_fee_items blob_items
signing_hash-typed tx (inl k) = rw (k.0, access_list_preimage tx) refl
signing_hash-typed tx (inr (inl k)) = rw (k.0, dynamic_fee_preimage tx) refl
signing_hash-typed tx (inr (inr k)) = rw (k.0, blob_preimage tx) refl

parse_signed :
    (tx : Transaction) (typed : IsTyped tx)
    → IsFit tx
    → parse_tx_list tx.kind (fields_of tx typed ++ signature tx) ≡ ok (unsent tx)
unfolding parse_tx_list counted
parse_signed tx (inl k) f =
    ap (λ (n : ℕ). parse_tx_list n (access_list_fields tx ++ signature tx)) k.0
    ∙ parse_access_list_tx-fields tx f k
parse_signed tx (inr (inl k)) f =
    ap (λ (n : ℕ). parse_tx_list n (dynamic_fee_fields tx ++ signature tx)) k.0
    ∙ parse_dynamic_fee_tx-fields tx f k
parse_signed tx (inr (inr k)) f =
    ap (λ (n : ℕ). parse_tx_list n (blob_fields tx ++ signature tx)) k.0
    ∙ parse_blob_tx-fields tx f k

signing_hash-unsent : (tx : Transaction) → signing_hash (unsent tx) ≡ signing_hash tx
unfolding signing_hash legacy_items access_list_items dynamic_fee_items blob_items
signing_hash-unsent tx = refl

typed_kind : (tx : Transaction) → IsTyped tx → (tx.kind == 0) ≡ false
typed_kind tx (inl k) = rw k.0 refl
typed_kind tx (inr (inl k)) = rw k.0 refl
typed_kind tx (inr (inr k)) = rw k.0 refl

typed_dispatch :
    (tx : Transaction)
    → IsTyped tx
    → (ltb 0x7f tx.kind ≡ false) × (((tx.kind == 1) || ((tx.kind == 2) || (tx.kind == 3))) ≡ true)
typed_dispatch tx (inl k) = rw k.0 (refl, refl)
typed_dispatch tx (inr (inl k)) = rw k.0 (refl, refl)
typed_dispatch tx (inr (inr k)) = rw k.0 (refl, refl)

module _ (ec_recover : EcRecover) where
  payload_decodes :
      (tx : Transaction) (typed : IsTyped tx) (raw from : Bytes)
      → IsFit tx
      → length (emit (list (vals (fields_of tx typed ++ signature tx)))) + 9 < 2 ^ 63
      → recover_sender ec_recover (signing_hash tx) true tx.v tx.r tx.s ≡ ok from
      → decode_payload ec_recover tx.kind raw
          (emit (list (vals (fields_of tx typed ++ signature tx))))
        ≡ ok (record tx { from = from; hash = keccak256 raw })
  unfolding decode_payload
  payload_decodes tx typed raw from f small signed =
      let vs = fields_of tx typed ++ signature tx in
      let v = list (vals vs) in
      let read : rlp_decode (rlp_fuel (emit v)) (emit v) ≡ ok (v, []) =
        rw (append-nil (emit v)) at (rlp_decode-emit v [] small) in
      rw
        (
          read,
          items_of-vals vs,
          parse_signed tx typed f,
          signing_hash-unsent tx,
          typed_kind tx typed,
          signed,
        )
        refl

  -- `DecodeTransaction` of a typed transaction, written as its type byte and the list of its items and
  -- signature in fewer than 2 ^ 63 - 9 bytes: if the fields fit their Go types, and those that the type
  -- does not have are filled as the parser fills them, and if a sender is recovered from the signature
  -- and the hash of the type byte and the items without it, it gives back the transaction with that
  -- sender and the hash of the whole encoding.
  pub decode_transaction-typed :
      (tx : Transaction) (typed : IsTyped tx) (from : Bytes)
      → IsFit tx
      → length (emit (list (vals (fields_of tx typed ++ signature tx)))) + 9 < 2 ^ 63
      → recover_sender ec_recover
          (keccak256 (typed_bytes tx.kind (fields_of tx typed)))
          true
          tx.v
          tx.r
          tx.s
        ≡ ok from
      → decode_transaction ec_recover (typed_bytes tx.kind (fields_of tx typed ++ signature tx))
        ≡ ok (record tx {
          from = from;
          hash = keccak256 (typed_bytes tx.kind (fields_of tx typed ++ signature tx));
        })
  unfolding decode_transaction
  decode_transaction-typed tx typed from f small signed =
      rw ((typed_dispatch tx typed).0, (typed_dispatch tx typed).1)
        (payload_decodes tx typed (typed_bytes tx.kind (fields_of tx typed ++ signature tx)) from f
          small (rw (signing_hash-typed tx typed) signed))
