-- ===== src/Trie/Receipts.antt =====
-- The receipts of a block: their encoding, the trie of them, and the bloom filter of their logs.
use crypto.Base.{
  ℕ, suc, ◌+◌, ◌-◌, ◌*◌, ◌^◌, ◌/◌, ◌%◌, bit_and, bit_or, List, [], ◌∷◌, map, get_or, set, replicate,
  shl,
}
use crypto.Keccak.{keccak256}
use crypto.Rlp.Encode.{Bytes, rlp_encode_bytes, rlp_list_enc, rlp_u64_enc}
use crypto.Rlp.Decode.{Outcome, ok}
use crypto.Trie.Node.{MptNode, nil, bytes_to_nibbles, mpt_insert}
use crypto.Trie.Encode.{mpt_hash_root}

pub record Log : Type 0 where
  pub address : Bytes
  pub topics : List Bytes
  pub log_data : Bytes

pub record Receipt : Type 0 where
  pub status : ℕ
  pub cumulative_gas_used : ℕ
  pub bloom : Bytes
  pub logs : List Log
  pub tx_hash : Bytes
  pub contract_address : Bytes
  pub gas_used : ℕ
  pub return_data : Bytes

unfoldable pub encode_log : Log → Bytes
encode_log l = rlp_list_enc (
    rlp_encode_bytes l.address
    ∷ rlp_list_enc (map rlp_encode_bytes l.topics)
    ∷ rlp_encode_bytes l.log_data
    ∷ [])

unfoldable pub encode_logs : List Log → Bytes
encode_logs logs = rlp_list_enc (map encode_log logs)

unfoldable pub logs_hash : List Log → Bytes
logs_hash logs = keccak256 (encode_logs logs)

unfoldable pub encode_receipt : Receipt → Bytes
encode_receipt r = rlp_list_enc (
    rlp_u64_enc r.status
    ∷ rlp_u64_enc r.cumulative_gas_used
    ∷ rlp_encode_bytes r.bloom
    ∷ encode_logs r.logs
    ∷ [])

-- The loop of `receiptsRoot`, from receipt `i`.
unfoldable pub insert_receipts : MptNode → ℕ → List Receipt → MptNode
insert_receipts n i [] = n
insert_receipts n i (r ∷ rs) =
    insert_receipts (mpt_insert n (bytes_to_nibbles (rlp_u64_enc i)) (encode_receipt r)) (suc i) rs

unfoldable pub receipts_root : List Receipt → Outcome Bytes
receipts_root [] = ok (keccak256 (0x80 ∷ []))
receipts_root (r ∷ rs) = mpt_hash_root (insert_receipts nil 0 (r ∷ rs))

-- The bit of the filter that two bytes of a hash choose.
unfoldable pub bloom_bit : Bytes → ℕ → ℕ
bloom_bit h i = bit_and (bit_or (shl (get_or h (i * 2) 0) 8) (get_or h (i * 2 + 1) 0)) 2047

unfoldable pub set_bit : Bytes → ℕ → Bytes
set_bit b bit = set b (255 - bit / 8) (bit_or (get_or b (255 - bit / 8) 0) (2 ^ (bit % 8)))

unfoldable pub add_bloom : Bytes → Bytes → Bytes
add_bloom b d =
    let h = keccak256 d in
    set_bit (set_bit (set_bit b (bloom_bit h 0)) (bloom_bit h 1)) (bloom_bit h 2)

unfoldable pub add_topics : Bytes → List Bytes → Bytes
add_topics b [] = b
add_topics b (t ∷ ts) = add_topics (add_bloom b t) ts

unfoldable pub add_logs : Bytes → List Log → Bytes
add_logs b [] = b
add_logs b (l ∷ ls) = add_logs (add_topics (add_bloom b l.address) l.topics) ls

unfoldable pub logs_bloom : List Log → Bytes
logs_bloom logs = add_logs (replicate 256 0) logs
