-- ===== src/Trie/Examples.antt =====
-- The theorems about the receipt trie at concrete inputs.
use crypto.Base.{
  ℕ, if_elim, ◌==◌, ◌<◌, ◌≡◌, refl, arith, true, [], ◌∷◌, length, some, replicate, if◌then◌else◌,
}
use crypto.Seq.Types.{bytes_eq}
use crypto.Rlp.Encode.{
  rlp_list_enc, rlp_list_header, rlp_u64_enc, rlp_encode_bytes, rlp_write_int, int_len_from,
}
use crypto.Rlp.Decode.{panic}
use crypto.Trie.Node.{
  MptNode, nil, leaf, ext, branch, no_children, set_child, mpt_insert, mpt_insert_leaf,
  mpt_split_leaf, add_new, behind_prefix, common_pref,
}
use crypto.Trie.Prefix.{lookup}
use crypto.Trie.Lookup.{lookup-mpt_insert}
use crypto.Trie.Entries.{IsTrie}
use crypto.Trie.Unique.{mpt_insert_unique}
use crypto.Trie.Encode.{mpt_compact_encode}
use crypto.Trie.Compact.{read_compact, read_compact-mpt_compact_encode}
use crypto.Trie.Receipts.{
  Receipt, encode_log, encode_logs, encode_receipt, insert_receipts, receipts_root,
}
use crypto.Trie.Keys.{receipt_key}
use crypto.Trie.Content.{receipts-content, receipts_root-oversize}

abbrev one_leaf : MptNode
one_leaf = leaf (1 ∷ 2 ∷ 3 ∷ []) (7 ∷ [])

-- The keys share a prefix, and the first key is still found.
lookup-mpt_insert_example :
    lookup (mpt_insert one_leaf (1 ∷ 2 ∷ 4 ∷ []) (8 ∷ [])) (1 ∷ 2 ∷ 3 ∷ []) ≡ (
      if bytes_eq (1 ∷ 2 ∷ 4 ∷ []) (1 ∷ 2 ∷ 3 ∷ [])
      then some (8 ∷ [])
      else lookup one_leaf (1 ∷ 2 ∷ 3 ∷ []))
lookup-mpt_insert_example =
    lookup-mpt_insert one_leaf (1 ∷ 2 ∷ 4 ∷ []) (8 ∷ []) (1 ∷ 2 ∷ 3 ∷ []) (omega arith)
      (omega arith)

-- Two leaves behind a common prefix.
abbrev two_leaves : MptNode
two_leaves =
    ext (1 ∷ 2 ∷ [])
      (branch (set_child (set_child no_children 3 (leaf [] (7 ∷ []))) 4 (leaf [] (8 ∷ []))) [])

two_leaves-IsTrie : IsTrie two_leaves
two_leaves-IsTrie = (
  omega arith,
  tt,
  (
    (λ i.
        if_elim IsTrie (i == 4) (leaf [] (8 ∷ [])) (set_child no_children 3 (leaf [] (7 ∷ [])) i)
          (omega arith) (if_elim IsTrie (i == 3) (leaf [] (7 ∷ [])) nil (omega arith) tt)),
    record { one = 4; other = 5; apart = refl; one_taken = tt; other_taken = tt },
  ),
)

two_leaves_made : two_leaves ≡ mpt_insert one_leaf (1 ∷ 2 ∷ 4 ∷ []) (8 ∷ [])
unfolding mpt_insert mpt_insert_leaf mpt_split_leaf add_new behind_prefix common_pref bytes_eq
two_leaves_made = refl

mpt_insert_unique_example :
    IsTrie (mpt_insert one_leaf (1 ∷ 2 ∷ 4 ∷ []) (8 ∷ []))
    × (two_leaves ≡ mpt_insert one_leaf (1 ∷ 2 ∷ 4 ∷ []) (8 ∷ []))
mpt_insert_unique_example =
    mpt_insert_unique one_leaf two_leaves (1 ∷ 2 ∷ 4 ∷ []) (8 ∷ []) (omega arith) (omega arith)
      two_leaves-IsTrie
      (λ q.
        rw two_leaves_made
          (lookup-mpt_insert one_leaf (1 ∷ 2 ∷ 4 ∷ []) (8 ∷ []) q (omega arith) (omega arith)))

read_compact-mpt_compact_encode_example :
    read_compact (mpt_compact_encode (1 ∷ 2 ∷ 3 ∷ []) true) ≡ (1 ∷ 2 ∷ 3 ∷ [], true)
read_compact-mpt_compact_encode_example =
    read_compact-mpt_compact_encode (1 ∷ 2 ∷ 3 ∷ []) true (omega arith)

-- A receipt with one log of so many bytes.
abbrev receipt_of : ℕ → Receipt
receipt_of n = record {
  status = 1;
  cumulative_gas_used = 21000;
  bloom = [];
  logs = record { address = replicate 20 1; topics = []; log_data = replicate n 5 } ∷ [];
  tx_hash = [];
  contract_address = [];
  gas_used = 21000;
  return_data = [];
}

receipts-content_example :
    lookup (insert_receipts nil 0 (receipt_of 1 ∷ receipt_of 2 ∷ [])) (receipt_key 1)
    ≡ some (encode_receipt (receipt_of 2))
receipts-content_example =
    receipts-content (receipt_of 1 ∷ receipt_of 2 ∷ []) 1 (receipt_of 2) (omega arith) refl

large_receipt : 2048 < length (encode_receipt (receipt_of 2100))
unfolding encode_receipt encode_logs encode_log rlp_list_enc rlp_list_header rlp_u64_enc
    rlp_encode_bytes rlp_write_int int_len_from
large_receipt = omega arith

receipts_root-oversize_example : receipts_root (receipt_of 1 ∷ receipt_of 2100 ∷ []) ≡ panic
receipts_root-oversize_example =
    receipts_root-oversize (receipt_of 1 ∷ receipt_of 2100 ∷ []) 1 (receipt_of 2100) (omega arith)
      refl large_receipt
