-- ===== src/Trie/Content.antt =====
-- What the trie of a block's receipts holds, and its root.
use crypto.Base.{
  ℕ, zero, suc, ◌+◌, ◌<◌, ◌≤◌, ◌≡◌, ◌≢◌, refl, ap, ◌∙◌, arith, false, Bool-cases, inl, inr, List,
  [], ◌∷◌, length, get_elem?, Option, none, some, word,
}
use crypto.Seq.Types.{bytes_eq, bytes_eq_refl, bytes_eq→≡}
use crypto.Rlp.Encode.{Bytes}
use crypto.Rlp.RoundTrip.{length-rlp_list_enc}
use crypto.Rlp.Decode.{panic}
use crypto.Trie.Node.{MptNode, nil, mpt_insert}
use crypto.Trie.Prefix.{lookup}
use crypto.Trie.Lookup.{lookup-mpt_insert}
use crypto.Trie.Entries.{IsTrie, IsTrie-HasValues}
use crypto.Trie.Shape.{mpt_insert-IsTrie}
use crypto.Trie.Receipts.{Receipt, encode_receipt, insert_receipts, receipts_root}
use crypto.Trie.Keys.{receipt_key, receipt_key-injective, receipt_key-AreNibbles}
use crypto.Trie.Oversize.{mpt_hash_root-oversize}

other_key :
    (i j : ℕ) → i < word → j < word → i ≢ j → bytes_eq (receipt_key i) (receipt_key j) ≡ false
other_key i j p q differ = elim (Bool-cases (bytes_eq (receipt_key i) (receipt_key j))) [
  | inl same ↦
      absurd
        (differ (receipt_key-injective i j p q (bytes_eq→≡ (receipt_key i) (receipt_key j) same)))
  | inr other ↦ other
]

length-encode_receipt : (r : Receipt) → 0 < length (encode_receipt r)
unfolding encode_receipt
length-encode_receipt r = (length-rlp_list_enc _).0

-- A receipt does not touch the keys before its own.
earlier_key :
    (rs : List Receipt) (n : MptNode) (i j : ℕ)
    → IsTrie n
    → j < i
    → i + length rs ≤ word
    → lookup (insert_receipts n i rs) (receipt_key j) ≡ lookup n (receipt_key j)
unfolding insert_receipts
earlier_key [] n i j t p w = refl
earlier_key (r ∷ rs) n i j t p w =
    let e = encode_receipt r in
    let size = length-encode_receipt r in
    earlier_key rs (mpt_insert n (receipt_key i) e) (suc i) j
      (mpt_insert-IsTrie n (receipt_key i) e t size) (omega arith) (omega arith)
    ∙ lookup-mpt_insert n (receipt_key i) e (receipt_key j) (IsTrie-HasValues n t) size
    ∙ rw (other_key i j (omega arith) (omega arith) (omega arith)) refl

option_map : (Receipt → Bytes) → Option Receipt → Option Bytes
option_map f none = none
option_map f (some r) = some (f r)

receipts_from :
    (rs : List Receipt) (n : MptNode) (i k : ℕ) (r : Receipt)
    → IsTrie n
    → i + length rs ≤ word
    → get_elem? rs k ≡ some r
    → lookup (insert_receipts n i rs) (receipt_key (i + k)) ≡ some (encode_receipt r)
unfolding insert_receipts option_map
receipts_from [] n i k r t w e = absurd (ground arith)
receipts_from (s ∷ rs) n i zero r t w e =
    let enc = encode_receipt s in
    let size = length-encode_receipt s in
    let here : i + 0 ≡ i = omega arith in
    let first : some enc ≡ some (encode_receipt r) = ap (option_map encode_receipt) e in
    rw here (
      earlier_key rs (mpt_insert n (receipt_key i) enc) (suc i) i
        (mpt_insert-IsTrie n (receipt_key i) enc t size) (omega arith) (omega arith)
      ∙ lookup-mpt_insert n (receipt_key i) enc (receipt_key i) (IsTrie-HasValues n t) size
      ∙ rw (bytes_eq_refl (receipt_key i)) first)
receipts_from (s ∷ rs) n i (suc k) r t w e =
    let next : i + suc k ≡ suc i + k = omega arith in
    rw next (
      receipts_from rs (mpt_insert n (receipt_key i) (encode_receipt s)) (suc i) k r
        (mpt_insert-IsTrie n (receipt_key i) (encode_receipt s) t (length-encode_receipt s))
        (omega arith) e)

-- In the trie that `receiptsRoot` builds of fewer than 2 ^ 64 receipts, the key of each position
-- holds the encoding of the receipt there.
pub receipts-content :
    (rs : List Receipt) (k : ℕ) (r : Receipt)
    → length rs < word
    → get_elem? rs k ≡ some r
    → lookup (insert_receipts nil 0 rs) (receipt_key k) ≡ some (encode_receipt r)
receipts-content rs k r w e =
    let here : 0 + k ≡ k = omega arith in rw here at (receipts_from rs nil 0 k r tt (omega arith) e)

-- `receiptsRoot` panics on every list of fewer than 2 ^ 64 receipts of which one has an encoding of
-- more than 2048 bytes.
pub receipts_root-oversize :
    (rs : List Receipt) (k : ℕ) (r : Receipt)
    → length rs < word
    → get_elem? rs k ≡ some r
    → 2048 < length (encode_receipt r)
    → receipts_root rs ≡ panic
unfolding receipts_root
receipts_root-oversize [] k r w e big = absurd (ground arith)
receipts_root-oversize (s ∷ rs) k r w e big =
    mpt_hash_root-oversize (insert_receipts nil 0 (s ∷ rs)) (receipt_key k) (encode_receipt r)
      (receipt_key-AreNibbles k) (receipts-content (s ∷ rs) k r w e) big
