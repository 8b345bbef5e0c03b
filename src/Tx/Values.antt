-- ===== src/Tx/Values.antt =====
-- Hashes and access lists as RLP values, and how the parsers read them.
use crypto.Base.{◌≡◌, refl, ap, List, [], ◌∷◌, All, map, some, length}
use crypto.Seq.Types.{AccessTuple}
use crypto.Rlp.Encode.{Bytes}
use crypto.Rlp.Decode.{ok, RlpVal, RlpVals, bytes, list, no_items, item, items_of}
use crypto.Rlp.Fields.{rlp_addr-addr_val}
use crypto.Tx.Parse.{
  hash_field, hash_list, hashes_field, tuple_address, access_tuple, access_tuples,
  parse_access_list,
}

abbrev pub vals : List RlpVal → RlpVals
vals [] = no_items
vals (v ∷ vs) = item v (vals vs)

pub items_of-vals : (vs : List RlpVal) → items_of (vals vs) ≡ vs
items_of-vals [] = refl
items_of-vals (v ∷ vs) = ap (◌∷◌ v) (items_of-vals vs)

abbrev pub hashes_val : List Bytes → RlpVal
hashes_val hs = list (vals (map bytes hs))

abbrev pub tuple_val : AccessTuple → RlpVal
tuple_val t = list (vals (bytes t.addr ∷ hashes_val t.slots ∷ []))

abbrev pub tuples_val : List AccessTuple → RlpVal
tuples_val al = list (vals (map tuple_val al))

-- A hash has 32 bytes.
abbrev pub AreHashes : List Bytes → Type 0
AreHashes = All (λ h. length h ≡ 32)

abbrev pub AreTuples : List AccessTuple → Type 0
AreTuples = All (λ t. (length t.addr ≡ 20) × AreHashes t.slots)

hash_list-bytes : (hs : List Bytes) → AreHashes hs → hash_list (map bytes hs) ≡ ok hs
unfolding hash_list hash_field
hash_list-bytes [] h = refl
hash_list-bytes (x ∷ hs) h = rw (h.0, hash_list-bytes hs h.1) refl

pub hashes_field-hashes_val :
    (hs : List Bytes) → AreHashes hs → hashes_field (hashes_val hs) ≡ ok hs
unfolding hashes_field
hashes_field-hashes_val hs h = rw (items_of-vals (map bytes hs)) (hash_list-bytes hs h)

tuple_address-bytes : (a : Bytes) → length a ≡ 20 → tuple_address (bytes a) ≡ ok a
unfolding tuple_address
tuple_address-bytes a h = rw (rlp_addr-addr_val (some a) h, tuple_address) refl

access_tuple-tuple_val :
    (t : AccessTuple) → length t.addr ≡ 20 → AreHashes t.slots → access_tuple (tuple_val t) ≡ ok t
unfolding access_tuple
access_tuple-tuple_val t a h =
    rw (tuple_address-bytes t.addr a, hashes_field-hashes_val t.slots h) refl

access_tuples-vals :
    (al : List AccessTuple) → AreTuples al → access_tuples (map tuple_val al) ≡ ok al
unfolding access_tuples
access_tuples-vals [] h = refl
access_tuples-vals (t ∷ al) h =
    rw (access_tuple-tuple_val t h.0.0 h.0.1, access_tuples-vals al h.1) refl

pub parse_access_list-tuples_val :
    (al : List AccessTuple) → AreTuples al → parse_access_list (tuples_val al) ≡ ok al
unfolding parse_access_list
parse_access_list-tuples_val al h = rw (items_of-vals (map tuple_val al)) (access_tuples-vals al h)
