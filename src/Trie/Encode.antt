-- ===== src/Trie/Encode.antt =====
-- The encodings of pkg/c2crypto/mpt.go, `mptEncode` and `mptHashRoot` of
-- pkg/c2block/block_processor.go. The Go functions write into arrays of a fixed size; what does not
-- fit panics, at the write or where the caller slices the array.
use crypto.Base.{
  ℕ, zero, suc, ◌+◌, ◌*◌, ◌%◌, bit_and, bit_or, Bool, true, false, ◌==◌, ltb, if◌then◌else◌, List,
  [], ◌∷◌, ◌++◌, length,
}
use crypto.Keccak.{keccak256}
use crypto.Rlp.Encode.{Bytes, rlp_encode_bytes, rlp_bytes_size, rlp_list_header}
use crypto.Rlp.Decode.{Outcome, ok, panic, ◌>>=◌}
use crypto.Trie.Node.{MptNode, nil, leaf, ext, branch}

-- The bytes of an array of `cap` bytes that were written.
unfoldable pub bounded : ℕ → Bytes → Outcome Bytes
bounded cap bs = if ltb cap (length bs) then panic else ok bs

-- The bytes of an even number of nibbles.
unfoldable pub pack : Bytes → Bytes
pack [] = []
pack (x ∷ []) = []
pack (x ∷ y ∷ rest) = bit_or (bit_and x 15 * 16) (bit_and y 15) ∷ pack rest

abbrev pub leaf_flag : Bool → ℕ
leaf_flag is_leaf = if is_leaf then 2 else 0

unfoldable pub mpt_compact_encode : Bytes → Bool → Bytes
mpt_compact_encode [] is_leaf = (leaf_flag is_leaf * 16) ∷ []
mpt_compact_encode (x ∷ xs) is_leaf =
    if length (x ∷ xs) % 2 == 1
    then bit_or ((leaf_flag is_leaf + 1) * 16) (bit_and x 15) ∷ pack xs
    else (leaf_flag is_leaf * 16) ∷ pack (x ∷ xs)

unfoldable pub mpt_child_ref_size : Bytes → ℕ
mpt_child_ref_size child = if ltb (length child) 32 then length child else 33

unfoldable pub mpt_encode_child_ref : Bytes → Bytes
mpt_encode_child_ref child =
    if ltb (length child) 32 then child else rlp_encode_bytes (keccak256 child)

unfoldable pub mpt_encode_leaf : Bytes → Bytes → Outcome Bytes
mpt_encode_leaf nibbles value = bounded 256 (mpt_compact_encode nibbles true) >>= λ compact. ok (
    rlp_list_header (rlp_bytes_size compact + rlp_bytes_size value)
    ++ (rlp_encode_bytes compact ++ rlp_encode_bytes value))

unfoldable pub mpt_encode_extension : Bytes → Bytes → Outcome Bytes
mpt_encode_extension nibbles child = bounded 256 (mpt_compact_encode nibbles false) >>= λ compact.
    ok (
      rlp_list_header (rlp_bytes_size compact + mpt_child_ref_size child)
      ++ (rlp_encode_bytes compact ++ mpt_encode_child_ref child))

-- A place of a branch: a child's encoding, if there is one.
pub data Place : Type 0 where
  vacant : Place
  taken : Bytes → Place

unfoldable pub place_size : Place → ℕ
place_size vacant = 1
place_size (taken child) = mpt_child_ref_size child

unfoldable pub place_bytes : Place → Bytes
place_bytes vacant = 0x80 ∷ []
place_bytes (taken child) = mpt_encode_child_ref child

abbrev pub places_size : List Place → ℕ
places_size [] = 0
places_size (c ∷ cs) = place_size c + places_size cs

abbrev pub places_bytes : List Place → Bytes
places_bytes [] = []
places_bytes (c ∷ cs) = place_bytes c ++ places_bytes cs

unfoldable pub mpt_encode_branch : List Place → Bytes → Bytes
mpt_encode_branch places value =
    let value_size = if length value == 0 then 1 else rlp_bytes_size value in
    let value_bytes = if length value == 0 then 0x80 ∷ [] else rlp_encode_bytes value in
    rlp_list_header (places_size places + value_size) ++ (places_bytes places ++ value_bytes)

-- The child at a place, if the pointer is not nil.
unfoldable pub encode_place : MptNode → Outcome Bytes → Outcome Place
encode_place nil encoded = ok vacant
encode_place (leaf nibbles value) encoded = encoded >>= λ b. ok (taken b)
encode_place (ext nibbles child) encoded = encoded >>= λ b. ok (taken b)
encode_place (branch children value) encoded = encoded >>= λ b. ok (taken b)

-- The loop over the sixteen places, from place `i`.
unfoldable pub encode_places : (ℕ → Outcome Place) → ℕ → ℕ → Outcome (List Place)
encode_places place i zero = ok []
encode_places place i (suc left) =
    place i >>= λ c. encode_places place (suc i) left >>= λ cs. ok (c ∷ cs)

-- `mptEncode` into an array of 2048 bytes, which every caller gives it.
unfoldable pub mpt_encode : MptNode → Outcome Bytes
mpt_encode nil = panic
mpt_encode (leaf nibbles value) = mpt_encode_leaf nibbles value >>= λ b. bounded 2048 b
mpt_encode (ext nibbles child) =
    mpt_encode child >>= λ c. mpt_encode_extension nibbles c >>= λ b. bounded 2048 b
mpt_encode (branch children value) =
    encode_places (λ i. encode_place (children i) (mpt_encode (children i))) 0 16 >>= λ places.
    bounded 2048 (mpt_encode_branch places value)

unfoldable pub mpt_hash_root : MptNode → Outcome Bytes
mpt_hash_root nil = ok (keccak256 (0x80 ∷ []))
mpt_hash_root (leaf nibbles value) = mpt_encode (leaf nibbles value) >>= λ b. ok (keccak256 b)
mpt_hash_root (ext nibbles child) = mpt_encode (ext nibbles child) >>= λ b. ok (keccak256 b)
mpt_hash_root (branch children value) = mpt_encode (branch children value) >>= λ b. ok (keccak256 b)
