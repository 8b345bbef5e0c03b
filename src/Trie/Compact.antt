-- ===== src/Trie/Compact.antt =====
-- The compact encoding of nibbles, read back.
use crypto.Base.{
  ℕ, suc, ◌+◌, ◌*◌, ◌/◌, ◌%◌, ◌^◌, ◌<◌, ◌≡◌, refl, ap, arith, Bool, true, false, Bool-cases, inl,
  inr, ◌==◌, leb, if◌then◌else◌, [], ◌∷◌, length, bit_and, bit_or,
}
use crypto.Base.Bits.{bit_and-mask, bit_or-add}
use crypto.Rlp.Encode.{Bytes}
use crypto.Trie.Node.{bytes_to_nibbles}
use crypto.Trie.Encode.{pack, mpt_compact_encode, leaf_flag}
use crypto.Trie.Oversize.{AreNibbles}

-- The first nibble has the kind of the node, and whether a nibble stands beside it.
pub read_compact : Bytes → Bytes × Bool
read_compact [] = ([], false)
read_compact (b ∷ bs) = (
  if b / 16 % 2 == 1 then (b % 16) ∷ bytes_to_nibbles bs else bytes_to_nibbles bs,
  leb 2 (b / 16),
)

joined : (x y : ℕ) → x < 16 → y < 16 → bit_or (bit_and x 15 * 16) (bit_and y 15) ≡ x * 16 + y
joined x y p q =
    let low : bit_and x 15 ≡ x = omega (arith, bit_and-mask 4 x) in
    let low' : bit_and y 15 ≡ y = omega (arith, bit_and-mask 4 y) in
    rw (low, low') (bit_or-add 4 x y q)

bytes_to_nibbles-pack :
    (xs : Bytes) → AreNibbles xs → length xs % 2 ≡ 0 → bytes_to_nibbles (pack xs) ≡ xs
unfolding pack bytes_to_nibbles
bytes_to_nibbles-pack [] h e = refl
bytes_to_nibbles-pack (x ∷ []) h e = absurd (omega arith)
bytes_to_nibbles-pack (x ∷ y ∷ rest) h e =
    let same = joined x y h.0 h.1.0 in
    let high : (x * 16 + y) / 2 ^ 4 ≡ x = omega (arith, h.1.0) in
    let low : bit_and (x * 16 + y) 15 ≡ y = omega (arith, bit_and-mask 4 (x * 16 + y), h.1.0) in
    rw (same, high, low)
      (ap (λ (t : Bytes). x ∷ y ∷ t) (bytes_to_nibbles-pack rest h.1.1 (omega arith)))

beside :
    (x : ℕ) (xs : Bytes) (is_leaf : Bool)
    → x < 16
    → bytes_to_nibbles (pack xs) ≡ xs
    → read_compact (((leaf_flag is_leaf + 1) * 16 + x) ∷ pack xs) ≡ (x ∷ xs, is_leaf)
unfolding read_compact
beside x xs true h e =
    let kind : (48 + x) / 16 ≡ 3 = omega arith in
    let low : (48 + x) % 16 ≡ x = omega arith in rw (kind, low, e) refl
beside x xs false h e =
    let kind : (16 + x) / 16 ≡ 1 = omega arith in
    let low : (16 + x) % 16 ≡ x = omega arith in rw (kind, low, e) refl

plain :
    (xs : Bytes) (is_leaf : Bool)
    → bytes_to_nibbles (pack xs) ≡ xs
    → read_compact ((leaf_flag is_leaf * 16) ∷ pack xs) ≡ (xs, is_leaf)
unfolding read_compact
plain xs true e = rw e refl
plain xs false e = rw e refl

-- The nibbles of a key and the kind of its node are read back from what `MptCompactEncode` writes.
pub read_compact-mpt_compact_encode :
    (ns : Bytes) (is_leaf : Bool)
    → AreNibbles ns
    → read_compact (mpt_compact_encode ns is_leaf) ≡ (ns, is_leaf)
unfolding mpt_compact_encode pack
read_compact-mpt_compact_encode [] is_leaf h =
    plain [] is_leaf (bytes_to_nibbles-pack [] tt (omega arith))
read_compact-mpt_compact_encode (x ∷ xs) is_leaf h = elim (Bool-cases (suc (length xs) % 2 == 1)) [
  | inl odd ↦
      let low : bit_and x 15 ≡ x = omega (arith, bit_and-mask 4 x, h.0) in
      let flagged = bit_or-add 4 (leaf_flag is_leaf + 1) x h.0 in
      rw (odd, low, flagged) (beside x xs is_leaf h.0 (bytes_to_nibbles-pack xs h.1 (ground arith)))
  | inr even ↦ rw even (plain (x ∷ xs) is_leaf (bytes_to_nibbles-pack (x ∷ xs) h (ground arith)))
]
