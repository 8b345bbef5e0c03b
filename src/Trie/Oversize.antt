-- ===== src/Trie/Oversize.antt =====
-- Tries with a value that the arrays of 2048 bytes do not hold.
use crypto.Base.{
  ℕ, zero, suc, ◌+◌, ◌<◌, ◌≤◌, ◌≡◌, ◌≢◌, refl, sym, subst, ◌∙◌, arith, true, false, Bool-cases,
  Option-cases, inl, inr, ◌==◌, List, [], ◌∷◌, ◌++◌, length, length-append, All, none, some,
}
use crypto.Rlp.Encode.{Bytes, rlp_encode_bytes, rlp_list_header, rlp_bytes_size}
use crypto.Rlp.Decode.{Outcome, ok, fail, panic, out_of_fuel, ◌>>=◌}
use crypto.Rlp.RoundTrip.{length-rlp_encode_bytes}
use crypto.Trie.Node.{MptNode, nil, leaf, ext, branch}
use crypto.Trie.Encode.{
  bounded, mpt_compact_encode, mpt_encode_leaf, Place, places_size, places_bytes, mpt_encode_branch,
  encode_place, encode_places, mpt_encode, mpt_hash_root,
}
use crypto.Trie.Prefix.{lookup, strip, lookup-ext}
use crypto.Trie.Settled.{
  Settled, Fails, panics, then-Settled, first-Fails, then-Fails, bounded-Fails, mpt_encode-Settled,
}

pair_over :
    (c value : Bytes) (h : Bytes)
    → 2048 < length value
    → 2048 < length (h ++ (c ++ rlp_encode_bytes value))
pair_over c value h big = omega (
  arith,
  length-append h (c ++ rlp_encode_bytes value),
  length-append c (rlp_encode_bytes value),
  (length-rlp_encode_bytes value).1,
)

leaf_over :
    (o : Outcome Bytes) (value : Bytes)
    → 2048 < length value
    → Fails (
        o
        >>= (λ c. ok (
            rlp_list_header (rlp_bytes_size c + rlp_bytes_size value)
            ++ (rlp_encode_bytes c ++ rlp_encode_bytes value)))
        >>= λ b. bounded 2048 b)
leaf_over (ok c) value big = bounded-Fails 2048 _ (
    pair_over (rlp_encode_bytes c) value (rlp_list_header (rlp_bytes_size c + rlp_bytes_size value))
      big)
leaf_over panic value big = tt
leaf_over (fail e) value big = tt
leaf_over out_of_fuel value big = tt

leaf-Fails :
    (ns value : Bytes)
    → 2048 < length value
    → Fails (mpt_encode_leaf ns value >>= λ b. bounded 2048 b)
unfolding mpt_encode_leaf
leaf-Fails ns value big = leaf_over (bounded 256 (mpt_compact_encode ns true)) value big

branch-Fails :
    (cs : List Place) (value : Bytes)
    → 2048 < length value
    → Fails (bounded 2048 (mpt_encode_branch cs value))
unfolding mpt_encode_branch
branch-Fails cs value big =
    let given : (length value == 0) ≡ false = ground arith in
    rw given (
      bounded-Fails 2048 _ (
        pair_over (places_bytes cs) value (rlp_list_header (places_size cs + rlp_bytes_size value))
          big))

places-Fails :
    (place : ℕ → Outcome Place) (i left j : ℕ)
    → i ≤ j
    → j < i + left
    → Fails (place j)
    → Fails (encode_places place i left)
unfolding encode_places
places-Fails place i zero j low high h = absurd (omega arith)
places-Fails place i (suc left) j low high h = elim (Bool-cases (j == i)) [
  | inl here ↦
      let e : j ≡ i = ground arith in
      first-Fails (place i) _ (subst (λ (k : ℕ). Fails (place k)) e h)
  | inr later ↦ then-Fails (place i) _ (λ c.
      first-Fails (encode_places place (suc i) left) _
        (places-Fails place (suc i) left j (ground arith) (omega arith) h))
]

-- Where a value is found, there is a node.
place-Fails :
    (n : MptNode) (q v : Bytes) (o : Outcome Bytes)
    → lookup n q ≡ some v
    → Fails o
    → Fails (encode_place n o)
unfolding encode_place lookup
place-Fails nil q v o found h = absurd (ground arith)
place-Fails (leaf ns value) q v o found h = first-Fails o _ h
place-Fails (ext ns child) q v o found h = first-Fails o _ h
place-Fails (branch children value) q v o found h = first-Fails o _ h

-- The keys of the code are lists of nibbles.
abbrev pub AreNibbles : Bytes → Type 0
AreNibbles = All (λ x. x < 16)

strip-AreNibbles : (p q r : Bytes) → AreNibbles q → strip p q ≡ some r → AreNibbles r
unfolding strip
strip-AreNibbles [] q r h e = subst AreNibbles (ground arith) h
strip-AreNibbles (x ∷ p) [] r h e = absurd (ground arith)
strip-AreNibbles (x ∷ p) (y ∷ q) r h e = strip-AreNibbles p q r h.1 (ground arith)

mpt_encode-Fails :
    (n : MptNode) (q v : Bytes)
    → lookup n q ≡ some v
    → AreNibbles q
    → 2048 < length v
    → Fails (mpt_encode n)
unfolding mpt_encode lookup
mpt_encode-Fails nil q v found h big = tt
mpt_encode-Fails (leaf ns value) q v found h big =
    let same : value ≡ v = ground arith in leaf-Fails ns value (rw same big)
mpt_encode-Fails (ext ns child) q v found h big = elim (Option-cases (strip ns q)) [
  | inl away ↦
      let nothing : none ≡ some v = rw away at (sym (lookup-ext ns q child) ∙ found) in
      absurd (ground arith)
  | inr r ↦ first-Fails (mpt_encode child) _ (
      mpt_encode-Fails child r.0 v (rw r.1 at (sym (lookup-ext ns q child) ∙ found))
        (strip-AreNibbles ns q r.0 h r.1) big)
]
mpt_encode-Fails (branch children value) [] v found h big =
    let same : value ≡ v = ground arith in
    then-Fails (encode_places (λ i. encode_place (children i) (mpt_encode (children i))) 0 16) _
      (λ cs. branch-Fails cs value (rw same big))
mpt_encode-Fails (branch children value) (y ∷ q) v found h big =
    first-Fails (encode_places (λ i. encode_place (children i) (mpt_encode (children i))) 0 16) _ (
      places-Fails _ 0 16 y (omega arith) (omega (arith, h.0))
        (place-Fails (children y) q v _ found (mpt_encode-Fails (children y) q v found h.1 big)))

hash_root-Fails : (n : MptNode) → Fails (mpt_encode n) → n ≢ nil → Fails (mpt_hash_root n)
unfolding mpt_hash_root
hash_root-Fails nil f some_node = absurd (some_node refl)
hash_root-Fails (leaf ns value) f some_node = first-Fails (mpt_encode (leaf ns value)) _ f
hash_root-Fails (ext ns child) f some_node = first-Fails (mpt_encode (ext ns child)) _ f
hash_root-Fails (branch children value) f some_node =
    first-Fails (mpt_encode (branch children value)) _ f

hash_root-Settled : (n : MptNode) → Settled (mpt_hash_root n)
unfolding mpt_hash_root
hash_root-Settled nil = tt
hash_root-Settled (leaf ns value) =
    then-Settled (mpt_encode (leaf ns value)) _ (mpt_encode-Settled (leaf ns value)) (λ b. tt)
hash_root-Settled (ext ns child) =
    then-Settled (mpt_encode (ext ns child)) _ (mpt_encode-Settled (ext ns child)) (λ b. tt)
hash_root-Settled (branch children value) =
    then-Settled (mpt_encode (branch children value)) _ (mpt_encode-Settled (branch children value))
      (λ b. tt)

found-node : (n : MptNode) (q v : Bytes) → lookup n q ≡ some v → n ≢ nil
unfolding lookup
found-node n q v found e = let nothing : none ≡ some v = rw e at found in absurd (ground arith)

-- The root of a trie that has, at a key of nibbles, a value of more than 2048 bytes is not computed:
-- `mptHashRoot` panics.
pub mpt_hash_root-oversize :
    (n : MptNode) (q v : Bytes)
    → AreNibbles q
    → lookup n q ≡ some v
    → 2048 < length v
    → mpt_hash_root n ≡ panic
mpt_hash_root-oversize n q v h found big =
    panics (mpt_hash_root n) (hash_root-Settled n)
      (hash_root-Fails n (mpt_encode-Fails n q v found h big) (found-node n q v found))
