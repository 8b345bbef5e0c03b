-- ===== src/Trie/Lookup.antt =====
-- `mptInsert` as the map that gives a key its value and leaves the other keys alone.
use crypto.Base.{
  ℕ, ◌<◌, ◌≡◌, refl, ◌∙◌, arith, true, false, Bool-cases, inl, inr, ◌==◌, if◌then◌else◌, [], ◌∷◌,
  length, drop, some,
}
use crypto.Seq.Types.{bytes_eq, bytes_eq→≡}
use crypto.Rlp.Encode.{Bytes}
use crypto.Trie.Node.{
  MptNode, nil, leaf, ext, branch, set_child, common_pref, mpt_insert_leaf, mpt_split_ext,
  mpt_insert,
}
use crypto.Trie.Prefix.{lookup, lookup_if, bytes_eq_cons, or_new, lookup-behind_prefix}
use crypto.Trie.Split.{split_leaf, split_ext, whole_ext}

-- The values that a trie holds are not empty.
abbrev pub HasValues : MptNode → Type 0
HasValues nil = Unit
HasValues (leaf ns value) = 0 < length value
HasValues (ext ns child) = HasValues child
HasValues (branch children value) = (i : ℕ) → HasValues (children i)

new_leaf : (key value q : Bytes) → lookup (leaf key value) q ≡ or_new key value (lookup nil q) q
unfolding lookup
new_leaf key value q = refl

replaced :
    (key old value q : Bytes)
    → lookup (leaf key value) q ≡ or_new key value (lookup (leaf key old) q) q
unfolding lookup
replaced key old value q = elim (Bool-cases (bytes_eq key q)) [
  | inl same ↦ rw same refl
  | inr other ↦ rw other refl
]

-- The value at the root of a branch.
lookup_root :
    (children : ℕ → MptNode) (old value q : Bytes)
    → 0 < length value
    → lookup (branch children value) q ≡ or_new [] value (lookup (branch children old) q) q
unfolding lookup bytes_eq
lookup_root children old value [] v =
    let given : (length value == 0) ≡ false = ground arith in rw given refl
lookup_root children old value (z ∷ q) v = refl

root_kept :
    (y : ℕ) (key old value : Bytes) (children others : ℕ → MptNode)
    → lookup (branch others old) [] ≡ or_new (y ∷ key) value (lookup (branch children old) []) []
unfolding lookup bytes_eq
root_kept y key old value children others = refl

-- The child of one nibble changes, the others stay.
one_below :
    (y z : ℕ) (key value q : Bytes) (children : ℕ → MptNode) (new : MptNode)
    → lookup new q ≡ or_new key value (lookup (children y) q) q
    → (if z == y then lookup new q else lookup (children z) q)
      ≡ or_new (y ∷ key) value (lookup (branch children []) (z ∷ q)) (z ∷ q)
unfolding lookup
one_below y z key value q children new below = elim (Bool-cases (z == y)) [
  | inl same ↦
      let e : z ≡ y = ground arith in
      let here : (y == y) ≡ true = ground arith in rw (bytes_eq_cons y z key q, e, here) below
  | inr other ↦
      let e : (y == z) ≡ false = ground arith in rw (bytes_eq_cons y z key q, other, e) refl
]

insert_leaf :
    (ns old key value q : Bytes)
    → 0 < length old
    → 0 < length value
    → lookup (mpt_insert_leaf ns old key value) q ≡ or_new key value (lookup (leaf ns old) q) q
unfolding mpt_insert_leaf
insert_leaf ns old key value q o v = elim (Bool-cases (bytes_eq ns key)) [
  | inl same ↦ rw (same, bytes_eq→≡ ns key same) (replaced key old value q)
  | inr differ ↦
      rw differ (
        lookup-behind_prefix (common_pref ns key) ns q _ ∙ split_leaf ns key old value q o v differ)
]

-- Inserting a value that is not empty, at any key, into a trie whose values are not empty: the key
-- then has that value, and every other key has what it had.
pub lookup-mpt_insert :
    (n : MptNode) (key value q : Bytes)
    → HasValues n
    → 0 < length value
    → lookup (mpt_insert n key value) q ≡ (if bytes_eq key q then some value else lookup n q)
unfolding mpt_insert mpt_split_ext lookup
lookup-mpt_insert nil key value q h v = new_leaf key value q
lookup-mpt_insert (leaf ns old) key value q h v = insert_leaf ns old key value q h v
lookup-mpt_insert (ext ns child) key value q h v =
    elim (Bool-cases (common_pref ns key == length ns)) [
      | inl whole ↦
          let below = mpt_insert child (drop (common_pref ns key) key) value in
          let all : common_pref ns key ≡ length ns = ground arith in
          rw whole (
            whole_ext ns key value q child below all
              (λ r. rw all (lookup-mpt_insert child (drop (length ns) key) value r h v)))
      | inr part ↦ rw part (
          lookup-behind_prefix (common_pref ns key) ns q _
          ∙ split_ext ns key value q child v (λ e. absurd (ground arith)))
    ]
lookup-mpt_insert (branch children old) [] value q h v = lookup_root children old value q v
lookup-mpt_insert (branch children old) (y ∷ key) value [] h v =
    root_kept y key old value children (set_child children y (mpt_insert (children y) key value))
lookup-mpt_insert (branch children old) (y ∷ key) value (z ∷ q) h v =
    lookup_if (z == y) (mpt_insert (children y) key value) (children z) q
    ∙ one_below y z key value q children (mpt_insert (children y) key value)
        (lookup-mpt_insert (children y) key value q (h y) v)
