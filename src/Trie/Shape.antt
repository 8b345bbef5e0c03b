-- ===== src/Trie/Shape.antt =====
-- `mptInsert` keeps the shape of a trie.
use crypto.Base.{
  suc, ◌<◌, ◌≡◌, refl, sym, ◌∙◌, true, false, some, arith, Bool-cases, inl, inr, ◌==◌, ltb, if_elim,
  [], ◌∷◌, length, drop, length-take, length-drop,
}
use crypto.Seq.Types.{bytes_eq, bytes_eq_refl, bytes_eq→≡}
use crypto.Rlp.Encode.{Bytes}
use crypto.Trie.Node.{
  MptNode, nil, leaf, ext, branch, common_pref, behind_prefix, rest_of_ext, mpt_insert_leaf,
  mpt_split_ext, mpt_insert,
}
use crypto.Trie.Prefix.{lookup}
use crypto.Trie.Lookup.{lookup-mpt_insert}
use crypto.Trie.Entries.{
  IsBranch-IsNode, IsBranch, IsNode, IsTrie, IsTrie-HasValues, IsBranchTrie, place,
  set_child-IsTrie, set_child-IsTaken, value-IsTaken, split_leaf-IsTrie, split_node-IsTrie,
}

common_pref-le : (xs ys : Bytes) → common_pref xs ys < suc (length xs)
unfolding common_pref
common_pref-le [] ys = omega arith
common_pref-le (x ∷ xs) [] = omega arith
common_pref-le (x ∷ xs) (y ∷ ys) = ground (arith, common_pref-le xs ys)

-- Behind the common prefix of two different keys, the places are different.
places_apart :
    (ns key : Bytes)
    → bytes_eq ns key ≡ false
    → (place (drop (common_pref ns key) key) == place (drop (common_pref ns key) ns)) ≡ false
unfolding common_pref bytes_eq
places_apart [] [] h = absurd (ground arith)
places_apart [] (y ∷ key) h = ground arith
places_apart (x ∷ ns) [] h = ground arith
places_apart (x ∷ ns) (y ∷ key) h = elim (Bool-cases (x == y)) [
  | inl same ↦
      let tails : bytes_eq ns key ≡ false = rw same at h in rw same (places_apart ns key tails)
  | inr other ↦ rw other (ground arith)
]

common_pref-same : (xs : Bytes) → common_pref xs xs ≡ length xs
unfolding common_pref
common_pref-same [] = refl
common_pref-same (x ∷ xs) =
    let here : (x == x) ≡ true = ground arith in rw (here, common_pref-same xs) refl

part_differs :
    (ns key : Bytes) → (common_pref ns key == length ns) ≡ false → bytes_eq ns key ≡ false
part_differs ns key part = elim (Bool-cases (bytes_eq ns key)) [
  | inl same ↦
      let no : (common_pref ns ns == length ns) ≡ false =
        rw (sym (bytes_eq→≡ ns key same)) at part in
      absurd (ground (arith, common_pref-same ns))
  | inr other ↦ other
]

behind_prefix-IsTrie :
    (ns key : Bytes) (br : MptNode)
    → IsBranchTrie br
    → IsTrie (behind_prefix (common_pref ns key) ns br)
unfolding behind_prefix IsBranchTrie
behind_prefix-IsTrie ns key br b = elim (Bool-cases (ltb 0 (common_pref ns key))) [
  | inl some_prefix ↦
      rw some_prefix
        (ground (arith, common_pref-le ns key, length-take (common_pref ns key) ns), b.0, b.1)
  | inr none_shared ↦ rw none_shared b.1
]

rest_of_ext-IsTrie :
    (ns : Bytes) (child : MptNode)
    → 0 < length ns
    → IsBranch child
    → IsTrie child
    → IsTrie (rest_of_ext ns child)
unfolding rest_of_ext
rest_of_ext-IsTrie ns child some_nibbles b t = elim (Bool-cases (length ns == 1)) [
  | inl one ↦ rw one t
  | inr more ↦ rw more (ground (arith, length-drop 1 ns), b, t)
]

rest_of_ext-IsNode : (ns : Bytes) (child : MptNode) → IsBranch child → IsNode (rest_of_ext ns child)
unfolding rest_of_ext
rest_of_ext-IsNode ns child b = if_elim IsNode (length ns == 1) child _ (IsBranch-IsNode child b) tt

-- A node that holds a key.
IsNode-lookup : (n : MptNode) (q v : Bytes) → lookup n q ≡ some v → IsNode n
unfolding lookup
IsNode-lookup nil q v h = absurd (ground arith)
IsNode-lookup (leaf ns value) q v h = tt
IsNode-lookup (ext ns child) q v h = tt
IsNode-lookup (branch children value) q v h = tt

mpt_insert-IsNode :
    (n : MptNode) (key value : Bytes)
    → IsTrie n
    → 0 < length value
    → IsNode (mpt_insert n key value)
mpt_insert-IsNode n key value h v =
    IsNode-lookup (mpt_insert n key value) key value
      (lookup-mpt_insert n key value key (IsTrie-HasValues n h) v ∙ rw (bytes_eq_refl key) refl)

-- A branch stays a branch.
mpt_insert-IsBranch :
    (n : MptNode) (key value : Bytes) → IsBranch n → IsBranch (mpt_insert n key value)
unfolding mpt_insert
mpt_insert-IsBranch nil key value b = absurd (omega arith)
mpt_insert-IsBranch (leaf ns old) key value b = absurd (omega arith)
mpt_insert-IsBranch (ext ns child) key value b = absurd (omega arith)
mpt_insert-IsBranch (branch children old) [] value b = tt
mpt_insert-IsBranch (branch children old) (y ∷ key) value b = tt

pub mpt_insert-IsTrie :
    (n : MptNode) (key value : Bytes)
    → IsTrie n
    → 0 < length value
    → IsTrie (mpt_insert n key value)
unfolding mpt_insert mpt_insert_leaf mpt_split_ext
mpt_insert-IsTrie nil key value h v = v
mpt_insert-IsTrie (leaf ns old) key value h v =
    let cp = common_pref ns key in
    elim (Bool-cases (bytes_eq ns key)) [
      | inl same ↦ rw same v
      | inr differ ↦ rw differ (
          behind_prefix-IsTrie ns key _ (
            split_leaf-IsTrie (drop cp ns) old (drop cp key) value (places_apart ns key differ) h
              v))
    ]
mpt_insert-IsTrie (ext ns child) key value h v =
    let cp = common_pref ns key in
    elim (Bool-cases (cp == length ns)) [
      | inl whole ↦ rw whole (
        h.0,
        mpt_insert-IsBranch child (drop cp key) value h.1,
        mpt_insert-IsTrie child (drop cp key) value h.2 v,
      )
      | inr part ↦
          let left : 0 < length (drop cp ns) =
            ground (arith, common_pref-le ns key, length-drop cp ns) in
          rw part (
            behind_prefix-IsTrie ns key _ (
              split_node-IsTrie (drop cp ns) (drop cp key) value _
                (places_apart ns key (part_differs ns key part)) left
                (rest_of_ext-IsNode (drop cp ns) child h.1)
                (rest_of_ext-IsTrie (drop cp ns) child left h.1 h.2) v))
    ]
mpt_insert-IsTrie (branch children old) [] value h v = (
  h.0,
  record {
    one = h.1.one;
    other = h.1.other;
    apart = h.1.apart;
    one_taken = value-IsTaken children old value h.1.one v h.1.one_taken;
    other_taken = value-IsTaken children old value h.1.other v h.1.other_taken;
  },
)
mpt_insert-IsTrie (branch children old) (y ∷ key) value h v =
    let new = mpt_insert-IsTrie (children y) key value (h.0 y) v in
    let node = mpt_insert-IsNode (children y) key value (h.0 y) v in
    (
      set_child-IsTrie children y _ h.0 new,
      record {
        one = h.1.one;
        other = h.1.other;
        apart = h.1.apart;
        one_taken = set_child-IsTaken children old y _ h.1.one node h.1.one_taken;
        other_taken = set_child-IsTaken children old y _ h.1.other node h.1.other_taken;
      },
    )
