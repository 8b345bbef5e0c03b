-- ===== src/Trie/Node.antt =====
-- `mptNode` and `mptInsert` with what it calls, of pkg/c2block/block_processor.go. Go changes the
-- nodes in place; the caller keeps only the node that `mptInsert` returns.
use crypto.Base.{ℕ, suc, ◌==◌, ltb, if◌then◌else◌, [], ◌∷◌, length, take, drop, bit_and, shr}
use crypto.Seq.Types.{bytes_eq}
use crypto.Rlp.Encode.{Bytes}

-- `nil` is the nil pointer; no code makes a node of the kind mptEmpty. The array of the sixteen
-- children is a function of the nibble. A key is a list of nibbles, as `bytesToNibbles` makes it; the
-- panic of Go on a greater number, which is past the array, is left out.
pub data MptNode : Type 0 where
  nil : MptNode
  leaf : Bytes → Bytes → MptNode
  ext : Bytes → MptNode → MptNode
  branch : (ℕ → MptNode) → Bytes → MptNode

abbrev pub no_children : ℕ → MptNode
no_children i = nil

-- `children[i] = n`.
abbrev pub set_child : (ℕ → MptNode) → ℕ → MptNode → ℕ → MptNode
set_child children i n = λ j. if j == i then n else children j

unfoldable pub bytes_to_nibbles : Bytes → Bytes
bytes_to_nibbles [] = []
bytes_to_nibbles (x ∷ xs) = shr x 4 ∷ bit_and x 15 ∷ bytes_to_nibbles xs

unfoldable pub common_pref : Bytes → Bytes → ℕ
common_pref [] ys = 0
common_pref (x ∷ xs) [] = 0
common_pref (x ∷ xs) (y ∷ ys) = let rest = common_pref xs ys in if x == y then suc rest else 0

-- `mptSplit` for the old value of a leaf, and for an old node.
unfoldable pub add_new : (ℕ → MptNode) → Bytes → Bytes → Bytes → MptNode
add_new children value [] new_val = branch children new_val
add_new children value (y ∷ new_rest) new_val =
    branch (set_child children y (leaf new_rest new_val)) value

unfoldable pub mpt_split_leaf : Bytes → Bytes → Bytes → Bytes → MptNode
mpt_split_leaf [] old_val new_rest new_val = add_new no_children old_val new_rest new_val
mpt_split_leaf (x ∷ old_rest) old_val new_rest new_val =
    add_new (set_child no_children x (leaf old_rest old_val)) [] new_rest new_val

unfoldable pub mpt_split_node : Bytes → MptNode → Bytes → Bytes → MptNode
mpt_split_node [] old_node new_rest new_val = add_new no_children [] new_rest new_val
mpt_split_node (x ∷ old_rest) old_node new_rest new_val =
    add_new (set_child no_children x old_node) [] new_rest new_val

-- The branch behind an extension of the common prefix, if there is one.
unfoldable pub behind_prefix : ℕ → Bytes → MptNode → MptNode
behind_prefix cp nibbles br = if ltb 0 cp then ext (take cp nibbles) br else br

unfoldable pub mpt_insert_leaf : Bytes → Bytes → Bytes → Bytes → MptNode
mpt_insert_leaf nibbles old key value =
    if bytes_eq nibbles key
    then leaf nibbles value
    else let cp = common_pref nibbles key in
      behind_prefix cp nibbles (mpt_split_leaf (drop cp nibbles) old (drop cp key) value)

-- The child of an extension, behind what is left of its nibbles after the branch's own.
unfoldable pub rest_of_ext : Bytes → MptNode → MptNode
rest_of_ext old_rest child = if length old_rest == 1 then child else ext (drop 1 old_rest) child

unfoldable pub mpt_split_ext : Bytes → MptNode → Bytes → Bytes → MptNode
mpt_split_ext nibbles child key value =
    let cp = common_pref nibbles key in
    behind_prefix cp nibbles
      (mpt_split_node (drop cp nibbles) (rest_of_ext (drop cp nibbles) child) (drop cp key) value)

unfoldable pub mpt_insert : MptNode → Bytes → Bytes → MptNode
mpt_insert nil key value = leaf key value
mpt_insert (leaf nibbles old) key value = mpt_insert_leaf nibbles old key value
mpt_insert (ext nibbles child) key value =
    let below = mpt_insert child (drop (common_pref nibbles key) key) value in
    if common_pref nibbles key == length nibbles
    then ext nibbles below
    else mpt_split_ext nibbles child key value
mpt_insert (branch children old) [] value = branch children value
mpt_insert (branch children old) (y ∷ key) value =
    branch (set_child children y (mpt_insert (children y) key value)) old
