-- ===== src/Trie/Entries.antt =====
-- The entries of a branch, and the shape of the tries that `mptInsert` makes.
use crypto.Base.{ℕ, zero, suc, ◌<◌, ◌≡◌, true, false, arith, ◌==◌, if_elim, [], ◌∷◌, length}
use crypto.Rlp.Encode.{Bytes}
use crypto.Trie.Node.{
  MptNode, nil, leaf, ext, branch, no_children, set_child, add_new, mpt_split_leaf, mpt_split_node,
}
use crypto.Trie.Lookup.{HasValues}

abbrev pub IsBranch : MptNode → Type 0
IsBranch nil = 0 < 0
IsBranch (leaf ns value) = 0 < 0
IsBranch (ext ns child) = 0 < 0
IsBranch (branch children value) = Unit

abbrev pub IsNode : MptNode → Type 0
IsNode nil = 0 < 0
IsNode (leaf ns value) = Unit
IsNode (ext ns child) = Unit
IsNode (branch children value) = Unit

pub IsBranch-IsNode : (n : MptNode) → IsBranch n → IsNode n
IsBranch-IsNode nil b = b
IsBranch-IsNode (leaf ns value) b = tt
IsBranch-IsNode (ext ns child) b = tt
IsBranch-IsNode (branch children value) b = tt

-- The place of a key in a branch: 0 is the branch's value, and one more than a nibble is its child.
abbrev pub place : Bytes → ℕ
place [] = 0
place (x ∷ xs) = suc x

-- A place of a branch is taken.
abbrev pub IsTaken : (ℕ → MptNode) → Bytes → ℕ → Type 0
IsTaken children value zero = 0 < length value
IsTaken children value (suc i) = IsNode (children i)

-- Two places of a branch are taken.
pub record HasTwo (children : ℕ → MptNode) (value : Bytes) : Type 0 where
  pub one : ℕ
  pub other : ℕ
  pub apart : (one == other) ≡ false
  pub one_taken : IsTaken children value one
  pub other_taken : IsTaken children value other

-- Values are not empty, a branch has two entries at least, and an extension has nibbles and a branch
-- behind them.
abbrev pub IsTrie : MptNode → Type 0
IsTrie nil = Unit
IsTrie (leaf ns value) = 0 < length value
IsTrie (ext ns child) = (0 < length ns) × IsBranch child × IsTrie child
IsTrie (branch children value) = ((i : ℕ) → IsTrie (children i)) × HasTwo children value

pub IsTrie-HasValues : (n : MptNode) → IsTrie n → HasValues n
IsTrie-HasValues nil h = tt
IsTrie-HasValues (leaf ns value) h = h
IsTrie-HasValues (ext ns child) h = IsTrie-HasValues child h.2
IsTrie-HasValues (branch children value) h = λ i. IsTrie-HasValues (children i) (h.0 i)

pub set_child-IsTrie :
    (children : ℕ → MptNode) (y : ℕ) (n : MptNode)
    → ((i : ℕ) → IsTrie (children i))
    → IsTrie n
    → (i : ℕ) → IsTrie (set_child children y n i)
set_child-IsTrie children y n all new i = if_elim IsTrie (i == y) n (children i) new (all i)

-- The places that were taken stay so when a child is set.
pub set_child-IsTaken :
    (children : ℕ → MptNode) (value : Bytes) (y : ℕ) (n : MptNode) (a : ℕ)
    → IsNode n
    → IsTaken children value a
    → IsTaken (set_child children y n) value a
set_child-IsTaken children value y n zero new h = h
set_child-IsTaken children value y n (suc i) new h = if_elim IsNode (i == y) n (children i) new h

child-IsTaken :
    (children : ℕ → MptNode) (value : Bytes) (y : ℕ) (n : MptNode)
    → IsNode n
    → IsTaken (set_child children y n) value (suc y)
child-IsTaken children value y n new = let here : (y == y) ≡ true = ground arith in rw here new

pub value-IsTaken :
    (children : ℕ → MptNode) (old value : Bytes) (a : ℕ)
    → 0 < length value
    → IsTaken children old a
    → IsTaken children value a
value-IsTaken children old value zero v h = v
value-IsTaken children old value (suc i) v h = h

unfoldable pub IsBranchTrie : MptNode → Type 0
IsBranchTrie n = IsBranch n × IsTrie n

-- A new key beside an entry at another place.
add_new-IsTrie :
    (children : ℕ → MptNode) (old key value : Bytes) (a : ℕ)
    → ((i : ℕ) → IsTrie (children i))
    → IsTaken children old a
    → (place key == a) ≡ false
    → 0 < length value
    → IsBranchTrie (add_new children old key value)
unfolding add_new IsBranchTrie
add_new-IsTrie children old [] value a all taken apart v = (
  tt,
  (
    all,
    record {
      one = 0;
      other = a;
      apart = apart;
      one_taken = v;
      other_taken = value-IsTaken children old value a v taken;
    },
  ),
)
add_new-IsTrie children old (y ∷ key) value a all taken apart v = (
  tt,
  (
    set_child-IsTrie children y (leaf key value) all v,
    record {
      one = suc y;
      other = a;
      apart = apart;
      one_taken = child-IsTaken children old y (leaf key value) tt;
      other_taken = set_child-IsTaken children old y (leaf key value) a tt taken;
    },
  ),
)

pub split_leaf-IsTrie :
    (ns old key value : Bytes)
    → (place key == place ns) ≡ false
    → 0 < length old
    → 0 < length value
    → IsBranchTrie (mpt_split_leaf ns old key value)
unfolding mpt_split_leaf
split_leaf-IsTrie [] old key value apart o v =
    add_new-IsTrie no_children old key value 0 (λ i. tt) o apart v
split_leaf-IsTrie (x ∷ ns) old key value apart o v =
    add_new-IsTrie (set_child no_children x (leaf ns old)) [] key value (suc x)
      (set_child-IsTrie no_children x (leaf ns old) (λ i. tt) o)
      (child-IsTaken no_children [] x (leaf ns old) tt) apart v

pub split_node-IsTrie :
    (ns key value : Bytes) (old : MptNode)
    → (place key == place ns) ≡ false
    → 0 < length ns
    → IsNode old
    → IsTrie old
    → 0 < length value
    → IsBranchTrie (mpt_split_node ns old key value)
unfolding mpt_split_node
split_node-IsTrie [] key value old apart l node o v = absurd (omega arith)
split_node-IsTrie (x ∷ ns) key value old apart l node o v =
    add_new-IsTrie (set_child no_children x old) [] key value (suc x)
      (set_child-IsTrie no_children x old (λ i. tt) o) (child-IsTaken no_children [] x old node)
      apart v
