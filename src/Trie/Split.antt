-- ===== src/Trie/Split.antt =====
-- What the branches of a split hold, and the nodes behind a common prefix.
use crypto.Base.{
  ℕ, suc, ◌<◌, ◌≡◌, ◌≢◌, refl, sym, ap, ◌∙◌, arith, true, false, Bool-cases, inl, inr, ◌==◌,
  if◌then◌else◌, [], ◌∷◌, length, take, drop, Option, none,
}
use crypto.Seq.Types.{bytes_eq}
use crypto.Rlp.Encode.{Bytes}
use crypto.Trie.Node.{
  MptNode, nil, leaf, ext, branch, no_children, set_child, common_pref, mpt_split_leaf,
  mpt_split_node, rest_of_ext,
}
use crypto.Trie.Prefix.{
  lookup, IsFree, lookup_if, lookup-add_new, bytes_eq_cons, or_new, lookup-ext_cons, lookup-ext_end,
  lookup-ext_nil, lookup-rest_of_ext,
}

IsFree-no_children : (key : Bytes) → IsFree no_children key
IsFree-no_children [] = tt
IsFree-no_children (y ∷ key) = refl

-- A lookup that takes one nibble first.
abbrev peeled : ℕ → (Bytes → Option Bytes) → Bytes → Option Bytes
peeled x f [] = none
peeled x f (z ∷ q) = if x == z then f q else none

peeled-leaf :
    (x : ℕ) (ns old q : Bytes) → lookup (leaf (x ∷ ns) old) q ≡ peeled x (lookup (leaf ns old)) q
unfolding lookup bytes_eq
peeled-leaf x ns old [] = refl
peeled-leaf x ns old (z ∷ q) = elim (Bool-cases (x == z)) [
  | inl same ↦ rw same refl
  | inr other ↦ rw other refl
]

peeled-ext :
    (x : ℕ) (ns q : Bytes) (n : MptNode)
    → lookup (ext (x ∷ ns) n) q ≡ peeled x (lookup (ext ns n)) q
peeled-ext x ns [] n = lookup-ext_end x ns n
peeled-ext x ns (z ∷ q) n = lookup-ext_cons x z ns q n

peeled-branch :
    (x : ℕ) (q : Bytes) (n : MptNode)
    → lookup (branch (set_child no_children x n) []) q ≡ peeled x (lookup n) q
unfolding lookup
peeled-branch x [] n = refl
peeled-branch x (z ∷ q) n =
    let e : (z == x) ≡ (x == z) = ground arith in lookup_if (z == x) n nil q ∙ rw e refl

ends : (y : ℕ) (key value : Bytes) → none ≡ or_new (y ∷ key) value none []
unfolding bytes_eq
ends y key value = refl

-- A nibble that the old key and the new one share.
peeled_new :
    (x y : ℕ) (key value q : Bytes) (f g : Bytes → Option Bytes)
    → (x == y) ≡ true
    → ((r : Bytes) → g r ≡ or_new key value (f r) r)
    → peeled x g q ≡ or_new (y ∷ key) value (peeled x f q) q
peeled_new x y key value [] f g same below = ends y key value
peeled_new x y key value (z ∷ q) f g same below =
    let e : x ≡ y = ground arith in
    rw (bytes_eq_cons y z key q, e)
      (elim (Bool-cases (y == z)) [ inl here ↦ rw here (below q) | inr away ↦ rw away refl ])

-- A nibble that they do not share, at which there is nothing of the new key.
branch_as_leaf :
    (old q : Bytes) → 0 < length old → lookup (branch no_children old) q ≡ lookup (leaf [] old) q
unfolding lookup bytes_eq
branch_as_leaf old [] h = let given : (length old == 0) ≡ false = ground arith in rw given refl
branch_as_leaf old (z ∷ q) h = refl

free_beside : (x y : ℕ) (n : MptNode) → (x == y) ≡ false → set_child no_children x n y ≡ nil
free_beside x y n other = let e : (y == x) ≡ false = ground arith in rw e refl

peeled_same :
    (x : ℕ) (q : Bytes) (f g : Bytes → Option Bytes)
    → ((r : Bytes) → f r ≡ g r)
    → peeled x f q ≡ peeled x g q
peeled_same x [] f g e = refl
peeled_same x (z ∷ q) f g e = rw (e q) refl

-- What the branch of a split gives, behind the common prefix.
pub split_leaf :
    (ns key old value q : Bytes)
    → 0 < length old
    → 0 < length value
    → bytes_eq ns key ≡ false
    → lookup
        (ext
          (take (common_pref ns key) ns)
          (mpt_split_leaf (drop (common_pref ns key) ns) old (drop (common_pref ns key) key) value))
        q
      ≡ or_new key value (lookup (leaf ns old) q) q
unfolding common_pref mpt_split_leaf
split_leaf [] key old value q o v differ =
    lookup-ext_nil _ q
    ∙ lookup-add_new no_children old key value q v (IsFree-no_children key)
    ∙ ap (λ (t : Option Bytes). or_new key value t q) (branch_as_leaf old q o)
split_leaf (x ∷ ns) [] old value q o v differ =
    lookup-ext_nil _ q
    ∙ lookup-add_new (set_child no_children x (leaf ns old)) [] [] value q v tt
    ∙ ap (λ (t : Option Bytes). or_new [] value t q)
        (peeled-branch x q (leaf ns old) ∙ sym (peeled-leaf x ns old q))
split_leaf (x ∷ ns) (y ∷ key) old value q o v differ = elim (Bool-cases (x == y)) [
  | inl same ↦
      let tails : bytes_eq ns key ≡ false = rw same at (sym (bytes_eq_cons x y ns key) ∙ differ) in
      rw
        (
          same,
          peeled-leaf x ns old q,
          peeled-ext x (take (common_pref ns key) ns) q (
              mpt_split_leaf (drop (common_pref ns key) ns) old (drop (common_pref ns key) key)
                value),
        )
        (peeled_new x y key value q (lookup (leaf ns old))
          (lookup (
            ext (take (common_pref ns key) ns) (
              mpt_split_leaf (drop (common_pref ns key) ns) old (drop (common_pref ns key) key)
                value)))
          same (λ r. split_leaf ns key old value r o v tails))
  | inr other ↦ rw other (
      lookup-ext_nil _ q
      ∙ lookup-add_new (set_child no_children x (leaf ns old)) [] (y ∷ key) value q v
          (free_beside x y (leaf ns old) other)
      ∙ ap (λ (t : Option Bytes). or_new (y ∷ key) value t q)
          (peeled-branch x q (leaf ns old) ∙ sym (peeled-leaf x ns old q)))
]

one_child :
    (x : ℕ) (ns q : Bytes) (child : MptNode)
    → lookup (branch (set_child no_children x (rest_of_ext (x ∷ ns) child)) []) q
      ≡ lookup (ext (x ∷ ns) child) q
one_child x ns q child =
    peeled-branch x q (rest_of_ext (x ∷ ns) child)
    ∙ peeled_same x q _ _ (λ r. lookup-rest_of_ext x ns r child)
    ∙ sym (peeled-ext x ns q child)

pub split_ext :
    (ns key value q : Bytes) (child : MptNode)
    → 0 < length value
    → common_pref ns key ≢ length ns
    → lookup
        (ext (take (common_pref ns key) ns) (
          mpt_split_node
            (drop (common_pref ns key) ns)
            (rest_of_ext (drop (common_pref ns key) ns) child)
            (drop (common_pref ns key) key)
            value))
        q
      ≡ or_new key value (lookup (ext ns child) q) q
unfolding common_pref mpt_split_node
split_ext [] key value q child v partial = absurd (partial refl)
split_ext (x ∷ ns) [] value q child v partial =
    lookup-ext_nil _ q
    ∙ lookup-add_new (set_child no_children x (rest_of_ext (x ∷ ns) child)) [] [] value q v tt
    ∙ ap (λ (t : Option Bytes). or_new [] value t q) (one_child x ns q child)
split_ext (x ∷ ns) (y ∷ key) value q child v partial = elim (Bool-cases (x == y)) [
  | inl same ↦
      let cp = common_pref ns key in
      let br = mpt_split_node (drop cp ns) (rest_of_ext (drop cp ns) child) (drop cp key) value in
      let longer : suc cp ≢ suc (length ns) = rw same at partial in
      rw (same, peeled-ext x ns q child, peeled-ext x (take cp ns) q br)
        (peeled_new x y key value q (lookup (ext ns child)) (lookup (ext (take cp ns) br)) same
          (λ r. split_ext ns key value r child v (λ e. longer (ap suc e))))
  | inr other ↦ rw other (
      lookup-ext_nil _ q
      ∙ lookup-add_new (set_child no_children x (rest_of_ext (x ∷ ns) child)) [] (y ∷ key) value q v
          (free_beside x y (rest_of_ext (x ∷ ns) child) other)
      ∙ ap (λ (t : Option Bytes). or_new (y ∷ key) value t q) (one_child x ns q child))
]

-- A key that goes on behind the whole extension.
pub whole_ext :
    (ns key value q : Bytes) (child below : MptNode)
    → common_pref ns key ≡ length ns
    → ((r : Bytes) → lookup below r ≡ or_new (drop (length ns) key) value (lookup child r) r)
    → lookup (ext ns below) q ≡ or_new key value (lookup (ext ns child) q) q
unfolding common_pref
whole_ext [] key value q child below whole there =
    lookup-ext_nil below q
    ∙ there q
    ∙ ap (λ (t : Option Bytes). or_new key value t q) (sym (lookup-ext_nil child q))
whole_ext (x ∷ ns) [] value q child below whole there = absurd (omega arith)
whole_ext (x ∷ ns) (y ∷ key) value q child below whole there = elim (Bool-cases (x == y)) [
  | inl same ↦
      let all : suc (common_pref ns key) ≡ suc (length ns) = rw same at whole in
      rw (peeled-ext x ns q child, peeled-ext x ns q below)
        (peeled_new x y key value q (lookup (ext ns child)) (lookup (ext ns below)) same
          (λ r. whole_ext ns key value r child below (omega arith) there))
  | inr other ↦ let none_shared : 0 ≡ suc (length ns) = rw other at whole in absurd (omega arith)
]
