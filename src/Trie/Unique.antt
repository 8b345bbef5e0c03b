-- ===== src/Trie/Unique.antt =====
-- There is one trie for what is looked up in it, and `mptInsert` gives that of the new content.
use mathlib.Core.Path.{fun_ext}
use crypto.Base.{
  ℕ, suc, ◌<◌, ◌≡◌, refl, sym, ap, ◌∙◌, arith, if◌then◌else◌, [], ◌∷◌, length, some, none, Option,
  false, ◌==◌,
}
use crypto.Seq.Types.{bytes_eq, bytes_eq_refl}
use crypto.Rlp.Encode.{Bytes}
use crypto.Trie.Node.{MptNode, nil, leaf, ext, branch, mpt_insert}
use crypto.Trie.Prefix.{lookup, lookup-ext_nil}
use crypto.Trie.Lookup.{lookup-mpt_insert}
use crypto.Trie.Entries.{IsTrie, IsNode, IsTrie-HasValues}
use crypto.Trie.Shape.{mpt_insert-IsTrie}
use crypto.Trie.Same.{IsSame, held, leaf_key, not_leaf, not_ext, IsSame-ext}

swap : (n m : MptNode) → IsSame n m → IsSame m n
swap n m same q = sym (same q)

not_nil : (n : MptNode) → IsTrie n → IsNode n → IsSame nil n → ⊥
unfolding lookup
not_nil n h node same =
    let k = held n h node in
    let no : none ≡ some k.value = same k.key ∙ k.found in absurd (ground arith)

some_injective : (v w : Bytes) → some v ≡ some w → v ≡ w
some_injective v w e = ap (λ (o : Option Bytes). elim o [ none ↦ v | some x ↦ x ]) e

same_leaf : (ns v ms w : Bytes) → IsSame (leaf ns v) (leaf ms w) → leaf ns v ≡ leaf ms w
unfolding lookup
same_leaf ns v ms w same =
    let here : lookup (leaf ns v) ns ≡ some v = rw (bytes_eq_refl ns) refl in
    let keys = leaf_key ms w ns v (sym (same ns) ∙ here) in
    let there : lookup (leaf ms w) ns ≡ some w = rw (keys, bytes_eq_refl ns) refl in
    let values = some_injective v w (sym here ∙ same ns ∙ there) in rw (keys, values) refl

-- The value of a branch, of which the empty one is none.
same_root :
    (v w : Bytes)
    → (if length v == 0 then none else some v) ≡ (if length w == 0 then none else some w)
    → v ≡ w
same_root [] [] h = refl
same_root [] (y ∷ w) h =
    let more : (suc (length w) == 0) ≡ false = ground arith in
    let no : none ≡ some (y ∷ w) = rw more at h in absurd (ground arith)
same_root (x ∷ v) [] h =
    let more : (suc (length v) == 0) ≡ false = ground arith in
    let no : some (x ∷ v) ≡ none = rw more at h in absurd (ground arith)
same_root (x ∷ v) (y ∷ w) h =
    let more : (suc (length v) == 0) ≡ false = ground arith in
    let also : (suc (length w) == 0) ≡ false = ground arith in
    let yes : some (x ∷ v) ≡ some (y ∷ w) = rw (more, also) at h in
    some_injective (x ∷ v) (y ∷ w) yes

same_value :
    (children others : ℕ → MptNode) (v w : Bytes)
    → IsSame (branch children v) (branch others w)
    → v ≡ w
unfolding lookup
same_value children others v w same = same_root v w (same [])

IsSame-child :
    (children others : ℕ → MptNode) (v w : Bytes) (i : ℕ)
    → IsSame (branch children v) (branch others w)
    → IsSame (children i) (others i)
unfolding lookup
IsSame-child children others v w i same q = same (i ∷ q)

behind_none : (n m : MptNode) → IsSame n m → IsSame n (ext [] m)
behind_none n m same q = same q ∙ sym (lookup-ext_nil m q)

ext_not_branch :
    (ns : Bytes) (child : MptNode) (others : ℕ → MptNode) (w : Bytes)
    → 0 < length ns
    → IsTrie (branch others w)
    → IsSame (ext ns child) (branch others w)
    → ⊥
ext_not_branch [] child others w l k same = omega arith
ext_not_branch (x ∷ ns) child others w l k same = not_ext x ns child (branch others w) tt k same

-- Two tries that hold the same values are the same node.
pub IsSame-eq : (n m : MptNode) → IsTrie n → IsTrie m → IsSame n m → n ≡ m
IsSame-eq nil nil h k same = refl
IsSame-eq nil (leaf ms w) h k same = absurd (not_nil _ k tt same)
IsSame-eq nil (ext ms other) h k same = absurd (not_nil _ k tt same)
IsSame-eq nil (branch others w) h k same = absurd (not_nil _ k tt same)
IsSame-eq (leaf ns v) nil h k same = absurd (not_nil _ h tt (swap _ _ same))
IsSame-eq (leaf ns v) (leaf ms w) h k same = same_leaf ns v ms w same
IsSame-eq (leaf ns v) (ext ms other) h k same = absurd (not_leaf ns v ms other k.1 k.2 same)
IsSame-eq (leaf ns v) (branch others w) h k same =
    absurd (not_leaf ns v [] (branch others w) tt k (behind_none _ _ same))
IsSame-eq (ext ns child) nil h k same = absurd (not_nil _ h tt (swap _ _ same))
IsSame-eq (ext ns child) (leaf ms w) h k same =
    absurd (not_leaf ms w ns child h.1 h.2 (swap _ _ same))
IsSame-eq (ext ns child) (ext ms other) h k same =
    let e = IsSame-ext ns ms child other h.1 h.2 k.1 k.2 same in
    rw (e.0, IsSame-eq child other h.2 k.2 e.1) refl
IsSame-eq (ext ns child) (branch others w) h k same =
    absurd (ext_not_branch ns child others w h.0 k same)
IsSame-eq (branch children v) nil h k same = absurd (not_nil _ h tt (swap _ _ same))
IsSame-eq (branch children v) (leaf ms w) h k same =
    absurd (not_leaf ms w [] (branch children v) tt h (behind_none _ _ (swap _ _ same)))
IsSame-eq (branch children v) (ext ms other) h k same =
    absurd (ext_not_branch ms other children v k.0 h (swap _ _ same))
IsSame-eq (branch children v) (branch others w) h k same =
    let all : children ≡ others = fun_ext (λ i.
      IsSame-eq (children i) (others i) (h.0 i) (k.0 i)
        (IsSame-child children others v w i same)) in
    rw (all, same_value children others v w same) refl

-- Inserting a value that is not empty into a trie, at any key, gives a trie, and the only one that
-- holds the value at that key and at every other key what was there: any trie of that content is the
-- very node that `mptInsert` gives.
pub mpt_insert_unique :
    (n m : MptNode) (key value : Bytes)
    → IsTrie n
    → 0 < length value
    → IsTrie m
    → ((q : Bytes) → lookup m q ≡ (if bytes_eq key q then some value else lookup n q))
    → IsTrie (mpt_insert n key value) × (m ≡ mpt_insert n key value)
mpt_insert_unique n m key value h v k content =
    let new = mpt_insert-IsTrie n key value h v in
    (
      new,
      IsSame-eq m (mpt_insert n key value) k new
          (λ q. content q ∙ sym (lookup-mpt_insert n key value q (IsTrie-HasValues n h) v)),
    )
