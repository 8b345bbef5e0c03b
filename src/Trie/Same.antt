-- ===== src/Trie/Same.antt =====
-- The keys that a trie holds tell its root.
use crypto.Base.{
  ℕ, zero, suc, ◌≡◌, refl, sym, ap, ◌∙◌, arith, true, false, Bool-cases, inl, inr, ◌==◌,
  if◌then◌else◌, [], ◌∷◌, ◌++◌, length, drop, none, some,
}
use crypto.Seq.Types.{bytes_eq, bytes_eq_refl, bytes_eq→≡}
use crypto.Rlp.Encode.{Bytes}
use crypto.Trie.Node.{MptNode, nil, leaf, ext, branch}
use crypto.Trie.Prefix.{lookup, lookup-ext_cons, lookup-ext_end, lookup-ext_nil}
use crypto.Trie.Entries.{IsBranch, IsBranch-IsNode, IsNode, IsTaken, IsTrie, place}

-- A key that a node holds.
pub record Held (n : MptNode) : Type 0 where
  pub key : Bytes
  pub value : Bytes
  pub found : lookup n key ≡ some value

-- A key that a branch holds at a place.
record HeldAt (n : MptNode) (a : ℕ) : Type 0 where
  here : Held n
  at : place here.key ≡ a

held_at :
    (children : ℕ → MptNode) (value : Bytes) (a : ℕ)
    → IsTaken children value a
    → ((i : ℕ) → IsNode (children i) → Held (children i))
    → HeldAt (branch children value) a
unfolding lookup
held_at children value zero taken below = record {
  here = record {
    key = [];
    value = value;
    found = let given : (length value == 0) ≡ false = ground arith in rw given refl;
  };
  at = refl;
}
held_at children value (suc i) taken below =
    let h = below i taken in
    record { here = record { key = i ∷ h.key; value = h.value; found = h.found }; at = refl }

held_behind :
    (p : Bytes) (child : MptNode) (q : Bytes) → lookup (ext p child) (p ++ q) ≡ lookup child q
held_behind [] child q = lookup-ext_nil child q
held_behind (x ∷ p) child q =
    let same : (x == x) ≡ true = ground arith in
    lookup-ext_cons x x p (p ++ q) child ∙ rw same (held_behind p child q)

-- A node of a trie holds a key.
pub held : (n : MptNode) → IsTrie n → IsNode n → Held n
unfolding lookup
held nil h node = absurd (omega arith)
held (leaf ns value) h node = record { key = ns; value = value; found = rw (bytes_eq_refl ns) refl }
held (ext ns child) h node =
    let b = held child h.2 (IsBranch-IsNode child h.1) in
    record { key = ns ++ b.key; value = b.value; found = held_behind ns child b.key ∙ b.found }
held (branch children value) h node =
    (held_at children value h.1.one h.1.one_taken (λ i. held (children i) (h.0 i))).here

-- The nodes hold the same values.
abbrev pub IsSame : MptNode → MptNode → Type 0
IsSame n m = (q : Bytes) → lookup n q ≡ lookup m q

-- Two keys that a branch holds at different places.
record Apart (n : MptNode) : Type 0 where
  first : Held n
  second : Held n
  apart : (place first.key == place second.key) ≡ false

two_held : (n : MptNode) → IsBranch n → IsTrie n → Apart n
two_held nil b h = absurd (omega arith)
two_held (leaf ns value) b h = absurd (omega arith)
two_held (ext ns child) b h = absurd (omega arith)
two_held (branch children value) b h =
    let below : (i : ℕ) → IsNode (children i) → Held (children i) =
      λ i. held (children i) (h.0 i) in
    let x = held_at children value h.1.one h.1.one_taken below in
    let y = held_at children value h.1.other h.1.other_taken below in
    record { first = x.here; second = y.here; apart = rw (x.at, y.at) h.1.apart }

pub leaf_key : (ns v q w : Bytes) → lookup (leaf ns v) q ≡ some w → ns ≡ q
unfolding lookup
leaf_key ns v q w h = elim (Bool-cases (bytes_eq ns q)) [
  | inl same ↦ bytes_eq→≡ ns q same
  | inr other ↦ let no : none ≡ some w = rw (other, lookup) at h in absurd (ground arith)
]

ext_place :
    (x : ℕ) (p q w : Bytes) (child : MptNode)
    → lookup (ext (x ∷ p) child) q ≡ some w
    → place q ≡ suc x
ext_place x p [] w child h =
    let no : none ≡ some w = sym (lookup-ext_end x p child) ∙ h in absurd (ground arith)
ext_place x p (z ∷ q) w child h =
    let cond : (if x == z then lookup (ext p child) q else none) ≡ some w =
      sym (lookup-ext_cons x z p q child) ∙ h in
    elim (Bool-cases (x == z)) [
      | inl same ↦ ground arith
      | inr other ↦ let no : none ≡ some w = rw other at cond in absurd (ground arith)
    ]

append_cancel : (p k l : Bytes) → p ++ k ≡ p ++ l → k ≡ l
append_cancel [] k l h = h
append_cancel (x ∷ p) k l h = append_cancel p k l (ap (drop 1) h)

-- A leaf holds one key, and a branch behind any prefix holds two.
pub not_leaf :
    (ns v p : Bytes) (child : MptNode)
    → IsBranch child
    → IsTrie child
    → IsSame (leaf ns v) (ext p child)
    → ⊥
not_leaf ns v p child b h same =
    let two = two_held child b h in
    let at : (k : Held child) → ns ≡ p ++ k.key = λ k.
      leaf_key ns v (p ++ k.key) k.value
        (same (p ++ k.key) ∙ held_behind p child k.key ∙ k.found) in
    let e : two.first.key ≡ two.second.key =
      append_cancel p two.first.key two.second.key (sym (at two.first) ∙ at two.second) in
    let f : place two.first.key ≡ place two.second.key = ap place e in
    let apart = two.apart in ground arith

-- The keys of an extension start with one nibble, those of a branch do not.
pub not_ext :
    (x : ℕ) (p : Bytes) (child n : MptNode)
    → IsBranch n
    → IsTrie n
    → IsSame (ext (x ∷ p) child) n
    → ⊥
not_ext x p child n b h same =
    let two = two_held n b h in
    let at : (k : Held n) → place k.key ≡ suc x =
      λ k. ext_place x p k.key k.value child (same k.key ∙ k.found) in
    let e = at two.first in let f = at two.second in let apart = two.apart in ground arith

first_nibble :
    (x y : ℕ) (p r : Bytes) (child other : MptNode)
    → Held child
    → IsSame (ext (x ∷ p) child) (ext (y ∷ r) other)
    → x ≡ y
first_nibble x y p r child other k same =
    let at : suc x ≡ suc y =
      ext_place y r (x ∷ p ++ k.key) k.value other
        (sym (same (x ∷ p ++ k.key)) ∙ held_behind (x ∷ p) child k.key ∙ k.found) in
    ground arith

-- One nibble less.
behind_nibble :
    (x y : ℕ) (p r : Bytes) (child other : MptNode)
    → x ≡ y
    → IsSame (ext (x ∷ p) child) (ext (y ∷ r) other)
    → IsSame (ext p child) (ext r other)
behind_nibble x y p r child other e same q =
    let here : (x == x) ≡ true = ground arith in
    let there : (y == x) ≡ true = ground arith in
    let left : lookup (ext (x ∷ p) child) (x ∷ q) ≡ lookup (ext p child) q =
      lookup-ext_cons x x p q child ∙ rw here refl in
    let right : lookup (ext (y ∷ r) other) (x ∷ q) ≡ lookup (ext r other) q =
      lookup-ext_cons y x r q other ∙ rw there refl in
    sym left ∙ same (x ∷ q) ∙ right

-- Two extensions of branches that hold the same values have the same nibbles.
pub IsSame-ext :
    (p r : Bytes) (child other : MptNode)
    → IsBranch child
    → IsTrie child
    → IsBranch other
    → IsTrie other
    → IsSame (ext p child) (ext r other)
    → (p ≡ r) × IsSame child other
IsSame-ext [] [] child other b h c k same =
    (refl, λ q. sym (lookup-ext_nil child q) ∙ same q ∙ lookup-ext_nil other q)
IsSame-ext [] (y ∷ r) child other b h c k same =
    absurd (not_ext y r other child b h (λ q. sym (same q) ∙ lookup-ext_nil child q))
IsSame-ext (x ∷ p) [] child other b h c k same =
    absurd (not_ext x p child other c k (λ q. same q ∙ lookup-ext_nil other q))
IsSame-ext (x ∷ p) (y ∷ r) child other b h c k same =
    let e = first_nibble x y p r child other (held child h (IsBranch-IsNode child b)) same in
    let rest = IsSame-ext p r child other b h c k (behind_nibble x y p r child other e same) in
    (rw (e, rest.0) refl, rest.1)
