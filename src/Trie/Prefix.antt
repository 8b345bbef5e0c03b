-- ===== src/Trie/Prefix.antt =====
-- What a trie holds, and the effect of a common prefix on it.
use crypto.Base.{
  ℕ, zero, suc, ◌<◌, ◌≡◌, refl, sym, ap, ◌∙◌, arith, Bool, true, false, Bool-cases, inl, inr, ◌==◌,
  ltb, if◌then◌else◌, [], ◌∷◌, length, take, Option, none, some,
}
use crypto.Seq.Types.{bytes_eq}
use crypto.Rlp.Encode.{Bytes}
use crypto.Trie.Node.{MptNode, nil, leaf, ext, branch, add_new, behind_prefix, rest_of_ext}

-- The rest of a key behind a prefix.
unfoldable pub strip : Bytes → Bytes → Option Bytes
strip [] ys = some ys
strip (x ∷ xs) [] = none
strip (x ∷ xs) (y ∷ ys) = let rest = strip xs ys in if x == y then rest else none

-- The value of a key; the empty value of a branch is none.
unfoldable pub lookup : MptNode → Bytes → Option Bytes
lookup nil key = none
lookup (leaf nibbles value) key = if bytes_eq nibbles key then some value else none
lookup (ext nibbles child) key = elim (strip nibbles key) [
  | none ↦ none
  | some rest ↦ lookup child rest
]
lookup (branch children value) [] = if length value == 0 then none else some value
lookup (branch children value) (y ∷ key) = lookup (children y) key

-- What is looked up in a node behind a prefix.
abbrev behind : MptNode → Option Bytes → Option Bytes
behind n rest = elim rest [ none ↦ none | some key ↦ lookup n key ]

pub lookup-ext : (p q : Bytes) (n : MptNode) → lookup (ext p n) q ≡ behind n (strip p q)
unfolding lookup
lookup-ext p q n = refl

strip-cons : (x z : ℕ) (p q : Bytes) → strip (x ∷ p) (z ∷ q) ≡ (if x == z then strip p q else none)
unfolding strip
strip-cons x z p q = refl

pub lookup-ext_cons :
    (x z : ℕ) (p q : Bytes) (n : MptNode)
    → lookup (ext (x ∷ p) n) (z ∷ q) ≡ (if x == z then lookup (ext p n) q else none)
lookup-ext_cons x z p q n = lookup-ext (x ∷ p) (z ∷ q) n ∙ elim (Bool-cases (x == z)) [
  | inl same ↦ rw (strip-cons x z p q, same) (sym (lookup-ext p q n))
  | inr other ↦ rw (strip-cons x z p q, other) refl
]

pub lookup-ext_end : (x : ℕ) (p : Bytes) (n : MptNode) → lookup (ext (x ∷ p) n) [] ≡ none
unfolding lookup strip
lookup-ext_end x p n = refl

pub lookup-ext_nil : (n : MptNode) (q : Bytes) → lookup (ext [] n) q ≡ lookup n q
unfolding lookup strip
lookup-ext_nil n q = refl

pub lookup-behind_prefix :
    (cp : ℕ) (nibbles q : Bytes) (br : MptNode)
    → lookup (behind_prefix cp nibbles br) q ≡ lookup (ext (take cp nibbles) br) q
unfolding behind_prefix
lookup-behind_prefix zero nibbles q br = sym (lookup-ext_nil br q)
lookup-behind_prefix (suc cp) nibbles q br =
    let some_prefix : ltb 0 (suc cp) ≡ true = ground arith in rw some_prefix refl

pub lookup-rest_of_ext :
    (x : ℕ) (old q : Bytes) (child : MptNode)
    → lookup (rest_of_ext (x ∷ old) child) q ≡ lookup (ext old child) q
unfolding rest_of_ext
lookup-rest_of_ext x [] q child = sym (lookup-ext_nil child q)
lookup-rest_of_ext x (y ∷ old) q child =
    let more : (suc (suc (length old)) == 1) ≡ false = ground arith in rw more refl

-- A key beside one that is added: its value, or what was there.
abbrev pub or_new : Bytes → Bytes → Option Bytes → Bytes → Option Bytes
or_new key value old q = if bytes_eq key q then some value else old

pub bytes_eq_cons :
    (x y : ℕ) (xs ys : Bytes)
    → bytes_eq (x ∷ xs) (y ∷ ys) ≡ (if x == y then bytes_eq xs ys else false)
unfolding bytes_eq
bytes_eq_cons x y xs ys = elim (Bool-cases (x == y)) [
  | inl same ↦ rw same refl
  | inr other ↦ rw other refl
]

pub lookup_if :
    (b : Bool) (m n : MptNode) (q : Bytes)
    → lookup (if b then m else n) q ≡ (if b then lookup m q else lookup n q)
lookup_if true m n q = refl
lookup_if false m n q = refl

nothing_at : (n : MptNode) (q : Bytes) → n ≡ nil → lookup n q ≡ none
unfolding lookup
nothing_at n q e = rw e refl

-- There is no child where the key goes.
abbrev pub IsFree : (ℕ → MptNode) → Bytes → Type 0
IsFree children [] = Unit
IsFree children (y ∷ key) = children y ≡ nil

-- The child of one nibble is the new leaf, the others stay.
new_or_old :
    (y z : ℕ) (key value q : Bytes) (old : Option Bytes)
    → (z ≡ y → old ≡ none)
    → (if z == y then lookup (leaf key value) q else old) ≡ or_new (y ∷ key) value old (z ∷ q)
unfolding lookup
new_or_old y z key value q old free = elim (Bool-cases (z == y)) [
  | inl same ↦
      let e : (y == z) ≡ true = ground arith in
      rw (bytes_eq_cons y z key q, same, e, free (ground arith)) refl
  | inr other ↦
      let e : (y == z) ≡ false = ground arith in rw (bytes_eq_cons y z key q, other, e) refl
]

-- A branch with a child more, at a key below it.
pub lookup-add_new :
    (children : ℕ → MptNode) (old key value q : Bytes)
    → 0 < length value
    → IsFree children key
    → lookup (add_new children old key value) q
      ≡ or_new key value (lookup (branch children old) q) q
unfolding add_new lookup bytes_eq
lookup-add_new children old [] value [] p free =
    let given : (length value == 0) ≡ false = ground arith in rw given refl
lookup-add_new children old [] value (z ∷ q) p free = refl
lookup-add_new children old (y ∷ key) value [] p free = refl
lookup-add_new children old (y ∷ key) value (z ∷ q) p free =
    lookup_if (z == y) (leaf key value) (children z) q
    ∙ new_or_old y z key value q (lookup (children z) q)
        (λ e. nothing_at (children z) q (ap children e ∙ free))
