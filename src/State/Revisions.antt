-- ===== src/State/Revisions.antt =====
-- `reverts`, the places in the journal at which the snapshots were taken.
use crypto.Base.{
  ℕ, zero, suc, ◌<◌, ◌≤◌, ◌≡◌, refl, ap, ◌∙◌, arith, inl, inr, ◌⊎◌, List, [], ◌∷◌, ◌++◌, length,
  take, get_elem?, some,
}

-- The snapshot `rev` is at `at`, those before it are `old`, and those after it are no lower.
pub record Kept (rev at : ℕ) (old rs : List ℕ) : Type 0 where
  pub held : get_elem? rs rev ≡ some at
  pub earlier : take rev rs ≡ old
  pub later : (r j : ℕ) → rev < r → get_elem? rs r ≡ some j → at ≤ j

get_elem-append :
    (rs : List ℕ) (x i : ℕ) (j : ℕ)
    → get_elem? rs i ≡ some j
    → get_elem? (rs ++ (x ∷ [])) i ≡ some j
get_elem-append [] x i j e = absurd (ground arith)
get_elem-append (y ∷ rs) x zero j e = e
get_elem-append (y ∷ rs) x (suc i) j e = get_elem-append rs x i j e

take-append_one :
    (rs : List ℕ) (x i j : ℕ) → get_elem? rs i ≡ some j → take i (rs ++ (x ∷ [])) ≡ take i rs
take-append_one [] x i j e = absurd (ground arith)
take-append_one (y ∷ rs) x zero j e = refl
take-append_one (y ∷ rs) x (suc i) j e = ap (◌∷◌ y) (take-append_one rs x i j e)

elem_of_append :
    (rs : List ℕ) (x i j : ℕ)
    → get_elem? (rs ++ (x ∷ [])) i ≡ some j
    → (get_elem? rs i ≡ some j) ⊎ (x ≡ j)
elem_of_append [] x zero j e = inr (ground arith)
elem_of_append [] x (suc i) j e = absurd (ground arith)
elem_of_append (y ∷ rs) x zero j e = inl e
elem_of_append (y ∷ rs) x (suc i) j e = elem_of_append rs x i j e

get_elem-take : (rs : List ℕ) (n i : ℕ) → i < n → get_elem? (take n rs) i ≡ get_elem? rs i
get_elem-take rs zero i h = absurd (omega arith)
get_elem-take [] (suc n) i h = refl
get_elem-take (y ∷ rs) (suc n) zero h = refl
get_elem-take (y ∷ rs) (suc n) (suc i) h = get_elem-take rs n i (omega arith)

take-take_below : (rs : List ℕ) (n i : ℕ) → i < n → take i (take n rs) ≡ take i rs
take-take_below rs n zero h = refl
take-take_below rs zero (suc i) h = absurd (omega arith)
take-take_below [] (suc n) (suc i) h = refl
take-take_below (y ∷ rs) (suc n) (suc i) h = ap (◌∷◌ y) (take-take_below rs n i (omega arith))

elem_of_take :
    (rs : List ℕ) (n i j : ℕ) → get_elem? (take n rs) i ≡ some j → get_elem? rs i ≡ some j
elem_of_take rs zero i j e = absurd (ground arith)
elem_of_take [] (suc n) i j e = e
elem_of_take (y ∷ rs) (suc n) zero j e = e
elem_of_take (y ∷ rs) (suc n) (suc i) j e = elem_of_take rs n i j e

pub elem-length : (rs : List ℕ) (i j : ℕ) → get_elem? rs i ≡ some j → 0 < length rs
elem-length [] i j e = absurd (ground arith)
elem-length (y ∷ rs) i j e = omega arith

pub Kept-append :
    (rev at x : ℕ) (old rs : List ℕ)
    → Kept rev at old rs
    → at ≤ x
    → Kept rev at old (rs ++ (x ∷ []))
Kept-append rev at x old rs k h = record {
  held = get_elem-append rs x rev at k.held;
  earlier = take-append_one rs x rev at k.held ∙ k.earlier;
  later = λ r j l e. elim (elem_of_append rs x r j e) [
    | inl old_one ↦ k.later r j l old_one
    | inr new_one ↦ omega arith
  ];
}

pub Kept-take :
    (rev at n : ℕ) (old rs : List ℕ) → Kept rev at old rs → rev < n → Kept rev at old (take n rs)
Kept-take rev at n old rs k h = record {
  held = get_elem-take rs n rev h ∙ k.held;
  earlier = take-take_below rs n rev h ∙ k.earlier;
  later = λ r j l e. k.later r j l (elem_of_take rs n r j e);
}

pub get_elem-last : (rs : List ℕ) (x : ℕ) → get_elem? (rs ++ (x ∷ [])) (length rs) ≡ some x
get_elem-last [] x = refl
get_elem-last (y ∷ rs) x = get_elem-last rs x

pub none_beyond :
    (rs : List ℕ) (x r j : ℕ) → length rs < r → get_elem? (rs ++ (x ∷ [])) r ≡ some j → 0 < 0
none_beyond [] x zero j l e = omega arith
none_beyond [] x (suc r) j l e = absurd (ground arith)
none_beyond (y ∷ rs) x zero j l e = absurd (omega arith)
none_beyond (y ∷ rs) x (suc r) j l e = none_beyond rs x r j (omega arith) e
