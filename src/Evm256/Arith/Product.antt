-- ===== src/Evm256/Arith/Product.antt =====
-- `mul512` and `Mul256` of pkg/evm256/arith.go: the schoolbook product of limbs.
use crypto.Base.{
  ℕ, zero, suc, ◌+◌, ◌-◌, ◌*◌, ◌%◌, ◌^◌, ◌<◌, ◌≤◌, ◌≡◌, refl, arith, List, [], ◌∷◌, ◌++◌, word,
  modulus, length, replicate, All, get_or, drop, length-append, ap, ◌∙◌,
}
use crypto.Evm256.Uint256.Order.{value-lt}
use mathlib.Core.List.{append_assoc, append-nil}
use crypto.Evm256.Uint256.{Uint256, IsWord, value, limbs}
use crypto.Evm256.Arith.{mul_step, mul_row, mul_rows, mul512, low_limbs, mul256}

-- The number that a list of limbs stands for, the least significant one first.
abbrev pub limbs_value : List ℕ → ℕ
limbs_value [] = 0
limbs_value (x ∷ xs) = x + word * limbs_value xs

abbrev pub AreWords : List ℕ → Type 0
AreWords = All (λ x. x < word)

mul-le : (x y m : ℕ) → x ≤ m → y ≤ m → x * y ≤ m * m
mul-le x y m p q = grind arith

-- The four operations of the inner loop lose nothing.
mul_step_sum :
    (x y p c : ℕ)
    → x < word
    → y < word
    → p < word
    → c < word
    → (mul_step x y p c).0 + word * (mul_step x y p c).1 ≡ p + x * y + c
unfolding mul_step
mul_step_sum x y p c hx hy hp hc =
    omega (arith, mul-le x y (2 ^ 64 - 1) (omega arith) (omega arith))

mul_step-lt : (x y p c : ℕ) → ((mul_step x y p c).0 < word) × ((mul_step x y p c).1 < word)
unfolding mul_step
mul_step-lt x y p c = omega arith

-- A row rewrites a window of as many limbs as `b` has, and puts the carry behind it.
record IsRow (x : ℕ) (b ws zs : List ℕ) (c : ℕ) (out : List ℕ) : Type 0 where
  low : List ℕ
  carry : ℕ
  shape : out ≡ low ++ (carry ∷ zs)
  same_length : length low ≡ length b
  low_words : AreWords low
  carry_word : carry < word
  total : limbs_value (low ++ (carry ∷ [])) ≡ limbs_value ws + x * limbs_value b + c

mul_row-IsRow :
    (x : ℕ) (b ws zs : List ℕ) (old c : ℕ)
    → length ws ≡ length b
    → x < word
    → AreWords b
    → AreWords ws
    → c < word
    → IsRow x b ws zs c (mul_row x b (ws ++ (old ∷ zs)) c)
unfolding mul_row
mul_row-IsRow x [] [] zs old c e hx hb hw hc = record {
  low = [];
  carry = c;
  shape = refl;
  same_length = refl;
  low_words = tt;
  carry_word = hc;
  total = omega arith;
}
mul_row-IsRow x [] (w ∷ ws) zs old c e hx hb hw hc = absurd (omega arith)
mul_row-IsRow x (y ∷ b) [] zs old c e hx hb hw hc = absurd (omega arith)
mul_row-IsRow x (y ∷ b) (w ∷ ws) zs old c e hx hb hw hc =
    let step = mul_step x y w c in
    let bounds = mul_step-lt x y w c in
    let rest = mul_row-IsRow x b ws zs old step.1 (omega arith) hx hb.1 hw.1 bounds.1 in
    record {
      low = step.0 ∷ rest.low;
      carry = rest.carry;
      shape = rw rest.shape;
      same_length = omega (arith, rest.same_length);
      low_words = (bounds.0, rest.low_words);
      carry_word = rest.carry_word;
      total = omega (arith, rest.total, mul_step_sum x y w c hx hb.0 hw.0 hc);
    }

-- The rows together add the whole product to the first window.
record IsProduct (a b ws out : List ℕ) : Type 0 where
  words : AreWords out
  size : length out ≡ length a + length b
  total : limbs_value out ≡ limbs_value ws + limbs_value a * limbs_value b

pub AreWords-append : (xs ys : List ℕ) → AreWords xs → AreWords ys → AreWords (xs ++ ys)
AreWords-append [] ys p q = q
AreWords-append (x ∷ xs) ys p q = (p.0, AreWords-append xs ys p.1 q)

-- The window after a row is all but its lowest limb.
next_window :
    (a b low : List ℕ) (carry : ℕ)
    → length low ≡ length b
    → ((ws : List ℕ)
        → length ws ≡ length b
        → AreWords ws
        → IsProduct a b ws (mul_rows a b (ws ++ replicate (length a) 0)))
    → AreWords low
    → carry < word
    → 0 < length b
    → IsProduct
        (0 ∷ a)
        b
        (low ++ (carry ∷ []))
        (elim (low ++ (carry ∷ replicate (length a) 0)) [ [] ↦ [] | q ∷ qs ↦ q ∷ mul_rows a b qs ])
next_window a b [] carry e ih p h pos = absurd (omega arith)
next_window a b (q ∷ low) carry e ih p h pos =
    let rest =
      ih (low ++ (carry ∷ [])) (omega (arith, length-append low (carry ∷ []), e))
        (AreWords-append low (carry ∷ []) p.1 (h, tt)) in
    let same = append_assoc low (carry ∷ []) (replicate (length a) 0) in
    rw (← same) (record {
      words = (p.0, rest.words);
      size = omega (arith, rest.size);
      total = omega (arith, rest.total);
    })

mul_rows-IsProduct :
    (a b ws : List ℕ)
    → 0 < length b
    → length ws ≡ length b
    → AreWords a
    → AreWords b
    → AreWords ws
    → IsProduct a b ws (mul_rows a b (ws ++ replicate (length a) 0))
unfolding mul_rows
mul_rows-IsProduct [] b ws pos e ha hb hw =
    rw (append-nil ws) (record { words = hw; size = omega arith; total = omega arith })
mul_rows-IsProduct (x ∷ a) b ws pos e ha hb hw =
    let row = mul_row-IsRow x b ws (replicate (length a) 0) 0 0 e ha.0 hb hw (omega arith) in
    let rest =
      next_window a b row.low row.carry row.same_length
        (λ ws' e' hw'. mul_rows-IsProduct a b ws' pos e' ha.1 hb hw') row.low_words row.carry_word
        pos in
    rw (row.shape, mul_rows)
      (record {
        words = rest.words;
        size = rest.size;
        total = omega (arith, rest.total, row.total);
      })

pub limbs-AreWords : (z : Uint256) → IsWord z → AreWords (limbs z)
limbs-AreWords z w = (w.fits0, (w.fits1, (w.fits2, (w.fits3, tt))))

mul512-IsProduct :
    (a b : Uint256)
    → IsWord a
    → IsWord b
    → IsProduct (limbs a) (limbs b) (replicate 4 0) (mul512 a b)
mul512-IsProduct a b wa wb =
    unfold mul512 in
    mul_rows-IsProduct (limbs a) (limbs b) (replicate 4 0) (omega arith) refl (limbs-AreWords a wa)
      (limbs-AreWords b wb) (omega arith)

-- `mul512` of two words gives eight 64-bit limbs that stand for the exact product.
pub mul512-value :
    (a b : Uint256)
    → IsWord a
    → IsWord b
    → (limbs_value (mul512 a b) ≡ value a * value b)
      × (length (mul512 a b) ≡ 8)
      × AreWords (mul512 a b)
mul512-value a b wa wb =
    let p = mul512-IsProduct a b wa wb in (omega (arith, p.total), p.size, p.words)

pub get_or-lt : (p : List ℕ) (i : ℕ) → AreWords p → get_or p i 0 < word
get_or-lt [] i h = omega arith
get_or-lt (x ∷ p) zero h = h.0
get_or-lt (x ∷ p) (suc i) h = get_or-lt p i h.1

split_limb :
    (p : List ℕ) (i : ℕ)
    → limbs_value (drop i p) ≡ get_or p i 0 + word * limbs_value (drop (suc i) p)
split_limb [] zero = omega arith
split_limb [] (suc i) = omega arith
split_limb (x ∷ p) zero = refl
split_limb (x ∷ p) (suc i) = split_limb p i

pub low_limbs-IsWord : (p : List ℕ) → AreWords p → IsWord (low_limbs p)
unfolding low_limbs
low_limbs-IsWord p h = record {
  fits0 = get_or-lt p 0 h;
  fits1 = get_or-lt p 1 h;
  fits2 = get_or-lt p 2 h;
  fits3 = get_or-lt p 3 h;
}

-- The four low limbs are the number modulo 2 ^ 256.
pub low_limbs-value : (p : List ℕ) → AreWords p → value (low_limbs p) ≡ limbs_value p % modulus
low_limbs-value p h = omega (arith, value-lt (low_limbs p) (low_limbs-IsWord p h), whole)
  where
    whole : limbs_value p ≡ value (low_limbs p) + modulus * limbs_value (drop 4 p)
    whole =
        unfold low_limbs in
        omega (arith, split_limb p 0, split_limb p 1, split_limb p 2, split_limb p 3)

pub mul256-IsWord : (a b : Uint256) → IsWord a → IsWord b → IsWord (mul256 a b)
unfolding mul256
mul256-IsWord a b wa wb = low_limbs-IsWord (mul512 a b) (mul512-value a b wa wb).2

-- `Mul256` of two words is their product modulo 2 ^ 256.
pub mul256-value :
    (a b : Uint256) → IsWord a → IsWord b → value (mul256 a b) ≡ value a * value b % modulus
unfolding mul256
mul256-value a b wa wb =
    let p = mul512-value a b wa wb in
    low_limbs-value (mul512 a b) p.2 ∙ ap (λ (t : ℕ). t % modulus) p.0
