-- ===== src/Evm256/Division/Range.antt =====
-- Every limb that the division of pkg/evm256/arith.go writes is a 64-bit word.
use crypto.Base.{
  ℕ, zero, suc, ◌+◌, ◌-◌, ◌^◌, ◌<◌, arith, List, [], ◌∷◌, ◌++◌, ◌==◌, ltb, Bool, true, false,
  if◌then◌else◌, if_elim, word, set, take, replicate, get_or, shl, shr, wrap_sub,
}
use crypto.Base.Bits.{bit_or-lt}
use native.Mathlib.Nat.{div-le_self}
use crypto.Evm256.Uint256.{Uint256, zero256, limbs, IsWord}
use crypto.Evm256.Arith.{low_limbs}
use crypto.Evm256.Arith.Product.{AreWords, AreWords-append, low_limbs-IsWord, get_or-lt}
use crypto.Evm256.Division.{
  udivrem2by1, add_to_un, sub_mul_to_un, shift_up, normalize, top_bits, pad, div_by_limb, estimate,
  add_back, div_round, div_rounds, shift_down, quot8, single_limb, long_division, udivrem,
  significant, leading_zeros, reciprocal2by1,
}

set-AreWords : (xs : List ℕ) (i v : ℕ) → AreWords xs → v < word → AreWords (set xs i v)
set-AreWords [] i v h p = tt
set-AreWords (x ∷ xs) zero v h p = (p, h.1)
set-AreWords (x ∷ xs) (suc i) v h p = (h.0, set-AreWords xs i v h.1 p)

take-AreWords : (n : ℕ) (xs : List ℕ) → AreWords xs → AreWords (take n xs)
take-AreWords zero xs h = tt
take-AreWords (suc n) [] h = tt
take-AreWords (suc n) (x ∷ xs) h = (h.0, take-AreWords n xs h.1)

pub zeros-AreWords : (n : ℕ) → AreWords (replicate n 0)
zeros-AreWords zero = tt
zeros-AreWords (suc n) = (omega arith, zeros-AreWords n)

if-AreWords :
    (b : Bool) (xs ys : List ℕ) → AreWords xs → AreWords ys → AreWords (if b then xs else ys)
if-AreWords true xs ys p q = p
if-AreWords false xs ys p q = q

udivrem2by1-lt :
    (uh ul d v : ℕ) → ((udivrem2by1 uh ul d v).0 < word) × ((udivrem2by1 uh ul d v).1 < word)
unfolding udivrem2by1
udivrem2by1-lt uh ul d v = ground arith

add_to_un-AreWords :
    (n : ℕ) (un : List ℕ) (j i : ℕ) (dn : List ℕ) (c : ℕ)
    → AreWords un
    → AreWords (add_to_un n un j i dn c).0
unfolding add_to_un
add_to_un-AreWords zero un j i dn c h = h
add_to_un-AreWords (suc n) un j i dn c h =
    add_to_un-AreWords n _ j (i + 1) dn _ (set-AreWords un (j + i) _ h (omega arith))

sub_mul_to_un-AreWords :
    (n : ℕ) (un : List ℕ) (j i : ℕ) (dn : List ℕ) (m b : ℕ)
    → AreWords un
    → AreWords (sub_mul_to_un n un j i dn m b).0
unfolding sub_mul_to_un
sub_mul_to_un-AreWords zero un j i dn m b h = h
sub_mul_to_un-AreWords (suc n) un j i dn m b h =
    sub_mul_to_un-AreWords n _ j (i + 1) dn m _ (set-AreWords un (j + i) _ h (omega arith))

shift_up-AreWords :
    (s below : ℕ) (xs : List ℕ) → below < word → AreWords xs → AreWords (shift_up s below xs)
unfolding shift_up
shift_up-AreWords s below [] p h = tt
shift_up-AreWords s below (x ∷ xs) p h = (
  bit_or-lt 64 (shl x s) (shr below (64 - s)) (omega arith)
      (omega (arith, div-le_self below (2 ^ (64 - s)))),
  shift_up-AreWords s x xs h.0 h.1,
)

normalize-AreWords : (s : ℕ) (xs : List ℕ) → AreWords xs → AreWords (normalize s xs)
unfolding normalize
normalize-AreWords s [] h = tt
normalize-AreWords s (x ∷ xs) h =
    if-AreWords (s == 0) (x ∷ xs) (shl x s ∷ shift_up s x xs) h
      (omega arith, shift_up-AreWords s x xs h.0 h.1)

top_bits-lt : (s x : ℕ) → x < word → top_bits s x < word
top_bits-lt s x h = ground (arith, div-le_self x (2 ^ (64 - s)))

pad-AreWords : (n : ℕ) (xs : List ℕ) → AreWords xs → AreWords (pad n xs)
pad-AreWords n xs h =
    take-AreWords n (xs ++ replicate n 0) (AreWords-append xs (replicate n 0) h (zeros-AreWords n))

div_by_limb-AreWords :
    (n : ℕ) (un : List ℕ) (d v : ℕ) (quot : List ℕ) (r : ℕ)
    → AreWords quot
    → r < word
    → AreWords (div_by_limb n un d v quot r).0 × ((div_by_limb n un d v quot r).1 < word)
unfolding div_by_limb
div_by_limb-AreWords zero un d v quot r h p = (h, p)
div_by_limb-AreWords (suc j) un d v quot r h p =
    let bounds = udivrem2by1-lt r (get_or un j 0) d v in
    div_by_limb-AreWords j un d v _ _ (set-AreWords quot j _ h bounds.0) bounds.1

estimate-lt : (u2 u1 u0 dh dl v : ℕ) → estimate u2 u1 u0 dh dl v < word
unfolding estimate
estimate-lt u2 u1 u0 dh dl v = ground (arith, udivrem2by1-lt u2 u1 dh v)

add_back-AreWords :
    (n : ℕ) (un dn : List ℕ) (j q : ℕ)
    → AreWords un
    → AreWords (add_back n un dn j q).0 × ((add_back n un dn j q).1 < word)
unfolding add_back
add_back-AreWords n un dn j q h =
    (set-AreWords _ (j + n) _ (add_to_un-AreWords n un j 0 dn 0 h) (omega arith), omega arith)

abbrev IsStep : List ℕ × ℕ → Type 0
IsStep r = AreWords r.0 × (r.1 < word)

div_round-AreWords :
    (n : ℕ) (dn un : List ℕ) (v j : ℕ)
    → AreWords un
    → AreWords (div_round n dn un v j).0 × ((div_round n dn un v j).1 < word)
unfolding div_round
div_round-AreWords n dn un v j h =
    let u2 = get_or un (j + n) 0 in
    let qhat =
      estimate u2 (get_or un (j + n - 1) 0) (get_or un (j + n - 2) 0) (get_or dn (n - 1) 0)
        (get_or dn (n - 2) 0) v in
    let less = sub_mul_to_un n un j 0 dn qhat 0 in
    let un2 = set less.0 (j + n) (wrap_sub u2 less.1) in
    let words : AreWords un2 =
      set-AreWords less.0 (j + n) (wrap_sub u2 less.1) (sub_mul_to_un-AreWords n un j 0 dn qhat 0 h)
        (omega arith) in
    if_elim IsStep (ltb u2 less.1) (add_back n un2 dn j qhat) (un2, qhat)
      (add_back-AreWords n un2 dn j qhat words) (words, estimate-lt u2 _ _ _ _ v)

div_rounds-AreWords :
    (j n : ℕ) (dn un : List ℕ) (v : ℕ) (quot : List ℕ)
    → AreWords un
    → AreWords quot
    → AreWords (div_rounds j n dn un v quot).0 × AreWords (div_rounds j n dn un v quot).1
unfolding div_rounds
div_rounds-AreWords zero n dn un v quot h p = (p, h)
div_rounds-AreWords (suc j) n dn un v quot h p =
    let round = div_round-AreWords n dn un v j h in
    div_rounds-AreWords j n dn _ v _ round.0 (set-AreWords quot j _ p round.1)

shift_down-AreWords : (s : ℕ) (xs : List ℕ) (n : ℕ) → AreWords xs → AreWords (shift_down s xs n)
unfolding shift_down
shift_down-AreWords s [] n h = tt
shift_down-AreWords s (x ∷ xs) zero h = tt
shift_down-AreWords s (x ∷ xs) (suc zero) h = (omega (arith, div-le_self x (2 ^ s), h.0), tt)
shift_down-AreWords s (x ∷ xs) (suc (suc n)) h = (
  bit_or-lt 64 (shr x s) (shl (get_or xs 0 0) (64 - s)) (omega (arith, div-le_self x (2 ^ s), h.0))
      (omega arith),
  shift_down-AreWords s xs (suc n) h.1,
)

-- A quotient and a remainder of words.
abbrev pub AreResults : List ℕ × Uint256 → Type 0
AreResults r = AreWords r.0 × IsWord r.1

single_limb-AreResults :
    (n : ℕ) (un dn : List ℕ) (s : ℕ) → AreWords un → AreResults (single_limb n un dn s)
unfolding single_limb
single_limb-AreResults n un dn s h =
    let d = get_or dn 0 0 in
    let r = get_or un n 0 in
    let done =
      div_by_limb-AreWords n un d (reciprocal2by1 d) quot8 r (zeros-AreWords 8)
        (get_or-lt un n h) in
    (
      done.0,
      omega (arith, div-le_self (div_by_limb n un d (reciprocal2by1 d) quot8 r).1 (2 ^ s), done.1),
    )

long_division-AreResults :
    (u : List ℕ) (u_len : ℕ) (d : Uint256) (d_len : ℕ)
    → AreWords u
    → IsWord d
    → AreResults (long_division u u_len d d_len)
unfolding long_division
long_division-AreResults u u_len d d_len hu hd =
    let shift = leading_zeros 64 (get_or (limbs d) (d_len - 1) 0) in
    let dn = pad 4 (normalize shift (take d_len (limbs d))) in
    let top = top_bits shift (get_or u (u_len - 1) 0) in
    let shifted = normalize shift (take u_len u) in
    let un = pad 9 (shifted ++ top ∷ []) in
    let words : AreWords un = pad-AreWords 9 (shifted ++ top ∷ []) (
      AreWords-append shifted (top ∷ [])
        (normalize-AreWords shift (take u_len u) (take-AreWords u_len u hu))
        (top_bits-lt shift _ (get_or-lt u (u_len - 1) hu), tt)) in
    let reciprocal = reciprocal2by1 (get_or dn (d_len - 1) 0) in
    let rounds = div_rounds (u_len - d_len + 1) d_len dn un reciprocal quot8 in
    let digits =
      div_rounds-AreWords (u_len - d_len + 1) d_len dn un reciprocal quot8 words
        (zeros-AreWords 8) in
    if_elim AreResults (d_len == 1) (single_limb u_len un dn shift) _
      (single_limb-AreResults u_len un dn shift words)
      (
        digits.0,
        low_limbs-IsWord _ (
            if_elim AreWords (shift == 0) (take d_len rounds.1) (shift_down shift rounds.1 d_len)
              (take-AreWords d_len rounds.1 digits.1)
              (shift_down-AreWords shift rounds.1 d_len digits.1)),
      )

pub udivrem-AreResults :
    (u : List ℕ) (u_len : ℕ) (d : Uint256) → AreWords u → IsWord d → AreResults (udivrem u u_len d)
unfolding udivrem
udivrem-AreResults u u_len d hu hd =
    let d_len = significant (limbs d) 4 in
    let n = significant u (if ltb 8 u_len then 8 else u_len) in
    let nothing : AreResults (quot8, zero256) = (zeros-AreWords 8, omega arith) in
    if_elim AreResults (d_len == 0) (quot8, zero256) _ nothing
      (if_elim AreResults (n == 0) (quot8, zero256) _ nothing
        (if_elim AreResults (ltb n d_len) (quot8, low_limbs (take n u)) (long_division u n d d_len)
          (zeros-AreWords 8, low_limbs-IsWord (take n u) (take-AreWords n u hu))
          (long_division-AreResults u n d d_len hu hd)))
