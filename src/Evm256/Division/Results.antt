-- ===== src/Evm256/Division/Results.antt =====
-- The results of the division operations of pkg/evm256/arith.go are words, and a zero divisor
-- gives zero.
use crypto.Base.{◌++◌, List, ◌∷◌, arith, if_elim, word, replicate, ◌<◌, ℕ}
use crypto.Evm256.Uint256.{Uint256, zero256, limbs, IsWord, is_zero, is_neg}
use crypto.Evm256.Arith.{neg256, abs256, add_carry, mul512}
use crypto.Evm256.Arith.Sum.{neg256-IsWord, add_carry-IsWord, add_carry-value}
use crypto.Evm256.Arith.Product.{
  AreWords, AreWords-append, low_limbs-IsWord, limbs-AreWords, mul512-value,
}
use crypto.Evm256.Division.{
  divmod256, div256, mod256, sdiv256, smod256, rem_limbs, add_mod256, mul_mod256, differ,
}
use crypto.Evm256.Division.Range.{zeros-AreWords, udivrem-AreResults}

abs256-IsWord : (x : Uint256) → IsWord x → IsWord (abs256 x)
unfolding abs256
abs256-IsWord x w = if_elim IsWord (is_neg x) (neg256 x) x (neg256-IsWord x) w

divmod256-IsWord :
    (n d : Uint256) → IsWord n → IsWord d → IsWord (divmod256 n d).0 × IsWord (divmod256 n d).1
unfolding divmod256
divmod256-IsWord n d wn wd =
    let words =
      AreWords-append (limbs n) (replicate 4 0) (limbs-AreWords n wn) (zeros-AreWords 4) in
    let both = udivrem-AreResults (limbs n ++ replicate 4 0) 4 d words wd in
    (low_limbs-IsWord _ both.0, both.1)

pub div256-IsWord : (a b : Uint256) → IsWord a → IsWord b → IsWord (div256 a b)
unfolding div256
div256-IsWord a b wa wb =
    if_elim IsWord (is_zero b) zero256 _ (omega arith) (divmod256-IsWord a b wa wb).0

pub mod256-IsWord : (a b : Uint256) → IsWord a → IsWord b → IsWord (mod256 a b)
unfolding mod256
mod256-IsWord a b wa wb =
    if_elim IsWord (is_zero b) zero256 _ (omega arith) (divmod256-IsWord a b wa wb).1

pub sdiv256-IsWord : (a b : Uint256) → IsWord a → IsWord b → IsWord (sdiv256 a b)
unfolding sdiv256
sdiv256-IsWord a b wa wb =
    let q = divmod256-IsWord (abs256 a) (abs256 b) (abs256-IsWord a wa) (abs256-IsWord b wb) in
    if_elim IsWord (is_zero b) zero256 _ (omega arith)
      (if_elim IsWord (differ (is_neg a) (is_neg b)) (neg256 _) _ (neg256-IsWord _) q.0)

pub smod256-IsWord : (a b : Uint256) → IsWord a → IsWord b → IsWord (smod256 a b)
unfolding smod256
smod256-IsWord a b wa wb =
    let r = divmod256-IsWord (abs256 a) (abs256 b) (abs256-IsWord a wa) (abs256-IsWord b wb) in
    if_elim IsWord (is_zero b) zero256 _ (omega arith)
      (if_elim IsWord (is_neg a) (neg256 _) _ (neg256-IsWord _) r.1)

rem_limbs-IsWord :
    (num : List ℕ) (n : ℕ) (m : Uint256) → AreWords num → IsWord m → IsWord (rem_limbs num n m)
unfolding rem_limbs
rem_limbs-IsWord num n m h w = (udivrem-AreResults num n m h w).1

pub add_mod256-IsWord :
    (a b m : Uint256) → IsWord a → IsWord b → IsWord m → IsWord (add_mod256 a b m)
unfolding add_mod256
add_mod256-IsWord a b m wa wb wm =
    let sum = add_carry a b in
    let carry : sum.1 < word = omega (arith, add_carry-value a b, wa, wb) in
    if_elim IsWord (is_zero m) zero256 _ (omega arith) (
      rem_limbs-IsWord (limbs sum.0 ++ (sum.1 ∷ replicate 3 0)) 5 m
        (AreWords-append (limbs sum.0) (sum.1 ∷ replicate 3 0)
          (limbs-AreWords sum.0 (add_carry-IsWord a b)) (carry, zeros-AreWords 3))
        wm)

pub mul_mod256-IsWord :
    (a b m : Uint256) → IsWord a → IsWord b → IsWord m → IsWord (mul_mod256 a b m)
unfolding mul_mod256
mul_mod256-IsWord a b m wa wb wm =
    if_elim IsWord (is_zero m) zero256 _ (omega arith)
      (rem_limbs-IsWord (mul512 a b) 8 m (mul512-value a b wa wb).2 wm)
