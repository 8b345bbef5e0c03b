-- ===== src/Evm256/Bitwise/RightShift.antt =====
-- The right shift of pkg/evm256/bitwise.go against powers of two.
use crypto.Base.{
  ℕ, zero, suc, ◌+◌, ◌*◌, ◌/◌, ◌%◌, ◌^◌, ◌<◌, ◌≡◌, sym, ap, ◌∙◌, arith, Bool-cases, inl, inr, leb,
  word, if◌then◌else◌,
}
use crypto.Base.Powers.{div_of_sum, pow-add}
use native.Mathlib.Nat.{mod-add-div, mod-lt, div-div-eq-div-mul}
use crypto.Evm256.Uint256.{Uint256, u256, IsWord, value}
use crypto.Evm256.Bitwise.{join_down, shr_limb, shr256}
use crypto.Evm256.Bitwise.Limb.{join_down-value, split_word, two_pow-pos}
use crypto.Evm256.Bitwise.Shift.{shift_ge256-value, small_shift}

-- A limb of the result and the bits that it loses are the limb, with the bits that come from above.
join_down-total :
    (k lo hi : ℕ)
    → k < 64
    → lo < word
    → join_down k lo hi * 2 ^ k + lo % 2 ^ k ≡ lo + word * (hi % 2 ^ k)
join_down-total k lo hi h hl = rw (join_down-value k lo hi h hl) (
    omega
      (arith, mod-add-div lo (2 ^ k), ap (λ (t : ℕ). hi % 2 ^ k * t) (split_word k (omega arith))))

-- A right shift by `w` words and `k` bits.
shr_words-value :
    (w k : ℕ) (v : Uint256)
    → w < 4
    → k < 64
    → IsWord v
    → let r = shr_limb 0 v w k in
      value (u256 (r 0) (r 1) (r 2) (r 3)) ≡ value v / 2 ^ (64 * w) / 2 ^ k
unfolding shr_limb
shr_words-value zero k v hw h wv = sym (
    div_of_sum (2 ^ k) _ (v.w0 % 2 ^ k) (value v / 2 ^ 0)
      (omega (
        arith,
        join_down-total k v.w0 v.w1 h wv.fits0,
        join_down-total k v.w1 v.w2 h wv.fits1,
        join_down-total k v.w2 v.w3 h wv.fits2,
        join_down-total k v.w3 0 h wv.fits3,
      ))
      (mod-lt v.w0 (two_pow-pos k)))
shr_words-value (suc zero) k v hw h wv = sym (
    div_of_sum (2 ^ k) _ (v.w1 % 2 ^ k) (value v / 2 ^ 64)
      (omega (
        arith,
        join_down-total k v.w1 v.w2 h wv.fits1,
        join_down-total k v.w2 v.w3 h wv.fits2,
        join_down-total k v.w3 0 h wv.fits3,
        join_down-total k 0 0 h (omega arith),
      ))
      (mod-lt v.w1 (two_pow-pos k)))
shr_words-value (suc (suc zero)) k v hw h wv = sym (
    div_of_sum (2 ^ k) _ (v.w2 % 2 ^ k) (value v / 2 ^ 128)
      (omega (
        arith,
        join_down-total k v.w2 v.w3 h wv.fits2,
        join_down-total k v.w3 0 h wv.fits3,
        join_down-total k 0 0 h (omega arith),
      ))
      (mod-lt v.w2 (two_pow-pos k)))
shr_words-value (suc (suc (suc zero))) k v hw h wv = sym (
    div_of_sum (2 ^ k) _ (v.w3 % 2 ^ k) (value v / 2 ^ 192)
      (omega (arith, join_down-total k v.w3 0 h wv.fits3, join_down-total k 0 0 h (omega arith)))
      (mod-lt v.w3 (two_pow-pos k)))
shr_words-value (suc (suc (suc (suc w)))) k v hw h wv = absurd (omega arith)

-- `Shr256` of a word by a word divides by a power of two, and gives zero for a shift of 256 or more.
pub shr256-value :
    (s v : Uint256)
    → IsWord s
    → IsWord v
    → value (shr256 s v) ≡ (if leb 256 (value s) then 0 else value v / 2 ^ value s)
unfolding shr256
shr256-value s v ws wv = elim (Bool-cases (leb 256 (value s))) [
  | inl far ↦ rw (shift_ge256-value s ws, far)
  | inr near ↦
      let small : value s < 256 = ground arith in
      let whole : 64 * (s.w0 / 64) + s.w0 % 64 ≡ value s = omega (arith, small_shift s ws small) in
      let parts =
        div-div-eq-div-mul (value v) (2 ^ (64 * (s.w0 / 64))) (2 ^ (s.w0 % 64))
        ∙ ap (λ (t : ℕ). value v / t) (sym (pow-add 2 (64 * (s.w0 / 64)) (s.w0 % 64)))
        ∙ ap (λ (t : ℕ). value v / 2 ^ t) whole in
      rw (shift_ge256-value s ws, near)
        (shr_words-value (s.w0 / 64) (s.w0 % 64) v (omega (arith, small_shift s ws small))
            (omega arith) wv
          ∙ parts)
]
