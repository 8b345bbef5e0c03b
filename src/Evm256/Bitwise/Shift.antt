-- ===== src/Evm256/Bitwise/Shift.antt =====
-- The shifts of pkg/evm256/bitwise.go against powers of two.
use crypto.Base.{
  ℕ, zero, suc, ◌+◌, ◌*◌, ◌/◌, ◌%◌, ◌^◌, ◌<◌, ◌≡◌, sym, ap, ◌∙◌, arith, bit_or, Bool-cases, inl,
  inr, leb, modulus, if◌then◌else◌,
}
use crypto.Base.Bits.{bit_or-eq_zero}
use crypto.Base.Powers.{pow-add}
use native.Mathlib.Nat.{mul_assoc}
use crypto.Evm256.Uint256.{Uint256, u256, IsWord, value}
use crypto.Evm256.Bitwise.{shl_limb, shl256, shift_ge256}
use crypto.Evm256.Bitwise.Limb.{join_up-value, limb_up-lt}

-- A left shift by `w` words and `k` bits.
shl_words-value :
    (w k : ℕ) (v : Uint256)
    → w < 4
    → k < 64
    → IsWord v
    → let r = shl_limb v w k in
      value (u256 (r 0) (r 1) (r 2) (r 3)) ≡ value v * 2 ^ k * 2 ^ (64 * w) % modulus
unfolding shl_limb
shl_words-value zero k v hw h wv =
    rw
      (
        join_up-value k v.w0 0 h wv.fits0 (omega arith),
        join_up-value k v.w1 v.w0 h wv.fits1 wv.fits0,
        join_up-value k v.w2 v.w1 h wv.fits2 wv.fits1,
        join_up-value k v.w3 v.w2 h wv.fits3 wv.fits2,
      )
      (omega (
        arith,
        limb_up-lt k v.w3 v.w2 h wv.fits2,
        limb_up-lt k v.w2 v.w1 h wv.fits1,
        limb_up-lt k v.w1 v.w0 h wv.fits0,
        limb_up-lt k v.w0 0 h (omega arith),
      ))
shl_words-value (suc zero) k v hw h wv =
    rw
      (
        join_up-value k 0 0 h (omega arith) (omega arith),
        join_up-value k v.w0 0 h wv.fits0 (omega arith),
        join_up-value k v.w1 v.w0 h wv.fits1 wv.fits0,
        join_up-value k v.w2 v.w1 h wv.fits2 wv.fits1,
      )
      (omega (
        arith,
        limb_up-lt k v.w2 v.w1 h wv.fits1,
        limb_up-lt k v.w1 v.w0 h wv.fits0,
        limb_up-lt k v.w0 0 h (omega arith),
      ))
shl_words-value (suc (suc zero)) k v hw h wv =
    rw
      (
        join_up-value k 0 0 h (omega arith) (omega arith),
        join_up-value k v.w0 0 h wv.fits0 (omega arith),
        join_up-value k v.w1 v.w0 h wv.fits1 wv.fits0,
      )
      (omega (arith, limb_up-lt k v.w1 v.w0 h wv.fits0, limb_up-lt k v.w0 0 h (omega arith)))
shl_words-value (suc (suc (suc zero))) k v hw h wv =
    rw
      (
        join_up-value k 0 0 h (omega arith) (omega arith),
        join_up-value k v.w0 0 h wv.fits0 (omega arith),
      )
      (omega (arith, limb_up-lt k v.w0 0 h (omega arith)))
shl_words-value (suc (suc (suc (suc w)))) k v hw h wv = absurd (omega arith)

pub shift_ge256-value : (s : Uint256) → IsWord s → shift_ge256 s ≡ leb 256 (value s)
unfolding shift_ge256
shift_ge256-value s ws =
    ground (arith, bit_or-eq_zero s.w1 s.w2, bit_or-eq_zero (bit_or s.w1 s.w2) s.w3)

-- A small shift is its lowest limb.
pub small_shift : (s : Uint256) → IsWord s → value s < 256 → value s ≡ s.w0
small_shift s ws h = omega arith

-- A shift is its words and its bits.
shift_parts :
    (s : Uint256)
    → IsWord s
    → value s < 256
    → (n : ℕ) → n * 2 ^ (s.w0 % 64) * 2 ^ (64 * (s.w0 / 64)) ≡ n * 2 ^ value s
shift_parts s ws h n =
    mul_assoc n (2 ^ (s.w0 % 64)) (2 ^ (64 * (s.w0 / 64)))
    ∙ ap (λ (t : ℕ). n * t) (sym (pow-add 2 (s.w0 % 64) (64 * (s.w0 / 64))))
    ∙ ap (λ (t : ℕ). n * 2 ^ t) whole
  where
    whole : s.w0 % 64 + 64 * (s.w0 / 64) ≡ value s
    whole = omega (arith, small_shift s ws h)

-- `Shl256` of a word by a word multiplies by a power of two modulo 2 ^ 256, and gives zero for a
-- shift of 256 or more.
pub shl256-value :
    (s v : Uint256)
    → IsWord s
    → IsWord v
    → value (shl256 s v) ≡ (if leb 256 (value s) then 0 else value v * 2 ^ value s % modulus)
unfolding shl256
shl256-value s v ws wv = elim (Bool-cases (leb 256 (value s))) [
  | inl far ↦ rw (shift_ge256-value s ws, far)
  | inr near ↦
      rw (shift_ge256-value s ws, near)
        (shl_words-value (s.w0 / 64) (s.w0 % 64) v (ground (arith, small_shift s ws)) (omega arith)
            wv
          ∙ ap (λ (t : ℕ). t % modulus) (shift_parts s ws (ground arith) (value v)))
]
