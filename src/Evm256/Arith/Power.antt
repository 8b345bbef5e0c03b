-- ===== src/Evm256/Arith/Power.antt =====
-- `Exp256` of pkg/evm256/arith.go: square and multiply.
use crypto.Base.{
  ℕ, zero, suc, ◌+◌, ◌*◌, ◌/◌, ◌%◌, ◌^◌, ◌<◌, ◌≡◌, refl, ap, ◌∙◌, arith, bit_and, bit_or, some,
  Bool-cases, ==_iff, inl, inr, ◌==◌, modulus, word, shl, shr, false, if◌then◌else◌,
}
use crypto.Base.Bits.{bit_or-add, bit_or_comm, bit_and-mask}
use crypto.Base.Powers.{mul-mod, mul-pow-mod, square-pow}
use native.Mathlib.Nat.{pow-suc, pow-zero, mul_comm, one-mul}
use crypto.Evm256.Uint256.{Uint256, u256, IsWord, value, is_zero}
use crypto.Evm256.Uint256.Order.{value-lt, is_zero-value}
use crypto.Evm256.Arith.{mul256, shr1, exp_loop, exp256}
use crypto.Evm256.Arith.Product.{mul256-value, mul256-IsWord}

-- `(x >> 1) | (y << 63)`.
shr1_limb : (x y : ℕ) → x < word → bit_or (shr x 1) (shl y 63) ≡ x / 2 + y % 2 * 2 ^ 63
shr1_limb x y h =
    bit_or_comm (shr x 1) (shl y 63)
    ∙ ap (λ (t : ℕ). bit_or t (shr x 1)) low
    ∙ bit_or-add 63 (y % 2) (x / 2) (omega arith)
    ∙ omega arith
  where
    low : shl y 63 ≡ y % 2 * 2 ^ 63
    low = omega arith

pub shr1-value : (x : Uint256) → IsWord x → (value (shr1 x) ≡ value x / 2) × IsWord (shr1 x)
unfolding shr1
shr1-value x w =
    rw (shr1_limb x.w0 x.w1 w.fits0, shr1_limb x.w1 x.w2 w.fits1, shr1_limb x.w2 x.w3 w.fits2)
      (omega arith, omega arith)

-- What is left to multiply does not change when the exponent is halved: an even exponent.
square_even : (m r b e : ℕ) → e % 2 ≡ 0 → r * (b * b % m) ^ (e / 2) % m ≡ r * b ^ e % m
square_even m r b e even =
    mul-pow-mod m r (b * b) (e / 2)
    ∙ ap (λ (t : ℕ). r * t % m) (square-pow b (e / 2) ∙ ap (λ (t : ℕ). b ^ t) halves)
  where
    halves : 2 * (e / 2) ≡ e
    halves = omega arith

-- And an odd one, for which the result takes a factor.
square_odd : (m r b e : ℕ) → e % 2 ≡ 1 → r * b % m * (b * b % m) ^ (e / 2) % m ≡ r * b ^ e % m
square_odd m r b e odd =
    mul-pow-mod m (r * b % m) (b * b) (e / 2)
    ∙ ap (λ (t : ℕ). t % m) (mul_comm (r * b % m) ((b * b) ^ (e / 2)))
    ∙ mul-mod m ((b * b) ^ (e / 2)) (r * b)
    ∙ ap (λ (t : ℕ). t % m) whole
  where
    halves : suc (2 * (e / 2)) ≡ e
    halves = omega arith

    whole : (b * b) ^ (e / 2) * (r * b) ≡ r * b ^ e
    whole = omega (
      arith,
      ap (λ (t : ℕ). t * (r * b)) (square-pow b (e / 2)),
      ap (λ (t : ℕ). r * t) (pow-suc b (2 * (e / 2))),
      ap (λ (t : ℕ). r * b ^ t) halves,
    )

odd_test : (a : ℕ) → bit_and a 1 ≡ a % 2
odd_test a = bit_and-mask 1 a

abbrev one_round : Uint256 → Uint256 → Uint256 → Uint256
one_round r b e = if bit_and e.w0 1 == 0 then r else mul256 r b

-- One round keeps `r * b ^ e`.
one_round-value :
    (r b e : Uint256)
    → IsWord r
    → IsWord b
    → IsWord e
    → (value (one_round r b e) * value (mul256 b b) ^ value (shr1 e) % modulus
        ≡ value r * value b ^ value e % modulus)
      × IsWord (one_round r b e)
one_round-value r b e wr wb we =
    rw (mul256-value b b wb wb, (shr1-value e we).0)
      (elim (Bool-cases (bit_and e.w0 1 == 0)) [
        | inl even ↦ rw even (
          square_even modulus (value r) (value b) (value e)
              (omega (arith, (==_iff _ _).0 even, odd_test e.w0)),
          wr,
        )
        | inr odd ↦
            rw (odd, mul256-value r b wr wb)
              (
                square_odd modulus (value r) (value b) (value e) (ground (arith, odd_test e.w0)),
                mul256-IsWord r b wr wb,
              )
      ])

-- With exponent zero the loop returns at once.
exp_loop_done :
    (fuel : ℕ) (r b e : Uint256)
    → IsWord r
    → value e ≡ 0
    → (exp_loop (suc fuel) r b e ≡ some r) × (value r ≡ value r * value b ^ value e % modulus)
exp_loop_done fuel r b e wr h = (
  unfold exp_loop in rw (is_zero-value e, h) refl,
  rw (h, pow-zero) (omega (arith, value-lt r wr)),
)

exp_loop_more :
    (fuel : ℕ) (r b e : Uint256)
    → is_zero e ≡ false
    → exp_loop (suc fuel) r b e ≡ exp_loop fuel (one_round r b e) (mul256 b b) (shr1 e)
unfolding exp_loop
exp_loop_more fuel r b e more = rw more

-- The loop ends when the fuel exceeds the bits of the exponent, and gives the power.
exp_loop-value :
    (fuel : ℕ) (r b e : Uint256)
    → IsWord r
    → IsWord b
    → IsWord e
    → value e < 2 ^ fuel
    → (out : Uint256) × (exp_loop (suc fuel) r b e ≡ some out)
      × IsWord out
      × (value out ≡ value r * value b ^ value e % modulus)
exp_loop-value zero r b e wr wb we h =
    let ends = exp_loop_done zero r b e wr (omega arith) in (r, ends.0, wr, ends.1)
exp_loop-value (suc fuel) r b e wr wb we h =
    let round = one_round-value r b e wr wb we in
    let half = shr1-value e we in
    let rest =
      exp_loop-value fuel (one_round r b e) (mul256 b b) (shr1 e) round.1 (mul256-IsWord b b wb wb)
        half.1 (omega (arith, half.0, pow-suc 2 fuel)) in
    elim (Bool-cases (is_zero e)) [
      | inl done ↦
          let ends = exp_loop_done (suc fuel) r b e wr (ground (arith, is_zero-value e)) in
          (r, ends.0, wr, ends.1)
      | inr more ↦ (rest.0, exp_loop_more (suc fuel) r b e more ∙ rest.1, rest.2, rest.3 ∙ round.0)
    ]

-- `Exp256` of two words ends within the 256 rounds that its fuel allows, and gives the word for the
-- power modulo 2 ^ 256.
pub exp256-value :
    (base exp : Uint256)
    → IsWord base
    → IsWord exp
    → (out : Uint256) × (exp256 base exp ≡ some out)
      × IsWord out
      × (value out ≡ value base ^ value exp % modulus)
unfolding exp256
exp256-value base exp wb we =
    let power = exp_loop-value 256 (u256 1 0 0 0) base exp (omega arith) wb we (value-lt exp we) in
    (
      power.0,
      power.1,
      power.2,
      power.3 ∙ ap (λ (t : ℕ). t % modulus) (one-mul (value base ^ value exp)),
    )
