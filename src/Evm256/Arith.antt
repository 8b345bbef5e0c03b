-- ===== src/Evm256/Arith.antt =====
-- pkg/evm256/arith.go: addition, subtraction, multiplication, exponentiation.
pub mod Sum
pub mod Product
pub mod Power
use crypto.Base.{
  ℕ, zero, suc, bit_and, bit_or, List, [], ◌∷◌, Option, none, some, ◌==◌, if◌then◌else◌, add64,
  sub64, mul64, flip, shl, shr, get_or, replicate,
}
use crypto.Evm256.Uint256.{Uint256, u256, limbs, is_zero, is_neg}

-- `addCarry`: the sum, and the carry out of the top limb.
unfoldable pub add_carry : Uint256 → Uint256 → Uint256 × ℕ
add_carry a b =
    let (r0, c0) = add64 a.w0 b.w0 0 in
    let (r1, c1) = add64 a.w1 b.w1 c0 in
    let (r2, c2) = add64 a.w2 b.w2 c1 in let (r3, c3) = add64 a.w3 b.w3 c2 in (u256 r0 r1 r2 r3, c3)

unfoldable pub add256 : Uint256 → Uint256 → Uint256
add256 a b = (add_carry a b).0

unfoldable pub sub256 : Uint256 → Uint256 → Uint256
sub256 a b =
    let (r0, b0) = sub64 a.w0 b.w0 0 in
    let (r1, b1) = sub64 a.w1 b.w1 b0 in
    let (r2, b2) = sub64 a.w2 b.w2 b1 in let (r3, _) = sub64 a.w3 b.w3 b2 in u256 r0 r1 r2 r3

unfoldable pub neg256 : Uint256 → Uint256
neg256 x =
    let (r0, c0) = add64 (flip x.w0) 0 1 in
    let (r1, c1) = add64 (flip x.w1) 0 c0 in
    let (r2, c2) = add64 (flip x.w2) 0 c1 in
    let (r3, _) = add64 (flip x.w3) 0 c2 in u256 r0 r1 r2 r3

unfoldable pub abs256 : Uint256 → Uint256
unfolding neg256
abs256 x = if is_neg x then neg256 x else x

-- The body of the inner loop of `mul512`: the new limb `p[i+j]` and the carry.
unfoldable pub mul_step : ℕ → ℕ → ℕ → ℕ → ℕ × ℕ
mul_step x y p carry =
    let (hi, lo) = mul64 x y in
    let (s, c1) = add64 p lo 0 in
    let (s2, c2) = add64 s carry 0 in let (next, _) = add64 hi c1 c2 in (s2, next)

-- The inner loop over the limbs of `b`. The second list is the window `p[i+j ..]`: the limbs
-- are rewritten one by one, and the limb behind the last one becomes the carry.
unfoldable pub mul_row : ℕ → List ℕ → List ℕ → ℕ → List ℕ
mul_row x [] [] carry = []
mul_row x [] (_ ∷ p) carry = carry ∷ p
mul_row x (y ∷ b) [] carry = []
mul_row x (y ∷ b) (p ∷ ps) carry = let (s, next) = mul_step x y p carry in s ∷ mul_row x b ps next

-- The outer loop over the limbs of `a`; the window moves up by a limb in each round.
unfoldable pub mul_rows : List ℕ → List ℕ → List ℕ → List ℕ
mul_rows [] b p = p
mul_rows (x ∷ a) b p = elim (mul_row x b p 0) [ [] ↦ [] | q ∷ qs ↦ q ∷ mul_rows a b qs ]

unfoldable pub mul512 : Uint256 → Uint256 → List ℕ
mul512 a b = mul_rows (limbs a) (limbs b) (replicate 8 0)

-- `Uint256{p[0], p[1], p[2], p[3]}`.
unfoldable pub low_limbs : List ℕ → Uint256
low_limbs p = u256 (get_or p 0 0) (get_or p 1 0) (get_or p 2 0) (get_or p 3 0)

unfoldable pub mul256 : Uint256 → Uint256 → Uint256
mul256 a b = low_limbs (mul512 a b)

unfoldable pub shr1 : Uint256 → Uint256
shr1 x =
    u256 (bit_or (shr x.w0 1) (shl x.w1 63)) (bit_or (shr x.w1 1) (shl x.w2 63))
      (bit_or (shr x.w2 1) (shl x.w3 63)) (shr x.w3 1)

-- The loop of `Exp256` on the rounds left; `none` means that they ran out.
unfoldable pub exp_loop : ℕ → Uint256 → Uint256 → Uint256 → Option Uint256
exp_loop zero r b e = none
exp_loop (suc fuel) r b e =
    let r' = if bit_and e.w0 1 == 0 then r else mul256 r b in
    let rest = exp_loop fuel r' (mul256 b b) (shr1 e) in if is_zero e then some r else rest

-- A 256-bit exponent is zero after at most 256 halvings.
unfoldable pub exp256 : Uint256 → Uint256 → Option Uint256
exp256 base exp = exp_loop 257 (u256 1 0 0 0) base exp
