-- ===== src/Base/Powers.antt =====
-- Powers and products modulo a number.
use Prim.Native.Nat.{ℕ, zero, suc, ◌+◌, ◌*◌, ◌/◌, ◌%◌, ◌^◌, ◌≤◌, ◌<◌}
use mathlib.Core.Path.{◌≡◌, sym, ap, ◌∙◌, ◌≡⟨◌⟩◌, ◌∎}
use native.Mathlib.Nat.{pow-suc, pow-zero, mod-add-div, add-mul-mod_self_left}
use native.Mathlib.Omega.{arith}

pub mul-mod : (m x y : ℕ) → x * (y % m) % m ≡ x * y % m
mul-mod m x y =
    sym (add-mul-mod_self_left (x * (y % m)) m (x * (y / m))) ∙ ap (λ (t : ℕ). t % m) whole
  where
    whole : x * (y % m) + m * (x * (y / m)) ≡ x * y
    whole = omega (arith, ap (λ (t : ℕ). x * t) (mod-add-div y m))

-- `x * z ^ (k + 1)` with one factor moved to `x`, and back.
move_factor : (x z k : ℕ) → x * z ^ suc k ≡ x * z * z ^ k
move_factor x z k = omega (arith, ap (λ (t : ℕ). x * t) (pow-suc z k))

swap_factors : (x z p : ℕ) → x * z * p ≡ x * p * z
swap_factors x z p = omega arith

-- A base may be reduced before the power is taken.
pub mul-pow-mod : (m x y k : ℕ) → x * (y % m) ^ k % m ≡ x * y ^ k % m
mul-pow-mod m x y zero = simp pow-zero
mul-pow-mod m x y (suc k) =
    x * (y % m) ^ suc k % m
    ≡⟨ ap (λ (t : ℕ). t % m) (move_factor x (y % m) k) ⟩ x * (y % m) * (y % m) ^ k % m
    ≡⟨ mul-pow-mod m (x * (y % m)) y k ⟩ x * (y % m) * y ^ k % m
    ≡⟨ ap (λ (t : ℕ). t % m) (swap_factors x (y % m) (y ^ k)) ⟩ x * y ^ k * (y % m) % m
    ≡⟨ mul-mod m (x * y ^ k) y ⟩ x * y ^ k * y % m
    ≡⟨ ap (λ (t : ℕ). t % m) (sym (swap_factors x y (y ^ k)) ∙ sym (move_factor x y k)) ⟩
      x * y ^ suc k % m ∎

pub square-pow : (y k : ℕ) → (y * y) ^ k ≡ y ^ (2 * k)
square-pow y zero = simp pow-zero
square-pow y (suc k) =
    let twice : 2 * suc k ≡ suc (suc (2 * k)) = omega arith in
    rw twice (
      omega (
        arith,
        pow-suc (y * y) k,
        pow-suc y (suc (2 * k)),
        ap (λ (t : ℕ). t * y) (pow-suc y (2 * k)),
        ap (λ (t : ℕ). t * (y * y)) (square-pow y k),
      ))

pub pow-add : (b m n : ℕ) → b ^ (m + n) ≡ b ^ m * b ^ n
pow-add b m zero = let same : m + zero ≡ m = omega arith in rw (same, pow-zero) (omega arith)
pow-add b m (suc n) =
    let grows : m + suc n ≡ suc (m + n) = omega arith in
    rw grows (
      omega (
        arith,
        pow-suc b (m + n),
        pow-suc b n,
        ap (λ (t : ℕ). t * b) (pow-add b m n),
        ap (λ (t : ℕ). b ^ m * t) (pow-suc b n),
      ))

-- The quotient, from a number and its remainder.
pub div_of_sum : (p q r v : ℕ) → q * p + r ≡ v → r < p → v / p ≡ q
div_of_sum p q r v e h = grind arith

pub mul_gap : (p a b : ℕ) → a < b → p * a + p ≤ p * b
mul_gap p a b h = grind arith
