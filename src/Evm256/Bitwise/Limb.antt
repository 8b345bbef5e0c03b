-- ===== src/Evm256/Bitwise/Limb.antt =====
-- One limb of a shift in pkg/evm256/bitwise.go, as arithmetic.
use crypto.Base.{
  ℕ, ◌+◌, ◌-◌, ◌*◌, ◌/◌, ◌%◌, ◌^◌, ◌<◌, ◌≤◌, ◌≡◌, sym, ap, ◌∙◌, arith, bit_or, ==_iff, Bool-cases,
  inl, inr, ◌==◌, word,
}
use crypto.Base.Bits.{bit_or-add, bit_or_comm}
use crypto.Base.Powers.{pow-add, mul_gap}
use native.Mathlib.Nat.{mod-add-div, mod-lt, one-le-pow, mul_comm, add_comm}
use native.Mathlib.Decide.{dec_lt}
use crypto.Evm256.Bitwise.{join_up, join_down}

-- A shift of less than a word splits 2 ^ 64.
pub split_word : (k : ℕ) → k ≤ 64 → 2 ^ k * 2 ^ (64 - k) ≡ word
split_word k h = sym (pow-add 2 k (64 - k)) ∙ ap (λ (t : ℕ). 2 ^ t) whole
  where
    whole : k + (64 - k) ≡ 64
    whole = omega arith

-- A product by one factor of the word: its low word, and its high word.
module _ (p q : ℕ) (e : p * q ≡ word) (pos : 0 < p) (pos' : 0 < q) where
  spread : (x : ℕ) → x * p ≡ word * (x / q) + x % q * p
  spread x = omega (arith, ap (λ (t : ℕ). t * p) (mod-add-div x q), ap (λ (t : ℕ). t * (x / q)) e)

  room : (x : ℕ) → x % q * p + p ≤ word
  room x = omega (arith, e, mul_gap p (x % q) q (mod-lt x pos'))

  low_word : (x : ℕ) → x * p % word ≡ x % q * p
  low_word x = omega (arith, spread x, room x)

  high_word : (x : ℕ) → x * p / word ≡ x / q
  high_word x = omega (arith, spread x, room x)

  high_word-lt : (x : ℕ) → x < word → x / q < p
  high_word-lt x h = elim (dec_lt (x / q) p) [
    | yes less ↦ less
    | no more ↦ absurd (omega (arith, spread x, e, grow p (x / q) (omega arith)))
  ]
    where
      grow : (a b : ℕ) → a ≤ b → q * a ≤ q * b
      grow a b l = grind arith

pub two_pow-pos : (k : ℕ) → 0 < 2 ^ k
two_pow-pos k = one-le-pow k 2 (omega arith)

-- The low limb of a left shift is a low word, and what comes from below a high word.
or_up :
    (k lo hi : ℕ)
    → k ≤ 64
    → hi < word
    → bit_or (lo * 2 ^ k % word) (hi / 2 ^ (64 - k)) ≡ lo * 2 ^ k % word + hi * 2 ^ k / word
or_up k lo hi h hh =
    let p = 2 ^ k in
    let q = 2 ^ (64 - k) in
    let e = split_word k h in
    let pp = two_pow-pos k in
    let pq = two_pow-pos (64 - k) in
    rw (low_word p q e pp pq lo, high_word p q e pp pq hi)
      (bit_or-add k (lo % q) (hi / q) (high_word-lt p q e pp pq hi hh))

-- The two parts make a limb.
pub limb_up-lt : (k lo hi : ℕ) → k < 64 → hi < word → lo * 2 ^ k % word + hi * 2 ^ k / word < word
limb_up-lt k lo hi h hh =
    let p = 2 ^ k in
    let q = 2 ^ (64 - k) in
    let e = split_word k (omega arith) in
    let pp = two_pow-pos k in
    let pq = two_pow-pos (64 - k) in
    omega (
      arith,
      low_word p q e pp pq lo,
      high_word p q e pp pq hi,
      high_word-lt p q e pp pq hi hh,
      room p q e pp pq lo,
    )

pub join_up-value :
    (k lo hi : ℕ)
    → k < 64
    → lo < word
    → hi < word
    → join_up k lo hi ≡ lo * 2 ^ k % word + hi * 2 ^ k / word
unfolding join_up
join_up-value k lo hi h hl hh = elim (Bool-cases (k == 0)) [
  | inl none_left ↦ rw (none_left, (==_iff k 0).0 none_left) (omega arith)
  | inr some_left ↦ rw some_left (or_up k lo hi (omega arith) hh)
]

or_down :
    (k lo hi : ℕ)
    → k ≤ 64
    → lo < word
    → bit_or (lo / 2 ^ k) (hi * 2 ^ (64 - k) % word) ≡ lo / 2 ^ k + hi % 2 ^ k * 2 ^ (64 - k)
or_down k lo hi h hl =
    let p = 2 ^ (64 - k) in
    let q = 2 ^ k in
    let e : p * q ≡ word = mul_comm p q ∙ split_word k h in
    let pp = two_pow-pos (64 - k) in
    let pq = two_pow-pos k in
    rw (bit_or_comm (lo / q) (hi * p % word), low_word p q e pp pq hi)
      (bit_or-add (64 - k) (hi % q) (lo / q) (high_word-lt p q e pp pq lo hl)
        ∙ add_comm (hi % q * p) (lo / q))

-- A right shift by `k`: the bits kept, and above them those that come from the limb above.
pub join_down-value :
    (k lo hi : ℕ) → k < 64 → lo < word → join_down k lo hi ≡ lo / 2 ^ k + hi % 2 ^ k * 2 ^ (64 - k)
unfolding join_down
join_down-value k lo hi h hl = elim (Bool-cases (k == 0)) [
  | inl none_left ↦ rw (none_left, (==_iff k 0).0 none_left) (omega arith)
  | inr some_left ↦ rw some_left (or_down k lo hi (omega arith) hl)
]
