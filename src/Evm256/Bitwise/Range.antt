-- ===== src/Evm256/Bitwise/Range.antt =====
-- The results of pkg/evm256/bitwise.go are words again.
use crypto.Base.{
  ℕ, ◌+◌, ◌-◌, ◌*◌, ◌/◌, ◌%◌, ◌^◌, ◌<◌, arith, word, max_word, bit_and, Bool-cases, inl, inr,
  if◌then◌else◌, leb, ltb, shr, flip,
}
use crypto.Base.Bits.{bit_and-le, bit_or-lt, bit_xor-lt, bit_and-mask}
use crypto.Evm256.Uint256.Order.{if-IsWord}
use native.Mathlib.Nat.{div-le_self}
use crypto.Evm256.Uint256.{Uint256, u256, zero256, IsWord, is_neg}
use crypto.Evm256.Bitwise.{
  and256, or256, xor256, not256, limb_or, byte_at, byte256, join_up, join_down, shl_limb, shr_limb,
  shl256, shr256, sar256, below, shift_ge256, extend_limb, extend_from, sign_extend256,
}

pub and256-IsWord : (a b : Uint256) → IsWord a → IsWord (and256 a b)
unfolding and256
and256-IsWord a b w =
    omega (
      arith,
      bit_and-le a.w0 b.w0,
      bit_and-le a.w1 b.w1,
      bit_and-le a.w2 b.w2,
      bit_and-le a.w3 b.w3,
    )

pub or256-IsWord : (a b : Uint256) → IsWord a → IsWord b → IsWord (or256 a b)
unfolding or256
or256-IsWord a b w v = record {
  fits0 = bit_or-lt 64 a.w0 b.w0 w.fits0 v.fits0;
  fits1 = bit_or-lt 64 a.w1 b.w1 w.fits1 v.fits1;
  fits2 = bit_or-lt 64 a.w2 b.w2 w.fits2 v.fits2;
  fits3 = bit_or-lt 64 a.w3 b.w3 w.fits3 v.fits3;
}

pub xor256-IsWord : (a b : Uint256) → IsWord a → IsWord b → IsWord (xor256 a b)
unfolding xor256
xor256-IsWord a b w v = record {
  fits0 = bit_xor-lt 64 a.w0 b.w0 w.fits0 v.fits0;
  fits1 = bit_xor-lt 64 a.w1 b.w1 w.fits1 v.fits1;
  fits2 = bit_xor-lt 64 a.w2 b.w2 w.fits2 v.fits2;
  fits3 = bit_xor-lt 64 a.w3 b.w3 w.fits3 v.fits3;
}

pub not256-IsWord : (a : Uint256) → IsWord (not256 a)
unfolding not256
not256-IsWord a = omega arith

limb_or-lt : (fill : ℕ) (v : Uint256) (i : ℕ) → fill < word → IsWord v → limb_or fill v i < word
limb_or-lt fill v i h w = ground arith

byte_at-lt : (idx : ℕ) (x : Uint256) → byte_at idx x < 256
unfolding byte_at
byte_at-lt idx x = omega (arith, bit_and-mask 8 (shr (limb_or 0 x (shr idx 3)) (bit_and idx 7 * 8)))

pub byte256-IsWord : (i : ℕ) (x : Uint256) → IsWord (byte256 i x)
unfolding byte256
byte256-IsWord i x =
    if-IsWord (ltb i 32) (u256 (byte_at (31 - i) x) 0 0 0) zero256
      (omega (arith, byte_at-lt (31 - i) x)) (omega arith)

join_up-lt : (k lo hi : ℕ) → lo < word → hi < word → join_up k lo hi < word
unfolding join_up
join_up-lt k lo hi p q =
    ground
      (arith, bit_or-lt 64 (lo * 2 ^ k % word) (hi / 2 ^ (64 - k)), div-le_self hi (2 ^ (64 - k)))

join_down-lt : (k lo hi : ℕ) → lo < word → hi < word → join_down k lo hi < word
unfolding join_down
join_down-lt k lo hi p q =
    ground (arith, bit_or-lt 64 (lo / 2 ^ k) (hi * 2 ^ (64 - k) % word), div-le_self lo (2 ^ k))

shl_limb-lt : (v : Uint256) (wsh bsh i : ℕ) → IsWord v → shl_limb v wsh bsh i < word
unfolding shl_limb
shl_limb-lt v wsh bsh i w =
    join_up-lt bsh (below v i wsh) (below v i (wsh + 1)) (in_range wsh) (in_range (wsh + 1))
  where
    in_range : (k : ℕ) → below v i k < word
    in_range k = ground (arith, limb_or-lt 0 v (i - k) (omega arith) w)

shr_limb-lt :
    (fill : ℕ) (v : Uint256) (wsh bsh i : ℕ)
    → fill < word
    → IsWord v
    → shr_limb fill v wsh bsh i < word
unfolding shr_limb
shr_limb-lt fill v wsh bsh i h w =
    join_down-lt bsh (limb_or fill v (i + wsh)) (limb_or fill v (i + wsh + 1))
      (limb_or-lt fill v (i + wsh) h w) (limb_or-lt fill v (i + wsh + 1) h w)

pub shl256-IsWord : (s v : Uint256) → IsWord v → IsWord (shl256 s v)
unfolding shl256
shl256-IsWord s v w = elim (Bool-cases (shift_ge256 s)) [
  | inl far ↦ rw far (omega arith)
  | inr near ↦ rw near (record {
    fits0 = shl_limb-lt v _ _ 0 w;
    fits1 = shl_limb-lt v _ _ 1 w;
    fits2 = shl_limb-lt v _ _ 2 w;
    fits3 = shl_limb-lt v _ _ 3 w;
  })
]

-- The four limbs of a right shift.
shifted-IsWord :
    (fill : ℕ) (v : Uint256) (wsh bsh : ℕ)
    → fill < word
    → IsWord v
    → let r = shr_limb fill v wsh bsh in IsWord (u256 (r 0) (r 1) (r 2) (r 3))
shifted-IsWord fill v wsh bsh h w = record {
  fits0 = shr_limb-lt fill v wsh bsh 0 h w;
  fits1 = shr_limb-lt fill v wsh bsh 1 h w;
  fits2 = shr_limb-lt fill v wsh bsh 2 h w;
  fits3 = shr_limb-lt fill v wsh bsh 3 h w;
}

pub shr256-IsWord : (s v : Uint256) → IsWord v → IsWord (shr256 s v)
unfolding shr256
shr256-IsWord s v w =
    if-IsWord (shift_ge256 s) zero256 _ (omega arith)
      (shifted-IsWord 0 v (s.w0 / 64) (s.w0 % 64) (omega arith) w)

pub sar256-IsWord : (s v : Uint256) → IsWord v → IsWord (sar256 s v)
unfolding sar256
sar256-IsWord s v w =
    let fill = if is_neg v then max_word else 0 in
    let fits : fill < word = ground arith in
    if-IsWord (shift_ge256 s) (u256 fill fill fill fill) _ (omega arith)
      (shifted-IsWord fill v (s.w0 / 64) (s.w0 % 64) fits w)

extend_limb-lt : (x : Uint256) (wi sign keep i : ℕ) → IsWord x → extend_limb x wi sign keep i < word
unfolding extend_limb
extend_limb-lt x wi sign keep i w = ground (
  arith,
  limb_or-lt 0 x i (omega arith) w,
  bit_and-le (limb_or 0 x i) keep,
  bit_or-lt 64 (limb_or 0 x i) (flip keep),
)

extend_from-IsWord :
    (x : Uint256) (wi sign keep : ℕ) → IsWord x → IsWord (extend_from x wi sign keep)
unfolding extend_from
extend_from-IsWord x wi sign keep w = record {
  fits0 = extend_limb-lt x wi sign keep 0 w;
  fits1 = extend_limb-lt x wi sign keep 1 w;
  fits2 = extend_limb-lt x wi sign keep 2 w;
  fits3 = extend_limb-lt x wi sign keep 3 w;
}

pub sign_extend256-IsWord : (b : ℕ) (x : Uint256) → IsWord x → IsWord (sign_extend256 b x)
unfolding sign_extend256
sign_extend256-IsWord b x w =
    if-IsWord (leb 31 b) x (extend_from x _ _ _) w (extend_from-IsWord x _ _ _ w)
