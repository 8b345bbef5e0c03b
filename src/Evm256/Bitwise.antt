-- ===== src/Evm256/Bitwise.antt =====
-- pkg/evm256/bitwise.go, and `SignExtend256` of pkg/evm256/arith.go.
pub mod Limb
pub mod Shift
pub mod Signed
pub mod RightShift
pub mod Range
use crypto.Base.{
  ℕ, ◌+◌, ◌-◌, ◌*◌, ◌/◌, ◌%◌, bit_and, bit_or, bit_xor, Bool, true, false, not, ◌||◌, ltb, leb,
  ◌==◌, if◌then◌else◌, max_word, flip, shl, shr,
}
use crypto.Evm256.Uint256.{Uint256, u256, zero256, Sign, less, same, more, cmp, is_neg}

abbrev is_less : Sign → Bool
is_less less = true
is_less same = false
is_less more = false

abbrev is_more : Sign → Bool
is_more less = false
is_more same = false
is_more more = true

unfoldable pub lt256 : Uint256 → Uint256 → Bool
unfolding cmp
lt256 a b = is_less (cmp a b)

unfoldable pub gt256 : Uint256 → Uint256 → Bool
unfolding cmp
gt256 a b = is_more (cmp a b)

-- By the signs, and by `rest` where they agree.
abbrev by_signs : Bool → Bool → Bool → Bool → Bool
by_signs true true differing rest = rest
by_signs false false differing rest = rest
by_signs true false differing rest = differing
by_signs false true differing rest = differing

unfoldable pub slt256 : Uint256 → Uint256 → Bool
unfolding cmp is_neg
slt256 a b = by_signs (is_neg a) (is_neg b) (is_neg a) (is_less (cmp a b))

unfoldable pub sgt256 : Uint256 → Uint256 → Bool
unfolding cmp is_neg
sgt256 a b = by_signs (is_neg a) (is_neg b) (is_neg b) (is_more (cmp a b))

unfoldable pub and256 : Uint256 → Uint256 → Uint256
and256 a b = u256 (bit_and a.w0 b.w0) (bit_and a.w1 b.w1) (bit_and a.w2 b.w2) (bit_and a.w3 b.w3)

unfoldable pub or256 : Uint256 → Uint256 → Uint256
or256 a b = u256 (bit_or a.w0 b.w0) (bit_or a.w1 b.w1) (bit_or a.w2 b.w2) (bit_or a.w3 b.w3)

unfoldable pub xor256 : Uint256 → Uint256 → Uint256
xor256 a b = u256 (bit_xor a.w0 b.w0) (bit_xor a.w1 b.w1) (bit_xor a.w2 b.w2) (bit_xor a.w3 b.w3)

unfoldable pub not256 : Uint256 → Uint256
not256 a = u256 (flip a.w0) (flip a.w1) (flip a.w2) (flip a.w3)

-- `v[i]`, and what the shifts take for a limb that is not there.
abbrev pub limb_or : ℕ → Uint256 → ℕ → ℕ
limb_or fill v i =
    if i == 0
    then v.w0
    else if i == 1
    then v.w1
    else if i == 2
    then v.w2
    else if i == 3
    then v.w3
    else fill

-- The byte `idx` from the right.
unfoldable pub byte_at : ℕ → Uint256 → ℕ
byte_at idx x = bit_and (shr (limb_or 0 x (shr idx 3)) (bit_and idx 7 * 8)) 0xff

unfoldable pub byte256 : ℕ → Uint256 → Uint256
unfolding byte_at
byte256 i x = if ltb i 32 then u256 (byte_at (31 - i) x) 0 0 0 else zero256

unfoldable pub shift_ge256 : Uint256 → Bool
shift_ge256 s = not (bit_or (bit_or s.w1 s.w2) s.w3 == 0) || leb 256 s.w0

-- One limb of a left shift, from the limb `lo` and the one below it, and of a right shift,
-- from `lo` and the one above it.
unfoldable pub join_up : ℕ → ℕ → ℕ → ℕ
join_up bsh lo hi = if bsh == 0 then lo else bit_or (shl lo bsh) (shr hi (64 - bsh))

unfoldable pub join_down : ℕ → ℕ → ℕ → ℕ
join_down bsh lo hi = if bsh == 0 then lo else bit_or (shr lo bsh) (shl hi (64 - bsh))

-- `src >= 0 && src < 4` for `src := i - wsh`.
abbrev below : Uint256 → ℕ → ℕ → ℕ
below v i wsh = if leb wsh i then limb_or 0 v (i - wsh) else 0

unfoldable pub shl_limb : Uint256 → ℕ → ℕ → ℕ → ℕ
shl_limb v wsh bsh i = join_up bsh (below v i wsh) (below v i (wsh + 1))

unfoldable pub shl256 : Uint256 → Uint256 → Uint256
shl256 s v =
    if shift_ge256 s
    then zero256
    else let r = shl_limb v (s.w0 / 64) (s.w0 % 64) in u256 (r 0) (r 1) (r 2) (r 3)

-- The limb `i` of a right shift that fills up with the limb `fill`.
unfoldable pub shr_limb : ℕ → Uint256 → ℕ → ℕ → ℕ → ℕ
shr_limb fill v wsh bsh i = join_down bsh (limb_or fill v (i + wsh)) (limb_or fill v (i + wsh + 1))

unfoldable pub shr256 : Uint256 → Uint256 → Uint256
shr256 s v =
    if shift_ge256 s
    then zero256
    else let r = shr_limb 0 v (s.w0 / 64) (s.w0 % 64) in u256 (r 0) (r 1) (r 2) (r 3)

unfoldable pub sar256 : Uint256 → Uint256 → Uint256
sar256 s v =
    let fill = if is_neg v then max_word else 0 in
    if shift_ge256 s
    then u256 fill fill fill fill
    else let r = shr_limb fill v (s.w0 / 64) (s.w0 % 64) in u256 (r 0) (r 1) (r 2) (r 3)

-- One limb of `SignExtend256`: below, at and above the limb of the sign.
unfoldable pub extend_limb : Uint256 → ℕ → ℕ → ℕ → ℕ → ℕ
extend_limb x wi sign keep i =
    if ltb i wi
    then limb_or 0 x i
    else if i == wi
    then if sign == 0 then bit_and (limb_or 0 x i) keep else bit_or (limb_or 0 x i) (flip keep)
    else if sign == 0
    then 0
    else max_word

unfoldable pub extend_from : Uint256 → ℕ → ℕ → ℕ → Uint256
extend_from x wi sign keep = let r = extend_limb x wi sign keep in u256 (r 0) (r 1) (r 2) (r 3)

unfoldable pub sign_extend256 : ℕ → Uint256 → Uint256
sign_extend256 b x =
    if leb 31 b
    then x
    else let t = b * 8 + 7 in
      let wi = shr t 6 in
      let bi = bit_and t 63 in
      let sign = bit_and (shr (limb_or 0 x wi) bi) 1 in
      let keep = if bi == 63 then max_word else shl 1 (bi + 1) - 1 in extend_from x wi sign keep
