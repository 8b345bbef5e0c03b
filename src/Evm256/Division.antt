-- ===== src/Evm256/Division.antt =====
-- pkg/evm256/arith.go: long division of limbs (`udivrem`) and the operations built on it.
pub mod Range
pub mod Results
use crypto.Base.{
  ℕ, zero, suc, ◌+◌, ◌-◌, bit_or, Bool, true, false, ◌&&◌, ◌||◌, List, [], ◌∷◌, ◌++◌, ltb, leb,
  ◌==◌, if◌then◌else◌, max_word, add64, sub64, mul64, div64, wrap_add, wrap_sub, wrap_mul, flip,
  shl, shr, get_or, set, take, replicate,
}
use crypto.Evm256.Uint256.{Uint256, u256, zero256, limbs, is_zero, is_neg}
use crypto.Evm256.Arith.{add_carry, mul512, low_limbs, neg256, abs256}

-- `for n > 0 && x[n-1] == 0 { n-- }`: the number of limbs up to the last that is not zero.
unfoldable pub significant : List ℕ → ℕ → ℕ
significant x zero = 0
significant x (suc n) = let rest = significant x n in if get_or x n 0 == 0 then rest else suc n

-- bits.LeadingZeros64, looking from bit `k - 1` down.
unfoldable pub leading_zeros : ℕ → ℕ → ℕ
leading_zeros zero d = 0
leading_zeros (suc k) d = let rest = suc (leading_zeros k d) in if shr d k == 0 then rest else 0

unfoldable pub reciprocal2by1 : ℕ → ℕ
reciprocal2by1 d = (div64 (flip d) max_word d).0

-- The last two corrections of `udivrem2by1`.
abbrev correct_down : ℕ → ℕ → ℕ → ℕ → ℕ × ℕ
correct_down q r ql d = if ltb ql r then (wrap_sub q 1, wrap_add r d) else (q, r)

abbrev correct_up : ℕ → ℕ → ℕ → ℕ × ℕ
correct_up q r d = if leb d r then (wrap_add q 1, wrap_sub r d) else (q, r)

unfoldable pub udivrem2by1 : ℕ → ℕ → ℕ → ℕ → ℕ × ℕ
udivrem2by1 uh ul d reciprocal =
    let (qh, ql) = mul64 reciprocal uh in
    let (ql', carry) = add64 ql ul 0 in
    let (qh', _) = add64 qh uh carry in
    let q = wrap_add qh' 1 in
    let (q1, r1) = correct_down q (wrap_sub ul (wrap_mul q d)) ql' d in correct_up q1 r1 d

-- `addToUn`: adds the `n` limbs `dn[i..]` to `un[j+i..]`; the new `un` and the carry.
unfoldable pub add_to_un : ℕ → List ℕ → ℕ → ℕ → List ℕ → ℕ → List ℕ × ℕ
add_to_un zero un j i dn carry = (un, carry)
add_to_un (suc n) un j i dn carry =
    let (s, c) = add64 (get_or un (j + i) 0) (get_or dn i 0) carry in
    add_to_un n (set un (j + i) s) j (i + 1) dn c

-- `subMulToUn`: subtracts `m` times the limbs; the new `un` and the borrow.
unfoldable pub sub_mul_to_un : ℕ → List ℕ → ℕ → ℕ → List ℕ → ℕ → ℕ → List ℕ × ℕ
sub_mul_to_un zero un j i dn m borrow = (un, borrow)
sub_mul_to_un (suc n) un j i dn m borrow =
    let (s, c1) = sub64 (get_or un (j + i) 0) borrow 0 in
    let (ph, pl) = mul64 (get_or dn i 0) m in
    let (t, c2) = sub64 s pl 0 in
    sub_mul_to_un n (set un (j + i) t) j (i + 1) dn m (wrap_add (wrap_add ph c1) c2)

-- The limbs behind the first, each shifted with the bits of the limb below it.
unfoldable pub shift_up : ℕ → ℕ → List ℕ → List ℕ
shift_up shift below [] = []
shift_up shift below (x ∷ xs) = bit_or (shl x shift) (shr below (64 - shift)) ∷ shift_up shift x xs

-- `dn` (`extra` is false) and `un` (true): the limbs shifted left, then the bits shifted out.
unfoldable pub normalize : ℕ → List ℕ → List ℕ
normalize shift [] = []
normalize shift (x ∷ xs) = if shift == 0 then x ∷ xs else shl x shift ∷ shift_up shift x xs

abbrev top_bits : ℕ → ℕ → ℕ
top_bits shift x = if shift == 0 then 0 else shr x (64 - shift)

-- An array of nine limbs that begins with the given ones.
abbrev pad : ℕ → List ℕ → List ℕ
pad n xs = take n (xs ++ replicate n 0)

-- The loop of the single-limb case, for the `n` limbs below: the quotient and the remainder.
unfoldable pub div_by_limb : ℕ → List ℕ → ℕ → ℕ → List ℕ → ℕ → List ℕ × ℕ
div_by_limb zero un d reciprocal quot r = (quot, r)
div_by_limb (suc j) un d reciprocal quot r =
    let (q, r') = udivrem2by1 r (get_or un j 0) d reciprocal in
    div_by_limb j un d reciprocal (set quot j q) r'

-- The estimate of one digit of the quotient, from the top limbs.
unfoldable pub estimate : ℕ → ℕ → ℕ → ℕ → ℕ → ℕ → ℕ
estimate u2 u1 u0 dh dl reciprocal =
    if leb dh u2
    then max_word
    else let (qhat, rhat) = udivrem2by1 u2 u1 dh reciprocal in
      let (ph, pl) = mul64 qhat dl in
      if ltb rhat ph || (ph == rhat && ltb u0 pl) then wrap_sub qhat 1 else qhat

-- The digit was one too large: the divisor is added back.
unfoldable pub add_back : ℕ → List ℕ → List ℕ → ℕ → ℕ → List ℕ × ℕ
add_back d_len un dn j qhat =
    let (un', carry) = add_to_un d_len un j 0 dn 0 in
    (set un' (j + d_len) (wrap_add (get_or un' (j + d_len) 0) carry), wrap_sub qhat 1)

-- One round of the loop of the general case: the new `un` and the digit.
unfoldable pub div_round : ℕ → List ℕ → List ℕ → ℕ → ℕ → List ℕ × ℕ
div_round d_len dn un reciprocal j =
    let u2 = get_or un (j + d_len) 0 in
    let qhat =
      estimate u2 (get_or un (j + d_len - 1) 0) (get_or un (j + d_len - 2) 0)
        (get_or dn (d_len - 1) 0) (get_or dn (d_len - 2) 0) reciprocal in
    let (un1, borrow) = sub_mul_to_un d_len un j 0 dn qhat 0 in
    let un2 = set un1 (j + d_len) (wrap_sub u2 borrow) in
    if ltb u2 borrow then add_back d_len un2 dn j qhat else (un2, qhat)

unfoldable pub div_rounds : ℕ → ℕ → List ℕ → List ℕ → ℕ → List ℕ → List ℕ × List ℕ
div_rounds zero d_len dn un reciprocal quot = (quot, un)
div_rounds (suc j) d_len dn un reciprocal quot =
    let (un', q) = div_round d_len dn un reciprocal j in
    div_rounds j d_len dn un' reciprocal (set quot j q)

-- The remainder, shifted back: the `n` lower limbs take bits from above, the last does not.
unfoldable pub shift_down : ℕ → List ℕ → ℕ → List ℕ
shift_down shift [] n = []
shift_down shift (x ∷ xs) zero = []
shift_down shift (x ∷ xs) (suc zero) = shr x shift ∷ []
shift_down shift (x ∷ xs) (suc (suc n)) =
    bit_or (shr x shift) (shl (get_or xs 0 0) (64 - shift)) ∷ shift_down shift xs (suc n)

abbrev quot8 : List ℕ
quot8 = replicate 8 0

-- The case of a divisor of one limb.
unfoldable pub single_limb : ℕ → List ℕ → List ℕ → ℕ → List ℕ × Uint256
single_limb u_len un dn shift =
    let d = get_or dn 0 0 in
    let (quot, r) = div_by_limb u_len un d (reciprocal2by1 d) quot8 (get_or un u_len 0) in
    (quot, u256 (shr r shift) 0 0 0)

-- `udivrem` behind its early returns, for `d_len` and `u_len` limbs that count.
unfoldable pub long_division : List ℕ → ℕ → Uint256 → ℕ → List ℕ × Uint256
long_division u u_len d d_len =
    let shift = leading_zeros 64 (get_or (limbs d) (d_len - 1) 0) in
    let dn = pad 4 (normalize shift (take d_len (limbs d))) in
    let un =
      pad 9 (normalize shift (take u_len u) ++ top_bits shift (get_or u (u_len - 1) 0) ∷ []) in
    if d_len == 1
    then single_limb u_len un dn shift
    else let reciprocal = reciprocal2by1 (get_or dn (d_len - 1) 0) in
      let (quot, un') = div_rounds (u_len - d_len + 1) d_len dn un reciprocal quot8 in
      (quot, low_limbs (if shift == 0 then take d_len un' else shift_down shift un' d_len))

-- `udivrem`: the quotient's limbs and the remainder.
unfoldable pub udivrem : List ℕ → ℕ → Uint256 → List ℕ × Uint256
udivrem u u_len_in d =
    let d_len = significant (limbs d) 4 in
    let u_len = significant u (if ltb 8 u_len_in then 8 else u_len_in) in
    if d_len == 0
    then (quot8, zero256)
    else if u_len == 0
    then (quot8, zero256)
    else if ltb u_len d_len
    then (quot8, low_limbs (take u_len u))
    else long_division u u_len d d_len

unfoldable pub divmod256 : Uint256 → Uint256 → Uint256 × Uint256
divmod256 n d = let (quot, r) = udivrem (limbs n ++ replicate 4 0) 4 d in (low_limbs quot, r)

unfoldable pub div256 : Uint256 → Uint256 → Uint256
div256 a b = if is_zero b then zero256 else (divmod256 a b).0

unfoldable pub mod256 : Uint256 → Uint256 → Uint256
mod256 a b = if is_zero b then zero256 else (divmod256 a b).1

abbrev differ : Bool → Bool → Bool
differ true b = elim b [ true ↦ false | false ↦ true ]
differ false b = b

unfoldable pub sdiv256 : Uint256 → Uint256 → Uint256
sdiv256 a b =
    if is_zero b
    then zero256
    else let q = (divmod256 (abs256 a) (abs256 b)).0 in
      if differ (is_neg a) (is_neg b) then neg256 q else q

unfoldable pub smod256 : Uint256 → Uint256 → Uint256
smod256 a b =
    if is_zero b
    then zero256
    else let r = (divmod256 (abs256 a) (abs256 b)).1 in if is_neg a then neg256 r else r

unfoldable pub rem_limbs : List ℕ → ℕ → Uint256 → Uint256
rem_limbs num nlimbs m = (udivrem num nlimbs m).1

unfoldable pub add_mod256 : Uint256 → Uint256 → Uint256 → Uint256
add_mod256 a b m =
    if is_zero m
    then zero256
    else let (sum, c) = add_carry a b in rem_limbs (limbs sum ++ (c ∷ replicate 3 0)) 5 m

unfoldable pub mul_mod256 : Uint256 → Uint256 → Uint256 → Uint256
mul_mod256 a b m = if is_zero m then zero256 else rem_limbs (mul512 a b) 8 m
