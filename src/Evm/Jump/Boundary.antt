-- ===== src/Evm/Jump/Boundary.antt =====
-- What `jumpdestOK` of pkg/c2evm/stepper.go accepts.
use crypto.Base.{
  if◌then◌else◌, ◌-◌, ℕ, zero, suc, ◌+◌, ◌<◌, ◌≤◌, ◌≡◌, ◌↔◌, refl, arith, List, true, ltb, length,
  get_or, subst, if_elim,
}
use crypto.Evm.Jump.{op_size, scan, jumpdest_ok}

-- The bytes of the instruction at `i`: PUSH1 to PUSH32, the opcodes 0x60 to 0x7f, carry 1 to 32
-- bytes behind them, and all other instructions are one byte. Past the end there are only zeros.
abbrev pub stride : List ℕ → ℕ → ℕ
stride code i =
    let op = get_or code i 0 in if ltb op 0x60 then 1 else if ltb 0x7f op then 1 else op - 0x5e

op_size-stride : (code : List ℕ) (i : ℕ) → op_size code i ≡ stride code i
unfolding op_size
op_size-stride code i = ground arith

-- The positions where an instruction starts: the first byte, and what follows an instruction.
pub data IsBoundary (code : List ℕ) : ℕ → Type 0 where
  first : IsBoundary code 0
  next : (i : ℕ) → IsBoundary code i → IsBoundary code (i + stride code i)

stride-pos : (code : List ℕ) (i : ℕ) → 0 < stride code i
stride-pos code i = ground arith

-- The loop ends at a boundary.
scan-IsBoundary :
    (fuel : ℕ) (code : List ℕ) (d i : ℕ) → IsBoundary code i → IsBoundary code (scan fuel code d i)
unfolding scan
scan-IsBoundary zero code d i b = b
scan-IsBoundary (suc fuel) code d i b =
    if_elim (IsBoundary code) (ltb i d) _ i
      (rw (op_size-stride code i)
        (scan-IsBoundary fuel code d (i + stride code i) (IsBoundary.next i b)))
      b

-- The boundary `n` instructions after `i`.
abbrev walk : List ℕ → ℕ → ℕ → ℕ
walk code i zero = i
walk code i (suc n) = walk code (i + stride code i) n

walk-suc :
    (code : List ℕ) (i n : ℕ) → walk code i (suc n) ≡ walk code i n + stride code (walk code i n)
walk-suc code i zero = refl
walk-suc code i (suc n) = walk-suc code (i + stride code i) n

walk_of : (code : List ℕ) (d : ℕ) → IsBoundary code d → (n : ℕ) × (walk code 0 n ≡ d)
walk_of code d IsBoundary.first = (0, refl)
walk_of code d (IsBoundary.next i b) =
    let w = walk_of code i b in (suc w.0, rw (walk-suc code 0 w.0, w.1) refl)

walk-spread : (code : List ℕ) (i n : ℕ) → i + n ≤ walk code i n
walk-spread code i zero = omega arith
walk-spread code i (suc n) =
    omega (arith, walk-spread code (i + stride code i) n, stride-pos code i)

-- One round of the loop, and its end.
scan-more :
    (fuel : ℕ) (code : List ℕ) (d i : ℕ)
    → i < d
    → scan (suc fuel) code d i ≡ scan fuel code d (i + stride code i)
unfolding scan
scan-more fuel code d i h = ground (arith, op_size-stride code i)

scan-done : (fuel : ℕ) (code : List ℕ) (d : ℕ) → scan fuel code d d ≡ d
unfolding scan
scan-done zero code d = refl
scan-done (suc fuel) code d = ground arith

-- The loop stops on the boundary it looks for.
scan-walk :
    (fuel : ℕ) (code : List ℕ) (i n : ℕ)
    → n ≤ fuel
    → scan fuel code (walk code i n) i ≡ walk code i n
scan-walk fuel code i zero h = scan-done fuel code i
scan-walk zero code i (suc n) h = absurd (omega arith)
scan-walk (suc fuel) code i (suc n) h =
    rw (scan-more fuel code (walk code i (suc n)) i (omega (arith, walk-spread code i (suc n))))
      (scan-walk fuel code (i + stride code i) n (omega arith))

scan_of_boundary : (code : List ℕ) (d : ℕ) → IsBoundary code d → scan d code d 0 ≡ d
scan_of_boundary code d b =
    let w = walk_of code d b in
    let found = scan-walk (walk code 0 w.0) code 0 w.0 (omega (arith, walk-spread code 0 w.0)) in
    subst (λ d. scan d code d 0 ≡ d) w.1 found

-- `jumpdestOK` accepts the positions in the code that hold the byte 0x5b and where an instruction
-- starts, so not the data of a PUSH, and no others.
pub jumpdest_ok_iff :
    (code : List ℕ) (dest : ℕ)
    → (jumpdest_ok code dest ≡ true)
      ↔ ((dest < length code) × (get_or code dest 0 ≡ 0x5b) × IsBoundary code dest)
unfolding jumpdest_ok
jumpdest_ok_iff code dest = (accepted, λ h. rw (scan_of_boundary code dest h.2) (ground arith))
  where
    accepted :
        jumpdest_ok code dest ≡ true
        → (dest < length code) × (get_or code dest 0 ≡ 0x5b) × IsBoundary code dest
    accepted h =
        let found : scan dest code dest 0 ≡ dest = ground arith in
        (
          ground arith,
          ground arith,
          subst (IsBoundary code) found (scan-IsBoundary dest code dest 0 IsBoundary.first),
        )
