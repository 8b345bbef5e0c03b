-- ===== src/Evm/Jump.antt =====
-- `jumpdestOK` of pkg/c2evm/stepper.go: a jump may only go to a JUMPDEST that is an instruction.
pub mod Boundary
use crypto.Base.{
  ℕ, zero, suc, ◌+◌, ◌-◌, Bool, false, List, leb, ltb, ◌==◌, if◌then◌else◌, get_or, length,
}
use crypto.Evm.Gas.{between}

-- The size of the instruction at `i`: a PUSH carries its data.
unfoldable pub op_size : List ℕ → ℕ → ℕ
op_size code i = let op = get_or code i 0 in if between 0x60 0x7f op then 1 + (op - 0x5f) else 1

-- The loop `for i < d`, on the rounds left; each moves on by at least one byte.
unfoldable pub scan : ℕ → List ℕ → ℕ → ℕ → ℕ
scan zero code d i = i
scan (suc fuel) code d i =
    let rest = scan fuel code d (i + op_size code i) in if ltb i d then rest else i

unfoldable pub jumpdest_ok : List ℕ → ℕ → Bool
jumpdest_ok code dest =
    if leb (length code) dest
    then false
    else if get_or code dest 0 == 0x5b
    then scan dest code dest 0 == dest
    else false
