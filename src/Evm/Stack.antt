-- ===== src/Evm/Stack.antt =====
-- The stack of the frame in pkg/c2evm/stepper.go. `none` is the panic of an index out of range.
use crypto.Base.{
  ℕ, zero, suc, ◌+◌, ◌-◌, ◌&&◌, Option, none, some, leb, ltb, ◌==◌, if◌then◌else◌, bit_or,
}
use crypto.Evm256.Uint256.{Uint256}
use crypto.Evm256.Bitwise.{byte_at}
use crypto.Evm.Frame.{ExecutionFrame, Status, stack_underflow, stack_overflow, stack_max}

infixl 5 ◌>>=◌
abbrev pub ◌>>=◌ {ℓ κ} : {A : Type ℓ} {B : Type κ} → Option A → (A → Option B) → Option B
none >>= k = none
some a >>= k = k a

-- A write to an array.
abbrev pub update {ℓ} : {A : Type ℓ} → (ℕ → A) → ℕ → A → ℕ → A
update a i v j = if j == i then v else a j

module _ {S : Type 0} where
  unfoldable pub halt_ex : Status → ExecutionFrame S → ExecutionFrame S
  halt_ex st f = record f { gas = 0; status = st }

  -- `f.Stack[f.SP-n]`, and a write to it.
  unfoldable pub slot : ExecutionFrame S → ℕ → Option Uint256
  slot f n = if leb n f.sp && ltb (f.sp - n) stack_max then some (f.stack (f.sp - n)) else none

  unfoldable pub put : ExecutionFrame S → ℕ → Uint256 → Option (ExecutionFrame S)
  put f n v =
      if leb n f.sp && ltb (f.sp - n) stack_max
      then some (record f { stack = update f.stack (f.sp - n) v })
      else none

  -- `f.SP -= n`.
  abbrev pub drop_slots : ℕ → ExecutionFrame S → ExecutionFrame S
  drop_slots n f = record f { sp = f.sp - n }

  -- `f.Stack[f.SP] = v; f.SP++`.
  unfoldable pub push : Uint256 → ExecutionFrame S → Option (ExecutionFrame S)
  push v f =
      if ltb f.sp stack_max
      then some (record f { stack = update f.stack f.sp v; sp = f.sp + 1 })
      else none

  -- `return haltEx(f, st)` where a value is missing.
  abbrev pub or_halt {ℓ} :
      {A : Type ℓ}
      → Status
      → ExecutionFrame S
      → Option A
      → (A → Option (ExecutionFrame S))
      → Option (ExecutionFrame S)
  or_halt st f none rest = some (halt_ex st f)
  or_halt st f (some a) rest = rest a

  -- `requireStack` and `requireRoom`, before the rest of an instruction.
  unfoldable pub require_stack :
      ℕ
      → ExecutionFrame S
      → (ExecutionFrame S → Option (ExecutionFrame S))
      → Option (ExecutionFrame S)
  require_stack n f rest = if ltb f.sp n then some (halt_ex stack_underflow f) else rest f

  unfoldable pub require_room :
      ExecutionFrame S → (ExecutionFrame S → Option (ExecutionFrame S)) → Option (ExecutionFrame S)
  require_room f rest = if leb stack_max f.sp then some (halt_ex stack_overflow f) else rest f

-- `u256AsU64`; `none` is its -1.
unfoldable pub u256_as_u64 : Uint256 → Option ℕ
u256_as_u64 x = if bit_or (bit_or x.w1 x.w2) x.w3 == 0 then some x.w0 else none

-- The loop of `u256ByteLen`, from byte `i - 1` down.
unfoldable pub byte_len_from : ℕ → Uint256 → ℕ
byte_len_from zero x = 0
byte_len_from (suc i) x = let rest = byte_len_from i x in if byte_at i x == 0 then rest else suc i

unfoldable pub u256_byte_len : Uint256 → ℕ
u256_byte_len x = byte_len_from 32 x
