-- ===== src/Evm/Step.antt =====
-- `StepOne` of pkg/c2evm/stepper.go, and the loop that its callers run. Every path of the source
-- returns `f.Status`, so a step is the new frame; `none` is a panic.
use crypto.Base.{
  ℕ, zero, suc, ◌+◌, ◌-◌, ◌*◌, ◌/◌, ◌%◌, ◌^◌, bit_and, Bool, true, false, not, ◌&&◌, List, [], ◌∷◌,
  ◌++◌, replicate, Option, none, some, leb, ltb, ◌==◌, if◌then◌else◌, get_or, length, wrap_add,
}
use crypto.Evm256.Uint256.{Uint256, zero256, from_u64, from_bytes_be, bytes_be, is_zero, eq}
use crypto.Evm256.Arith.{add256, sub256, mul256, exp256}
use crypto.Evm256.Division.{div256, sdiv256, mod256, smod256, add_mod256, mul_mod256}
use crypto.Evm256.Bitwise.{
  lt256, gt256, slt256, sgt256, and256, or256, xor256, not256, byte256, shl256, shr256, sar256,
  sign_extend256,
}
use crypto.Keccak.{keccak256}
use crypto.Evm.Frame.{
  StateAccessor, ExecutionFrame, is_running, success, revert, out_of_gas, invalid_opcode,
  jump_dest_invalid,
}
use crypto.Evm.Gas.{op_gas, gas_invalid}
use crypto.Evm.Jump.{jumpdest_ok}
use crypto.Evm.Stack.{
  ◌>>=◌, halt_ex, slot, put, drop_slots, push, or_halt, require_stack, require_room, u256_as_u64,
  u256_byte_len,
}
use crypto.Evm.Memory.{charge_mem, mem_slice, mem_copy}
use crypto.Evm.Opcode.{Opcode, decode}

abbrev pub one_if : Bool → Uint256
one_if b = from_u64 (if b then 1 else 0)

-- The bytes behind the program counter that PUSH reads; past the end of the code they are zero.
unfoldable pub push_data : List ℕ → ℕ → ℕ → List ℕ
push_data code pc zero = []
push_data code pc (suc n) = get_or code pc 0 ∷ push_data code ((pc + 1) % 2 ^ 32) n

-- The destination of a jump, or nothing where it is not a valid one.
unfoldable pub jump_target : List ℕ → Uint256 → Option ℕ
jump_target code a = do
  dest ← u256_as_u64 a
  if ltb 0xffffffff dest then none else if jumpdest_ok code dest then some dest else none

-- The operand of SIGNEXTEND and BYTE, and what stands for one that is too large.
abbrev pub u64_or : ℕ → Uint256 → ℕ
u64_or large a = elim (u256_as_u64 a) [ none ↦ large | some n ↦ n ]

-- `byte(f.Stack[f.SP-2][0] & 0xff)`.
abbrev pub low_byte : Uint256 → List ℕ
low_byte a = bit_and a.w0 0xff ∷ []

module _ {S : Type 0} where
  -- One operand, two and three, replaced by a result.
  unfoldable pub exec_unop : (Uint256 → Uint256) → ExecutionFrame S → Option (ExecutionFrame S)
  exec_unop fn f = require_stack 1 f λ f. do a ← slot f 1; put f 1 (fn a)

  unfoldable pub exec_binop :
      (Uint256 → Uint256 → Uint256) → ExecutionFrame S → Option (ExecutionFrame S)
  exec_binop fn f =
      require_stack 2 f
        λ f. do a ← slot f 1; b ← slot f 2; g ← put f 2 (fn a b); some (drop_slots 1 g)

  unfoldable pub exec_cmp :
      (Uint256 → Uint256 → Bool) → ExecutionFrame S → Option (ExecutionFrame S)
  unfolding exec_binop
  exec_cmp fn f = exec_binop (λ a b. one_if (fn a b)) f

  unfoldable pub exec_ternop :
      (Uint256 → Uint256 → Uint256 → Uint256) → ExecutionFrame S → Option (ExecutionFrame S)
  exec_ternop fn f = require_stack 3 f λ f. do
    a ← slot f 1
    b ← slot f 2
    c ← slot f 3
    g ← put f 3 (fn a b c)
    some (drop_slots 2 g)

  unfoldable pub exec_push : List ℕ → ℕ → ExecutionFrame S → Option (ExecutionFrame S)
  exec_push code n f = require_room f λ f.
      let buf = replicate (32 - n) 0 ++ push_data code f.pc n in
      push (from_bytes_be buf) (record f { pc = (f.pc + n) % 2 ^ 32 })

  unfoldable pub exec_value :
      (ExecutionFrame S → Uint256) → ExecutionFrame S → Option (ExecutionFrame S)
  exec_value v f = require_room f λ f. push (v f) f

  unfoldable pub exec_dup : ℕ → ExecutionFrame S → Option (ExecutionFrame S)
  exec_dup n f = require_stack n f λ f. require_room f λ f. do a ← slot f n; push a f

  unfoldable pub exec_swap : ℕ → ExecutionFrame S → Option (ExecutionFrame S)
  exec_swap n f =
      require_stack (n + 1) f
        λ f. do a ← slot f 1; b ← slot f (n + 1); g ← put f 1 b; put g (n + 1) a

  -- `if f.Gas < extra { return haltEx(f, StatusOutOfGas) }; f.Gas -= extra`.
  unfoldable pub charge : ℕ → ExecutionFrame S → Option (ExecutionFrame S)
  charge extra f = if ltb f.gas extra then none else some (record f { gas = f.gas - extra })

  unfoldable pub exec_exp : ExecutionFrame S → Option (ExecutionFrame S)
  exec_exp f = require_stack 2 f λ f. do
    a ← slot f 1
    b ← slot f 2
    or_halt out_of_gas f (charge (50 * u256_byte_len b) f)
        λ f. do r ← exp256 a b; g ← put f 2 r; some (drop_slots 1 g)

  unfoldable pub exec_keccak : ExecutionFrame S → Option (ExecutionFrame S)
  exec_keccak f = require_stack 2 f λ f. do
    a ← slot f 1
    b ← slot f 2
    or_halt out_of_gas f (u256_as_u64 a) λ off. or_halt out_of_gas f (u256_as_u64 b) λ sz.
        or_halt out_of_gas f (charge_mem f off sz) λ f.
          or_halt out_of_gas f (charge (6 * ((sz + 31) / 32)) f) λ f. do
            inp ← if sz == 0 then some [] else mem_slice f off sz
            put (drop_slots 1 f) 1 (from_bytes_be (keccak256 inp))

  unfoldable pub exec_mload : ExecutionFrame S → Option (ExecutionFrame S)
  exec_mload f = require_stack 1 f λ f. do
    a ← slot f 1
    or_halt out_of_gas f (u256_as_u64 a) λ off.
        or_halt out_of_gas f (charge_mem f off 32)
          λ f. do bytes ← mem_slice f off 32; put f 1 (from_bytes_be bytes)

  -- MSTORE and MSTORE8 write `n` bytes of the second operand.
  unfoldable pub exec_mstore : ℕ → (Uint256 → List ℕ) → ExecutionFrame S → Option (ExecutionFrame S)
  exec_mstore n bytes f = require_stack 2 f λ f. do
    a ← slot f 1
    or_halt out_of_gas f (u256_as_u64 a) λ off.
        or_halt out_of_gas f (charge_mem f off n)
          λ f. do b ← slot f 2; g ← mem_copy f off (bytes b); some (drop_slots 2 g)

  unfoldable pub exec_jump : List ℕ → ExecutionFrame S → Option (ExecutionFrame S)
  exec_jump code f = require_stack 1 f λ f. do
    a ← slot f 1
    or_halt jump_dest_invalid f (jump_target code a)
        λ dest. some (record f { sp = f.sp - 1; pc = dest })

  unfoldable pub exec_jumpi : List ℕ → ExecutionFrame S → Option (ExecutionFrame S)
  exec_jumpi code f = require_stack 2 f λ f. do
    a ← slot f 1
    b ← slot f 2
    if is_zero b
        then some (drop_slots 2 f)
        else (or_halt jump_dest_invalid f (jump_target code a)
            λ dest. some (record f { sp = f.sp - 2; pc = dest }))

  unfoldable pub exec_revert : ExecutionFrame S → Option (ExecutionFrame S)
  exec_revert f = require_stack 2 f λ f. do
    a ← slot f 1
    b ← slot f 2
    or_halt out_of_gas f (u256_as_u64 a) λ off. or_halt out_of_gas f (u256_as_u64 b) λ sz.
        or_halt out_of_gas f (charge_mem f off sz) λ f. some (record f {
          return_data_offset = off % 2 ^ 32;
          return_data_size = sz % 2 ^ 32;
          sp = f.sp - 2;
          status = revert;
        })

module _ (db : StateAccessor) where
  abbrev pub Frame : Type 0
  Frame = ExecutionFrame db.State

  unfoldable pub exec_sload : Frame → Option Frame
  exec_sload f = require_stack 1 f λ f. do
    key ← slot f 1
    put f 1 (elim f.state_db [ none ↦ zero256 | some s ↦ db.get_storage s zero256 key ])

  -- The refund of a write that clears a slot.
  abbrev pub clear_refund : Uint256 → Uint256 → ℕ → ℕ
  clear_refund old new refund =
      if not (is_zero old) && is_zero new then wrap_add refund 15000 else refund

  unfoldable pub exec_sstore : Frame → Option Frame
  exec_sstore f = require_stack 2 f λ f. do
    key ← slot f 1
    new ← slot f 2
    elim f.state_db [
      | none ↦ some (drop_slots 2 f)
      | some s ↦ some (record f {
        sp = f.sp - 2;
        refund = clear_refund (db.get_storage s zero256 key) new f.refund;
        state_db = some (db.set_storage s zero256 key new);
      })
    ]

  -- The cases of the switch, for the frame whose price is paid and whose `PC` has moved on.
  unfoldable pub exec : List ℕ → Opcode → Frame → Option Frame
  exec code Opcode.stop f = some (record f { status = success })
  exec code Opcode.add f = exec_binop add256 f
  exec code Opcode.mul f = exec_binop mul256 f
  exec code Opcode.sub f = exec_binop sub256 f
  exec code Opcode.div f = exec_binop div256 f
  exec code Opcode.sdiv f = exec_binop sdiv256 f
  exec code Opcode.modulo f = exec_binop mod256 f
  exec code Opcode.smod f = exec_binop smod256 f
  exec code Opcode.add_mod f = exec_ternop add_mod256 f
  exec code Opcode.mul_mod f = exec_ternop mul_mod256 f
  exec code Opcode.exp f = exec_exp f
  exec code Opcode.sign_extend f = exec_binop (λ a x. sign_extend256 (u64_or 31 a) x) f
  exec code Opcode.lt f = exec_cmp lt256 f
  exec code Opcode.gt f = exec_cmp gt256 f
  exec code Opcode.slt f = exec_cmp slt256 f
  exec code Opcode.sgt f = exec_cmp sgt256 f
  exec code Opcode.equal f = exec_cmp eq f
  exec code Opcode.is_zero f = exec_unop (λ a. one_if (is_zero a)) f
  exec code Opcode.conj f = exec_binop and256 f
  exec code Opcode.disj f = exec_binop or256 f
  exec code Opcode.xor f = exec_binop xor256 f
  exec code Opcode.complement f = exec_unop not256 f
  exec code Opcode.byte f = exec_binop (λ a x. byte256 (u64_or 32 a) x) f
  exec code Opcode.shl f = exec_binop shl256 f
  exec code Opcode.shr f = exec_binop shr256 f
  exec code Opcode.sar f = exec_binop sar256 f
  exec code Opcode.keccak f = exec_keccak f
  exec code Opcode.pop f = require_stack 1 f λ f. some (drop_slots 1 f)
  exec code Opcode.mload f = exec_mload f
  exec code Opcode.mstore f = exec_mstore 32 bytes_be f
  exec code Opcode.mstore8 f = exec_mstore 1 low_byte f
  exec code Opcode.sload f = exec_sload f
  exec code Opcode.sstore f = exec_sstore f
  exec code Opcode.jump f = exec_jump code f
  exec code Opcode.jumpi f = exec_jumpi code f
  exec code Opcode.pc f = exec_value (λ f. from_u64 ((f.pc + 2 ^ 32 - 1) % 2 ^ 32)) f
  exec code Opcode.msize f = exec_value (λ f. from_u64 f.memory_size) f
  exec code Opcode.gas f = exec_value (λ f. from_u64 f.gas) f
  exec code Opcode.jumpdest f = some f
  exec code Opcode.push0 f = exec_value (λ _. zero256) f
  exec code Opcode.revert f = exec_revert f
  exec code (Opcode.push n) f = exec_push code n f
  exec code (Opcode.dup n) f = exec_dup n f
  exec code (Opcode.swap n) f = exec_swap n f
  exec code Opcode.invalid f = some (halt_ex invalid_opcode f)

  -- An instruction that is in the code: its price, then its case.
  unfoldable pub fetch : List ℕ → ℕ → Frame → Option Frame
  fetch code op f =
      if op_gas op == gas_invalid
      then some (halt_ex invalid_opcode f)
      else if ltb f.gas (op_gas op)
      then some (halt_ex out_of_gas f)
      else exec code (decode op) (record f { gas = f.gas - op_gas op; pc = (f.pc + 1) % 2 ^ 32 })

  unfoldable pub step_one : List ℕ → Frame → Option Frame
  unfolding fetch
  step_one code f =
      if is_running f
      then if leb (length code) f.pc
        then some (record f { status = success })
        else fetch code (get_or code f.pc 0) f
      else some f

  -- `for StepOne(f, code) == StatusRunning {}`, on fuel.
  unfoldable pub run : ℕ → List ℕ → Frame → Option Frame
  run zero code f = some f
  run (suc fuel) code f =
      step_one code f >>= λ g. elim (is_running g) [ true ↦ run fuel code g | false ↦ some g ]
