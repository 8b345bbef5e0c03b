-- ===== src/Evm/Opcode.antt =====
-- The labels of the switch in `StepOne` of pkg/c2evm/stepper.go.
use crypto.Base.{ℕ, ◌+◌, ◌-◌, leb, ◌==◌, if◌then◌else◌}
use crypto.Evm.Gas.{between}

pub data Opcode : Type 0 where
  stop add mul sub div sdiv modulo smod add_mod mul_mod exp sign_extend : Opcode
  lt gt slt sgt equal is_zero conj disj xor complement byte shl shr sar keccak : Opcode
  pop mload mstore mstore8 sload sstore jump jumpi pc msize gas jumpdest push0 revert : Opcode
  push dup swap : ℕ → Opcode
  invalid : Opcode

abbrev arith_opcode : ℕ → Opcode
arith_opcode op =
    if op == 0x00
    then Opcode.stop
    else if op == 0x01
    then Opcode.add
    else if op == 0x02
    then Opcode.mul
    else if op == 0x03
    then Opcode.sub
    else if op == 0x04
    then Opcode.div
    else if op == 0x05
    then Opcode.sdiv
    else if op == 0x06
    then Opcode.modulo
    else if op == 0x07
    then Opcode.smod
    else if op == 0x08
    then Opcode.add_mod
    else if op == 0x09
    then Opcode.mul_mod
    else if op == 0x0a
    then Opcode.exp
    else if op == 0x0b
    then Opcode.sign_extend
    else Opcode.invalid

abbrev compare_opcode : ℕ → Opcode
compare_opcode op =
    if op == 0x10
    then Opcode.lt
    else if op == 0x11
    then Opcode.gt
    else if op == 0x12
    then Opcode.slt
    else if op == 0x13
    then Opcode.sgt
    else if op == 0x14
    then Opcode.equal
    else if op == 0x15
    then Opcode.is_zero
    else if op == 0x16
    then Opcode.conj
    else if op == 0x17
    then Opcode.disj
    else if op == 0x18
    then Opcode.xor
    else if op == 0x19
    then Opcode.complement
    else if op == 0x1a
    then Opcode.byte
    else if op == 0x1b
    then Opcode.shl
    else if op == 0x1c
    then Opcode.shr
    else if op == 0x1d
    then Opcode.sar
    else Opcode.invalid

abbrev machine_opcode : ℕ → Opcode
machine_opcode op =
    if op == 0x20
    then Opcode.keccak
    else if op == 0x50
    then Opcode.pop
    else if op == 0x51
    then Opcode.mload
    else if op == 0x52
    then Opcode.mstore
    else if op == 0x53
    then Opcode.mstore8
    else if op == 0x54
    then Opcode.sload
    else if op == 0x55
    then Opcode.sstore
    else if op == 0x56
    then Opcode.jump
    else if op == 0x57
    then Opcode.jumpi
    else if op == 0x58
    then Opcode.pc
    else if op == 0x59
    then Opcode.msize
    else if op == 0x5a
    then Opcode.gas
    else if op == 0x5b
    then Opcode.jumpdest
    else if op == 0x5f
    then Opcode.push0
    else Opcode.invalid

abbrev stack_opcode : ℕ → Opcode
stack_opcode op =
    if between 0x60 0x7f op
    then Opcode.push (op - 0x5f)
    else if between 0x80 0x8f op
    then Opcode.dup (op - 0x80 + 1)
    else if between 0x90 0x9f op
    then Opcode.swap (op - 0x90 + 1)
    else if op == 0xfd
    then Opcode.revert
    else Opcode.invalid

unfoldable pub decode : ℕ → Opcode
decode op =
    if leb op 0x0f
    then arith_opcode op
    else if leb op 0x1f
    then compare_opcode op
    else if leb op 0x5f
    then machine_opcode op
    else stack_opcode op
