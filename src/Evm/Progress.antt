-- ===== src/Evm/Progress.antt =====
-- What a step of pkg/c2evm/stepper.go does to the validity, the gas and the status of a frame.
pub mod Run
use crypto.Base.{
  ℕ, zero, suc, ◌+◌, ◌-◌, ◌*◌, ◌/◌, ◌%◌, ◌^◌, ◌<◌, ◌≤◌, ◌≡◌, ◌⊎◌, refl, arith, Option, none, some,
  List, [], ◌==◌, if◌then◌else◌, Bool-cases, inl, inr, length, word, Bool, true, false, ltb, leb,
  get_or,
}
use crypto.Base.Bits.{bit_and-mask}
use crypto.Evm256.Uint256.{Uint256, IsWord, bytes_be, is_zero, eq, from_u64}
use crypto.Evm256.Uint256.Order.{from_u64-IsWord}
use crypto.Evm256.Uint256.Bytes.{AreBytes, bytes_be-AreBytes}
use crypto.Evm256.Arith.{sub256, mul256}
use crypto.Evm256.Arith.Sum.{add256-IsWord, sub256-IsWord}
use crypto.Evm256.Arith.Product.{mul256-IsWord}
use crypto.Evm256.Division.Results.{
  div256-IsWord, mod256-IsWord, sdiv256-IsWord, smod256-IsWord, add_mod256-IsWord,
  mul_mod256-IsWord,
}
use crypto.Evm256.Bitwise.{lt256, gt256, slt256, sgt256}
use crypto.Evm256.Bitwise.Range.{
  and256-IsWord, or256-IsWord, xor256-IsWord, not256-IsWord, byte256-IsWord, shl256-IsWord,
  shr256-IsWord, sar256-IsWord, sign_extend256-IsWord,
}
use crypto.Evm.Frame.{
  ExecutionFrame, StateAccessor, is_running, success, revert, out_of_gas, invalid_opcode,
}
use crypto.Evm.Gas.{op_gas, gas_invalid}
use crypto.Evm.Opcode
use crypto.Evm.Opcode.{Opcode, decode}
use crypto.Evm.Step.{Frame, one_if, u64_or, low_byte, exec, fetch, step_one}
use crypto.Evm.Valid.{IsValid, Keeps}
use crypto.Evm.Valid.Operands.{some-Keeps, halt-Keeps}
use crypto.Evm.Valid.Cases.{
  one_if-IsWord, exec_unop-Keeps, exec_binop-Keeps, exec_cmp-Keeps, exec_ternop-Keeps,
  exec_value-Keeps, exec_dup-Keeps, exec_swap-Keeps,
}
use crypto.Evm.Valid.Machine.{
  exec_exp-Keeps, exec_mload-Keeps, exec_mstore-Keeps, exec_jump-Keeps, exec_jumpi-Keeps,
  exec_push-Keeps, exec_pop-Keeps, with_status-IsValid,
}
use crypto.Evm.Valid.Storage.{
  exec_keccak-Keeps, exec_revert-Keeps, exec_sload-Keeps, exec_sstore-Keeps, zero256-IsWord,
}

-- DUP0 is not an instruction.
abbrev IsCase : Opcode → Type 0
IsCase (Opcode.dup n) = 0 < n
IsCase _ = Unit

decode-IsCase : (op : ℕ) → IsCase (decode op)
unfolding decode
decode-IsCase op = ground arith

low_byte-AreBytes : (a : Uint256) → IsWord a → AreBytes (low_byte a) × (length (low_byte a) ≡ 1)
low_byte-AreBytes a w = ((omega (arith, bit_and-mask 8 a.w0), tt), refl)

module _ (db : StateAccessor) {bound : ℕ} (f : Frame db) (v : IsValid f) (le : f.gas ≤ bound) where
  pub exec-Keeps :
      (code : List ℕ) (op : Opcode) → AreBytes code → IsCase op → Keeps bound (exec db code op f)
  unfolding exec
  exec-Keeps code Opcode.stop h c = some-Keeps _ (with_status-IsValid f v le success) le
  exec-Keeps code Opcode.add h c = exec_binop-Keeps f v le _ (λ a b _ _. add256-IsWord a b)
  exec-Keeps code Opcode.mul h c = exec_binop-Keeps f v le _ mul256-IsWord
  exec-Keeps code Opcode.sub h c = exec_binop-Keeps f v le _ (λ a b _ _. sub256-IsWord a b)
  exec-Keeps code Opcode.div h c = exec_binop-Keeps f v le _ div256-IsWord
  exec-Keeps code Opcode.sdiv h c = exec_binop-Keeps f v le _ sdiv256-IsWord
  exec-Keeps code Opcode.modulo h c = exec_binop-Keeps f v le _ mod256-IsWord
  exec-Keeps code Opcode.smod h c = exec_binop-Keeps f v le _ smod256-IsWord
  exec-Keeps code Opcode.add_mod h c = exec_ternop-Keeps f v le _ add_mod256-IsWord
  exec-Keeps code Opcode.mul_mod h c = exec_ternop-Keeps f v le _ mul_mod256-IsWord
  exec-Keeps code Opcode.exp h c = exec_exp-Keeps f v le
  exec-Keeps code Opcode.sign_extend h c =
      exec_binop-Keeps f v le _ (λ a x _ w. sign_extend256-IsWord (u64_or 31 a) x w)
  exec-Keeps code Opcode.lt h c = exec_cmp-Keeps f v le lt256
  exec-Keeps code Opcode.gt h c = exec_cmp-Keeps f v le gt256
  exec-Keeps code Opcode.slt h c = exec_cmp-Keeps f v le slt256
  exec-Keeps code Opcode.sgt h c = exec_cmp-Keeps f v le sgt256
  exec-Keeps code Opcode.equal h c = exec_cmp-Keeps f v le eq
  exec-Keeps code Opcode.is_zero h c = exec_unop-Keeps f v le _ (λ a _. one_if-IsWord (is_zero a))
  exec-Keeps code Opcode.conj h c = exec_binop-Keeps f v le _ (λ a b w _. and256-IsWord a b w)
  exec-Keeps code Opcode.disj h c = exec_binop-Keeps f v le _ or256-IsWord
  exec-Keeps code Opcode.xor h c = exec_binop-Keeps f v le _ xor256-IsWord
  exec-Keeps code Opcode.complement h c = exec_unop-Keeps f v le _ (λ a _. not256-IsWord a)
  exec-Keeps code Opcode.byte h c =
      exec_binop-Keeps f v le _ (λ a x _ _. byte256-IsWord (u64_or 32 a) x)
  exec-Keeps code Opcode.shl h c = exec_binop-Keeps f v le _ (λ a b _ w. shl256-IsWord a b w)
  exec-Keeps code Opcode.shr h c = exec_binop-Keeps f v le _ (λ a b _ w. shr256-IsWord a b w)
  exec-Keeps code Opcode.sar h c = exec_binop-Keeps f v le _ (λ a b _ w. sar256-IsWord a b w)
  exec-Keeps code Opcode.keccak h c = exec_keccak-Keeps f v le
  exec-Keeps code Opcode.pop h c = exec_pop-Keeps f v le
  exec-Keeps code Opcode.mload h c = exec_mload-Keeps f v le
  exec-Keeps code Opcode.mstore h c =
      exec_mstore-Keeps f v le 32 bytes_be (λ a _. bytes_be-AreBytes a) (omega arith)
  exec-Keeps code Opcode.mstore8 h c =
      exec_mstore-Keeps f v le 1 low_byte low_byte-AreBytes (omega arith)
  exec-Keeps code Opcode.sload h c = exec_sload-Keeps db f v le
  exec-Keeps code Opcode.sstore h c = exec_sstore-Keeps db f v le
  exec-Keeps code Opcode.jump h c = exec_jump-Keeps f v le code
  exec-Keeps code Opcode.jumpi h c = exec_jumpi-Keeps f v le code
  exec-Keeps code Opcode.pc h c =
      exec_value-Keeps f v le _ (from_u64-IsWord ((f.pc + 2 ^ 32 - 1) % 2 ^ 32) (omega arith))
  exec-Keeps code Opcode.msize h c =
      exec_value-Keeps f v le _ (from_u64-IsWord f.memory_size (omega (arith, v.size_fits)))
  exec-Keeps code Opcode.gas h c = exec_value-Keeps f v le _ (from_u64-IsWord f.gas v.gas_fits)
  exec-Keeps code Opcode.jumpdest h c = some-Keeps f v le
  exec-Keeps code Opcode.push0 h c = exec_value-Keeps f v le _ zero256-IsWord
  exec-Keeps code Opcode.revert h c = exec_revert-Keeps f v le
  exec-Keeps code (Opcode.push n) h c = exec_push-Keeps f v le code n h
  exec-Keeps code (Opcode.dup n) h c = exec_dup-Keeps f v le n c
  exec-Keeps code (Opcode.swap n) h c = exec_swap-Keeps f v le n
  exec-Keeps code Opcode.invalid h c = halt-Keeps invalid_opcode f v

-- `STOP` and `REVERT` are the instructions that cost nothing.
op_gas-zero : (op : ℕ) → op_gas op ≡ 0 → (decode op ≡ Opcode.stop) ⊎ (decode op ≡ Opcode.revert)
unfolding op_gas decode
op_gas-zero op h = ground arith

module _ {S : Type 0} where
  -- A step from the frame `f` returns a valid frame, and the frame has halted or its gas fell.
  pub record Steps (f : ExecutionFrame S) (m : Option (ExecutionFrame S)) : Type 0 where
    pub out : ExecutionFrame S
    pub returns : m ≡ some out
    pub valid : IsValid out
    pub spent : out.gas ≤ f.gas
    pub progress : (is_running out ≡ false) ⊎ (out.gas < f.gas)

  -- A frame that has been stopped.
  pub stopped-Steps :
      (f g : ExecutionFrame S) → IsValid g → g.gas ≤ f.gas → is_running g ≡ false → Steps f (some g)
  stopped-Steps f g v h r = record {
    out = g;
    returns = refl;
    valid = v;
    spent = h;
    progress = inl r;
  }

  -- `moved` is the frame that an instruction starts from.
  abbrev pub moved : ExecutionFrame S → ℕ → ExecutionFrame S
  moved f price = record f { gas = f.gas - price; pc = (f.pc + 1) % 2 ^ 32 }

  pub moved-IsValid : (f : ExecutionFrame S) (price : ℕ) → IsValid f → IsValid (moved f price)
  moved-IsValid f price v = record {
    sp_fits = v.sp_fits;
    pc_fits = omega arith;
    gas_fits = omega (arith, v.gas_fits);
    size_fits = v.size_fits;
    whole_words = v.whole_words;
    stack_words = v.stack_words;
    memory_bytes = v.memory_bytes;
  }

  -- What a step keeps if its price is not zero.
  pub paid-Steps :
      (f : ExecutionFrame S) (price : ℕ) (m : Option (ExecutionFrame S))
      → 0 < price
      → price ≤ f.gas
      → Keeps (f.gas - price) m
      → Steps f m
  paid-Steps f price m pos enough k = record {
    out = k.out;
    returns = k.returns;
    valid = k.valid;
    spent = omega (arith, k.spent);
    progress = inr (omega (arith, k.spent));
  }
