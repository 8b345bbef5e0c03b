-- ===== src/Evm/Valid/Machine.antt =====
-- The validity of frames after the instructions of pkg/c2evm/stepper.go on memory and the
-- program counter, and after EXP.
use crypto.Base.{
  ℕ, zero, suc, ◌+◌, ◌-◌, ◌*◌, ◌%◌, ◌^◌, ◌<◌, ◌≤◌, ◌≡◌, arith, some, List, [], ◌∷◌, ◌++◌, if_elim,
  length, replicate, get_or,
}
use crypto.Evm256.Uint256.{Uint256, IsWord, from_bytes_be, is_zero}
use crypto.Evm256.Uint256.Bytes.{AreBytes, from_bytes_be-IsWord, zeros-AreBytes}
use crypto.Evm256.Arith.Power.{exp256-value}
use crypto.Evm.Frame.{ExecutionFrame, Status, out_of_gas, jump_dest_invalid}
use crypto.Evm.Stack.{drop_slots, u256_byte_len, slot, put, require_stack, ◌>>=◌}
use crypto.Evm.Memory.{charge_mem, mem_slice, mem_copy, read_bytes}
use crypto.Evm.Step.{
  push_data, jump_target, exec_exp, exec_push, exec_mload, exec_mstore, exec_jump, exec_jumpi,
}
use crypto.Evm.Valid.{IsValid, Keeps}
use crypto.Evm.Valid.Operands.{
  slot-some, put-some, written, written-IsValid, drop_slots-IsValid, some-Keeps,
  require_stack-Keeps, require_room-Keeps, push-Keeps, or_halt-Keeps,
}
use crypto.Evm.Valid.Charges.{
  charge_mem-IsPaid, charge_mem-in_range, charge-IsPaid, read_bytes-AreBytes, mem_slice-some,
  mem_copy-some, stored, stored-IsValid,
}

-- A frame that has moved to another instruction.
pub moved-IsValid :
    {S : Type 0} (f : ExecutionFrame S) (sp pc : ℕ)
    → IsValid f
    → sp ≤ f.sp
    → pc < 2 ^ 32
    → IsValid (record f { sp = sp; pc = pc })
moved-IsValid f sp pc v h p = record {
  sp_fits = omega (arith, v.sp_fits);
  pc_fits = p;
  gas_fits = v.gas_fits;
  size_fits = v.size_fits;
  whole_words = v.whole_words;
  stack_words = v.stack_words;
  memory_bytes = v.memory_bytes;
}

get_or-byte : (xs : List ℕ) (i : ℕ) → AreBytes xs → get_or xs i 0 < 256
get_or-byte [] i h = omega arith
get_or-byte (x ∷ xs) zero h = h.0
get_or-byte (x ∷ xs) (suc i) h = get_or-byte xs i h.1

push_data-AreBytes : (code : List ℕ) (pc n : ℕ) → AreBytes code → AreBytes (push_data code pc n)
unfolding push_data
push_data-AreBytes code pc zero h = tt
push_data-AreBytes code pc (suc n) h =
    (get_or-byte code pc h, push_data-AreBytes code ((pc + 1) % 2 ^ 32) n h)

jump_target-lt :
    (code : List ℕ) (a : Uint256) (dest : ℕ) → jump_target code a ≡ some dest → dest < 2 ^ 32
unfolding jump_target
jump_target-lt code a dest e = ground arith

module _ {S : Type 0} {bound : ℕ} (f : ExecutionFrame S) (v : IsValid f) (le : f.gas ≤ bound) where
  pub exec_exp-Keeps : Keeps bound (exec_exp f)
  unfolding exec_exp
  exec_exp-Keeps = require_stack-Keeps 2 f _ v λ enough.
      let a = f.stack (f.sp - 1) in
      let b = f.stack (f.sp - 2) in
      rw (slot-some f 1 v (omega arith) (omega arith), slot-some f 2 v (omega arith) enough)
        (or_halt-Keeps out_of_gas f _ _ v λ g e.
          let paid = charge-IsPaid f g (50 * u256_byte_len b) v e in
          let power = exp256-value a b (v.stack_words _) (v.stack_words _) in
          rw (power.1, put-some g 2 power.0 paid.valid (omega arith) (omega (arith, paid.same_sp)))
            (some-Keeps (drop_slots 1 (written g 2 power.0))
              (drop_slots-IsValid 1 (written g 2 power.0)
                (written-IsValid g 2 power.0 paid.valid power.2))
              (omega (arith, paid.spent))))

  pub exec_mload-Keeps : Keeps bound (exec_mload f)
  unfolding exec_mload
  exec_mload-Keeps = require_stack-Keeps 1 f _ v λ enough.
      rw (slot-some f 1 v (omega arith) enough) (
        or_halt-Keeps out_of_gas f _ _ v λ off e.
          or_halt-Keeps out_of_gas f (charge_mem f off 32)
            (λ g. mem_slice g off 32 >>= λ bytes. put g 1 (from_bytes_be bytes)) v
            λ g p.
              let paid = charge_mem-IsPaid f g off 32 v p in
              let x = from_bytes_be (read_bytes g.memory off 32) in
              let w =
                from_bytes_be-IsWord _
                  (read_bytes-AreBytes g.memory off 32 paid.valid.memory_bytes) in
              rw
                (
                  mem_slice-some g off 32 (charge_mem-in_range f g off 32 p (omega arith)),
                  put-some g 1 x paid.valid (omega arith) (omega (arith, paid.same_sp)),
                )
                (some-Keeps (written g 1 x) (written-IsValid g 1 x paid.valid w)
                  (omega (arith, paid.spent))))

  pub exec_mstore-Keeps :
      (n : ℕ) (bytes : Uint256 → List ℕ)
      → ((a : Uint256) → IsWord a → AreBytes (bytes a) × (length (bytes a) ≡ n))
      → 0 < n
      → Keeps bound (exec_mstore n bytes f)
  unfolding exec_mstore
  exec_mstore-Keeps n bytes h pos = require_stack-Keeps 2 f _ v λ enough.
      rw (slot-some f 1 v (omega arith) (omega arith)) (
        or_halt-Keeps out_of_gas f _ _ v λ off e.
          or_halt-Keeps out_of_gas f (charge_mem f off n)
            (λ g. slot g 2 >>= λ b. mem_copy g off (bytes b) >>= λ g'. some (drop_slots 2 g')) v
            λ g p.
              let paid = charge_mem-IsPaid f g off n v p in
              let b = g.stack (g.sp - 2) in
              let out = h b (paid.valid.stack_words _) in
              let room = charge_mem-in_range f g off n p pos in
              rw
                (
                  slot-some g 2 paid.valid (omega arith) (omega (arith, paid.same_sp)),
                  mem_copy-some g off (bytes b) (omega (arith, out.1, room)),
                )
                (some-Keeps (drop_slots 2 (stored g off (bytes b)))
                  (drop_slots-IsValid 2 (stored g off (bytes b))
                    (stored-IsValid g off (bytes b) paid.valid out.0))
                  (omega (arith, paid.spent))))

  pub exec_jump-Keeps : (code : List ℕ) → Keeps bound (exec_jump code f)
  unfolding exec_jump
  exec_jump-Keeps code = require_stack-Keeps 1 f _ v λ enough.
      rw (slot-some f 1 v (omega arith) enough) (
        or_halt-Keeps jump_dest_invalid f _ _ v λ dest e.
          some-Keeps (record f { sp = f.sp - 1; pc = dest })
            (moved-IsValid f (f.sp - 1) dest v (omega arith) (jump_target-lt code _ dest e)) le)

  pub exec_jumpi-Keeps : (code : List ℕ) → Keeps bound (exec_jumpi code f)
  unfolding exec_jumpi
  exec_jumpi-Keeps code = require_stack-Keeps 2 f _ v λ enough.
      rw (slot-some f 1 v (omega arith) (omega arith), slot-some f 2 v (omega arith) enough)
        (if_elim (Keeps bound) (is_zero (f.stack (f.sp - 2))) _ _
          (some-Keeps (drop_slots 2 f) (drop_slots-IsValid 2 f v) le)
          (or_halt-Keeps jump_dest_invalid f _ _ v λ dest e.
            some-Keeps (record f { sp = f.sp - 2; pc = dest })
              (moved-IsValid f (f.sp - 2) dest v (omega arith) (jump_target-lt code _ dest e)) le))

  pub exec_push-Keeps : (code : List ℕ) (n : ℕ) → AreBytes code → Keeps bound (exec_push code n f)
  unfolding exec_push
  exec_push-Keeps code n h = require_room-Keeps f _ v λ room.
      let buf = replicate (32 - n) 0 ++ push_data code f.pc n in
      let are_bytes = zeros-AreBytes (32 - n) _ (push_data-AreBytes code f.pc n h) in
      let g = record f { pc = (f.pc + n) % 2 ^ 32 } in
      push-Keeps (from_bytes_be buf) g
        (moved-IsValid f f.sp ((f.pc + n) % 2 ^ 32) v (omega arith) (omega arith))
        (from_bytes_be-IsWord buf are_bytes) room le

  pub exec_pop-Keeps : Keeps bound (require_stack 1 f (λ f. some (drop_slots 1 f)))
  exec_pop-Keeps =
      require_stack-Keeps 1 f _ v
        λ enough. some-Keeps (drop_slots 1 f) (drop_slots-IsValid 1 f v) le

  -- A frame that only stops to run.
  pub with_status-IsValid : (st : Status) → IsValid (record f { status = st })
  with_status-IsValid st = record {
    sp_fits = v.sp_fits;
    pc_fits = v.pc_fits;
    gas_fits = v.gas_fits;
    size_fits = v.size_fits;
    whole_words = v.whole_words;
    stack_words = v.stack_words;
    memory_bytes = v.memory_bytes;
  }
