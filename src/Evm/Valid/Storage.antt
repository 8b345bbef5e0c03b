-- ===== src/Evm/Valid/Storage.antt =====
-- The validity of frames after KECCAK256, REVERT, SLOAD and SSTORE of pkg/c2evm/stepper.go.
use crypto.Base.{
  ℕ, ◌+◌, ◌-◌, ◌*◌, ◌/◌, ◌%◌, ◌^◌, ◌≤◌, ◌≡◌, refl, arith, Option, none, some, List, [], ◌==◌,
  if◌then◌else◌, Bool-cases, inl, inr,
}
use crypto.Evm256.Uint256.{Uint256, IsWord, zero256, from_bytes_be}
use crypto.Evm256.Uint256.Bytes.{from_bytes_be-IsWord}
use crypto.Keccak.{keccak256}
use crypto.Keccak.Digest.{keccak256-AreBytes}
use crypto.Evm.Frame.{ExecutionFrame, StateAccessor, out_of_gas, revert}
use crypto.Evm.Stack.{◌>>=◌, drop_slots, u256_as_u64, put}
use crypto.Evm.Memory.{charge_mem, mem_slice}
use crypto.Evm.Step.{Frame, charge, exec_keccak, exec_revert, exec_sload, exec_sstore, clear_refund}
use crypto.Evm.Valid.{IsValid, Keeps}
use crypto.Evm.Valid.Operands.{
  slot-some, put-some, written, written-IsValid, drop_slots-IsValid, some-Keeps,
  require_stack-Keeps, or_halt-Keeps,
}
use crypto.Evm.Valid.Charges.{charge_mem-IsPaid, charge_mem-in_range, charge-IsPaid, mem_slice-some}

module _ {S : Type 0} where
  -- The bytes that KECCAK256 hashes are in the array.
  hashed_slice :
      (f g h : ExecutionFrame S) (off sz : ℕ)
      → charge_mem f off sz ≡ some g
      → (inp : List ℕ) × ((if sz == 0 then some [] else mem_slice h off sz) ≡ some inp)
  hashed_slice f g h off sz p = elim (Bool-cases (sz == 0)) [
    | inl empty ↦ rw empty ([], refl)
    | inr some_bytes ↦
        rw (some_bytes, mem_slice-some h off sz (charge_mem-in_range f g off sz p (ground arith)))
          (_, refl)
  ]

  -- The end of KECCAK256, when everything is paid.
  keccak_end-Keeps :
      {bound : ℕ} (f g h : ExecutionFrame S) (off sz : ℕ)
      → charge_mem f off sz ≡ some g
      → IsValid h
      → 2 ≤ h.sp
      → h.gas ≤ bound
      → Keeps bound (
          (if sz == 0 then some [] else mem_slice h off sz) >>= λ inp.
          put (drop_slots 1 h) 1 (from_bytes_be (keccak256 inp)))
  keccak_end-Keeps f g h off sz p v enough le =
      let slice = hashed_slice f g h off sz p in
      let x = from_bytes_be (keccak256 slice.0) in
      let w = from_bytes_be-IsWord (keccak256 slice.0) (keccak256-AreBytes slice.0) in
      let dropped = drop_slots-IsValid 1 h v in
      rw (slice.1, put-some (drop_slots 1 h) 1 x dropped (omega arith) (omega arith))
        (some-Keeps (written (drop_slots 1 h) 1 x) (written-IsValid (drop_slots 1 h) 1 x dropped w)
          le)

  -- A frame that REVERT leaves.
  abbrev reverted : ExecutionFrame S → ℕ → ℕ → ExecutionFrame S
  reverted f off sz = record f {
    return_data_offset = off % 2 ^ 32;
    return_data_size = sz % 2 ^ 32;
    sp = f.sp - 2;
    status = revert;
  }

  reverted-IsValid : (f : ExecutionFrame S) (off sz : ℕ) → IsValid f → IsValid (reverted f off sz)
  reverted-IsValid f off sz v = record {
    sp_fits = omega (arith, v.sp_fits);
    pc_fits = v.pc_fits;
    gas_fits = v.gas_fits;
    size_fits = v.size_fits;
    whole_words = v.whole_words;
    stack_words = v.stack_words;
    memory_bytes = v.memory_bytes;
  }

module _ {S : Type 0} {bound : ℕ} (f : ExecutionFrame S) (v : IsValid f) (le : f.gas ≤ bound) where
  pub exec_keccak-Keeps : Keeps bound (exec_keccak f)
  unfolding exec_keccak
  exec_keccak-Keeps = require_stack-Keeps 2 f _ v λ enough.
      rw (slot-some f 1 v (omega arith) (omega arith), slot-some f 2 v (omega arith) enough)
        (or_halt-Keeps out_of_gas f (u256_as_u64 (f.stack (f.sp - 1))) _ v λ off _.
          or_halt-Keeps out_of_gas f (u256_as_u64 (f.stack (f.sp - 2))) _ v λ sz _.
            or_halt-Keeps out_of_gas f (charge_mem f off sz) _ v λ g p.
              let paid = charge_mem-IsPaid f g off sz v p in
              or_halt-Keeps out_of_gas g (charge (6 * ((sz + 31) / 32)) g) _ paid.valid λ h q.
                let settled = charge-IsPaid g h (6 * ((sz + 31) / 32)) paid.valid q in
                keccak_end-Keeps f g h off sz p settled.valid
                  (omega (arith, paid.same_sp, settled.same_sp))
                  (omega (arith, paid.spent, settled.spent)))

  pub exec_revert-Keeps : Keeps bound (exec_revert f)
  unfolding exec_revert
  exec_revert-Keeps = require_stack-Keeps 2 f _ v λ enough.
      rw (slot-some f 1 v (omega arith) (omega arith), slot-some f 2 v (omega arith) enough)
        (or_halt-Keeps out_of_gas f (u256_as_u64 (f.stack (f.sp - 1))) _ v λ off _.
          or_halt-Keeps out_of_gas f (u256_as_u64 (f.stack (f.sp - 2))) _ v λ sz _.
            or_halt-Keeps out_of_gas f (charge_mem f off sz) _ v λ g p.
              let paid = charge_mem-IsPaid f g off sz v p in
              some-Keeps (reverted g off sz) (reverted-IsValid g off sz paid.valid)
                (omega (arith, paid.spent)))

pub zero256-IsWord : IsWord zero256
zero256-IsWord = record {
  fits0 = omega arith;
  fits1 = omega arith;
  fits2 = omega arith;
  fits3 = omega arith;
}

module _ (db : StateAccessor) {bound : ℕ} (f : Frame db) (v : IsValid f) (le : f.gas ≤ bound) where
  -- The word that SLOAD reads.
  abbrev loaded : Option db.State → Uint256 → Uint256
  loaded o key = elim o [ none ↦ zero256 | some s ↦ db.get_storage s zero256 key ]

  loaded-IsWord : (o : Option db.State) (key : Uint256) → IsWord (loaded o key)
  loaded-IsWord none key = zero256-IsWord
  loaded-IsWord (some s) key = db.stored-IsWord s zero256 key

  pub exec_sload-Keeps : Keeps bound (exec_sload db f)
  unfolding exec_sload
  exec_sload-Keeps = require_stack-Keeps 1 f _ v λ enough.
      let key = f.stack (f.sp - 1) in
      let x = loaded f.state_db key in
      rw (slot-some f 1 v (omega arith) enough, put-some f 1 x v (omega arith) enough)
        (some-Keeps (written f 1 x) (written-IsValid f 1 x v (loaded-IsWord f.state_db key)) le)

  stored_word-IsValid :
      (s : db.State) (key new : Uint256)
      → IsValid (record f {
        sp = f.sp - 2;
        refund = clear_refund db (db.get_storage s zero256 key) new f.refund;
        state_db = some (db.set_storage s zero256 key new);
      })
  stored_word-IsValid s key new = record {
    sp_fits = omega (arith, v.sp_fits);
    pc_fits = v.pc_fits;
    gas_fits = v.gas_fits;
    size_fits = v.size_fits;
    whole_words = v.whole_words;
    stack_words = v.stack_words;
    memory_bytes = v.memory_bytes;
  }

  -- The end of SSTORE, with and without a state.
  sstore_end-Keeps :
      (key new : Uint256) (o : Option db.State)
      → Keeps bound (elim o [
        | none ↦ some (drop_slots 2 f)
        | some s ↦ some (record f {
          sp = f.sp - 2;
          refund = clear_refund db (db.get_storage s zero256 key) new f.refund;
          state_db = some (db.set_storage s zero256 key new);
        })
      ])
  sstore_end-Keeps key new none = some-Keeps (drop_slots 2 f) (drop_slots-IsValid 2 f v) le
  sstore_end-Keeps key new (some s) = some-Keeps _ (stored_word-IsValid s key new) le

  pub exec_sstore-Keeps : Keeps bound (exec_sstore db f)
  unfolding exec_sstore
  exec_sstore-Keeps = require_stack-Keeps 2 f _ v λ enough.
      rw (slot-some f 1 v (omega arith) (omega arith), slot-some f 2 v (omega arith) enough)
        (sstore_end-Keeps (f.stack (f.sp - 1)) (f.stack (f.sp - 2)) f.state_db)
