-- ===== src/Evm/Memory.antt =====
-- The memory of the frame in pkg/c2evm/stepper.go: its price, and reads and writes of slices.
use crypto.Base.{
  ℕ, zero, suc, ◌+◌, ◌-◌, ◌*◌, ◌/◌, List, [], ◌∷◌, Option, none, some, leb, ltb, ◌==◌,
  if◌then◌else◌, length,
}
use crypto.Evm.Frame.{ExecutionFrame, mem_max}
use crypto.Evm.Gas.{mem_gas}
use crypto.Evm.Stack.{update}

-- `memory[off], memory[off+1], …`: `n` bytes, and bytes written from `off` on.
unfoldable pub read_bytes : (ℕ → ℕ) → ℕ → ℕ → List ℕ
read_bytes m off zero = []
read_bytes m off (suc n) = m off ∷ read_bytes m (off + 1) n

unfoldable pub write_bytes : (ℕ → ℕ) → ℕ → List ℕ → ℕ → ℕ
write_bytes m off [] = m
write_bytes m off (b ∷ bs) = write_bytes (update m off b) (off + 1) bs

module _ {S : Type 0} where
  -- The tail of `chargeMem`: the new size is `words * 32`.
  unfoldable pub grow : ExecutionFrame S → ℕ → Option (ExecutionFrame S)
  grow f words =
      if leb (words * 32) f.memory_size
      then some f
      else let old_cost = mem_gas ((f.memory_size + 31) / 32) in
        let new_cost = mem_gas words in
        if ltb new_cost old_cost
        then none
        else if ltb f.gas (new_cost - old_cost)
        then none
        else some (record f { gas = f.gas - (new_cost - old_cost); memory_size = words * 32 })

  -- `chargeMem`; `none` is its -1, which changes nothing.
  unfoldable pub charge_mem : ExecutionFrame S → ℕ → ℕ → Option (ExecutionFrame S)
  unfolding grow
  charge_mem f offset size =
      if size == 0
      then some f
      else if leb mem_max offset
      then none
      else if ltb (mem_max - offset) size
      then none
      else let words = (offset + size + 31) / 32 in
        if ltb mem_max (words * 32) then none else grow f words

  -- `f.Memory[off : off+n]`; `none` is the panic of a slice out of range.
  unfoldable pub mem_slice : ExecutionFrame S → ℕ → ℕ → Option (List ℕ)
  mem_slice f off n = if leb (off + n) mem_max then some (read_bytes f.memory off n) else none

  unfoldable pub mem_copy : ExecutionFrame S → ℕ → List ℕ → Option (ExecutionFrame S)
  mem_copy f off bytes =
      if leb (off + length bytes) mem_max
      then some (record f { memory = write_bytes f.memory off bytes })
      else none
