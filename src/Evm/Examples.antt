-- ===== src/Evm/Examples.antt =====
-- The theorems on pkg/c2evm for a loop that only the gas ends, and for one memory access.
use crypto.Base.{
  ℕ, ◌+◌, ◌-◌, ◌<◌, ◌≤◌, ◌≡◌, ◌↔◌, ◌⊎◌, refl, arith, true, false, List, [], ◌∷◌, none, some, ltb,
  ◌==◌, if◌then◌else◌, length, get_or,
}
use crypto.Evm256.Uint256.{zero256, value}
use crypto.Evm256.Uint256.Bytes.{AreBytes}
use crypto.Evm256.Tests.{of_number}
use crypto.Evm256.Examples.{of_number-IsWord}
use crypto.Evm.Frame.{StateAccessor, is_running, running, reset, mem_max}
use crypto.Evm.Step.{Frame, step_one, run}
use crypto.Evm.Memory.{charge_mem}
use crypto.Evm.Jump.{jumpdest_ok}
use crypto.Evm.Jump.Boundary.{IsBoundary, jumpdest_ok_iff}
use crypto.Evm.Expansion.{expanded, size_gas, charge_mem-exact}
use crypto.Evm.Valid.{IsValid, reset-IsValid}
use crypto.Evm.Progress.Run.{step_one-progress, run-halts}

-- A state that keeps one number for each key.
abbrev numbered : StateAccessor
numbered = record {
  State = ℕ → ℕ;
  get_storage = λ s addr key. of_number (s (value key));
  set_storage = λ s addr key new i. if i == value key then value new else s i;
  stored-IsWord = λ s addr key. of_number-IsWord (s (value key));
}

-- JUMPDEST, PUSH1 0, JUMP.
abbrev endless : List ℕ
endless = 0x5b ∷ 0x60 ∷ 0x00 ∷ 0x56 ∷ []

abbrev dirty : Frame numbered
dirty = record {
  stack = λ _. zero256;
  sp = 0;
  pc = 0;
  gas = 0;
  refund = 0;
  status = running;
  memory = λ _. 0;
  memory_size = 0;
  return_data_offset = 0;
  return_data_size = 0;
  state_db = some (λ _. 0);
}

abbrev started : Frame numbered
started = reset dirty 100

endless-AreBytes : AreBytes endless
endless-AreBytes = (omega arith, (omega arith, (omega arith, (omega arith, tt))))

started-IsValid : IsValid started
started-IsValid = reset-IsValid dirty 100 (omega arith)

started-gas : started.gas ≡ 100
unfolding reset
started-gas = refl

step_one-progress_example :
    (g : Frame numbered) × (step_one numbered endless started ≡ some g)
    × IsValid g
    × (g.gas ≤ started.gas)
    × ((is_running g ≡ false) ⊎ (g.gas < started.gas))
step_one-progress_example =
    step_one-progress numbered endless started endless-AreBytes started-IsValid

run-halts_example :
    (g : Frame numbered) × (run numbered 101 endless started ≡ some g)
    × (is_running g ≡ false)
    × IsValid g
    × (g.gas ≤ started.gas)
run-halts_example =
    run-halts numbered endless 101 started endless-AreBytes started-IsValid
      (omega (arith, started-gas))

jumpdest_ok_iff_example :
    (jumpdest_ok endless 2 ≡ true)
    ↔ ((2 < length endless) × (get_or endless 2 0 ≡ 0x5b) × IsBoundary endless 2)
jumpdest_ok_iff_example = jumpdest_ok_iff endless 2

charge_mem-exact_example : charge_mem started 100 32 ≡ (
    if ltb mem_max (100 + 32)
    then none
    else if ltb started.gas
        (size_gas (expanded started.memory_size (100 + 32)) - size_gas started.memory_size)
    then none
    else some (record started {
      gas =
          started.gas
          - (size_gas (expanded started.memory_size (100 + 32)) - size_gas started.memory_size);
      memory_size = expanded started.memory_size (100 + 32);
    }))
charge_mem-exact_example = charge_mem-exact started 100 32 started-IsValid (omega arith)
