-- ===== src/Evm/Valid.antt =====
-- What holds of every frame that pkg/c2evm/stepper.go works on: the stack pointer is in the
-- array, the memory is as large as it was paid for, and every number fits its Go type.
pub mod Operands
pub mod Charges
pub mod Cases
pub mod Machine
pub mod Storage
use crypto.Base.{ℕ, ◌+◌, ◌*◌, ◌%◌, ◌^◌, ◌<◌, ◌≤◌, ◌≡◌, Option, none, some, word, arith}
use crypto.Evm256.Uint256.{IsWord}
use crypto.Evm.Frame.{ExecutionFrame, stack_max, mem_max, reset}

module _ {S : Type 0} where
  pub record IsValid (f : ExecutionFrame S) : Type 0 where
    pub sp_fits : f.sp ≤ stack_max
    pub pc_fits : f.pc < 2 ^ 32
    pub gas_fits : f.gas < word
    pub size_fits : f.memory_size ≤ mem_max
    pub whole_words : f.memory_size % 32 ≡ 0
    pub stack_words : (i : ℕ) → IsWord (f.stack i)
    pub memory_bytes : (i : ℕ) → f.memory i < 256

  -- A frame that `Reset` gives is valid.
  pub reset-IsValid : (f : ExecutionFrame S) (gas : ℕ) → gas < word → IsValid (reset f gas)
  unfolding reset
  reset-IsValid f gas h = record {
    sp_fits = omega arith;
    pc_fits = omega arith;
    gas_fits = h;
    size_fits = omega arith;
    whole_words = omega arith;
    stack_words = λ i. record {
      fits0 = omega arith;
      fits1 = omega arith;
      fits2 = omega arith;
      fits3 = omega arith;
    };
    memory_bytes = λ i. omega arith;
  }

  -- A part of a step that began with the gas `bound`: it does not panic, the frame that it
  -- leaves is valid, and it has given back no gas.
  pub record Keeps (bound : ℕ) (m : Option (ExecutionFrame S)) : Type 0 where
    pub out : ExecutionFrame S
    pub returns : m ≡ some out
    pub valid : IsValid out
    pub spent : out.gas ≤ bound
