-- ===== src/Evm/Frame.antt =====
-- pkg/c2evm/frame.go: the execution frame.
use crypto.Base.{ℕ, Bool, true, false, Option}
use crypto.Evm256.Uint256.{Uint256, IsWord, zero256}

pub data Status : Type 0 where
  running success revert stack_underflow stack_overflow : Status
  out_of_gas invalid_opcode jump_dest_invalid : Status

abbrev pub stack_max : ℕ
stack_max = 1024

abbrev pub mem_max : ℕ
mem_max = 65536

-- The interface `StateAccessor`, over the states of what implements it: an account address, a
-- key, and for a write the value. Values are 256-bit words.
pub record StateAccessor : Type 1 where
  pub State : Type 0
  pub get_storage : State → Uint256 → Uint256 → Uint256
  pub set_storage : State → Uint256 → Uint256 → Uint256 → State
  pub stored-IsWord : (s : State) (addr key : Uint256) → IsWord (get_storage s addr key)

-- The arrays are functions of the index; the operations check it as Go does.
pub record ExecutionFrame (S : Type 0) : Type 0 where
  pub stack : ℕ → Uint256
  pub sp : ℕ
  pub pc : ℕ
  pub gas : ℕ
  pub refund : ℕ
  pub status : Status
  pub memory : ℕ → ℕ
  pub memory_size : ℕ
  pub return_data_offset : ℕ
  pub return_data_size : ℕ
  pub state_db : Option S

module _ {S : Type 0} where
  unfoldable pub reset : ExecutionFrame S → ℕ → ExecutionFrame S
  reset f gas = record {
    stack = λ _. zero256;
    sp = 0;
    pc = 0;
    gas = gas;
    refund = 0;
    status = running;
    memory = λ _. 0;
    memory_size = 0;
    return_data_offset = 0;
    return_data_size = 0;
    state_db = f.state_db;
  }

  -- `f.Status != StatusRunning`.
  abbrev pub is_running : ExecutionFrame S → Bool
  is_running f = elim f.status [ running ↦ true | _ ↦ false ]
