-- ===== src/Evm/Valid/Operands.antt =====
-- Reads and writes of the stack in a valid frame.
use crypto.Base.{
  ℕ, ◌+◌, ◌-◌, ◌<◌, ◌≤◌, ◌≡◌, refl, arith, Option, none, some, Bool-cases, inl, inr, ltb, leb, ◌==◌,
}
use crypto.Evm256.Uint256.{Uint256, IsWord}
use crypto.Evm.Frame.{ExecutionFrame, Status, stack_max, stack_underflow, stack_overflow}
use crypto.Evm.Stack.{
  update, halt_ex, slot, put, drop_slots, push, or_halt, require_stack, require_room,
}
use crypto.Evm.Valid.{IsValid, Keeps}

update-IsWord :
    (s : ℕ → Uint256) (i : ℕ) (x : Uint256)
    → ((j : ℕ) → IsWord (s j))
    → IsWord x
    → (j : ℕ) → IsWord (update s i x j)
update-IsWord s i x h w j = elim (Bool-cases (j == i)) [
  | inl same ↦ rw same w
  | inr other ↦ rw other (h j)
]

module _ {S : Type 0} where
  -- A slot that is there is read, and gives a word.
  pub slot-some :
      (f : ExecutionFrame S) (n : ℕ)
      → IsValid f
      → 0 < n
      → n ≤ f.sp
      → slot f n ≡ some (f.stack (f.sp - n))
  unfolding slot
  slot-some f n v pos h = ground (arith, v.sp_fits)

  -- The frame with a word written.
  abbrev pub written : ExecutionFrame S → ℕ → Uint256 → ExecutionFrame S
  written f n x = record f { stack = update f.stack (f.sp - n) x }

  pub put-some :
      (f : ExecutionFrame S) (n : ℕ) (x : Uint256)
      → IsValid f
      → 0 < n
      → n ≤ f.sp
      → put f n x ≡ some (written f n x)
  unfolding put
  put-some f n x v pos h = ground (arith, v.sp_fits)

  pub written-IsValid :
      (f : ExecutionFrame S) (n : ℕ) (x : Uint256) → IsValid f → IsWord x → IsValid (written f n x)
  written-IsValid f n x v w = record {
    sp_fits = v.sp_fits;
    pc_fits = v.pc_fits;
    gas_fits = v.gas_fits;
    size_fits = v.size_fits;
    whole_words = v.whole_words;
    stack_words = update-IsWord f.stack (f.sp - n) x v.stack_words w;
    memory_bytes = v.memory_bytes;
  }

  pub drop_slots-IsValid : (n : ℕ) (f : ExecutionFrame S) → IsValid f → IsValid (drop_slots n f)
  drop_slots-IsValid n f v = record {
    sp_fits = omega (arith, v.sp_fits);
    pc_fits = v.pc_fits;
    gas_fits = v.gas_fits;
    size_fits = v.size_fits;
    whole_words = v.whole_words;
    stack_words = v.stack_words;
    memory_bytes = v.memory_bytes;
  }

  pub halt_ex-IsValid : (st : Status) (f : ExecutionFrame S) → IsValid f → IsValid (halt_ex st f)
  unfolding halt_ex
  halt_ex-IsValid st f v = record {
    sp_fits = v.sp_fits;
    pc_fits = v.pc_fits;
    gas_fits = omega arith;
    size_fits = v.size_fits;
    whole_words = v.whole_words;
    stack_words = v.stack_words;
    memory_bytes = v.memory_bytes;
  }

  -- What a frame that is at hand keeps, and what a halt does.
  pub some-Keeps : {b : ℕ} (f : ExecutionFrame S) → IsValid f → f.gas ≤ b → Keeps b (some f)
  some-Keeps f v h = record { out = f; returns = refl; valid = v; spent = h }

  pub halt-Keeps :
      {b : ℕ} (st : Status) (f : ExecutionFrame S) → IsValid f → Keeps b (some (halt_ex st f))
  halt-Keeps st f v =
      some-Keeps (halt_ex st f) (halt_ex-IsValid st f v) (unfold halt_ex in omega arith)

  -- The rules of the early returns.
  pub require_stack-Keeps :
      {b : ℕ} (n : ℕ) (f : ExecutionFrame S) (rest : ExecutionFrame S → Option (ExecutionFrame S))
      → IsValid f
      → (n ≤ f.sp → Keeps b (rest f))
      → Keeps b (require_stack n f rest)
  unfolding require_stack
  require_stack-Keeps n f rest v h = elim (Bool-cases (ltb f.sp n)) [
    | inl few ↦ rw few (halt-Keeps stack_underflow f v)
    | inr enough ↦ rw enough (h (ground arith))
  ]

  pub require_room-Keeps :
      {b : ℕ} (f : ExecutionFrame S) (rest : ExecutionFrame S → Option (ExecutionFrame S))
      → IsValid f
      → (f.sp < stack_max → Keeps b (rest f))
      → Keeps b (require_room f rest)
  unfolding require_room
  require_room-Keeps f rest v h = elim (Bool-cases (leb stack_max f.sp)) [
    | inl full ↦ rw full (halt-Keeps stack_overflow f v)
    | inr room ↦ rw room (h (ground arith))
  ]

  pub or_halt-Keeps {ℓ} :
      {A : Type ℓ} {b : ℕ} (st : Status) (f : ExecutionFrame S) (o : Option A)
      (rest : A → Option (ExecutionFrame S))
      → IsValid f
      → ((a : A) → o ≡ some a → Keeps b (rest a))
      → Keeps b (or_halt st f o rest)
  or_halt-Keeps st f none rest v h = halt-Keeps st f v
  or_halt-Keeps st f (some a) rest v h = h a refl

  -- A push, in a frame with room.
  pub push-Keeps :
      {b : ℕ} (x : Uint256) (f : ExecutionFrame S)
      → IsValid f
      → IsWord x
      → f.sp < stack_max
      → f.gas ≤ b
      → Keeps b (push x f)
  unfolding push
  push-Keeps x f v w h le = record {
    out = record f { stack = update f.stack f.sp x; sp = f.sp + 1 };
    returns = ground arith;
    valid = record {
      sp_fits = omega arith;
      pc_fits = v.pc_fits;
      gas_fits = v.gas_fits;
      size_fits = v.size_fits;
      whole_words = v.whole_words;
      stack_words = update-IsWord f.stack f.sp x v.stack_words w;
      memory_bytes = v.memory_bytes;
    };
    spent = le;
  }
