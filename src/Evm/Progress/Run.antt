-- ===== src/Evm/Progress/Run.antt =====
-- `StepOne` of pkg/c2evm/stepper.go and the loop around it.
use crypto.Base.{
  ℕ, zero, suc, ◌-◌, ◌<◌, ◌≤◌, ◌≡◌, ◌⊎◌, refl, arith, Option, none, some, List, ◌==◌, Bool-cases,
  inl, inr, length, true, false, ltb, leb, get_or, subst, ==_iff,
}
use crypto.Evm256.Uint256.Bytes.{AreBytes}
use crypto.Evm.Frame.{
  ExecutionFrame, StateAccessor, Status, is_running, success, out_of_gas, invalid_opcode,
}
use crypto.Evm.Gas.{op_gas, gas_invalid}
use crypto.Evm.Stack.{◌>>=◌, or_halt, require_stack, slot, halt_ex, u256_as_u64}
use crypto.Evm.Memory.{charge_mem}
use crypto.Evm.Opcode.{decode}
use crypto.Evm.Step.{Frame, exec, exec_revert, fetch, step_one, run}
use crypto.Evm.Valid.{IsValid, Keeps}
use crypto.Evm.Valid.Operands.{halt_ex-IsValid}
use crypto.Evm.Valid.Machine.{with_status-IsValid}
use crypto.Evm.Progress.{
  Steps, stopped-Steps, moved, moved-IsValid, paid-Steps, exec-Keeps, op_gas-zero, decode-IsCase,
}

module _ {S : Type 0} where
  -- Whatever a part of a step returns, it has stopped.
  abbrev Stops : Option (ExecutionFrame S) → Type 0
  Stops none = Unit
  Stops (some g) = is_running g ≡ false

  or_halt-Stops {ℓ} :
      {A : Type ℓ} (f : ExecutionFrame S) (o : Option A) (rest : A → Option (ExecutionFrame S))
      → ((a : A) → Stops (rest a))
      → Stops (or_halt out_of_gas f o rest)
  unfolding halt_ex
  or_halt-Stops f none rest h = refl
  or_halt-Stops f (some a) rest h = h a

  bind-Stops {ℓ} :
      {A : Type ℓ} (o : Option A) (k : A → Option (ExecutionFrame S))
      → ((a : A) → Stops (k a))
      → Stops (o >>= k)
  bind-Stops none k h = tt
  bind-Stops (some a) k h = h a

  exec_revert-Stops : (f : ExecutionFrame S) → Stops (exec_revert f)
  unfolding exec_revert require_stack halt_ex
  exec_revert-Stops f = elim (Bool-cases (ltb f.sp 2)) [
    | inl few ↦ rw few refl
    | inr enough ↦ rw enough (
        bind-Stops (slot f 1) _ λ a. bind-Stops (slot f 2) _ λ b.
          or_halt-Stops f (u256_as_u64 a) _ λ off.
            or_halt-Stops f (u256_as_u64 b) _
              λ sz. or_halt-Stops f (charge_mem f off sz) _ λ g. refl)
  ]

  halted-Steps :
      (st : Status) (f : ExecutionFrame S)
      → IsValid f
      → is_running (halt_ex st f) ≡ false
      → Steps f (some (halt_ex st f))
  halted-Steps st f v r =
      stopped-Steps f (halt_ex st f) (halt_ex-IsValid st f v) (unfold halt_ex in omega arith) r

  -- What is kept by an instruction that stops the frame.
  stopping-Steps :
      (f : ExecutionFrame S) (m : Option (ExecutionFrame S)) → Keeps f.gas m → Stops m → Steps f m
  stopping-Steps f m k h =
      rw k.returns (stopped-Steps f k.out k.valid k.spent (subst Stops k.returns h))

  still_running :
      (f g : ExecutionFrame S)
      → is_running g ≡ true
      → (is_running g ≡ false) ⊎ (g.gas < f.gas)
      → g.gas < f.gas
  still_running f g r p = ground arith

module _ (db : StateAccessor) (code : List ℕ) (bytes : AreBytes code) where
  -- The instruction that costs nothing stops the frame.
  free-Stops : (f : Frame db) (op : ℕ) → op_gas op ≡ 0 → Stops (exec db code (decode op) f)
  unfolding exec
  free-Stops f op h = elim (op_gas-zero op h) [
    | inl e ↦ rw e refl
    | inr e ↦ rw e (exec_revert-Stops f)
  ]

  paid_for-Steps :
      (f : Frame db) (op : ℕ)
      → IsValid f
      → op_gas op ≤ f.gas
      → Steps f (exec db code (decode op) (moved f (op_gas op)))
  paid_for-Steps f op v enough =
      let m = moved f (op_gas op) in
      let k =
        exec-Keeps db {bound = f.gas - op_gas op} m (moved-IsValid f (op_gas op) v) (omega arith)
          code (decode op) bytes (decode-IsCase op) in
      elim (Bool-cases (op_gas op == 0)) [
        | inl free ↦
            let e = (==_iff (op_gas op) 0).0 free in
            stopping-Steps f _
              (record {
                out = k.out;
                returns = k.returns;
                valid = k.valid;
                spent = omega (arith, k.spent);
              })
              (free-Stops m op e)
        | inr costly ↦ paid-Steps f (op_gas op) _ (ground arith) enough k
      ]

  fetch-Steps : (f : Frame db) (op : ℕ) → IsValid f → Steps f (fetch db code op f)
  unfolding fetch
  fetch-Steps f op v = elim (Bool-cases (op_gas op == gas_invalid)) [
    | inl bad ↦ rw bad (halted-Steps invalid_opcode f v (unfold halt_ex in refl))
    | inr good ↦ elim (Bool-cases (ltb f.gas (op_gas op))) [
      | inl dear ↦ rw (good, dear) (halted-Steps out_of_gas f v (unfold halt_ex in refl))
      | inr paid ↦ rw (good, paid) (paid_for-Steps f op v (ground arith))
    ]
  ]

  -- A step of a valid frame that runs.
  step_one-Steps : (f : Frame db) → IsValid f → is_running f ≡ true → Steps f (step_one db code f)
  unfolding step_one
  step_one-Steps f v r = elim (Bool-cases (leb (length code) f.pc)) [
    | inl past ↦
        rw (r, past)
          (stopped-Steps f (record f { status = success })
            (with_status-IsValid {bound = f.gas} f v (omega arith) success) (omega arith) refl)
    | inr inside ↦ rw (r, inside) (fetch-Steps f (get_or code f.pc 0) v)
  ]

step_one-halted :
    (db : StateAccessor) (code : List ℕ) (f : Frame db)
    → is_running f ≡ false
    → step_one db code f ≡ some f
unfolding step_one
step_one-halted db code f r = rw r refl

-- `StepOne` on a valid frame, for any bytes of code and any state, does not panic: it returns a
-- valid frame whose gas has not risen, and that frame has stopped or its gas has fallen.
pub step_one-progress :
    (db : StateAccessor) (code : List ℕ) (f : Frame db)
    → AreBytes code
    → IsValid f
    → (g : Frame db) × (step_one db code f ≡ some g)
      × IsValid g
      × (g.gas ≤ f.gas)
      × ((is_running g ≡ false) ⊎ (g.gas < f.gas))
step_one-progress db code f h v = elim (Bool-cases (is_running f)) [
  | inl r ↦
      let s = step_one-Steps db code h f v r in (s.out, s.returns, s.valid, s.spent, s.progress)
  | inr r ↦ (f, step_one-halted db code f r, v, omega arith, inl r)
]

-- The rounds of the loop after a step to the frame `g`.
rest-halts :
    (db : StateAccessor) (code : List ℕ) (fuel : ℕ) (f g : Frame db)
    → ((f : Frame db)
        → IsValid f
        → f.gas < fuel
        → (e : Frame db) × (run db fuel code f ≡ some e)
          × (is_running e ≡ false)
          × IsValid e
          × (e.gas ≤ f.gas))
    → f.gas < suc fuel
    → IsValid g
    → g.gas ≤ f.gas
    → (is_running g ≡ false) ⊎ (g.gas < f.gas)
    → (e : Frame db) × ((elim (is_running g) [ true ↦ run db fuel code g | false ↦ some g ])
        ≡ some e)
      × (is_running e ≡ false)
      × IsValid e
      × (e.gas ≤ f.gas)
rest-halts db code fuel f g again enough w le p = elim (Bool-cases (is_running g)) [
  | inr r ↦ rw r (g, refl, r, w, le)
  | inl r ↦
      let fell = still_running f g r p in
      let rest = again g w (omega arith) in
      rw r (rest.0, rest.1, rest.2, rest.3, omega (arith, rest.4))
]

-- The loop `for StepOne(f, code) == StatusRunning {}` on a valid frame ends, for any bytes of
-- code and any state, within one round more than the frame has gas: it does not panic, and leaves
-- a valid frame that has stopped, with no more gas than there was.
pub run-halts :
    (db : StateAccessor) (code : List ℕ) (fuel : ℕ) (f : Frame db)
    → AreBytes code
    → IsValid f
    → f.gas < fuel
    → (g : Frame db) × (run db fuel code f ≡ some g)
      × (is_running g ≡ false)
      × IsValid g
      × (g.gas ≤ f.gas)
unfolding run
run-halts db code zero f h v enough = absurd (omega arith)
run-halts db code (suc fuel) f h v enough =
    let s = step_one-progress db code f h v in
    rw s.1 (rest-halts db code fuel f s.0 (λ g. run-halts db code fuel g h) enough s.2 s.3 s.4)
