-- ===== src/Evm/Valid/Cases.antt =====
-- The validity of frames after the instructions on the stack of pkg/c2evm/stepper.go.
use crypto.Base.{ℕ, ◌+◌, ◌-◌, ◌<◌, ◌≤◌, arith, Bool, if◌then◌else◌}
use crypto.Evm256.Uint256.{Uint256, IsWord}
use crypto.Evm256.Uint256.Order.{from_u64-IsWord}
use crypto.Evm.Frame.{ExecutionFrame}
use crypto.Evm.Stack.{drop_slots}
use crypto.Evm.Step.{
  one_if, exec_unop, exec_binop, exec_cmp, exec_ternop, exec_value, exec_dup, exec_swap,
}
use crypto.Evm.Valid.{IsValid, Keeps}
use crypto.Evm.Valid.Operands.{
  slot-some, put-some, written, written-IsValid, drop_slots-IsValid, some-Keeps,
  require_stack-Keeps, require_room-Keeps, push-Keeps,
}

pub one_if-IsWord : (b : Bool) → IsWord (one_if b)
one_if-IsWord b = from_u64-IsWord (if b then 1 else 0) (ground arith)

module _ {S : Type 0} {bound : ℕ} (f : ExecutionFrame S) (v : IsValid f) (le : f.gas ≤ bound) where
  pub exec_unop-Keeps :
      (fn : Uint256 → Uint256)
      → ((a : Uint256) → IsWord a → IsWord (fn a))
      → Keeps bound (exec_unop fn f)
  unfolding exec_unop
  exec_unop-Keeps fn h = require_stack-Keeps 1 f _ v λ enough.
      let a = f.stack (f.sp - 1) in
      rw (slot-some f 1 v (omega arith) enough, put-some f 1 (fn a) v (omega arith) enough)
        (some-Keeps (written f 1 (fn a))
          (written-IsValid f 1 (fn a) v (h a (v.stack_words (f.sp - 1)))) le)

  pub exec_binop-Keeps :
      (fn : Uint256 → Uint256 → Uint256)
      → ((a b : Uint256) → IsWord a → IsWord b → IsWord (fn a b))
      → Keeps bound (exec_binop fn f)
  unfolding exec_binop
  exec_binop-Keeps fn h = require_stack-Keeps 2 f _ v λ enough.
      let x = fn (f.stack (f.sp - 1)) (f.stack (f.sp - 2)) in
      let w = h _ _ (v.stack_words (f.sp - 1)) (v.stack_words (f.sp - 2)) in
      rw
        (
          slot-some f 1 v (omega arith) (omega arith),
          slot-some f 2 v (omega arith) enough,
          put-some f 2 x v (omega arith) enough,
        )
        (some-Keeps (drop_slots 1 (written f 2 x))
          (drop_slots-IsValid 1 (written f 2 x) (written-IsValid f 2 x v w)) le)

  pub exec_cmp-Keeps : (fn : Uint256 → Uint256 → Bool) → Keeps bound (exec_cmp fn f)
  unfolding exec_cmp
  exec_cmp-Keeps fn = exec_binop-Keeps (λ a b. one_if (fn a b)) (λ a b _ _. one_if-IsWord (fn a b))

  pub exec_ternop-Keeps :
      (fn : Uint256 → Uint256 → Uint256 → Uint256)
      → ((a b c : Uint256) → IsWord a → IsWord b → IsWord c → IsWord (fn a b c))
      → Keeps bound (exec_ternop fn f)
  unfolding exec_ternop
  exec_ternop-Keeps fn h = require_stack-Keeps 3 f _ v λ enough.
      let x = fn (f.stack (f.sp - 1)) (f.stack (f.sp - 2)) (f.stack (f.sp - 3)) in
      let w =
        h _ _ _ (v.stack_words (f.sp - 1)) (v.stack_words (f.sp - 2)) (v.stack_words (f.sp - 3)) in
      rw
        (
          slot-some f 1 v (omega arith) (omega arith),
          slot-some f 2 v (omega arith) (omega arith),
          slot-some f 3 v (omega arith) enough,
          put-some f 3 x v (omega arith) enough,
        )
        (some-Keeps (drop_slots 2 (written f 3 x))
          (drop_slots-IsValid 2 (written f 3 x) (written-IsValid f 3 x v w)) le)

  pub exec_value-Keeps :
      (x : ExecutionFrame S → Uint256) → IsWord (x f) → Keeps bound (exec_value x f)
  unfolding exec_value
  exec_value-Keeps x w = require_room-Keeps f _ v λ room. push-Keeps (x f) f v w room le

  pub exec_dup-Keeps : (n : ℕ) → 0 < n → Keeps bound (exec_dup n f)
  unfolding exec_dup
  exec_dup-Keeps n pos = require_stack-Keeps n f _ v λ enough. require_room-Keeps f _ v λ room.
      rw (slot-some f n v pos enough)
        (push-Keeps (f.stack (f.sp - n)) f v (v.stack_words (f.sp - n)) room le)

  pub exec_swap-Keeps : (n : ℕ) → Keeps bound (exec_swap n f)
  unfolding exec_swap
  exec_swap-Keeps n = require_stack-Keeps (n + 1) f _ v λ enough.
      let a = f.stack (f.sp - 1) in
      let b = f.stack (f.sp - (n + 1)) in
      let g = written f 1 b in
      let vg = written-IsValid f 1 b v (v.stack_words (f.sp - (n + 1))) in
      rw
        (
          slot-some f 1 v (omega arith) (omega arith),
          slot-some f (n + 1) v (omega arith) enough,
          put-some f 1 b v (omega arith) (omega arith),
          put-some g (n + 1) a vg (omega arith) enough,
        )
        (some-Keeps (written g (n + 1) a)
          (written-IsValid g (n + 1) a vg (v.stack_words (f.sp - 1))) le)
