-- ===== src/Evm/Valid/Charges.antt =====
-- `chargeMem` and the reads and writes of memory that it pays for, in pkg/c2evm/stepper.go.
use crypto.Base.{
  ℕ, zero, suc, ◌+◌, ◌-◌, ◌*◌, ◌/◌, ◌%◌, ◌<◌, ◌≤◌, ◌≡◌, refl, arith, List, [], ◌∷◌, Option, none,
  some, Bool-cases, inl, inr, ltb, leb, ◌==◌, length, if_elim, subst,
}
use crypto.Evm256.Uint256.Bytes.{AreBytes}
use crypto.Evm.Frame.{ExecutionFrame, mem_max}
use crypto.Evm.Gas.{mem_gas}
use crypto.Evm.Stack.{update}
use crypto.Evm.Memory.{charge_mem, grow, mem_slice, mem_copy, read_bytes, write_bytes}
use crypto.Evm.Step.{charge}
use crypto.Evm.Valid.{IsValid}

pub read_bytes-AreBytes :
    (m : ℕ → ℕ) (off n : ℕ) → ((i : ℕ) → m i < 256) → AreBytes (read_bytes m off n)
unfolding read_bytes
read_bytes-AreBytes m off zero h = tt
read_bytes-AreBytes m off (suc n) h = (h off, read_bytes-AreBytes m (off + 1) n h)

pub write_bytes-AreBytes :
    (m : ℕ → ℕ) (off : ℕ) (bs : List ℕ)
    → ((i : ℕ) → m i < 256)
    → AreBytes bs
    → (i : ℕ) → write_bytes m off bs i < 256
unfolding write_bytes
write_bytes-AreBytes m off [] h p i = h i
write_bytes-AreBytes m off (b ∷ bs) h p i =
    write_bytes-AreBytes (update m off b) (off + 1) bs
      (λ j. if_elim (λ x. x < 256) (j == off) b (m j) p.0 (h j)) p.1 i

module _ {S : Type 0} where
  -- A frame `g` after a payment by `f`.
  pub record IsPaid (f g : ExecutionFrame S) : Type 0 where
    pub same_sp : g.sp ≡ f.sp
    pub valid : IsValid g
    pub spent : g.gas ≤ f.gas

  with_payment-IsValid :
      (f : ExecutionFrame S) (gas size : ℕ)
      → IsValid f
      → gas ≤ f.gas
      → size ≤ mem_max
      → size % 32 ≡ 0
      → IsValid (record f { gas = gas; memory_size = size })
  with_payment-IsValid f gas size v h p q = record {
    sp_fits = v.sp_fits;
    pc_fits = v.pc_fits;
    gas_fits = omega (arith, v.gas_fits);
    size_fits = p;
    whole_words = q;
    stack_words = v.stack_words;
    memory_bytes = v.memory_bytes;
  }

  -- What holds of the frame that an operation gives, if it gives one.
  abbrev Paid : ExecutionFrame S → Option (ExecutionFrame S) → Type 0
  Paid f none = Unit
  Paid f (some g) = IsPaid f g

  Paid-of :
      (f g : ExecutionFrame S) (o : Option (ExecutionFrame S)) → Paid f o → o ≡ some g → IsPaid f g
  Paid-of f g o p e = subst (Paid f) e p

  IsPaid-nothing : (f : ExecutionFrame S) → IsValid f → IsPaid f f
  IsPaid-nothing f v = record { same_sp = refl; valid = v; spent = omega arith }

  grow-Paid :
      (f : ExecutionFrame S) (words : ℕ) → IsValid f → words * 32 ≤ mem_max → Paid f (grow f words)
  unfolding grow
  grow-Paid f words v h =
      let delta = mem_gas words - mem_gas ((f.memory_size + 31) / 32) in
      if_elim (Paid f) (leb (words * 32) f.memory_size) (some f) _ (IsPaid-nothing f v) (
        if_elim (Paid f) (ltb (mem_gas words) (mem_gas ((f.memory_size + 31) / 32))) none _ tt (
          if_elim (Paid f) (ltb f.gas delta) none _ tt (record {
            same_sp = refl;
            valid =
                with_payment-IsValid f (f.gas - delta) (words * 32) v (omega arith) h (omega arith);
            spent = omega arith;
          })))

  charge_mem-Paid :
      (f : ExecutionFrame S) (off size : ℕ) → IsValid f → Paid f (charge_mem f off size)
  unfolding charge_mem
  charge_mem-Paid f off size v =
      let words = (off + size + 31) / 32 in
      if_elim (Paid f) (size == 0) (some f) _ (IsPaid-nothing f v) (
        if_elim (Paid f) (leb mem_max off) none _ tt (
          if_elim (Paid f) (ltb (mem_max - off) size) none _ tt
            (elim (Bool-cases (ltb mem_max (words * 32))) [
              | inl large ↦ rw large tt
              | inr fits ↦ rw fits (grow-Paid f words v (ground arith))
            ])))

  -- A charge that succeeds leaves a valid frame, and the slice is in the array.
  pub charge_mem-IsPaid :
      (f g : ExecutionFrame S) (off size : ℕ)
      → IsValid f
      → charge_mem f off size ≡ some g
      → IsPaid f g
  charge_mem-IsPaid f g off size v e =
      Paid-of f g (charge_mem f off size) (charge_mem-Paid f off size v) e

  pub charge_mem-in_range :
      (f g : ExecutionFrame S) (off size : ℕ)
      → charge_mem f off size ≡ some g
      → 0 < size
      → off + size ≤ mem_max
  unfolding charge_mem
  charge_mem-in_range f g off size e pos = ground arith

  pub charge-IsPaid :
      (f g : ExecutionFrame S) (extra : ℕ) → IsValid f → charge extra f ≡ some g → IsPaid f g
  unfolding charge
  charge-IsPaid f g extra v e =
      Paid-of f g (charge extra f)
        (if_elim (Paid f) (ltb f.gas extra) none _ tt (record {
          same_sp = refl;
          valid =
              with_payment-IsValid f (f.gas - extra) f.memory_size v (omega arith) v.size_fits
                v.whole_words;
          spent = omega arith;
        }))
        e

  pub mem_slice-some :
      (f : ExecutionFrame S) (off n : ℕ)
      → off + n ≤ mem_max
      → mem_slice f off n ≡ some (read_bytes f.memory off n)
  unfolding mem_slice
  mem_slice-some f off n h = ground arith

  -- The frame with bytes written.
  abbrev pub stored : ExecutionFrame S → ℕ → List ℕ → ExecutionFrame S
  stored f off bs = record f { memory = write_bytes f.memory off bs }

  pub mem_copy-some :
      (f : ExecutionFrame S) (off : ℕ) (bs : List ℕ)
      → off + length bs ≤ mem_max
      → mem_copy f off bs ≡ some (stored f off bs)
  unfolding mem_copy
  mem_copy-some f off bs h = ground arith

  pub stored-IsValid :
      (f : ExecutionFrame S) (off : ℕ) (bs : List ℕ)
      → IsValid f
      → AreBytes bs
      → IsValid (stored f off bs)
  stored-IsValid f off bs v h = record {
    sp_fits = v.sp_fits;
    pc_fits = v.pc_fits;
    gas_fits = v.gas_fits;
    size_fits = v.size_fits;
    whole_words = v.whole_words;
    stack_words = v.stack_words;
    memory_bytes = write_bytes-AreBytes f.memory off bs v.memory_bytes h;
  }
