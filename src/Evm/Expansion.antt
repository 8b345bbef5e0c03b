-- ===== src/Evm/Expansion.antt =====
-- What `chargeMem` of pkg/c2evm/stepper.go takes for memory, and what it leaves.
use crypto.Base.{
  ℕ, ◌+◌, ◌-◌, ◌*◌, ◌/◌, ◌<◌, ◌≤◌, ◌≡◌, refl, arith, none, some, ltb, leb, if◌then◌else◌,
  Bool-cases, inl, inr, true, false,
}
use native.Mathlib.Nat.{mul-le-mul_left, mul-le-mul_right}
use crypto.Evm.Frame.{ExecutionFrame, mem_max}
use crypto.Evm.Gas.{mem_gas}
use crypto.Evm.Memory.{charge_mem, grow}
use crypto.Evm.Valid.{IsValid}

-- More words cost more.
mem_gas_mono : (m n : ℕ) → m ≤ n → mem_gas m ≤ mem_gas n
mem_gas_mono m n h = omega (arith, mul-le-mul_left m h, mul-le-mul_right n h)

-- The size that memory has once the bytes up to `end` have been touched: whole words, and never
-- smaller than it was.
abbrev pub expanded : ℕ → ℕ → ℕ
expanded old end = if leb ((end + 31) / 32 * 32) old then old else (end + 31) / 32 * 32

-- The price of memory by its size.
abbrev pub size_gas : ℕ → ℕ
size_gas size = mem_gas (size / 32)

module _ {S : Type 0} (f : ExecutionFrame S) (off size : ℕ) (v : IsValid f) (pos : 0 < size) where
  charge_mem-too_far : mem_max < off + size → charge_mem f off size ≡ none
  unfolding charge_mem
  charge_mem-too_far far = ground arith

  charge_mem-grow : off + size ≤ mem_max → charge_mem f off size ≡ grow f ((off + size + 31) / 32)
  unfolding charge_mem
  charge_mem-grow near = ground arith

  -- Memory that was paid for is free.
  grow-free :
      (words : ℕ)
      → words * 32 ≤ f.memory_size
      → grow f words ≡ (
          if ltb f.gas (size_gas f.memory_size - size_gas f.memory_size)
          then none
          else some (record f {
            gas = f.gas - (size_gas f.memory_size - size_gas f.memory_size);
            memory_size = f.memory_size;
          }))
  unfolding grow
  grow-free words h =
      let nothing : size_gas f.memory_size - size_gas f.memory_size ≡ 0 = omega arith in
      let free : leb (words * 32) f.memory_size ≡ true = ground arith in
      let enough : ltb f.gas 0 ≡ false = ground arith in
      let same : f.gas - 0 ≡ f.gas = omega arith in rw (nothing, free, enough, same) refl

  grow-dear :
      (words : ℕ)
      → f.memory_size < words * 32
      → grow f words ≡ (
          if ltb f.gas (mem_gas words - size_gas f.memory_size)
          then none
          else some (record f {
            gas = f.gas - (mem_gas words - size_gas f.memory_size);
            memory_size = words * 32;
          }))
  unfolding grow
  grow-dear words h =
      let old : (f.memory_size + 31) / 32 ≡ f.memory_size / 32 = omega (arith, v.whole_words) in
      let mono = mem_gas_mono (f.memory_size / 32) words (omega arith) in
      let larger : leb (words * 32) f.memory_size ≡ false = ground arith in
      let dearer : ltb (mem_gas words) (size_gas f.memory_size) ≡ false = ground (arith, mono) in
      rw (old, larger, dearer) refl

-- `chargeMem` of a slice that is not empty, in a valid frame: it fails when the slice ends past
-- the array or the gas is less than what the larger memory costs beyond the present one; else it
-- takes exactly that, and the memory has the words that the slice needs, or its old size if larger.
pub charge_mem-exact :
    {S : Type 0} (f : ExecutionFrame S) (off size : ℕ)
    → IsValid f
    → 0 < size
    → charge_mem f off size ≡ (
        if ltb mem_max (off + size)
        then none
        else if ltb f.gas (size_gas (expanded f.memory_size (off + size)) - size_gas f.memory_size)
        then none
        else some (record f {
          gas = f.gas - (size_gas (expanded f.memory_size (off + size)) - size_gas f.memory_size);
          memory_size = expanded f.memory_size (off + size);
        }))
charge_mem-exact f off size v pos = elim (Bool-cases (ltb mem_max (off + size))) [
  | inl far ↦ rw far (charge_mem-too_far f off size v pos (ground arith))
  | inr near ↦
      rw (near, charge_mem-grow f off size v pos (ground arith))
        (elim (Bool-cases (leb ((off + size + 31) / 32 * 32) f.memory_size)) [
          | inl free ↦ rw free (grow-free f off size v pos ((off + size + 31) / 32) (ground arith))
          | inr dear ↦
              let back : (off + size + 31) / 32 * 32 / 32 ≡ (off + size + 31) / 32 = omega arith in
              rw (dear, back) (grow-dear f off size v pos ((off + size + 31) / 32) (ground arith))
        ])
]
