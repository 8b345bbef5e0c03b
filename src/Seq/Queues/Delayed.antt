-- ===== src/Seq/Queues/Delayed.antt =====
-- The delayed inbox of pkg/c2seq/sequencer.go.
use crypto.Base.{
  ℕ, ◌+◌, ◌-◌, ◌<◌, ◌≡◌, ltb, leb, if◌then◌else◌, Bool, true, false, not, List, [], ◌∷◌, word, refl,
  arith, Bool-cases, inl, inr, All,
}
use crypto.Seq.Gas.Exact.{safe_sub_gas-exact}
use crypto.Seq.Queues.{DelayedMessage, DelayedInbox, pop_loop, pop_ready}

-- The items that pass a test, in their order.
abbrev pub select {ℓ} : {A : Type ℓ} → (A → Bool) → List A → List A
select p [] = []
select p (x ∷ xs) = if p x then x ∷ select p xs else select p xs

-- A message whose delay is over.
abbrev pub is_due : ℕ → ℕ → DelayedMessage → Bool
is_due now delay m = leb (m.posted_at + delay) now

pop_loop-exact :
    (now delay : ℕ) (ms : List DelayedMessage)
    → now < word
    → All (λ m. m.posted_at < word) ms
    → pop_loop now delay ms
      ≡ (select (λ m. not (is_due now delay m)) ms, select (is_due now delay) ms)
unfolding pop_loop
pop_loop-exact now delay [] hn h = refl
pop_loop-exact now delay (m ∷ ms) hn h =
    rw (safe_sub_gas-exact now m.posted_at hn h.0) (elim (Bool-cases (ltb now m.posted_at)) [
      | inl early ↦
          let waits : is_due now delay m ≡ false = ground arith in
          rw (early, waits, pop_loop-exact now delay ms hn h.1) refl
      | inr posted ↦ rw posted (elim (Bool-cases (is_due now delay m)) [
        | inl due ↦
            let over : ltb (now - m.posted_at) delay ≡ false = ground arith in
            rw (due, over, pop_loop-exact now delay ms hn h.1) refl
        | inr waits ↦
            let under : ltb (now - m.posted_at) delay ≡ true = ground arith in
            rw (waits, under, pop_loop-exact now delay ms hn h.1) refl
      ])
    ])

-- `PopReady`, at a time and with posting times that fit a uint64, splits the queue: it returns the
-- messages whose posting time and the delay together are not after `now`, and keeps the others,
-- both in the order in which they were enqueued.
pub pop_ready-exact :
    (d : DelayedInbox) (now : ℕ)
    → now < word
    → All (λ m. m.posted_at < word) d.q
    → pop_ready d now ≡ (
      record d { q = select (λ m. not (is_due now d.delay m)) d.q },
      select (is_due now d.delay) d.q,
    )
unfolding pop_ready
pop_ready-exact d now hn h = rw (pop_loop-exact now d.delay d.q hn h) refl
