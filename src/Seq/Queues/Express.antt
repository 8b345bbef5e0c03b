-- ===== src/Seq/Queues/Express.antt =====
-- The express lane of pkg/c2seq/timeboost.go.
use crypto.Base.{
  ℕ, ◌+◌, ◌≡◌, ltb, leb, if◌then◌else◌, List, [], ◌∷◌, ◌++◌, some, length, max_word, word, refl,
  sym, ap, arith, Bool-cases, inl, inr,
}
use crypto.Seq.Types.{ok, fail, Transaction}
use crypto.Seq.Gas.{safe_add_gas}
use crypto.Seq.Gas.Exact.{safe_add_gas-exact}
use crypto.Seq.Queues.{Timeboost, ExpressItem, drained, drain, push_express, max_express_queue}

drained-append :
    (now : ℕ) (xs ys : List ExpressItem) → drained now (xs ++ ys) ≡ drained now xs ++ drained now ys
unfolding drained
drained-append now [] ys = refl
drained-append now (x ∷ xs) ys = elim (Bool-cases (ltb x.deadline now)) [
  | inl late ↦ rw late (drained-append now xs ys)
  | inr timely ↦ rw (timely, drained-append now xs ys) refl
]

drained-nothing : (now : ℕ) → drained now [] ≡ []
unfolding drained
drained-nothing now = refl

drained-one :
    (now : ℕ) (it : ExpressItem)
    → drained now (it ∷ []) ≡ (if ltb it.deadline now then [] else it.tx ∷ [])
unfolding drained
drained-one now it = refl

-- `Drain` gives the items whose time is not over, whether or not there are any.
drain_of_items :
    (window : ℕ) (xs : List ExpressItem) (now : ℕ)
    → drain (record { window = window; items = xs }) now
      ≡ (record { window = window; items = [] }, drained now xs)
unfolding drain
drain_of_items window [] now = rw (drained-nothing now) refl
drain_of_items window (x ∷ xs) now = ground arith

-- The last moment of an express item: the sum of the time and the window, or the largest uint64.
abbrev pub last_moment : ℕ → ℕ → ℕ
last_moment now window = if ltb (now + window) word then now + window else max_word

deadline_of :
    (now window : ℕ)
    → (elim (safe_add_gas now window) as (λ _. ℕ) [ ok d ↦ d | fail e ↦ max_word ])
      ≡ last_moment now window
deadline_of now window = rw (safe_add_gas-exact now window) (ground arith)

-- The queue after a push that succeeds.
push_express-items :
    (t u : Timeboost) (tx : Transaction) (now : ℕ)
    → push_express t (some tx) now ≡ ok u
    → u ≡ record t {
      items = t.items ++ (record { tx = tx; deadline = last_moment now t.window } ∷ []);
    }
unfolding push_express
push_express-items t u tx now = elim (Bool-cases (leb max_express_queue (length t.items))) [
  | inl full ↦ rw full (λ h. absurd (ground arith))
  | inr room ↦
      rw (room, deadline_of now t.window)
        (λ h. sym (ap (λ r. elim r as (λ _. Timeboost) [ ok v ↦ v | fail e ↦ t ]) h))
]

-- A transaction that `PushExpress` takes at the time `now` comes out of a `Drain` at a later time,
-- behind everything that was there, if that is no later than `now` and the window together, or
-- the largest uint64 where these overflow; otherwise the drain drops it. Either way the queue is
-- empty afterwards.
pub drain-push :
    (t u : Timeboost) (tx : Transaction) (now later : ℕ)
    → push_express t (some tx) now ≡ ok u
    → drain u later ≡ (
      record t { items = [] },
      (drain t later).1 ++ (if ltb (last_moment now t.window) later then [] else tx ∷ []),
    )
drain-push t u tx now later h =
    let item : ExpressItem = record { tx = tx; deadline = last_moment now t.window } in
    rw
      (
        push_express-items t u tx now h,
        drain_of_items t.window (t.items ++ (item ∷ [])) later,
        drain_of_items t.window t.items later,
        drained-append later t.items (item ∷ []),
        drained-one later item,
      )
      refl
