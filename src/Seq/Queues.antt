-- ===== src/Seq/Queues.antt =====
-- The express lane of pkg/c2seq/timeboost.go and the delayed inbox of pkg/c2seq/sequencer.go.
-- Their mutexes make each operation one step; an operation that fails changes nothing.
pub mod Express
pub mod Delayed
use crypto.Base.{
  ℕ, ◌+◌, ◌==◌, ltb, leb, if◌then◌else◌, List, [], ◌∷◌, ◌++◌, Option, none, some, length, max_word,
}
use crypto.Evm256.Uint256.{Uint256}
use crypto.Seq.Types.{Result, ok, fail, Bytes, Transaction, nil_tx, express_full}
use crypto.Seq.Gas.{safe_add_gas, safe_sub_gas}

abbrev pub default_express_window : ℕ
default_express_window = 60

abbrev pub max_express_queue : ℕ
max_express_queue = 1024

pub record ExpressItem : Type 0 where
  pub tx : Transaction
  pub deadline : ℕ

pub record Timeboost : Type 0 where
  pub window : ℕ
  pub items : List ExpressItem

unfoldable pub new_timeboost : ℕ → Timeboost
new_timeboost window = record {
  window = if window == 0 then default_express_window else window;
  items = [];
}

-- `PushExpress`, of a transaction that may be nil.
unfoldable pub push_express : Timeboost → Option Transaction → ℕ → Result Timeboost
push_express t none now = fail nil_tx
push_express t (some tx) now =
    if leb max_express_queue (length t.items)
    then fail express_full
    else let deadline : ℕ = elim (safe_add_gas now t.window) [ ok d ↦ d | fail e ↦ max_word ] in
      ok (record t { items = t.items ++ (record { tx = tx; deadline = deadline } ∷ []) })

-- The loop of `Drain`.
unfoldable pub drained : ℕ → List ExpressItem → List Transaction
drained now [] = []
drained now (it ∷ its) =
    let rest = drained now its in if ltb it.deadline now then rest else it.tx ∷ rest

unfoldable pub drain : Timeboost → ℕ → Timeboost × List Transaction
drain t now =
    if length t.items == 0 then (t, []) else (record t { items = [] }, drained now t.items)

pub record DelayedMessage : Type 0 where
  pub kind : ℕ
  pub from : Bytes
  pub to : Option Bytes
  pub msg_value : Uint256
  pub payload : Bytes
  pub gas_limit : ℕ
  pub max_fee_per_gas : Uint256
  pub deposited : Uint256
  pub max_submission_fee : Uint256
  pub l1_base_fee : Uint256
  pub gas_provided : ℕ
  pub posted_at : ℕ

pub record DelayedInbox : Type 0 where
  pub delay : ℕ
  pub q : List DelayedMessage

abbrev pub new_delayed_inbox : ℕ → DelayedInbox
new_delayed_inbox delay = record { delay = delay; q = [] }

abbrev pub enqueue : DelayedInbox → DelayedMessage → DelayedInbox
enqueue d msg = record d { q = d.q ++ (msg ∷ []) }

-- The loop of `PopReady`: what is kept, and what is ready.
unfoldable pub pop_loop : ℕ → ℕ → List DelayedMessage → List DelayedMessage × List DelayedMessage
pop_loop now delay [] = ([], [])
pop_loop now delay (m ∷ ms) =
    let rest = pop_loop now delay ms in
    if ltb now m.posted_at then (m ∷ rest.0, rest.1) else (elim (safe_sub_gas now m.posted_at) [
      | fail e ↦ (m ∷ rest.0, rest.1)
      | ok elapsed ↦ if ltb elapsed delay then (m ∷ rest.0, rest.1) else (rest.0, m ∷ rest.1)
    ])

unfoldable pub pop_ready : DelayedInbox → ℕ → DelayedInbox × List DelayedMessage
pop_ready d now = let loop = pop_loop now d.delay d.q in (record d { q = loop.0 }, loop.1)
