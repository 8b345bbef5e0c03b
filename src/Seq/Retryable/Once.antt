-- ===== src/Seq/Retryable/Once.antt =====
-- Histories of the calls of pkg/c2seq/retryable.go that redeem tickets.
use crypto.Base.{
  ℕ, ◌+◌, ◌≤◌, ◌≡◌, refl, sym, ap, ◌∙◌, arith, Bool, true, false, List, [], ◌∷◌, some,
  if◌then◌else◌, Bool-cases, Option-cases, ltb, inl, inr, All, subst, ◌==◌,
}
use crypto.Evm256.Uint256.{Uint256}
use crypto.Seq.Types.{
  Result, ok, fail, Bytes, bytes_eq, bytes_eq_refl, bytes_eq→≡, ticket_state, Result-cases,
}
use crypto.Seq.Gas.{mul_u256_u64_checked, safe_sub_gas}
use crypto.Seq.Retryable.{
  RetryableParams, RetryableTicket, RetryableEngine, ticket_id, store, is_created, redeem,
  auto_redeem, manual_redeem, create, admit, new_ticket, quote_retryable, auto_redeemed,
}

-- The calls of the engine that change it.
pub data Call : Type 0 where
  creation : RetryableParams → Call
  automatic : Bytes → Call
  manual : Bytes → ℕ → Uint256 → Call

abbrev pub is_ok {ℓ} : {A : Type ℓ} → Result A → Bool
is_ok (ok a) = true
is_ok (fail e) = false

-- The engine after a call, and whether the call redeemed the ticket `id`.
abbrev pub after : RetryableEngine → Call → RetryableEngine
after e (creation p) = (create e p).0
after e (automatic k) = (auto_redeem e k).0
after e (manual k gas_limit max_fee) = (manual_redeem e k gas_limit max_fee).0

abbrev pub redeemed_by : Bytes → RetryableEngine → Call → Bool
redeemed_by id e (creation p) = false
redeemed_by id e (automatic k) = if bytes_eq id k then is_ok (auto_redeem e k).1 else false
redeemed_by id e (manual k gas_limit max_fee) =
    if bytes_eq id k then is_ok (manual_redeem e k gas_limit max_fee).1 else false

-- How many of the calls redeem the ticket.
abbrev pub redemptions : Bytes → RetryableEngine → List Call → ℕ
redemptions id e [] = 0
redemptions id e (c ∷ cs) = (if redeemed_by id e c then 1 else 0) + redemptions id (after e c) cs

-- A call that does not create the ticket again.
abbrev pub IsOther : Bytes → Call → Type 0
IsOther id (creation p) = bytes_eq id (ticket_id p) ≡ false
IsOther id (automatic k) = Unit
IsOther id (manual k gas_limit max_fee) = Unit

-- The ticket is there and has been redeemed.
abbrev pub IsSpent : RetryableEngine → Bytes → Type 0
IsSpent e id = (t : RetryableTicket) × (e id ≡ some t) × (is_created t.status ≡ false)

store-other :
    (e : RetryableEngine) (id key : Bytes) (t : RetryableTicket)
    → bytes_eq key id ≡ false
    → store e id t key ≡ e key
unfolding store
store-other e id key t h = rw h refl

store-same : (e : RetryableEngine) (id : Bytes) (t : RetryableTicket) → store e id t id ≡ some t
unfolding store
store-same e id t = rw (bytes_eq_refl id) refl

module _ (e : RetryableEngine) (id : Bytes) (has_gas : RetryableTicket → Bool)
    (terms : RetryableTicket → RetryableTicket) where
  redeem-spent : IsSpent e id → redeem e id has_gas terms ≡ (e, fail ticket_state)
  unfolding redeem
  redeem-spent s = rw (s.1, s.2, redeem) refl

  redeem-other : (key : Bytes) → bytes_eq key id ≡ false → (redeem e id has_gas terms).0 key ≡ e key
  unfolding redeem
  redeem-other key h = elim (Option-cases (e id)) [
    | inl missing ↦ rw (missing, redeem) refl
    | inr found ↦
        rw (found.1, redeem)
          (elim (Bool-cases (is_created (found.0).status)) [
            | inr spent ↦ rw spent refl
            | inl open_ ↦ rw open_ (elim (Bool-cases (has_gas found.0)) [
              | inl gas ↦ rw gas (store-other e id key (terms found.0) h)
              | inr short ↦ rw short refl
            ])
          ])
  ]

  redeem-IsSpent :
      ((t : RetryableTicket) → is_created (terms t).status ≡ false)
      → is_ok (redeem e id has_gas terms).1 ≡ true
      → IsSpent (redeem e id has_gas terms).0 id
  unfolding redeem
  redeem-IsSpent closes = elim (Option-cases (e id)) [
    | inl missing ↦ rw (missing, redeem, is_ok) (λ h. absurd (ground arith))
    | inr found ↦
        rw (found.1, redeem, is_ok)
          (elim (Bool-cases (is_created (found.0).status)) [
            | inr spent ↦ rw spent (λ h. absurd (ground arith))
            | inl open_ ↦ rw open_ (elim (Bool-cases (has_gas found.0)) [
              | inl gas ↦
                  rw gas (λ h. (terms found.0, store-same e id (terms found.0), closes found.0))
              | inr short ↦ rw short (λ h. absurd (ground arith))
            ])
          ])
  ]

admit-other :
    (e : RetryableEngine) (t : RetryableTicket) (left : ℕ) (key : Bytes)
    → bytes_eq key t.id ≡ false
    → (admit e t left).0 key ≡ e key
unfolding admit
admit-other e t left key h = elim (Bool-cases (t.gas_limit == 0)) [
  | inl free ↦ rw free (store-other e t.id key t h)
  | inr costly ↦ rw costly (elim (Bool-cases (ltb left t.gas_limit)) [
    | inl short ↦ rw short (store-other e t.id key t h)
    | inr paid ↦ rw paid (store-other e t.id key (record t { status = auto_redeemed }) h)
  ])
]

create-other :
    (e : RetryableEngine) (p : RetryableParams) (key : Bytes)
    → bytes_eq key (ticket_id p) ≡ false
    → (create e p).0 key ≡ e key
unfolding create
create-other e p key h = elim (Result-cases (quote_retryable p)) [
  | inr bad ↦ rw (bad.1, create) refl
  | inl quote ↦
      rw (quote.1, create)
        (elim (Result-cases (safe_sub_gas p.gas_provided (quote.0).sub_gas)) [
          | inr short ↦ rw short.1 refl
          | inl left ↦ rw left.1 (admit-other e (new_ticket p quote.0) left.0 key h)
        ])
]

still-IsSpent :
    (e : RetryableEngine) (c : Call) (id : Bytes)
    → IsSpent e id
    → after e c id ≡ e id
    → IsSpent (after e c) id
still-IsSpent e c id s h = (s.0, h ∙ s.1, s.2)

-- `AutoRedeem` and `ManualRedeem` of a ticket that has been redeemed, and of another one.
auto_redeem-spent :
    (e : RetryableEngine) (id : Bytes) → IsSpent e id → auto_redeem e id ≡ (e, fail ticket_state)
unfolding auto_redeem
auto_redeem-spent e id s = redeem-spent e id _ _ s

auto_redeem-other :
    (e : RetryableEngine) (id key : Bytes)
    → bytes_eq key id ≡ false
    → (auto_redeem e id).0 key ≡ e key
unfolding auto_redeem
auto_redeem-other e id key h = redeem-other e id _ _ key h

auto_redeem-IsSpent :
    (e : RetryableEngine) (id : Bytes)
    → is_ok (auto_redeem e id).1 ≡ true
    → IsSpent (auto_redeem e id).0 id
unfolding auto_redeem
auto_redeem-IsSpent e id h = redeem-IsSpent e id _ _ (λ t. refl) h

module _ (e : RetryableEngine) (id : Bytes) (gas_limit : ℕ) (max_fee : Uint256) where
  manual_redeem-spent :
      IsSpent e id
      → ((manual_redeem e id gas_limit max_fee).0 ≡ e)
        × (is_ok (manual_redeem e id gas_limit max_fee).1 ≡ false)
  unfolding manual_redeem
  manual_redeem-spent s = elim (Result-cases (mul_u256_u64_checked max_fee gas_limit)) [
    | inr large ↦ rw (large.1, manual_redeem) (refl, refl)
    | inl cost ↦ rw (cost.1, manual_redeem, redeem-spent e id _ _ s) (refl, refl)
  ]

  manual_redeem-other :
      (key : Bytes) → bytes_eq key id ≡ false → (manual_redeem e id gas_limit max_fee).0 key ≡ e key
  unfolding manual_redeem
  manual_redeem-other key h = elim (Result-cases (mul_u256_u64_checked max_fee gas_limit)) [
    | inr large ↦ rw (large.1, manual_redeem) refl
    | inl cost ↦ rw (cost.1, manual_redeem) (redeem-other e id _ _ key h)
  ]

  manual_redeem-IsSpent :
      is_ok (manual_redeem e id gas_limit max_fee).1 ≡ true
      → IsSpent (manual_redeem e id gas_limit max_fee).0 id
  unfolding manual_redeem
  manual_redeem-IsSpent = elim (Result-cases (mul_u256_u64_checked max_fee gas_limit)) [
    | inr large ↦ rw (large.1, manual_redeem, is_ok) (λ h. absurd (ground arith))
    | inl cost ↦ rw (cost.1, manual_redeem) (λ h. redeem-IsSpent e id _ _ (λ t. refl) h)
  ]

-- A call that redeems the ticket leaves it spent.
redeemed_by-IsSpent :
    (id : Bytes) (e : RetryableEngine) (c : Call)
    → redeemed_by id e c ≡ true
    → IsSpent (after e c) id
redeemed_by-IsSpent id e (creation p) h = absurd (ground arith)
redeemed_by-IsSpent id e (automatic k) h =
    let here : bytes_eq id k ≡ true = ground arith in
    let done : is_ok (auto_redeem e k).1 ≡ true = ground arith in
    subst (λ j. IsSpent (auto_redeem e k).0 j) (sym (bytes_eq→≡ id k here))
      (auto_redeem-IsSpent e k done)
redeemed_by-IsSpent id e (manual k gas_limit max_fee) h =
    let here : bytes_eq id k ≡ true = ground arith in
    let done : is_ok (manual_redeem e k gas_limit max_fee).1 ≡ true = ground arith in
    subst (λ j. IsSpent (manual_redeem e k gas_limit max_fee).0 j) (sym (bytes_eq→≡ id k here))
      (manual_redeem-IsSpent e k gas_limit max_fee done)

-- A call that does not create it again neither redeems it again nor takes it away.
IsSpent-after :
    (id : Bytes) (e : RetryableEngine) (c : Call)
    → IsSpent e id
    → IsOther id c
    → IsSpent (after e c) id × (redeemed_by id e c ≡ false)
IsSpent-after id e (creation p) s h =
    (still-IsSpent e (creation p) id s (create-other e p id h), refl)
IsSpent-after id e (automatic k) s h = elim (Bool-cases (bytes_eq id k)) [
  | inl here ↦
      let same = bytes_eq→≡ id k here in
      let shut = auto_redeem-spent e k (subst (IsSpent e) same s) in
      (still-IsSpent e (automatic k) id s (ap (λ r. r.0 id) shut), rw (here, shut) refl)
  | inr there ↦ rw there (still-IsSpent e (automatic k) id s (auto_redeem-other e k id there), refl)
]
IsSpent-after id e (manual k gas_limit max_fee) s h = elim (Bool-cases (bytes_eq id k)) [
  | inl here ↦
      let same = bytes_eq→≡ id k here in
      let shut = manual_redeem-spent e k gas_limit max_fee (subst (IsSpent e) same s) in
      (
        still-IsSpent e (manual k gas_limit max_fee) id s (ap (λ m. m id) shut.0),
        rw (here, shut.1) refl,
      )
  | inr there ↦ rw there (
    still-IsSpent e (manual k gas_limit max_fee) id s
        (manual_redeem-other e k gas_limit max_fee id there),
    refl,
  )
]

redemptions-spent :
    (id : Bytes) (e : RetryableEngine) (cs : List Call)
    → IsSpent e id
    → All (IsOther id) cs
    → redemptions id e cs ≡ 0
redemptions-spent id e [] s h = refl
redemptions-spent id e (c ∷ cs) s h =
    let next = IsSpent-after id e c s h.0 in
    rw next.1 (omega (arith, redemptions-spent id (after e c) cs next.0 h.1))

-- Whatever the engine holds, a sequence of calls of `Create`, `AutoRedeem` and `ManualRedeem` in
-- which no `Create` gives the ID `id` redeems the ticket `id` at most once, whatever the other
-- calls are and whichever of the two redeems it.
pub redeemed-once :
    (id : Bytes) (e : RetryableEngine) (cs : List Call)
    → All (IsOther id) cs
    → redemptions id e cs ≤ 1
redeemed-once id e [] h = omega arith
redeemed-once id e (c ∷ cs) h = elim (Bool-cases (redeemed_by id e c)) [
  | inl now ↦
      let none_later = redemptions-spent id (after e c) cs (redeemed_by-IsSpent id e c now) h.1 in
      rw (now, none_later) (omega arith)
  | inr later ↦ rw later (omega (arith, redeemed-once id (after e c) cs h.1))
]
