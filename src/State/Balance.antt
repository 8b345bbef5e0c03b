-- ===== src/State/Balance.antt =====
-- What `SubBalance` does to the balances.
use crypto.Base.{
  ◌+◌, ◌<◌, ◌≤◌, ◌≡◌, refl, sym, ◌==◌, ap, ◌∙◌, arith, Bool, true, false, Bool-cases, inl, inr,
  ◌&&◌, ltb, if◌then◌else◌, Option, none, some,
}
use crypto.Evm256.Uint256.{Uint256, IsWord, value, zero256, is_zero, eq, cmp}
use crypto.Evm256.Uint256.Order.{cmp-value, value-lt, is_zero-value}
use crypto.Evm256.Arith.{sub256}
use crypto.Evm256.Arith.Sum.{sub256-value}
use crypto.Seq.Gas.{is_less}
use crypto.State.Store.{
  Account, StateTrie, normalize_addr, get_balance, change_account, is_none, or_new_account,
  balance_of, sub_balance,
}

-- `Cmp` of two words is less where the number is.
pub is_less-cmp :
    (a b : Uint256) → IsWord a → IsWord b → is_less (cmp a b) ≡ ltb (value a) (value b)
is_less-cmp a b wa wb = rw (cmp-value a b wa wb) (ground arith)

-- A result that is an error, or a state in which one balance is lower.
abbrev pub IsDebited : StateTrie → Uint256 → Uint256 → Option StateTrie → Type 0
IsDebited t addr delta none = value (get_balance t addr) < value delta
IsDebited t addr delta (some u) =
    (value (get_balance u addr) + value delta ≡ value (get_balance t addr))
    × ((other : Uint256)
        → eq (normalize_addr other) (normalize_addr addr) ≡ false
        → get_balance u other ≡ get_balance t other)

eq_self : (a : Uint256) → eq a a ≡ true
unfolding eq
eq_self a = ground arith

-- The account of a changed address, and of another one.
changed_balance :
    (t : StateTrie) (addr : Uint256) (change : Account → Account)
    → get_balance (change_account addr change t) addr
      ≡ (change (or_new_account (t.accounts (normalize_addr addr)))).balance
unfolding get_balance change_account
changed_balance t addr change =
    ap
      (λ (b : Bool). balance_of (
        if b
        then some (change (or_new_account (t.accounts (normalize_addr addr))))
        else t.accounts (normalize_addr addr)))
      (eq_self (normalize_addr addr))

other_balance :
    (t : StateTrie) (addr other : Uint256) (change : Account → Account)
    → eq (normalize_addr other) (normalize_addr addr) ≡ false
    → get_balance (change_account addr change t) other ≡ get_balance t other
unfolding get_balance change_account
other_balance t addr other change e =
    ap
      (λ (b : Bool). balance_of (
        if b
        then some (change (or_new_account (t.accounts (normalize_addr addr))))
        else t.accounts (normalize_addr other)))
      e

new_balance : (o : Option Account) → (or_new_account o).balance ≡ balance_of o
new_balance none = refl
new_balance (some acc) = refl

old_balance :
    (t : StateTrie) (addr : Uint256)
    → (or_new_account (t.accounts (normalize_addr addr))).balance ≡ get_balance t addr
unfolding get_balance
old_balance t addr = new_balance (t.accounts (normalize_addr addr))

none_balance : (o : Option Account) → is_none o ≡ true → balance_of o ≡ zero256
none_balance none h = refl
none_balance (some acc) h = absurd (ground arith)

no_balance :
    (t : StateTrie) (addr : Uint256)
    → is_none (t.accounts (normalize_addr addr)) ≡ true
    → get_balance t addr ≡ zero256
unfolding get_balance
no_balance t addr h = none_balance (t.accounts (normalize_addr addr)) h

nothing_sent : (delta : Uint256) → IsWord delta → is_zero delta ≡ true → value delta ≡ 0
nothing_sent delta w h =
    let e : (value delta == 0) ≡ true = sym (is_zero-value delta) ∙ h in ground arith

debit :
    (t : StateTrie) (addr delta : Uint256)
    → IsWord (get_balance t addr)
    → IsWord delta
    → value delta ≤ value (get_balance t addr)
    → value (
          get_balance
            (change_account addr (λ acc. record acc { balance = sub256 acc.balance delta }) t)
            addr)
        + value delta
      ≡ value (get_balance t addr)
debit t addr delta wb wd covered =
    let fits = value-lt (get_balance t addr) wb in
    let exact = sub256-value (get_balance t addr) delta wb wd in
    rw
      (
        changed_balance t addr (λ acc. record acc { balance = sub256 acc.balance delta }),
        old_balance t addr,
      )
      (omega arith)

-- `SubBalance` of an amount, where the amount and the balance are words: an error exactly where the
-- balance is less, and else a state in which the balance is lower by the amount, as an exact number,
-- and the balance of every other address is as before.
pub sub_balance-IsDebited :
    (t : StateTrie) (addr delta : Uint256)
    → IsWord (get_balance t addr)
    → IsWord delta
    → IsDebited t addr delta (sub_balance addr delta t)
unfolding sub_balance
sub_balance-IsDebited t addr delta wb wd =
    let bal = get_balance t addr in
    let order = is_less-cmp bal delta wb wd in
    elim (Bool-cases (ltb (value bal) (value delta))) [
      | inl short ↦ rw (order, short) (ground arith)
      | inr enough ↦
          let covered : value delta ≤ value bal = ground arith in
          rw (order, enough)
            (elim (Bool-cases (is_none (t.accounts (normalize_addr addr)) && is_zero delta)) [
              | inl nothing ↦
                  let zero_delta : value delta ≡ 0 = nothing_sent delta wd (ground arith) in
                  rw nothing (omega arith, λ other e. refl)
              | inr change ↦
                  rw change
                    (debit t addr delta wb wd covered, λ other e. other_balance t addr other _ e)
            ])
    ]
