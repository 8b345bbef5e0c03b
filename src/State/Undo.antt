-- ===== src/State/Undo.antt =====
-- The journal of a `StateTrie`, and what undoing its entries gives.
use crypto.Base.{
  ℕ, zero, suc, ◌≤◌, ◌≡◌, refl, sym, ap, ap₂, ◌∙◌, arith, true, ◌&&◌, Bool-cases, inl, inr, List,
  [], ◌∷◌, ◌++◌, length, drop, append_assoc, Option, none, some, subst, if_elim,
}
use mathlib.Core.Path.{fun_ext}
use crypto.Evm256.Uint256.{Uint256, eq, is_zero, cmp}
use crypto.Seq.Gas.{is_less}
use crypto.State.Store.{
  Account, Accounts, Storage, JournalEntry, journal_acc, journal_stor, StateTrie, put_account,
  put_slot, Tables, tables, apply_revert, undo, normalize_addr, get_balance, is_none, set_account,
  delete_slot, delete_slots, delete_account, change_account, add_balance, sub_balance, set_storage,
}

eq→≡ : (a b : Uint256) → eq a b ≡ true → a ≡ b
unfolding eq
eq→≡ a b h =
    let e0 : a.w0 ≡ b.w0 = ground arith in
    let e1 : a.w1 ≡ b.w1 = ground arith in
    let e2 : a.w2 ≡ b.w2 = ground arith in
    let e3 : a.w3 ≡ b.w3 = ground arith in
    λ i. record { w0 = e0 i; w1 = e1 i; w2 = e2 i; w3 = e3 i }

put_back :
    (m : Accounts) (k : Uint256) (v : Option Account) → put_account (put_account m k v) k (m k) ≡ m
put_back m k v = fun_ext (λ x. elim (Bool-cases (eq x k)) [
  | inl here ↦ rw here (ap m (sym (eq→≡ x k here)))
  | inr away ↦ rw away refl
])

slot_back :
    (m : Storage) (a k : Uint256) (v : Option Uint256) → put_slot (put_slot m a k v) a k (m a k) ≡ m
slot_back m a k v = fun_ext (λ x. fun_ext (λ y. elim (Bool-cases (eq x a && eq y k)) [
  | inl here ↦
      let ex : eq x a ≡ true = ground arith in
      let ey : eq y k ≡ true = ground arith in
      rw here (ap₂ m (sym (eq→≡ x a ex)) (sym (eq→≡ y k ey)))
  | inr away ↦ rw away refl
]))

-- All of the entries undone, the newest first.
pub undo_all : List JournalEntry → Tables → Tables
undo_all [] m = m
undo_all (e ∷ es) m = undo_all es (apply_revert e m)

pub undo_nothing : (m : Tables) → undo_all [] m ≡ m
unfolding undo_all
undo_nothing m = refl

pub undo-append :
    (es rest : List JournalEntry) (m : Tables) → undo (length es) (es ++ rest) m ≡ undo_all es m
unfolding undo undo_all
undo-append [] rest m = refl
undo-append (e ∷ es) rest m = undo-append es rest (apply_revert e m)

pub undo_all-append :
    (es fs : List JournalEntry) (m : Tables) → undo_all (es ++ fs) m ≡ undo_all fs (undo_all es m)
unfolding undo_all
undo_all-append [] fs m = refl
undo_all-append (e ∷ es) fs m = undo_all-append es fs (apply_revert e m)

-- Entries undone in two parts.
pub undo_part :
    (k : ℕ) (es rest : List JournalEntry) (m : Tables)
    → k ≤ length es
    → undo_all (drop k es) (undo k (es ++ rest) m) ≡ undo_all es m
unfolding undo undo_all
undo_part zero es rest m h = refl
undo_part (suc k) [] rest m h = absurd (omega arith)
undo_part (suc k) (e ∷ es) rest m h = undo_part k es rest (apply_revert e m) (omega arith)

-- A change: the journal has new entries in front, which undo it; the snapshots stay.
abbrev pub Grows : StateTrie → StateTrie → Type 0
Grows t u =
    (es : List JournalEntry) × (u.journal ≡ es ++ t.journal)
    × (undo_all es (tables u) ≡ tables t)
    × (u.reverts ≡ t.reverts)

pub Grows-refl : (t : StateTrie) → Grows t t
unfolding undo_all
Grows-refl t = ([], refl, refl, refl)

Grows-trans : (t u w : StateTrie) → Grows t u → Grows u w → Grows t w
Grows-trans t u w g h = (
  h.0 ++ g.0,
  h.1 ∙ ap (λ (j : List JournalEntry). h.0 ++ j) g.1 ∙ sym (append_assoc h.0 g.0 t.journal),
  undo_all-append h.0 g.0 (tables w) ∙ ap (undo_all g.0) h.2 ∙ g.2,
  h.3 ∙ g.3,
)

account_put :
    (t : StateTrie) (a : Uint256) (v : Option Account)
    → Grows t (record t {
      accounts = put_account t.accounts a v;
      journal = journal_acc a (t.accounts a) ∷ t.journal;
    })
unfolding undo_all apply_revert
account_put t a v = (
  journal_acc a (t.accounts a) ∷ [],
  refl,
  ap (λ (m : Accounts). (m, t.storage)) (put_back t.accounts a v),
  refl,
)

slot_put :
    (t : StateTrie) (a k : Uint256) (v : Option Uint256)
    → Grows t (record t {
      storage = put_slot t.storage a k v;
      journal = journal_stor a k (t.storage a k) ∷ t.journal;
    })
unfolding undo_all apply_revert
slot_put t a k v = (
  journal_stor a k (t.storage a k) ∷ [],
  refl,
  ap (λ (m : Storage). (t.accounts, m)) (slot_back t.storage a k v),
  refl,
)

pub set_account-Grows :
    (addr : Uint256) (acc : Account) (t : StateTrie) → Grows t (set_account addr acc t)
unfolding set_account
set_account-Grows addr acc t = account_put t (normalize_addr addr) (some acc)

delete_slot-Grows :
    (o : Option Uint256) (a k : Uint256) (t : StateTrie)
    → t.storage a k ≡ o
    → Grows t (delete_slot o a k t)
unfolding delete_slot undo_all apply_revert
delete_slot-Grows none a k t e = Grows-refl t
delete_slot-Grows (some v) a k t e =
    let back : put_slot (put_slot t.storage a k none) a k (some v) ≡ t.storage =
      subst (λ (o : Option Uint256). put_slot (put_slot t.storage a k none) a k o ≡ t.storage) e
        (slot_back t.storage a k none) in
    (journal_stor a k (some v) ∷ [], refl, ap (λ (m : Storage). (t.accounts, m)) back, refl)

delete_slots-Grows :
    (a : Uint256) (ks : List Uint256) (t : StateTrie) → Grows t (delete_slots a ks t)
unfolding delete_slots
delete_slots-Grows a [] t = Grows-refl t
delete_slots-Grows a (k ∷ ks) t =
    Grows-trans t _ _ (delete_slot-Grows (t.storage a k) a k t refl) (delete_slots-Grows a ks _)

pub delete_account-Grows :
    (order : List Uint256) (addr : Uint256) (t : StateTrie) → Grows t (delete_account order addr t)
unfolding delete_account
delete_account-Grows order addr t =
    Grows-trans t _ _ (account_put t (normalize_addr addr) none)
      (delete_slots-Grows (normalize_addr addr) order _)

change_account-Grows :
    (addr : Uint256) (change : Account → Account) (t : StateTrie)
    → Grows t (change_account addr change t)
unfolding change_account
change_account-Grows addr change t = account_put t (normalize_addr addr) _

pub add_balance-Grows : (addr delta : Uint256) (t : StateTrie) → Grows t (add_balance addr delta t)
unfolding add_balance
add_balance-Grows addr delta t =
    if_elim (Grows t) (is_none (t.accounts (normalize_addr addr)) && is_zero delta) t _
      (Grows-refl t) (change_account-Grows addr _ t)

-- What a subtraction returns, if it returns a state.
abbrev GrowsIf : StateTrie → Option StateTrie → Type 0
GrowsIf t none = Unit
GrowsIf t (some u) = Grows t u

sub_balance-GrowsIf : (addr delta : Uint256) (t : StateTrie) → GrowsIf t (sub_balance addr delta t)
unfolding sub_balance
sub_balance-GrowsIf addr delta t =
    if_elim (GrowsIf t) (is_less (cmp (get_balance t addr) delta)) none _ tt (
      if_elim (GrowsIf t) (is_none (t.accounts (normalize_addr addr)) && is_zero delta) (some t) _
        (Grows-refl t) (change_account-Grows addr _ t))

pub sub_balance-Grows :
    (addr delta : Uint256) (t u : StateTrie) → sub_balance addr delta t ≡ some u → Grows t u
sub_balance-Grows addr delta t u e = subst (GrowsIf t) e (sub_balance-GrowsIf addr delta t)

pub set_storage-Grows :
    (addr key val : Uint256) (t : StateTrie) → Grows t (set_storage addr key val t)
unfolding set_storage
set_storage-Grows addr key val t = slot_put t (normalize_addr addr) key _
