-- ===== src/State/Snapshots.antt =====
-- Histories of a state while a snapshot is held, and the return to it.
use crypto.Base.{
  ℕ, zero, suc, ◌+◌, ◌-◌, ◌<◌, ◌≤◌, ◌≡◌, refl, sym, ap, ◌∙◌, arith, false, inl, inr, ◌==◌, leb,
  if_elim, List, [], ◌∷◌, ◌++◌, length, length-append, append_assoc, take, drop, take-append,
  drop-append, get_elem?, Option, none, some, Option-cases, subst,
}
use crypto.Evm256.Uint256.{Uint256}
use crypto.State.Store.{
  Account, JournalEntry, StateTrie, tables, undo, go_back, set_account, delete_account, add_balance,
  sub_balance, set_storage, snapshot, revert_to_snapshot, discard_snapshot,
}
use crypto.State.Revisions.{Kept, Kept-append, Kept-take, elem-length, get_elem-last, none_beyond}
use crypto.State.Undo.{
  undo_all, undo-append, undo_all-append, undo_part, undo_nothing, Grows, set_account-Grows,
  delete_account-Grows, add_balance-Grows, sub_balance-Grows, set_storage-Grows,
}

-- One call while the snapshot `rev` is held: a change, a new snapshot, or the end of a later one.
pub data Step (rev : ℕ) : StateTrie → StateTrie → Type 0 where
  sets : (addr : Uint256) (acc : Account) (t : StateTrie) → Step rev t (set_account addr acc t)
  deletes :
      (order : List Uint256) (addr : Uint256) (t : StateTrie)
      → Step rev t (delete_account order addr t)
  adds : (addr delta : Uint256) (t : StateTrie) → Step rev t (add_balance addr delta t)
  subtracts :
      (addr delta : Uint256) (t u : StateTrie) → sub_balance addr delta t ≡ some u → Step rev t u
  stores : (addr key val : Uint256) (t : StateTrie) → Step rev t (set_storage addr key val t)
  snaps : (t : StateTrie) → Step rev t (snapshot t).0
  discards : (r : ℕ) (t : StateTrie) → rev < r → Step rev t (discard_snapshot r t)
  returns : (r : ℕ) (t u : StateTrie) → rev < r → revert_to_snapshot r t ≡ some u → Step rev t u

pub data History (rev : ℕ) : StateTrie → StateTrie → Type 0 where
  done : (t : StateTrie) → History rev t t
  after : (t u w : StateTrie) → History rev t u → Step rev u w → History rev t w

-- The state `t` can go back to `base`, of which the snapshot `rev` was taken.
record Returns (base : StateTrie) (rev : ℕ) (t : StateTrie) : Type 0 where
  entries : List JournalEntry
  same_journal : t.journal ≡ entries ++ base.journal
  undone : undo_all entries (tables t) ≡ tables base
  kept : Kept rev (length base.journal) base.reverts t.reverts

Returns-back :
    (base t : StateTrie) (rev : ℕ) → Returns base rev t → go_back rev (length base.journal) t ≡ base
unfolding go_back
Returns-back base t rev h =
    let size = length-append h.entries base.journal in
    let n : length t.journal - length base.journal ≡ length h.entries =
      rw h.same_journal (omega arith) in
    let maps : undo (length t.journal - length base.journal) t.journal (tables t) ≡ tables base =
      rw (n, h.same_journal) (undo-append h.entries base.journal (tables t) ∙ h.undone) in
    let rest : drop (length t.journal - length base.journal) t.journal ≡ base.journal =
      rw (n, h.same_journal) (drop-append h.entries base.journal (length h.entries) refl) in
    λ i. record {
      accounts = (maps i).0;
      storage = (maps i).1;
      journal = rest i;
      reverts = h.kept.earlier i;
    }

Grows-step : (base t u : StateTrie) (rev : ℕ) → Returns base rev t → Grows t u → Returns base rev u
Grows-step base t u rev h g = record {
  entries = g.0 ++ h.entries;
  same_journal =
      g.1
      ∙ ap (λ (j : List JournalEntry). g.0 ++ j) h.same_journal
      ∙ sym (append_assoc g.0 h.entries base.journal);
  undone = undo_all-append g.0 h.entries (tables u) ∙ ap (undo_all h.entries) g.2 ∙ h.undone;
  kept = subst (Kept rev (length base.journal) base.reverts) (sym g.3) h.kept;
}

snapshot_step :
    (base t : StateTrie) (rev : ℕ) → Returns base rev t → Returns base rev (snapshot t).0
unfolding snapshot
snapshot_step base t rev h = record {
  entries = h.entries;
  same_journal = h.same_journal;
  undone = h.undone;
  kept =
      Kept-append rev (length base.journal) (length t.journal) base.reverts t.reverts h.kept
        (let size = length-append h.entries base.journal in rw h.same_journal (omega arith));
}

drop-append_part :
    (k : ℕ) (es rest : List JournalEntry) → k ≤ length es → drop k (es ++ rest) ≡ drop k es ++ rest
drop-append_part zero es rest h = refl
drop-append_part (suc k) [] rest h = absurd (omega arith)
drop-append_part (suc k) (e ∷ es) rest h = drop-append_part k es rest (omega arith)

go_back_step :
    (base t : StateTrie) (rev r j : ℕ)
    → Returns base rev t
    → rev < r
    → length base.journal ≤ j
    → Returns base rev (go_back r j t)
unfolding go_back
go_back_step base t rev r j h l low =
    let k = length t.journal - j in
    let size : length t.journal ≡ length h.entries + length base.journal =
      ap length h.same_journal ∙ length-append h.entries base.journal in
    let part : k ≤ length h.entries = omega arith in
    record {
      entries = drop k h.entries;
      same_journal = ap (drop k) h.same_journal ∙ drop-append_part k h.entries base.journal part;
      undone =
          ap (λ (js : List JournalEntry). undo_all (drop k h.entries) (undo k js (tables t)))
            h.same_journal
          ∙ undo_part k h.entries base.journal (tables t) part
          ∙ h.undone;
      kept = Kept-take rev (length base.journal) r base.reverts t.reverts h.kept l;
    }

discard_step :
    (base t : StateTrie) (rev r : ℕ)
    → Returns base rev t
    → rev < r
    → Returns base rev (discard_snapshot r t)
unfolding discard_snapshot
discard_step base t rev r h l =
    let kept = Kept-take rev (length base.journal) r base.reverts t.reverts h.kept l in
    let some_left : (length (take r t.reverts) == 0) ≡ false =
      let pos = elem-length (take r t.reverts) rev (length base.journal) kept.held in
      ground arith in
    if_elim (Returns base rev) (leb (length t.reverts) r) t _ h (
      rw some_left (record {
        entries = h.entries;
        same_journal = h.same_journal;
        undone = h.undone;
        kept = kept;
      }))

-- A return to a later snapshot that does not panic.
some_injective : (t u : StateTrie) → some t ≡ some u → t ≡ u
some_injective t u e = ap (λ (o : Option StateTrie). elim o [ none ↦ t | some x ↦ x ]) e

pub back_at :
    (r : ℕ) (t u : StateTrie)
    → revert_to_snapshot r t ≡ some u
    → (j : ℕ) × (get_elem? t.reverts r ≡ some j) × (go_back r j t ≡ u)
unfolding revert_to_snapshot
back_at r t u e = elim (Option-cases (get_elem? t.reverts r)) [
  | inl nothing ↦
      let none_is : none ≡ some u = rw (nothing, revert_to_snapshot) at e in absurd (ground arith)
  | inr j ↦
      let some_is : some (go_back r j.0 t) ≡ some u = rw (j.1, revert_to_snapshot) at e in
      (j.0, j.1, some_injective _ _ some_is)
]

step : (base t u : StateTrie) (rev : ℕ) → Returns base rev t → Step rev t u → Returns base rev u
step base _ _ rev h (sets addr acc t) = Grows-step base t _ rev h (set_account-Grows addr acc t)
step base _ _ rev h (deletes order addr t) =
    Grows-step base t _ rev h (delete_account-Grows order addr t)
step base _ _ rev h (adds addr delta t) = Grows-step base t _ rev h (add_balance-Grows addr delta t)
step base _ _ rev h (subtracts addr delta t u e) =
    Grows-step base t u rev h (sub_balance-Grows addr delta t u e)
step base _ _ rev h (stores addr key val t) =
    Grows-step base t _ rev h (set_storage-Grows addr key val t)
step base _ _ rev h (snaps t) = snapshot_step base t rev h
step base _ _ rev h (discards r t l) = discard_step base t rev r h l
step base _ _ rev h (returns r t u l e) =
    let b = back_at r t u e in
    subst (Returns base rev) b.2 (go_back_step base t rev r b.0 h l (h.kept.later r b.0 l b.1))

history :
    (base : StateTrie) (rev : ℕ) (t u : StateTrie)
    → Returns base rev t
    → History rev t u
    → Returns base rev u
history base rev _ _ h (done t) = h
history base rev _ _ h (after t u w past now) = step base u w rev (history base rev t u h past) now

at_snapshot : (t : StateTrie) → Returns t (length t.reverts) (snapshot t).0
unfolding snapshot
at_snapshot t = record {
  entries = [];
  same_journal = refl;
  undone = undo_nothing (tables t);
  kept = record {
    held = get_elem-last t.reverts (length t.journal);
    earlier = take-append t.reverts (length t.journal ∷ []) (length t.reverts) refl;
    later = λ r j l e.
        absurd (let no = none_beyond t.reverts (length t.journal) r j l e in omega arith);
  };
}

back_now :
    (t base : StateTrie) (rev j : ℕ)
    → get_elem? t.reverts rev ≡ some j
    → go_back rev j t ≡ base
    → revert_to_snapshot rev t ≡ some base
unfolding revert_to_snapshot
back_now t base rev j held back = rw (held, revert_to_snapshot, back) refl

-- Whatever is done to a state after `Snapshot`, changes, later snapshots, and returns to these or
-- discards of them, in any order: `RevertToSnapshot` with the snapshot's number does not panic and
-- gives just the state that the snapshot was taken of, with its journal and its earlier snapshots.
pub revert_to_snapshot-restores :
    (base t : StateTrie)
    → History (snapshot base).1 (snapshot base).0 t
    → revert_to_snapshot (snapshot base).1 t ≡ some base
unfolding snapshot
revert_to_snapshot-restores base t past =
    let h = history base (length base.reverts) _ t (at_snapshot base) past in
    back_now t base (length base.reverts) (length base.journal) h.kept.held
      (Returns-back base t (length base.reverts) h)
