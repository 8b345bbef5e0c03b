-- ===== src/State/Held.antt =====
-- Histories joined, and the snapshots that they hold.
use crypto.Base.{
  length-take, ℕ, ◌+◌, ◌<◌, ◌≡◌, refl, arith, leb, if_elim, [], ◌∷◌, length, length-append, subst,
}
use crypto.State.Store.{StateTrie, go_back, snapshot, discard_snapshot}
use crypto.State.Undo.{
  set_account-Grows, delete_account-Grows, add_balance-Grows, sub_balance-Grows, set_storage-Grows,
}
use crypto.State.Snapshots.{
  Step, History, back_at, sets, deletes, adds, subtracts, stores, snaps, discards, returns, done,
  after,
}

pub History-trans :
    (rev : ℕ) (t u w : StateTrie) → History rev t u → History rev u w → History rev t w
History-trans rev t _ _ h (done u) = h
History-trans rev t _ _ h (after u v w past now) = after t v w (History-trans rev t u v h past) now

pub length-snapshot :
    (t : StateTrie)
    → (length (snapshot t).0.reverts ≡ length t.reverts + 1) × ((snapshot t).1 ≡ length t.reverts)
unfolding snapshot
length-snapshot t = (length-append t.reverts (length t.journal ∷ []), refl)

length-discard :
    (rev r : ℕ) (t : StateTrie)
    → rev < r
    → rev < length t.reverts
    → rev < length (discard_snapshot r t).reverts
unfolding discard_snapshot
length-discard rev r t l h =
    if_elim (λ (u : StateTrie). rev < length u.reverts) (leb (length t.reverts) r) t _ h
      (omega (arith, length-take r t.reverts))

length-go_back :
    (rev r j : ℕ) (t : StateTrie)
    → rev < r
    → rev < length t.reverts
    → rev < length (go_back r j t).reverts
unfolding go_back
length-go_back rev r j t l h = omega (arith, length-take r t.reverts)

Step-length :
    (rev : ℕ) (t u : StateTrie) → Step rev t u → rev < length t.reverts → rev < length u.reverts
Step-length rev _ _ (sets addr acc t) h = rw ((set_account-Grows addr acc t).3) h
Step-length rev _ _ (deletes order addr t) h = rw ((delete_account-Grows order addr t).3) h
Step-length rev _ _ (adds addr delta t) h = rw ((add_balance-Grows addr delta t).3) h
Step-length rev _ _ (subtracts addr delta t u e) h = rw ((sub_balance-Grows addr delta t u e).3) h
Step-length rev _ _ (stores addr key val t) h = rw ((set_storage-Grows addr key val t).3) h
Step-length rev _ _ (snaps t) h = omega (arith, (length-snapshot t).0)
Step-length rev _ _ (discards r t l) h = length-discard rev r t l h
Step-length rev _ _ (returns r t u l e) h =
    let b = back_at r t u e in
    subst (λ (v : StateTrie). rev < length v.reverts) b.2 (length-go_back rev r b.0 t l h)

-- A snapshot that is held is still there.
pub History-length :
    (rev : ℕ) (t u : StateTrie) → History rev t u → rev < length t.reverts → rev < length u.reverts
History-length rev _ _ (done t) h = h
History-length rev _ _ (after t u w past now) h =
    Step-length rev u w now (History-length rev t u past h)
