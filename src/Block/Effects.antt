-- ===== src/Block/Effects.antt =====
-- What the programs of pkg/c2block/call_context.go, and the changes around them, do to a state while
-- a snapshot is held.
use crypto.Base.{
  ℕ, ◌≡◌, refl, ◌<◌, arith, inl, inr, if_elim, true, false, Bool, Bool-cases, List, [], ◌∷◌, Option,
  none, some, length,
}
use crypto.Evm256.Uint256.{Uint256, is_zero}
use crypto.Rlp.Encode.{Bytes}
use crypto.State.Store.{StateTrie, sub_balance, snapshot}
use crypto.State.Snapshots.{
  Step, History, done, after, sets, deletes, adds, subtracts, stores, snaps,
  revert_to_snapshot-restores,
}
use crypto.State.Held.{History-trans, History-length, length-snapshot}
use crypto.Block.Script.{Script, returns, panics, reads, frames, leave_frame, perform}
use crypto.Block.Call.{
  Execution, is_in, empty_account, clean_if, clean_empty, clean_suicided, clean_touched,
}
use crypto.Block.Types.{Ran, VmEnv, addr_to_u256, set_nonce, pay}

-- What a program or the end of a run leaves can be undone.
abbrev pub Follows {ℓ} : {A : Type ℓ} → ℕ → StateTrie → Option (A × StateTrie) → Type 0
Follows rev t none = Unit
Follows rev t (some left) = History rev t left.1

pub one : (rev : ℕ) (t u : StateTrie) → Step rev t u → History rev t u
one rev t u s = after t t u (done t) s

pub pay-History :
    (rev : ℕ) (addr : Bytes) (amount : Uint256) (t : StateTrie) → History rev t (pay addr amount t)
unfolding pay
pay-History rev addr amount t =
    if_elim (History rev t) (is_zero amount) t _ (done t)
      (one rev t _ (adds (addr_to_u256 addr) amount t))

pub set_nonce-History :
    (rev : ℕ) (addr : Bytes) (n : ℕ) (t : StateTrie) → History rev t (set_nonce addr n t)
unfolding set_nonce
set_nonce-History rev addr n t = one rev t _ (sets (addr_to_u256 addr) _ t)

pub Follows-trans {ℓ} :
    {A : Type ℓ} (rev : ℕ) (t u : StateTrie) (o : Option (A × StateTrie))
    → History rev t u
    → Follows rev u o
    → Follows rev t o
Follows-trans rev t u none h k = tt
Follows-trans rev t u (some left) h k = History-trans rev t u left.1 h k

-- What is done in a state is done behind the step that leads to it.
Step-Follows :
    (rev : ℕ) (t u : StateTrie) (next : Script)
    → Step rev t u
    → rev < length t.reverts
    → ((w : StateTrie) → rev < length w.reverts → Follows rev w (perform next w))
    → Follows rev t (perform next u)
Step-Follows rev t u next s l all =
    Follows-trans rev t u (perform next u) (one rev t u s)
      (all u (History-length rev t u (one rev t u s) l))

-- A frame ends in its own snapshot's state, or where its program leads.
leave_frame-Follows :
    (rev : ℕ) (ran : Ran) (t u : StateTrie) (next : Ran → Script)
    → rev < length t.reverts
    → History rev t u
    → History (snapshot t).1 (snapshot t).0 u
    → ((w : StateTrie) → rev < length w.reverts → Follows rev w (perform (next ran) w))
    → Follows rev t
        (elim (leave_frame (snapshot t).1 ran u) [ none ↦ none | some w ↦ perform (next ran) w ])
unfolding leave_frame
leave_frame-Follows rev ran t u next l forward inside all = elim (Bool-cases ran.succeeded) [
  | inl kept ↦ rw kept (
      Follows-trans rev t u (perform (next ran) u) forward
        (all u (History-length rev t u forward l)))
  | inr failed ↦ rw (failed, revert_to_snapshot-restores t u inside) (all t l)
]

-- The two ends of `SubBalance`.
debit-Follows :
    (rev : ℕ) (addr delta : Uint256) (next : Bool → Script) (t : StateTrie) (o : Option StateTrie)
    → sub_balance addr delta t ≡ o
    → rev < length t.reverts
    → ((c : Bool) (w : StateTrie) → rev < length w.reverts → Follows rev w (perform (next c) w))
    → Follows rev t (elim o [ none ↦ perform (next false) t | some u ↦ perform (next true) u ])
debit-Follows rev addr delta next t none e l all = all false t l
debit-Follows rev addr delta next t (some u) e l all =
    Step-Follows rev t u (next true) (subtracts addr delta t u e) l (all true)

-- The end of a frame whose program has ended.
frame-Follows :
    (rev : ℕ) (t : StateTrie) (next : Ran → Script) (o : Option (Ran × StateTrie))
    → rev < length t.reverts
    → Follows (snapshot t).1 (snapshot t).0 o
    → Follows rev (snapshot t).0 o
    → ((r : Ran) (w : StateTrie) → rev < length w.reverts → Follows rev w (perform (next r) w))
    → Follows rev t (elim o [
      | none ↦ none
      | some left ↦ (elim (leave_frame (snapshot t).1 left.0 left.1) [
        | none ↦ none
        | some u ↦ perform (next left.0) u
      ])
    ])
frame-Follows rev t next none l inside outside all = tt
frame-Follows rev t next (some left) l inside outside all =
    leave_frame-Follows rev left.0 t left.1 next l
      (History-trans rev t (snapshot t).0 left.1 (one rev t _ (snaps t)) outside) inside
      (all left.0)

pub perform-Follows :
    (rev : ℕ) (s : Script) (t : StateTrie) → rev < length t.reverts → Follows rev t (perform s t)
unfolding perform
perform-Follows rev (returns ran) t l = done t
perform-Follows rev panics t l = tt
perform-Follows rev (reads next) t l = perform-Follows rev (next t) t l
perform-Follows rev (Script.sets addr acc next) t l =
    Step-Follows rev t _ next (sets addr acc t) l (perform-Follows rev next)
perform-Follows rev (Script.deletes order addr next) t l =
    Step-Follows rev t _ next (deletes order addr t) l (perform-Follows rev next)
perform-Follows rev (Script.adds addr delta next) t l =
    Step-Follows rev t _ next (adds addr delta t) l (perform-Follows rev next)
perform-Follows rev (Script.subtracts addr delta next) t l =
    debit-Follows rev addr delta next t (sub_balance addr delta t) refl l
      (λ c. perform-Follows rev (next c))
perform-Follows rev (Script.stores addr key val next) t l =
    Step-Follows rev t _ next (stores addr key val t) l (perform-Follows rev next)
perform-Follows rev (frames body next) t l =
    let longer = length-snapshot t in
    frame-Follows rev t next (perform body (snapshot t).0) l
      (perform-Follows (snapshot t).1 body (snapshot t).0 (omega arith))
      (perform-Follows rev body (snapshot t).0 (omega arith)) (λ r. perform-Follows rev (next r))

clean_if-History :
    (X : Execution) (rev : ℕ) (c : Bool) (a : Bytes) (t : StateTrie)
    → History rev t (clean_if X c a t)
unfolding clean_if
clean_if-History X rev true a t = one rev t _ (deletes _ (addr_to_u256 a) t)
clean_if-History X rev false a t = done t

clean_empty-History :
    (X : Execution) (rev : ℕ) (marks : List Bytes) (t : StateTrie)
    → History rev t (clean_empty X marks t)
unfolding clean_empty
clean_empty-History X rev [] t = done t
clean_empty-History X rev (a ∷ rest) t =
    History-trans rev t _ _ (clean_if-History X rev (empty_account t a) a t)
      (clean_empty-History X rev rest _)

clean_suicided-History :
    (X : Execution) (rev : ℕ) (created marks : List Bytes) (t : StateTrie)
    → History rev t (clean_suicided X created marks t)
unfolding clean_suicided
clean_suicided-History X rev created [] t = done t
clean_suicided-History X rev created (a ∷ rest) t =
    History-trans rev t _ _ (clean_if-History X rev (is_in a created) a t)
      (clean_suicided-History X rev created rest _)

pub clean_touched-History :
    (X : Execution) (rev : ℕ) (e : VmEnv) (t : StateTrie) → History rev t (clean_touched X e t)
unfolding clean_touched
clean_touched-History X rev e t =
    History-trans rev t _ _ (clean_empty-History X rev (X.range e.touched) t)
      (clean_suicided-History X rev e.created (X.range e.suicided) _)
