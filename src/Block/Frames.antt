-- ===== src/Block/Frames.antt =====
-- A call of `run` of pkg/c2block/call_context.go as a whole.
use crypto.Base.{
  ℕ, suc, ◌≡◌, refl, ap, ◌∙◌, arith, inl, inr, if◌then◌else◌, Bool-cases, Option, none, some, subst,
}
use crypto.State.Store.{StateTrie, snapshot}
use crypto.State.Snapshots.{History, revert_to_snapshot-restores}
use crypto.State.Held.{length-snapshot}
use crypto.Block.Script.{returns, leave_frame, perform}
use crypto.Block.Call.{Execution, run, run_frame}
use crypto.Block.Types.{Ran, CallParams, VmEnv}
use crypto.Block.Effects.{Follows, perform-Follows}

-- The state behind a frame.
leave_frame-eq :
    (r : Ran) (t v : StateTrie)
    → History (snapshot t).1 (snapshot t).0 v
    → leave_frame (snapshot t).1 r v ≡ some (if r.succeeded then v else t)
unfolding leave_frame
leave_frame-eq r t v inside = elim (Bool-cases r.succeeded) [
  | inl kept ↦ rw kept refl
  | inr failed ↦ rw (failed, revert_to_snapshot-restores t v inside) refl
]

-- What follows the body of a frame.
abbrev behind_body : StateTrie → Option (Ran × StateTrie) → Option (Ran × StateTrie)
behind_body t o = elim o [
  | none ↦ none
  | some left ↦ (elim (leave_frame (snapshot t).1 left.0 left.1) [
    | none ↦ none
    | some u ↦ perform (returns left.0) u
  ])
]

abbrev return_in : Ran → Option StateTrie → Option (Ran × StateTrie)
return_in r o = elim o [ none ↦ none | some u ↦ some (r, u) ]

-- Where the body of a call of `run`, which is what follows its snapshot, does not panic, the call does
-- not panic, returns what the body returns, and leaves the state that the body leaves if it succeeds.
-- If it fails, the call leaves just the state that it began with, with its journal and its snapshots,
-- whatever `execFrame` did to the state and called in between.
pub perform-run :
    (X : Execution) (depth : ℕ) (env : VmEnv) (p : CallParams) (t v : StateTrie) (r : Ran)
    → perform (run_frame X (run X depth) env p) (snapshot t).0 ≡ some (r, v)
    → perform (run X (suc depth) env p returns) t ≡ some (r, (if r.succeeded then v else t))
unfolding run perform
perform-run X depth env p t v r e =
    let body = run_frame X (run X depth) env p in
    let longer = length-snapshot t in
    let inside : History (snapshot t).1 (snapshot t).0 v =
      subst (Follows (snapshot t).1 (snapshot t).0) e
        (perform-Follows (snapshot t).1 body (snapshot t).0 (omega arith)) in
    ap (behind_body t) e ∙ ap (return_in r) (leave_frame-eq r t v inside)
