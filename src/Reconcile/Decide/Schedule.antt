-- ===== src/Reconcile/Decide/Schedule.antt =====
-- The next run of a row after one step.
use cd.Prelude.{◌≡◌, refl, true, none}
use cd.Domain.State.{
  State, accepted, submitting_offline, waiting_offline, submitting_copy, waiting_copy,
  verifying_local, cancel_requested, delete_requested,
}
use cd.Domain.Retry.{is_cleanup}
use cd.Domain.Model.{Download}
use cd.Reconcile.World.{Env, outcome, broken}
use cd.Reconcile.Failure.{advance}
use cd.Reconcile.Schedule.{is_scheduled}
use cd.Reconcile.Schedule.Cases.{
  submitting_offline_scheduled, waiting_offline_scheduled, waiting_copy_scheduled,
  verifying_scheduled,
}
use cd.Reconcile.Copy.Schedule.{submitting_copy-Schedules}
use cd.Reconcile.Cleanup.Schedule.{cancel_scheduled, delete_scheduled}
use cd.Reconcile.Decide.{decide_in, decide}
use cd.Prelude.{arith}

decide_in_scheduled :
    (e : Env) (d : Download) (s : State)
    → d.state ≡ s
    → (decide_in s e d).error ≡ none
    → is_scheduled (decide_in s e d).next ≡ true
unfolding decide_in outcome broken is_scheduled advance is_cleanup
decide_in_scheduled e d accepted at h = ground arith
decide_in_scheduled e d submitting_offline at h = submitting_offline_scheduled e d
decide_in_scheduled e d waiting_offline at h = waiting_offline_scheduled e d
decide_in_scheduled e d submitting_copy at h = (submitting_copy-Schedules e d).scheduled h
decide_in_scheduled e d waiting_copy at h = waiting_copy_scheduled e d h
decide_in_scheduled e d verifying_local at h = verifying_scheduled e d h
decide_in_scheduled e d cancel_requested at h = cancel_scheduled e d (ground arith)
decide_in_scheduled e d delete_requested at h = delete_scheduled e d (ground arith)
decide_in_scheduled e d _ at h = cc

-- No work is lost: a step that yields a row to commit leaves it in a state that no worker claims,
-- or with a time for its next run, or with a problem for which `CanRetry` lets an operator start it
-- again.
pub decide-is_scheduled :
    (e : Env) (d : Download) → (decide e d).error ≡ none → is_scheduled (decide e d).next ≡ true
unfolding decide
decide-is_scheduled e d h = decide_in_scheduled e d d.state refl h
