-- ===== src/Reconcile/Schedule/Cases.antt =====
-- The next run of a row after a step of the offline phases, and of the wait for the copy.
use cd.Prelude.{◌≡◌, true, none, arith}
use cd.Domain.State.{is_claimable}
use cd.Domain.Model.{Download}
use cd.Reconcile.World.{Env, outcome, broken}
use cd.Reconcile.Failure.{
  clear_problem, advance, poll, fail, retry, cloud_failure, handle_local_failure,
}
use cd.Reconcile.Offline.{valid_offline_task, decide_submitting_offline, decide_waiting_offline}
use cd.Reconcile.Arrival.{decide_waiting_copy, decide_verifying}
use cd.Reconcile.Schedule.{is_scheduled}

module _ (e : Env) (d : Download) where
  pub submitting_offline_scheduled : is_scheduled (decide_submitting_offline e d).next ≡ true
  unfolding decide_submitting_offline outcome is_scheduled is_claimable cloud_failure retry fail
      advance clear_problem valid_offline_task
  submitting_offline_scheduled = ground arith

  pub waiting_offline_scheduled : is_scheduled (decide_waiting_offline e d).next ≡ true
  unfolding decide_waiting_offline outcome is_scheduled is_claimable cloud_failure retry fail
      advance poll
  waiting_offline_scheduled = ground arith

  pub waiting_copy_scheduled :
      (decide_waiting_copy e d).error ≡ none → is_scheduled (decide_waiting_copy e d).next ≡ true
  unfolding decide_waiting_copy outcome broken is_scheduled is_claimable cloud_failure retry fail
      advance poll handle_local_failure
  waiting_copy_scheduled h = ground arith

  pub verifying_scheduled :
      (decide_verifying e d).error ≡ none → is_scheduled (decide_verifying e d).next ≡ true
  unfolding decide_verifying outcome broken is_scheduled is_claimable retry fail advance poll
      handle_local_failure
  verifying_scheduled h = ground arith
