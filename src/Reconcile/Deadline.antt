-- ===== src/Reconcile/Deadline.antt =====
-- internal/reconcile/reconcile.go: the problems that only a missed deadline leaves behind.
use cd.Prelude.{◌≡◌, Bool, true, false, arith}
use cd.Domain.Problem.{
  ProblemCode, offline_timeout, copy_timeout, cloud_copy_not_ready_timeout,
  cloud_authentication_timeout, cloud_unreachable_timeout, local_filesystem_unavailable_timeout,
  local_verification_timeout,
}
use cd.Domain.Model.{Download}
use cd.Reconcile.World.{Env, Op, CallError, FsError, outcome, broken}
use cd.Reconcile.Failure.{
  clear_problem, advance, poll, fail, retry, timed_out, cloud_problem, cloud_failure,
  handle_local_failure,
}
use cd.Reconcile.Offline.{valid_offline_task, decide_submitting_offline, decide_waiting_offline}
use cd.Reconcile.Arrival.{decide_waiting_copy, decide_verifying}

unfoldable pub is_deadline_code : ProblemCode → Bool
is_deadline_code offline_timeout = true
is_deadline_code copy_timeout = true
is_deadline_code cloud_copy_not_ready_timeout = true
is_deadline_code cloud_authentication_timeout = true
is_deadline_code cloud_unreachable_timeout = true
is_deadline_code local_filesystem_unavailable_timeout = true
is_deadline_code local_verification_timeout = true
is_deadline_code _ = false

cloud_problem-plain : (err : CallError) (op : Op) → is_deadline_code (cloud_problem err op) ≡ false
unfolding cloud_problem is_deadline_code
cloud_problem-plain err op = ground arith

module _ (e : Env) (d : Download) where
  pub cloud_failure-plain :
      (err : CallError) (op : Op)
      → is_deadline_code (cloud_failure e d err op).last_error_code ≡ false
  unfolding cloud_failure retry fail
  cloud_failure-plain err op = ground (arith, cloud_problem-plain err op)

  pub local_failure-plain :
      (err : FsError) (role : _)
      → is_deadline_code (handle_local_failure e d err role).last_error_code ≡ false
  unfolding handle_local_failure retry fail is_deadline_code
  local_failure-plain err role = ground arith

module _ (e : Env) (d : Download) (fresh : is_deadline_code d.last_error_code ≡ false) where
  pub submitting_offline-plain :
      timed_out e d e.config.offline_timeout ≡ false
      → is_deadline_code (decide_submitting_offline e d).next.last_error_code ≡ false
  unfolding decide_submitting_offline outcome fail advance clear_problem valid_offline_task
      is_deadline_code
  submitting_offline-plain early = grind (arith, cloud_failure-plain e)

  pub waiting_offline-plain :
      timed_out e d e.config.offline_timeout ≡ false
      → is_deadline_code (decide_waiting_offline e d).next.last_error_code ≡ false
  unfolding decide_waiting_offline outcome fail advance poll is_deadline_code
  waiting_offline-plain early = grind (arith, cloud_failure-plain e)

  pub waiting_copy-plain :
      timed_out e d e.config.copy_timeout ≡ false
      → is_deadline_code (decide_waiting_copy e d).next.last_error_code ≡ false
  unfolding decide_waiting_copy outcome broken fail advance poll is_deadline_code
  waiting_copy-plain early = grind (arith, cloud_failure-plain e, local_failure-plain e)

  pub verifying-plain :
      timed_out e d e.config.verify_timeout ≡ false
      → is_deadline_code (decide_verifying e d).next.last_error_code ≡ false
  unfolding decide_verifying outcome broken clear_problem poll is_deadline_code
  verifying-plain early = grind (arith, local_failure-plain e)
