-- ===== src/Reconcile/Copy/Schedule.antt =====
-- The next run of a row after a step of SUBMITTING_COPY.
use cd.Prelude.{◌≡◌, refl, Bool, true, false, Option, none, some, List, arith, if◌then◌else◌}
use cd.Domain.State.{is_claimable}
use cd.Domain.Problem.{ProblemCode}
use cd.Domain.Model.{Download}
use cd.Reconcile.World.{
  Env, Op, CallError, FsError, Effect, CopyTask, Reply, answer, fault, outcome, broken, Outcome,
}
use cd.Reconcile.Failure.{advance, fail, retry, cloud_failure, handle_local_failure}
use cd.Reconcile.Manifest.{Source}
use cd.Reconcile.Schedule.{is_scheduled}
use cd.Reconcile.Copy.{
  resolving, reserving, removing, deleting, preflight, after_copy_submission, copy_submission,
  submit_copy, copy_reserved, decide_submitting_copy, valid_copy_task, run_again,
}

-- The row of an outcome is scheduled, unless the step failed.
pub record Schedules (o : Outcome) : Type 0 where
  pub scheduled : o.error ≡ none → is_scheduled o.next ≡ true

if_Schedules :
    (b : Bool) (x y : Outcome) → Schedules x → Schedules y → Schedules (if b then x else y)
if_Schedules true x y p q = p
if_Schedules false x y p q = q

outcome-Schedules :
    (op : Op) (n : Download) (fx : List Effect)
    → is_scheduled n ≡ true
    → Schedules (outcome op n fx)
unfolding outcome
outcome-Schedules op n fx h = record { scheduled = λ _. h }

module _ (e : Env) (d : Download) where
  fail_scheduled : (c : ProblemCode) → is_scheduled (fail d c) ≡ true
  unfolding is_scheduled fail is_claimable
  fail_scheduled c = refl

  run_again_scheduled : is_scheduled (run_again e d) ≡ true
  unfolding is_scheduled
  run_again_scheduled = ground arith

  cloud_failure_scheduled :
      (err : CallError) (op : Op) → is_scheduled (cloud_failure e d err op) ≡ true
  unfolding is_scheduled cloud_failure retry fail is_claimable
  cloud_failure_scheduled err op = ground arith

  handle_local_failure_scheduled :
      (err : FsError) (role : _) → is_scheduled (handle_local_failure e d err role) ≡ true
  unfolding is_scheduled handle_local_failure retry fail is_claimable
  handle_local_failure_scheduled err role = ground arith

module _ (e : Env) (d : Download) where
  resolving-Schedules : (s : Source) → Schedules (resolving e d s)
  unfolding resolving outcome broken
  resolving-Schedules s = record {
    scheduled =
        λ h. grind (arith, fail_scheduled e d, run_again_scheduled e, cloud_failure_scheduled e d);
  }

  reserving-Schedules : (name : _) → Schedules (reserving e d name)
  unfolding reserving outcome
  reserving-Schedules name = record {
    scheduled = λ h. grind (arith, fail_scheduled e d, run_again_scheduled e);
  }

  removing_scheduled : (r : Option CallError) → is_scheduled (removing e d r) ≡ true
  unfolding removing
  removing_scheduled none = run_again_scheduled e _
  removing_scheduled (some err) = cloud_failure_scheduled e d err Op.remove_copy

  deleting_scheduled : (r : Option FsError) → is_scheduled (deleting e d r) ≡ true
  unfolding deleting is_scheduled fail is_claimable
  deleting_scheduled none = ground arith
  deleting_scheduled (some err) = refl

  preflight_scheduled : (r : Option FsError) → is_scheduled (preflight e d r) ≡ true
  unfolding preflight
  preflight_scheduled none =
      grind (arith, fail_scheduled e d, run_again_scheduled e, handle_local_failure_scheduled e d)
  preflight_scheduled (some err) = handle_local_failure_scheduled e d err _

  copy_submission_scheduled : (r : Reply CopyTask) → is_scheduled (copy_submission e d r) ≡ true
  unfolding copy_submission after_copy_submission advance is_scheduled fail is_claimable
      valid_copy_task
  copy_submission_scheduled (fault err) = cloud_failure_scheduled e d err Op.ensure_copy
  copy_submission_scheduled (answer t) = ground arith

  submit_copy-Schedules : (r : Option FsError) (fx : List Effect) → Schedules (submit_copy e d r fx)
  unfolding submit_copy
  submit_copy-Schedules none fx = outcome-Schedules _ _ _ (copy_submission_scheduled _)
  submit_copy-Schedules (some err) fx =
      outcome-Schedules _ _ _ (handle_local_failure_scheduled e d err _)

  copy_reserved-Schedules : Schedules (copy_reserved e d)
  unfolding copy_reserved
  copy_reserved-Schedules =
      search
        (
          if_Schedules,
          outcome-Schedules,
          fail_scheduled e d,
          removing_scheduled,
          deleting_scheduled,
          preflight_scheduled,
          submit_copy-Schedules,
        )
        depth 12

  pub submitting_copy-Schedules : Schedules (decide_submitting_copy e d)
  unfolding decide_submitting_copy
  submitting_copy-Schedules =
      search
        (
          if_Schedules,
          outcome-Schedules,
          fail_scheduled e d,
          resolving-Schedules,
          reserving-Schedules,
          copy_reserved-Schedules,
        )
        depth 12
