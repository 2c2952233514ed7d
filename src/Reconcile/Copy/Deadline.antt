-- ===== src/Reconcile/Copy/Deadline.antt =====
-- The problems that a step of SUBMITTING_COPY leaves behind before its deadline.
use cd.Prelude.{◌≡◌, refl, Bool, true, false, Option, none, some, List, arith, if◌then◌else◌}
use cd.Domain.Problem.{internal_workflow_error, cloud_content_layout_invalid}
use cd.Domain.Model.{Download}
use cd.Reconcile.World.{
  Env, Op, CallError, FsError, Effect, CopyTask, Reply, answer, fault, outcome, broken, Outcome,
}
use cd.Reconcile.Failure.{clear_problem, advance, fail, timed_out}
use cd.Reconcile.Manifest.{Source}
use cd.Reconcile.Deadline.{is_deadline_code, cloud_failure-plain, local_failure-plain}
use cd.Reconcile.Copy.{
  resolving, reserving, removing, deleting, preflight, after_copy_submission, copy_submission,
  submit_copy, copy_reserved, decide_submitting_copy, valid_copy_task,
}

-- The row of an outcome has no problem of a missed deadline.
pub record Punctual (o : Outcome) : Type 0 where
  pub code : is_deadline_code o.next.last_error_code ≡ false

if_Punctual : (b : Bool) (x y : Outcome) → Punctual x → Punctual y → Punctual (if b then x else y)
if_Punctual true x y p q = p
if_Punctual false x y p q = q

outcome-Punctual :
    (op : Op) (n : Download) (fx : List Effect)
    → is_deadline_code n.last_error_code ≡ false
    → Punctual (outcome op n fx)
unfolding outcome
outcome-Punctual op n fx h = record { code = h }

module _ (e : Env) (d : Download) where
  fail_internal-plain : is_deadline_code (fail d internal_workflow_error).last_error_code ≡ false
  unfolding fail is_deadline_code
  fail_internal-plain = refl

  fail_layout-plain : is_deadline_code (fail d cloud_content_layout_invalid).last_error_code ≡ false
  unfolding fail is_deadline_code
  fail_layout-plain = refl

  reserving-Punctual : (name : _) → Punctual (reserving e d name)
  unfolding reserving outcome fail clear_problem is_deadline_code
  reserving-Punctual name = record { code = ground arith }

  removing-plain :
      (r : Option CallError) → is_deadline_code (removing e d r).last_error_code ≡ false
  unfolding removing clear_problem is_deadline_code
  removing-plain none = ground arith
  removing-plain (some err) = cloud_failure-plain e d err Op.remove_copy

  deleting-plain : (r : Option FsError) → is_deadline_code (deleting e d r).last_error_code ≡ false
  unfolding deleting fail clear_problem is_deadline_code
  deleting-plain none = ground arith
  deleting-plain (some err) = refl

  preflight-plain :
      (r : Option FsError) → is_deadline_code (preflight e d r).last_error_code ≡ false
  unfolding preflight fail clear_problem is_deadline_code
  preflight-plain none = grind (arith, local_failure-plain e d)
  preflight-plain (some err) = local_failure-plain e d err _

  copy_submission-plain :
      (r : Reply CopyTask) → is_deadline_code (copy_submission e d r).last_error_code ≡ false
  unfolding copy_submission after_copy_submission advance fail valid_copy_task is_deadline_code
  copy_submission-plain (fault err) = cloud_failure-plain e d err Op.ensure_copy
  copy_submission-plain (answer t) = ground arith

  submit_copy-Punctual : (r : Option FsError) (fx : List Effect) → Punctual (submit_copy e d r fx)
  unfolding submit_copy
  submit_copy-Punctual none fx = outcome-Punctual _ _ _ (copy_submission-plain _)
  submit_copy-Punctual (some err) fx = outcome-Punctual _ _ _ (local_failure-plain e d err _)

module _ (e : Env) (d : Download) (fresh : is_deadline_code d.last_error_code ≡ false)
    (early : timed_out e d e.config.copy_timeout ≡ false) where
  resolving-Punctual : (s : Source) → Punctual (resolving e d s)
  unfolding resolving outcome broken fail clear_problem is_deadline_code
  resolving-Punctual s = record { code = grind (arith, cloud_failure-plain e d) }

  in_time :
      (x y : Outcome) → Punctual y → Punctual (if timed_out e d e.config.copy_timeout then x else y)
  in_time x y p = rw early p

  copy_reserved-Punctual : Punctual (copy_reserved e d)
  unfolding copy_reserved
  copy_reserved-Punctual = in_time _ _ (
      search
        (
          if_Punctual,
          outcome-Punctual,
          fail_internal-plain e d,
          removing-plain e d,
          deleting-plain e d,
          preflight-plain e d,
          submit_copy-Punctual e d,
        )
        depth 12)

  pub submitting_copy-Punctual : Punctual (decide_submitting_copy e d)
  unfolding decide_submitting_copy
  submitting_copy-Punctual = in_time _ _ (
      search
        (
          if_Punctual,
          outcome-Punctual,
          fail_layout-plain e d,
          resolving-Punctual,
          reserving-Punctual e d,
          copy_reserved-Punctual,
        )
        depth 12)
