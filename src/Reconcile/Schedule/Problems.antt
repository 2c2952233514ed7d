-- ===== src/Reconcile/Schedule/Problems.antt =====
-- A cleanup that fails for good keeps its message, so that an operator can retry it.
use cd.Prelude.{◌≡◌, true, false, arith, is_nil}
use cd.Domain.Retry.{can_retry, is_cleanup}
use cd.Domain.Problem.{ProblemCode, is_known, code_eq, legacy, problem_text}
use cd.Domain.Problem.Catalogue.{problem_text-is_known}
use cd.Domain.Model.{Download}
use cd.Reconcile.World.{Env, Op, CallError}
use cd.Reconcile.Failure.{retry, cleanup_problem, cloud_problem, cleanup_failure}
use cd.Reconcile.Schedule.{is_scheduled}

cloud_problem_known : (err : CallError) (op : Op) → is_known (cloud_problem err op) ≡ true
unfolding cloud_problem is_known
cloud_problem_known err op = ground arith

cloud_problem-ne-legacy :
    (err : CallError) (op : Op) → code_eq (cloud_problem err op) legacy ≡ false
unfolding cloud_problem code_eq
cloud_problem-ne-legacy err op = ground arith

cloud_problem_text :
    (err : CallError) (op : Op) → is_nil (problem_text (cloud_problem err op)) ≡ false
cloud_problem_text err op = ground (
  arith,
  problem_text-is_known (cloud_problem err op),
  cloud_problem_known err op,
  cloud_problem-ne-legacy err op,
)

module _ (e : Env) (d : Download) where
  pub cleanup_problem_scheduled :
      (c : ProblemCode)
      → is_cleanup d.state ≡ true
      → is_nil (problem_text c) ≡ false
      → is_scheduled (cleanup_problem d c) ≡ true
  unfolding is_scheduled cleanup_problem can_retry
  cleanup_problem_scheduled c h k = ground arith

  pub cleanup_failure_scheduled :
      (err : CallError) → is_cleanup d.state ≡ true → is_scheduled (cleanup_failure e d err) ≡ true
  unfolding cleanup_failure is_scheduled retry
  cleanup_failure_scheduled err h = ground (
    arith,
    cleanup_problem_scheduled (cloud_problem err Op.cancel) h (cloud_problem_text err Op.cancel),
  )
