-- ===== src/Reconcile/Failure/Moves.antt =====
-- A failure of a cloud or filesystem call leaves the row where it is or makes it FAILED.
use cd.Prelude.{List, ◌≡◌, Bool, true, false, if◌then◌else◌, arith}
use cd.Domain.State.{State, failed, may_commit}
use cd.Domain.Retry.{is_active}
use cd.Domain.Problem.{ProblemCode}
use cd.Domain.Model.{Download}
use cd.Reconcile.World.{Outcome, outcome, Effect, Env, Op, CallError, FsError}
use cd.Reconcile.Failure.{fail, retry, PathRole, cloud_failure, handle_local_failure}

-- The row of an outcome has a state that `CommitClaim` admits after the state of `d`.
pub record Leads (d : Download) (o : Outcome) : Type 0 where
  pub allowed : may_commit d.state o.next.state ≡ true

pub may_commit_refl : (s : State) → may_commit s s ≡ true
unfolding may_commit
may_commit_refl s = ground arith

pub may_commit_failed : (s : State) → is_active s ≡ true → may_commit s failed ≡ true
unfolding may_commit is_active
may_commit_failed s h = ground arith

module _ (e : Env) (d : Download) (active : is_active d.state ≡ true) where
  pub fail_moves : (c : ProblemCode) → may_commit d.state (fail d c).state ≡ true
  unfolding fail
  fail_moves c = may_commit_failed d.state active

  pub cloud_failure_moves :
      (err : CallError) (op : Op) → may_commit d.state (cloud_failure e d err op).state ≡ true
  unfolding cloud_failure fail retry
  cloud_failure_moves err op =
      ground (arith, may_commit_failed d.state active, may_commit_refl d.state)

  pub handle_local_failure_moves :
      (err : FsError) (role : PathRole)
      → may_commit d.state (handle_local_failure e d err role).state ≡ true
  unfolding handle_local_failure fail retry
  handle_local_failure_moves err role =
      ground (arith, may_commit_failed d.state active, may_commit_refl d.state)

  pub fail-Leads :
      (op : Op) (c : ProblemCode) (fx : List Effect) → Leads d (outcome op (fail d c) fx)
  unfolding outcome
  fail-Leads op c fx = record { allowed = fail_moves c }

pub outcome-Leads :
    (d : Download) (op : Op) (n : Download) (fx : List Effect)
    → may_commit d.state n.state ≡ true
    → Leads d (outcome op n fx)
unfolding outcome
outcome-Leads d op n fx h = record { allowed = h }

pub if_Leads :
    (d : Download) (b : Bool) (x y : Outcome) → Leads d x → Leads d y → Leads d (if b then x else y)
if_Leads d true x y p q = p
if_Leads d false x y p q = q
