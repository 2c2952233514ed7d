-- ===== src/Reconcile/Arrival/Moves.antt =====
-- Where a step of WAITING_COPY or VERIFYING_LOCAL leads.
use cd.Prelude.{◌≡◌, true, Option, none, some, List, arith}
use cd.Domain.State.{waiting_copy, verifying_local, may_commit}
use cd.Domain.Retry.{is_active}
use cd.Domain.Problem.{cloud_response_invalid}
use cd.Domain.Model.{Download}
use cd.Reconcile.World.{Env, Effect, CopyTask, CopyState, Reply, answer, fault, outcome, broken}
use cd.Reconcile.Failure.{clear_problem, advance, poll, fail, candidate}
use cd.Reconcile.Failure.Moves.{
  Leads, if_Leads, fail-Leads, may_commit_refl, fail_moves, cloud_failure_moves,
  handle_local_failure_moves,
}
use cd.Reconcile.Verify.{Verified, recorded, unverified, VerifyError, manifest_error, fs_error}
use cd.Reconcile.Copy.{record_copy, record_copy_completed}
use cd.Reconcile.Arrival.{
  after_verify_error, found_local, after_copy_inspection, copy_inspection, decide_waiting_copy,
  completing, decide_verifying,
}

module _ (e : Env) (d : Download) where
  after_verify_error-Leads :
      is_active d.state ≡ true
      → (err : VerifyError) (fx : List Effect) → Leads d (after_verify_error e d err fx)
  unfolding after_verify_error outcome broken poll
  after_verify_error-Leads active manifest_error fx = record { allowed = may_commit_refl d.state }
  after_verify_error-Leads active err fx = record {
    allowed = ground (
      arith,
      handle_local_failure_moves e d active (fs_error err) candidate,
      may_commit_refl d.state,
    );
  }

module _ (e : Env) (d : Download) (at : d.state ≡ waiting_copy) where
  active : is_active d.state ≡ true
  unfolding is_active
  active = ground arith

  found_local-Leads : (r : Verified) (fx : List Effect) → Leads d (found_local e d r fx)
  unfolding found_local outcome advance may_commit
  found_local-Leads (recorded v) fx = record { allowed = ground arith }
  found_local-Leads (unverified err) fx = after_verify_error-Leads e d active err fx

  after_copy_inspection_moves :
      (t : CopyTask) (s : CopyState)
      → may_commit d.state (after_copy_inspection e (record_copy e.floats d t) s).state ≡ true
  unfolding after_copy_inspection record_copy record_copy_completed advance poll fail may_commit
  after_copy_inspection_moves t s = ground arith

  copy_inspection-Leads : (r : Reply (Option CopyTask)) → Leads d (copy_inspection e d r)
  unfolding copy_inspection outcome
  copy_inspection-Leads (fault err) = record { allowed = cloud_failure_moves e d active err _ }
  copy_inspection-Leads (answer none) = found_local-Leads _ _
  copy_inspection-Leads (answer (some t)) = record {
    allowed = ground (
      arith,
      fail_moves e d active cloud_response_invalid,
      after_copy_inspection_moves t t.state,
    );
  }

  -- Every step of WAITING_COPY stays there or makes a move that the lifecycle allows.
  pub waiting_copy-Leads : Leads d (decide_waiting_copy e d)
  unfolding decide_waiting_copy
  waiting_copy-Leads = search (if_Leads, fail-Leads e d active, copy_inspection-Leads)

module _ (e : Env) (d : Download) (at : d.state ≡ verifying_local) where
  verifying_active : is_active d.state ≡ true
  unfolding is_active
  verifying_active = ground arith

  completing-Leads : (r : Verified) (fx : List Effect) → Leads d (completing e d r fx)
  unfolding completing outcome clear_problem may_commit
  completing-Leads (recorded v) fx = record { allowed = ground arith }
  completing-Leads (unverified err) fx = after_verify_error-Leads e d verifying_active err fx

  -- Every step of VERIFYING_LOCAL stays there or makes a move that the lifecycle allows.
  pub verifying-Leads : Leads d (decide_verifying e d)
  unfolding decide_verifying
  verifying-Leads = search (if_Leads, fail-Leads e d verifying_active, completing-Leads)
