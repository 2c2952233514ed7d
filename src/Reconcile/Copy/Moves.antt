-- ===== src/Reconcile/Copy/Moves.antt =====
-- Where a step of SUBMITTING_COPY leads.
use cd.Prelude.{◌≡◌, true, Option, none, some, List, arith}
use cd.Domain.State.{submitting_copy, may_commit}
use cd.Domain.Retry.{is_active}
use cd.Domain.Problem.{cloud_response_invalid}
use cd.Domain.Model.{Download}
use cd.Reconcile.World.{
  Env, Op, CallError, FsError, Effect, CopyTask, CopyState, Reply, answer, fault,
}
use cd.Reconcile.Status.{mark_copy_removed}
use cd.Reconcile.Failure.{clear_problem, advance, fail, workspace}
use cd.Reconcile.Failure.Moves.{
  Leads, fail-Leads, outcome-Leads, may_commit_refl, may_commit_failed, fail_moves,
  cloud_failure_moves, handle_local_failure_moves, if_Leads,
}
use cd.Reconcile.Manifest.{resolved, layout_error, repository_error, cloud_fault}
use cd.Reconcile.Copy.{
  resolving, reserving, removing, deleting, preflight, record_copy, record_copy_completed,
  after_copy_submission, copy_submission, submit_copy, copy_reserved, decide_submitting_copy,
}

module _ (e : Env) (d : Download) (at : d.state ≡ submitting_copy) where
  active : is_active d.state ≡ true
  unfolding is_active
  active = ground arith

  resolving-Leads : (s : _) → Leads d (resolving e d s)
  unfolding resolving fail clear_problem
  resolving-Leads (resolved p) = record { allowed = may_commit_refl d.state }
  resolving-Leads layout_error = record { allowed = may_commit_failed d.state active }
  resolving-Leads repository_error = record { allowed = may_commit_refl d.state }
  resolving-Leads (cloud_fault err) =
      ground (arith, cloud_failure_moves e d active err Op.inspect_content, may_commit_refl d.state)

  reserving-Leads : (name : _) → Leads d (reserving e d name)
  unfolding reserving fail clear_problem
  reserving-Leads name = ground (arith, may_commit_failed d.state active, may_commit_refl d.state)

  removing_moves : (r : Option CallError) → may_commit d.state (removing e d r).state ≡ true
  unfolding removing clear_problem mark_copy_removed
  removing_moves none = ground (arith, may_commit_refl d.state)
  removing_moves (some err) = cloud_failure_moves e d active err Op.remove_copy

  deleting_moves : (r : Option FsError) → may_commit d.state (deleting e d r).state ≡ true
  unfolding deleting clear_problem fail
  deleting_moves none = ground (arith, may_commit_failed d.state active, may_commit_refl d.state)
  deleting_moves (some err) = may_commit_failed d.state active

  preflight_moves : (r : Option FsError) → may_commit d.state (preflight e d r).state ≡ true
  unfolding preflight clear_problem fail
  preflight_moves none = grind (
    arith,
    may_commit_failed d.state active,
    may_commit_refl d.state,
    handle_local_failure_moves e d active,
  )
  preflight_moves (some err) = handle_local_failure_moves e d active err workspace

  after_copy_submission_moves :
      (t : CopyTask) (s : CopyState)
      → may_commit d.state (after_copy_submission e (record_copy e.floats d t) s).state ≡ true
  unfolding after_copy_submission record_copy record_copy_completed advance fail may_commit
  after_copy_submission_moves t s = ground arith

  copy_submission_moves :
      (r : Reply CopyTask) → may_commit d.state (copy_submission e d r).state ≡ true
  unfolding copy_submission
  copy_submission_moves (fault err) = cloud_failure_moves e d active err Op.ensure_copy
  copy_submission_moves (answer t) =
      ground
        (arith, after_copy_submission_moves t t.state, fail_moves e d active cloud_response_invalid)

  submit_copy-Leads : (r : Option FsError) (fx : List Effect) → Leads d (submit_copy e d r fx)
  unfolding submit_copy
  submit_copy-Leads none fx = record { allowed = copy_submission_moves _ }
  submit_copy-Leads (some err) fx = record {
    allowed = handle_local_failure_moves e d active err workspace;
  }

  copy_reserved-Leads : Leads d (copy_reserved e d)
  unfolding copy_reserved
  copy_reserved-Leads =
      search
        (
          if_Leads,
          fail-Leads e d active,
          outcome-Leads,
          removing_moves,
          deleting_moves,
          preflight_moves,
          submit_copy-Leads,
        )
        depth 12

  -- Every step of SUBMITTING_COPY stays there or makes a move that the lifecycle allows.
  pub submitting_copy-Leads : Leads d (decide_submitting_copy e d)
  unfolding decide_submitting_copy
  submitting_copy-Leads =
      search
        (if_Leads, fail-Leads e d active, resolving-Leads, reserving-Leads, copy_reserved-Leads)
        depth 12
