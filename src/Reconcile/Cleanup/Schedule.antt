-- ===== src/Reconcile/Cleanup/Schedule.antt =====
-- The next run of a row after a step of cancel, pause or delete.
use cd.Prelude.{◌≡◌, refl, true, false, Option, none, some, arith, is_nil}
use cd.Domain.State.{is_claimable, stopped}
use cd.Domain.Retry.{is_cleanup}
use cd.Domain.Problem.{ProblemCode, problem_text, local_delete_failed, internal_workflow_error}
use cd.Domain.Model.{Download}
use cd.Reconcile.World.{Env, CallError, outcome}
use cd.Reconcile.Failure.{clear_problem, fail}
use cd.Reconcile.Cleanup.{decide_cancel, decide_delete, pause, mark_deleted, settle, paused_copy}
use cd.Reconcile.Schedule.{is_scheduled}
use cd.Reconcile.Schedule.Problems.{cleanup_problem_scheduled, cleanup_failure_scheduled}
use cd.Prelude.{[], ◌∷◌}
use cd.Go.Text.{GoString, bytes}
use cd.Go.Paths.{join}
use cd.Reconcile.World.{FsError}
use cd.Reconcile.Manifest.{workspace_root}
use cd.Reconcile.Cleanup.{
  cancelling, pausing_offline, pausing_copy, pause_local, cleaning, delete_content_at, delete_files,
  blocking, remote_cleanup, after_delete,
}

delete_failed_text : is_nil (problem_text local_delete_failed) ≡ false
unfolding problem_text bytes
delete_failed_text = refl

module _ (e : Env) (d : Download) (cleanup : is_cleanup d.state ≡ true) where
  after_delete_scheduled :
      (r : Option FsError) (n : Download)
      → is_scheduled n ≡ true
      → is_scheduled (after_delete d r n) ≡ true
  after_delete_scheduled none n h = h
  after_delete_scheduled (some err) n h =
      cleanup_problem_scheduled e d local_delete_failed cleanup delete_failed_text

  cancelling_scheduled : (r : Option CallError) → is_scheduled (cancelling e d r) ≡ true
  unfolding cancelling is_scheduled clear_problem is_claimable
  cancelling_scheduled none = ground arith
  cancelling_scheduled (some err) = cleanup_failure_scheduled e d err cleanup

  pausing_offline_scheduled : (r : Option CallError) → is_scheduled (pausing_offline e d r) ≡ true
  unfolding pausing_offline is_scheduled clear_problem is_claimable
  pausing_offline_scheduled none = ground arith
  pausing_offline_scheduled (some err) = cleanup_failure_scheduled e d err cleanup

  pausing_copy_scheduled : (r : Option CallError) → is_scheduled (pausing_copy e d r) ≡ true
  unfolding pausing_copy is_scheduled clear_problem
  pausing_copy_scheduled none = ground arith
  pausing_copy_scheduled (some err) = cleanup_failure_scheduled e d err cleanup

  cleaning_scheduled : (r : Option CallError) → is_scheduled (cleaning e d r) ≡ true
  unfolding cleaning is_scheduled clear_problem
  cleaning_scheduled none = ground arith
  cleaning_scheduled (some err) = cleanup_failure_scheduled e d err cleanup

  fail_scheduled : (c : ProblemCode) → is_scheduled (fail d c) ≡ true
  unfolding is_scheduled fail is_claimable
  fail_scheduled c = refl

  mark_deleted_scheduled : is_scheduled (mark_deleted e d) ≡ true
  unfolding is_scheduled mark_deleted is_claimable
  mark_deleted_scheduled = refl

  paused_copy_scheduled : is_scheduled (paused_copy d) ≡ true
  unfolding is_scheduled clear_problem is_claimable
  paused_copy_scheduled = refl

  pause_local_scheduled : is_scheduled (pause_local e d).next ≡ true
  unfolding pause_local outcome
  pause_local_scheduled = ground (
    arith,
    paused_copy_scheduled,
    fail_scheduled internal_workflow_error,
    after_delete_scheduled (e.files.delete_workspace d.save_path d.hash) (paused_copy d),
    after_delete_scheduled
        (e.files.delete (join (d.save_path ∷ d.destination_name ∷ [])) d.save_path) (paused_copy d),
  )

  stopped_scheduled : is_scheduled (settle d stopped) ≡ true
  unfolding is_scheduled clear_problem is_claimable
  stopped_scheduled = refl

  delete_content_at_scheduled : (p : GoString) → is_scheduled (delete_content_at e d p).next ≡ true
  unfolding delete_content_at outcome
  delete_content_at_scheduled p = ground (
    arith,
    mark_deleted_scheduled,
    after_delete_scheduled (e.files.delete p d.save_path) (mark_deleted e d),
  )

  delete_files_scheduled : is_scheduled (delete_files e d).next ≡ true
  unfolding delete_files outcome
  delete_files_scheduled = ground (
    arith,
    mark_deleted_scheduled,
    fail_scheduled internal_workflow_error,
    delete_content_at_scheduled d.content_path,
    delete_content_at_scheduled (join (d.save_path ∷ d.destination_name ∷ [])),
    after_delete_scheduled (e.files.delete_workspace d.save_path d.hash) (mark_deleted e d),
  )

  pub cancel_scheduled : is_scheduled (decide_cancel e d).next ≡ true
  unfolding decide_cancel pause outcome
  cancel_scheduled = ground (
    arith,
    pause_local_scheduled,
    stopped_scheduled,
    pausing_offline_scheduled (blocking d (e.cloud.cancel_offline d.cloud_folder d.hash)),
    pausing_copy_scheduled (e.cloud.remove_copy d.copy_source_path (workspace_root d)),
    cancelling_scheduled (blocking d (remote_cleanup e d)),
  )

  pub delete_scheduled : is_scheduled (decide_delete e d).next ≡ true
  unfolding decide_delete outcome
  delete_scheduled = ground (
    arith,
    delete_files_scheduled,
    mark_deleted_scheduled,
    cleaning_scheduled (blocking d (remote_cleanup e d)),
  )
