-- ===== src/Reconcile/Cleanup/Moves.antt =====
-- Where a step of CANCEL_REQUESTED or DELETE_REQUESTED leads, and the rows that it strands.
use cd.Prelude.{◌≡◌, Bool, true, false, ◌&&◌, not, is_nil, Option, arith, refl, [], ◌∷◌}
use cd.Go.Text.{GoString, str_eq}
use cd.Domain.State.{State, cancel_requested, delete_requested, may_commit, stopped}
use cd.Domain.Model.{Download, upstream_copy_completed}
use cd.Reconcile.World.{Env, CallError, outcome}
use cd.Reconcile.Status.{copy_removal_completed, mark_copy_removed, has_copy_evidence}
use cd.Reconcile.Failure.{clear_problem, fail, retry, cleanup_problem, cleanup_failure}
use cd.Reconcile.Cleanup.{
  mark_cleaned, cancelling, pausing_offline, pausing_copy, pause_local, pause, decide_cancel,
  needs_remote_cleanup, cleaning, mark_deleted, delete_content_at, delete_files, decide_delete,
  blocking, remote_cleanup,
}
use cd.Go.Paths.{join}
use cd.Reconcile.Manifest.{workspace_root}

-- A legacy row with traces of a copy and no record of where the copy went.
unfoldable pub lost_destination : Download → Bool
lost_destination d =
    is_nil d.workspace_path
    && is_nil d.destination_name
    && is_nil d.content_path
    && has_copy_evidence d.last_upstream_status

-- The rows whose cleanup fails in a way that cannot be committed.
unfoldable pub is_stranded : Download → Bool
unfolding lost_destination
is_stranded d = lost_destination d && stranded_in d.state
  where
    stranded_in : State → Bool
    stranded_in cancel_requested =
        d.pause_requested
        && not (str_eq d.last_upstream_status upstream_copy_completed)
        && not (is_nil d.copy_source_path)
        && copy_removal_completed d.last_upstream_status
    stranded_in delete_requested = d.delete_files_requested && not (needs_remote_cleanup d)
    stranded_in _ = false

module _ (e : Env) (d : Download) where
  cancelling_moves :
      (r : Option CallError)
      → d.state ≡ cancel_requested
      → may_commit cancel_requested (cancelling e d r).state ≡ true
  unfolding cancelling cleanup_failure retry cleanup_problem clear_problem may_commit
  cancelling_moves r h = ground arith

  pausing_offline_moves :
      (r : Option CallError)
      → d.state ≡ cancel_requested
      → may_commit cancel_requested (pausing_offline e d r).state ≡ true
  unfolding pausing_offline cleanup_failure retry cleanup_problem clear_problem may_commit
  pausing_offline_moves r h = ground arith

  pausing_copy_moves :
      (r : Option CallError)
      → d.state ≡ cancel_requested
      → may_commit cancel_requested (pausing_copy e d r).state ≡ true
  unfolding pausing_copy cleanup_failure retry cleanup_problem clear_problem may_commit
      mark_copy_removed
  pausing_copy_moves r h = ground arith

  pause_local_moves :
      d.state ≡ cancel_requested
      → may_commit cancel_requested (pause_local e d).next.state
        ≡ not (
            is_nil d.workspace_path
            && is_nil d.destination_name
            && has_copy_evidence d.last_upstream_status)
  unfolding pause_local cleanup_problem clear_problem fail may_commit outcome
  pause_local_moves h = ground arith

  settled_moves : may_commit cancel_requested stopped ≡ true
  unfolding may_commit
  settled_moves = refl

  pause_moves :
      d.state ≡ cancel_requested
      → may_commit cancel_requested (pause e d).next.state
        ≡ not (
            lost_destination d
            && not (str_eq d.last_upstream_status upstream_copy_completed)
            && not (is_nil d.copy_source_path)
            && copy_removal_completed d.last_upstream_status)
  unfolding pause outcome clear_problem lost_destination
  pause_moves h = ground (
    arith,
    settled_moves,
    pausing_offline_moves (blocking d (e.cloud.cancel_offline d.cloud_folder d.hash)) h,
    pausing_copy_moves (e.cloud.remove_copy d.copy_source_path (workspace_root d)) h,
    pause_local_moves h,
  )

  -- Exactly the stranded rows of CANCEL_REQUESTED get a state that the lifecycle does not allow.
  pub cancel_moves :
      d.state ≡ cancel_requested
      → may_commit d.state (decide_cancel e d).next.state ≡ not (is_stranded d)
  unfolding decide_cancel outcome is_stranded
  cancel_moves h =
      ground (arith, pause_moves h, cancelling_moves (blocking d (remote_cleanup e d)) h)

  cleaning_moves :
      (r : Option CallError)
      → d.state ≡ delete_requested
      → may_commit delete_requested (cleaning e d r).state ≡ true
  unfolding cleaning cleanup_failure retry cleanup_problem clear_problem may_commit mark_cleaned
  cleaning_moves r h = ground arith

  deleted_moves : may_commit delete_requested (mark_deleted e d).state ≡ true
  unfolding may_commit mark_deleted
  deleted_moves = refl

  delete_content_at_moves :
      (p : GoString)
      → d.state ≡ delete_requested
      → may_commit delete_requested (delete_content_at e d p).next.state ≡ true
  unfolding delete_content_at outcome cleanup_problem may_commit mark_deleted clear_problem
  delete_content_at_moves p h = ground arith

  delete_files_moves :
      d.state ≡ delete_requested
      → may_commit delete_requested (delete_files e d).next.state ≡ not (lost_destination d)
  unfolding delete_files outcome cleanup_problem fail may_commit mark_deleted clear_problem
      lost_destination
  delete_files_moves h = ground (
    arith,
    delete_content_at_moves d.content_path h,
    delete_content_at_moves (join (d.save_path ∷ d.destination_name ∷ [])) h,
  )

  -- Exactly the stranded rows of DELETE_REQUESTED get a state that the lifecycle does not allow.
  pub delete_moves :
      d.state ≡ delete_requested
      → may_commit d.state (decide_delete e d).next.state ≡ not (is_stranded d)
  unfolding decide_delete outcome is_stranded
  delete_moves h = ground (
    arith,
    delete_files_moves h,
    deleted_moves,
    cleaning_moves (blocking d (remote_cleanup e d)) h,
  )
