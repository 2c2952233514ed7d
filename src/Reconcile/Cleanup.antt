-- ===== src/Reconcile/Cleanup.antt =====
-- internal/reconcile/reconcile.go: cancel, pause and delete, which undo in the cloud what a row has
-- started there before they touch local content.
pub mod Moves
pub mod Schedule
use cd.Prelude.{
  Bool, false, ◌&&◌, ◌||◌, not, Option, none, some, [], ◌∷◌, if◌then◌else◌, is_nil, is_some,
}
use cd.Go.Text.{GoString, str_eq}
use cd.Go.Paths.{join}
use cd.Domain.State.{State, stopped, cancelled, deleted}
use cd.Domain.Problem.{internal_workflow_error, local_delete_failed}
use cd.Domain.Model.{Download, upstream_copy_completed, upstream_offline_finished}
use cd.Domain.Validate.{float_zero, float_0_9}
use cd.Reconcile.World.{
  CallError, FsError, Op, Env, Outcome, outcome, Effect, offline_cancelled, copy_removed,
  workspace_deleted, content_deleted,
}
use cd.Reconcile.Status.{
  cleanup_completed, mark_cleanup_cancelled, copy_removal_completed, mark_copy_removed,
  has_copy_evidence,
}
use cd.Reconcile.Failure.{clear_problem, fail, cleanup_problem, cleanup_failure}
use cd.Reconcile.Manifest.{workspace_root}

-- `d.State, d.LastError, d.LastErrorCode, d.AttemptCount, d.NextRunAt = s, "", "", 0, nil`
abbrev settle : Download → State → Download
settle d s = record (clear_problem d) { state = s; next_run_at = none }

-- `notFound`, of an error that may be nil.
unfoldable pub is_absent : Option CallError → Bool
is_absent none = false
is_absent (some err) = err.absent

-- A remote cleanup that failed, unless the offline task was gone already.
unfoldable pub blocking : Download → Option CallError → Option CallError
unfolding is_absent
blocking d err = if is_nil d.copy_source_path && is_absent err then none else err

-- The remote cleanup of cancel and delete: of the copy if there is one, else of the offline task.
unfoldable pub remote_cleanup : Env → Download → Option CallError
remote_cleanup e d =
    if is_nil d.copy_source_path
    then e.cloud.cancel_offline d.cloud_folder d.hash
    else e.cloud.remove_copy d.copy_source_path (workspace_root d)

unfoldable pub remote_effect : Download → Effect
remote_effect d =
    if is_nil d.copy_source_path
    then offline_cancelled d.hash
    else copy_removed d.copy_source_path (workspace_root d)

abbrev remote_op : Download → Op
remote_op d = if is_nil d.copy_source_path then Op.cancel_offline else Op.remove_copy

unfoldable pub mark_cleaned : Download → Download
unfolding mark_cleanup_cancelled mark_copy_removed
mark_cleaned d = if is_nil d.copy_source_path then mark_cleanup_cancelled d else mark_copy_removed d

cancelling : Env → Download → Option CallError → Download
unfolding mark_cleaned
cancelling e d (some err) = cleanup_failure e d err
cancelling e d none = settle (mark_cleaned d) cancelled

-- What a local deletion that failed leaves, and one that succeeded.
abbrev after_delete : Download → Option FsError → Download → Download
after_delete d (some err) next = cleanup_problem d local_delete_failed
after_delete d none next = next

pausing_offline : Env → Download → Option CallError → Download
pausing_offline e d (some err) = cleanup_failure e d err
pausing_offline e d none =
    settle
      (record d {
        offline_progress = float_zero;
        copy_progress = float_zero;
        qbit_progress = float_zero;
        last_upstream_status = [];
      })
      stopped

pausing_copy : Env → Download → Option CallError → Download
unfolding mark_copy_removed
pausing_copy e d (some err) = cleanup_failure e d err
pausing_copy e d none = record (clear_problem (mark_copy_removed d)) { next_run_at = some e.now }

-- The row of a paused copy, ready to be copied again.
abbrev paused_copy : Download → Download
paused_copy d =
    settle
      (record d {
        copy_progress = float_zero;
        qbit_progress = float_0_9;
        last_upstream_status = upstream_offline_finished;
      })
      stopped

-- The last part of `pause`, when the copy has been removed in the cloud.
pause_local : Env → Download → Outcome
unfolding outcome
pause_local e d =
    if not (is_nil d.workspace_path)
    then outcome Op.pause_copy
        (after_delete d (e.files.delete_workspace d.save_path d.hash) (paused_copy d))
        (workspace_deleted d.hash ∷ [])
    else if is_nil d.destination_name
    then (if has_copy_evidence d.last_upstream_status
        then outcome Op.pause_copy (fail d internal_workflow_error) []
        else outcome Op.pause_copy (paused_copy d) [])
    else outcome Op.pause_copy
        (after_delete d (e.files.delete (join (d.save_path ∷ d.destination_name ∷ [])) d.save_path)
          (paused_copy d))
        (content_deleted (join (d.save_path ∷ d.destination_name ∷ [])) ∷ [])

unfoldable pub pause : Env → Download → Outcome
unfolding pausing_offline pausing_copy pause_local blocking outcome
pause e d =
    if not (is_nil d.content_path) || str_eq d.last_upstream_status upstream_copy_completed
    then outcome Op.pause_verified_copy (settle d stopped) []
    else if is_nil d.copy_source_path
    then outcome Op.pause_offline
        (pausing_offline e d (blocking d (e.cloud.cancel_offline d.cloud_folder d.hash)))
        (offline_cancelled d.hash ∷ [])
    else if not (copy_removal_completed d.last_upstream_status)
    then outcome Op.pause_remove_copy
        (pausing_copy e d (e.cloud.remove_copy d.copy_source_path (workspace_root d)))
        (copy_removed d.copy_source_path (workspace_root d) ∷ [])
    else pause_local e d

-- `cancel`: the case CANCEL_REQUESTED of `decide`.
unfoldable pub decide_cancel : Env → Download → Outcome
unfolding cancelling pause blocking remote_cleanup remote_effect outcome
decide_cancel e d =
    if d.pause_requested
    then pause e d
    else outcome (remote_op d) (cancelling e d (blocking d (remote_cleanup e d)))
        (remote_effect d ∷ [])

-- Whether `delete` has something to undo in the cloud first.
unfoldable pub needs_remote_cleanup : Download → Bool
unfolding copy_removal_completed cleanup_completed
needs_remote_cleanup d =
    (not (is_nil d.copy_source_path) && not (copy_removal_completed d.last_upstream_status))
    || (is_nil d.copy_source_path
        && not (is_some d.completed_at)
        && is_nil d.content_path
        && not (cleanup_completed d.last_upstream_status))

cleaning : Env → Download → Option CallError → Download
unfolding mark_cleaned
cleaning e d (some err) = cleanup_failure e d err
cleaning e d none = record (clear_problem (mark_cleaned d)) { next_run_at = some e.now }

unfoldable pub mark_deleted : Env → Download → Download
mark_deleted e d = record (settle d deleted) {
  removed_at = if is_some d.removed_at then d.removed_at else some e.now;
}

delete_content_at : Env → Download → GoString → Outcome
unfolding mark_deleted outcome
delete_content_at e d path =
    if is_nil path
    then outcome Op.delete_local (mark_deleted e d) []
    else outcome Op.delete_local
        (after_delete d (e.files.delete path d.save_path) (mark_deleted e d))
        (content_deleted path ∷ [])

-- The deletion of local files that the operator asked for.
delete_files : Env → Download → Outcome
unfolding delete_content_at
delete_files e d =
    if not (is_nil d.workspace_path)
    then outcome Op.delete_local
        (after_delete d (e.files.delete_workspace d.save_path d.hash) (mark_deleted e d))
        (workspace_deleted d.hash ∷ [])
    else if is_nil d.content_path && has_copy_evidence d.last_upstream_status
    then (if is_nil d.destination_name
        then outcome Op.delete_local (fail d internal_workflow_error) []
        else delete_content_at e d (join (d.save_path ∷ d.destination_name ∷ [])))
    else delete_content_at e d d.content_path

-- `delete`: the case DELETE_REQUESTED of `decide`.
unfoldable pub decide_delete : Env → Download → Outcome
unfolding cleaning delete_files blocking remote_cleanup remote_effect outcome
decide_delete e d =
    if needs_remote_cleanup d
    then outcome (remote_op d) (cleaning e d (blocking d (remote_cleanup e d)))
        (remote_effect d ∷ [])
    else if d.delete_files_requested
    then delete_files e d
    else outcome Op.delete_local (mark_deleted e d) []
