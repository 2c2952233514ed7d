-- ===== src/Reconcile/Copy.antt =====
-- internal/reconcile/reconcile.go: the choice of what to copy and where, and the copy to the staging
-- directory.
pub mod Moves
pub mod Deadline
pub mod Schedule
pub mod Evidence
pub mod Frame
use cd.Prelude.{
  ◌+◌, Bool, true, false, ◌&&◌, ◌||◌, not, Option, none, some, List, [], ◌∷◌, ◌++◌, if◌then◌else◌,
  is_nil, is_some, inc64,
}
use cd.Go.Text.{GoString, bytes, str_eq, trim_prefix}
use cd.Go.Paths.{clean, base, join}
use cd.Domain.State.{waiting_copy}
use cd.Domain.Problem.{
  copy_timeout, cloud_content_layout_invalid, cloud_response_invalid, copy_task_failed,
  destination_collision, internal_workflow_error, local_delete_failed,
}
use cd.Domain.Model.{
  Time, Download, upstream_copy_completed, upstream_copy_failed, upstream_offline_finished,
  cleanup_cancelled_prefix, copy_removed_prefix,
}
use cd.Domain.Validate.{FloatOps, float_zero, float_one, float_0_9}
use cd.Reconcile.World.{
  Reply, answer, fault, CallError, CopyState, pending, scanning, scanned, copied, copy_failed,
  other_copy, copy_text, CopyTask, FsError, plain, FsReply, found, failure, Op, Env, Outcome,
  outcome, broken, Effect, copy_submitted, copy_removed, workspace_prepared, workspace_deleted,
  content_deleted, manifest_repository, unclassified_call,
}
use cd.Reconcile.Status.{destination_clear, copy_removal_completed, mark_copy_removed}
use cd.Reconcile.Failure.{
  clear_problem, advance, fail, timed_out, deadline_problem, cloud_failure, workspace, candidate,
  handle_local_failure,
}
use cd.Reconcile.Manifest.{
  safe_name, workspace_root, workspace_path_of, Source, resolved, layout_error, repository_error,
  cloud_fault, resolve_copy_source,
}
use cd.Reconcile.Offline.{copy_progress_of}

-- The row goes on at once with the problem cleared.
abbrev run_again : Env → Download → Download
run_again e d = record (clear_problem d) { next_run_at = some e.now }

resolving : Env → Download → Source → Outcome
unfolding outcome broken
resolving e d (resolved source) =
    outcome Op.resolve_copy_source (run_again e (record d { copy_source_path = source })) []
resolving e d layout_error = outcome Op.resolve_copy_source (fail d cloud_content_layout_invalid) []
resolving e d repository_error = broken Op.resolve_copy_source d manifest_repository []
resolving e d (cloud_fault err) =
    if is_some err.cloud
    then outcome Op.inspect_content (cloud_failure e d err Op.inspect_content) []
    else broken Op.resolve_copy_source d unclassified_call []

reserving : Env → Download → GoString → Outcome
unfolding outcome
reserving e d name =
    if not (safe_name name)
    then outcome Op.reserve_destination (fail d cloud_content_layout_invalid) []
    else outcome Op.reserve_destination (run_again e (record d { destination_name = name })) []

-- The status of a copy that ended before and that is to be made again.
ended_before : Download → Bool
ended_before d =
    let prior = trim_prefix d.last_upstream_status cleanup_cancelled_prefix in
    (str_eq prior upstream_copy_completed || str_eq prior upstream_copy_failed)
    && not (copy_removal_completed d.last_upstream_status)

removed_before : Download → Bool
removed_before d =
    str_eq d.last_upstream_status (copy_removed_prefix ++ upstream_copy_failed)
    || str_eq d.last_upstream_status (copy_removed_prefix ++ upstream_copy_completed)

removing : Env → Download → Option CallError → Download
removing e d (some err) = cloud_failure e d err Op.remove_copy
removing e d none =
    run_again e
      (mark_copy_removed (record d { copy_progress = float_zero; qbit_progress = float_0_9 }))

-- `deleteCopyWorkspace`, with what it deletes
unfoldable pub delete_copy_workspace : Env → Download → Option FsError × List Effect
delete_copy_workspace e d =
    if not (is_nil d.workspace_path)
    then (e.files.delete_workspace d.save_path d.hash, workspace_deleted d.hash ∷ [])
    else if is_nil d.destination_name
    then (some plain, [])
    else (
      e.files.delete (join (workspace_root d ∷ d.destination_name ∷ [])) (workspace_root d),
      content_deleted (join (workspace_root d ∷ d.destination_name ∷ [])) ∷ [],
    )

-- A legacy row gets a workspace of its own for the next copy; `none` where it cannot.
own_workspace : Download → Option GoString
own_workspace d =
    if is_nil d.workspace_path then workspace_path_of d.save_path d.hash else some d.workspace_path

-- The row whose copy is made again, in the given workspace.
abbrev copied_again : Env → Download → Option GoString → Download
copied_again e d none = fail d internal_workflow_error
copied_again e d (some w) = run_again e (record d {
  workspace_path = w;
  copy_progress = float_zero;
  qbit_progress = float_0_9;
  content_path = [];
  copy_completed_at = none;
  last_upstream_status = upstream_offline_finished;
})

deleting : Env → Download → Option FsError → Download
unfolding own_workspace
deleting e d (some err) = record (fail d local_delete_failed) {
  attempt_count = inc64 d.attempt_count;
}
deleting e d none = copied_again e d (own_workspace d)

-- `prepareWorkspace`, with what it creates
unfoldable pub prepare_workspace : Env → Download → Option FsError × List Effect
prepare_workspace e d =
    if is_nil d.workspace_path then (none, []) else elim (workspace_path_of d.save_path d.hash) [
      | none ↦ (some plain, [])
      | some expected ↦ if not (str_eq d.workspace_path expected) then (some plain, []) else (
        prepared (e.files.prepare_workspace d.save_path d.hash),
        workspace_prepared d.hash ∷ [],
      )
    ]
  where
    prepared : FsReply GoString → Option FsError
    prepared (failure err) = some err
    prepared (found actual) = if str_eq actual d.workspace_path then none else some plain

preflight : Env → Download → Option FsError → Download
preflight e d (some err) = handle_local_failure e d err workspace
preflight e d none = elim (e.files.inspect_candidate (workspace_root d) d.destination_name) [
  | failure err ↦ handle_local_failure e d err candidate
  | found exists ↦
      if exists
      then fail d destination_collision
      else run_again e (record d { last_upstream_status = destination_clear })
]

abbrev is_known_copy : CopyState → Bool
is_known_copy (other_copy _) = false
is_known_copy _ = true

-- `validateCopyTask`; true where it returns nil.
unfoldable pub valid_copy_task : FloatOps → CopyTask → GoString → GoString → Bool
valid_copy_task fl t source destination =
    not (
      not (str_eq t.source_path (clean source))
      || not (str_eq t.destination_path (clean destination))
      || fl.lt t.progress float_zero
      || fl.lt float_one t.progress)
    && is_known_copy t.state

unfoldable pub record_copy : FloatOps → Download → CopyTask → Download
record_copy fl d t = record d {
  copy_progress = t.progress;
  qbit_progress = copy_progress_of fl t.progress;
  last_upstream_status = bytes "copy:" ++ copy_text t.state;
}

unfoldable pub record_copy_completed : Download → Time → Download
record_copy_completed d at =
    if is_some d.copy_completed_at then d else record d { copy_completed_at = some at }

-- The last switch of the submission; an unknown state has been refused before.
after_copy_submission : Env → Download → CopyState → Download
after_copy_submission e d pending = advance d waiting_copy e.now (e.now + e.config.poll_interval)
after_copy_submission e d scanning = advance d waiting_copy e.now (e.now + e.config.poll_interval)
after_copy_submission e d scanned = advance d waiting_copy e.now (e.now + e.config.poll_interval)
after_copy_submission e d copied = advance (record_copy_completed d e.now) waiting_copy e.now e.now
after_copy_submission e d copy_failed = fail d copy_task_failed
after_copy_submission e d (other_copy _) = d

copy_submission : Env → Download → Reply CopyTask → Download
unfolding after_copy_submission record_copy
copy_submission e d (fault err) = cloud_failure e d err Op.ensure_copy
copy_submission e d (answer t) =
    if not (valid_copy_task e.floats t d.copy_source_path (workspace_root d))
    then fail d cloud_response_invalid
    else after_copy_submission e (record_copy e.floats d t) t.state

unfoldable pub submit_copy : Env → Download → Option FsError → List Effect → Outcome
unfolding copy_submission outcome
submit_copy e d (some err) effects =
    outcome Op.ensure_copy (handle_local_failure e d err workspace) effects
submit_copy e d none effects =
    outcome Op.ensure_copy
      (copy_submission e d (e.cloud.ensure_copy d.copy_source_path (workspace_root d)))
      (effects ++ (copy_submitted d.copy_source_path (workspace_root d) ∷ []))

-- The case SUBMITTING_COPY of the switch: both the source and the destination are recorded.
unfoldable pub copy_reserved : Env → Download → Outcome
unfolding ended_before removed_before removing deleting preflight submit_copy outcome
copy_reserved e d =
    if timed_out e d e.config.copy_timeout
    then outcome Op.ensure_copy (fail d (deadline_problem d copy_timeout)) []
    else if ended_before d
    then (if is_nil d.destination_name
        then outcome Op.retry_remove_copy (fail d internal_workflow_error) []
        else outcome Op.retry_remove_copy
            (removing e d (e.cloud.remove_copy d.copy_source_path (workspace_root d)))
            (copy_removed d.copy_source_path (workspace_root d) ∷ []))
    else if removed_before d
    then (if is_nil d.destination_name
        then outcome Op.retry_delete_copy (fail d internal_workflow_error) []
        else outcome Op.retry_delete_copy (deleting e d (delete_copy_workspace e d).0)
            (delete_copy_workspace e d).1)
    else if not (str_eq d.last_upstream_status destination_clear)
    then outcome Op.preflight_local (preflight e d (prepare_workspace e d).0)
        (prepare_workspace e d).1
    else submit_copy e d (prepare_workspace e d).0 (prepare_workspace e d).1

-- SUBMITTING_COPY as a whole: the steps before the switch of `decide`, then its case.
unfoldable pub decide_submitting_copy : Env → Download → Outcome
unfolding resolving reserving
decide_submitting_copy e d =
    if timed_out e d e.config.copy_timeout
    then outcome Op.resolve_copy_source (fail d (deadline_problem d copy_timeout)) []
    else if is_nil d.cloud_result_path
    then outcome Op.resolve_copy_source (fail d cloud_content_layout_invalid) []
    else if is_nil d.copy_source_path
    then resolving e d (resolve_copy_source e d)
    else if is_nil d.destination_name
    then reserving e d (base (clean d.copy_source_path))
    else copy_reserved e d
