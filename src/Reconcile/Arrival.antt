-- ===== src/Reconcile/Arrival.antt =====
-- internal/reconcile/reconcile.go: the wait for the copy, and the check of what arrived.
pub mod Moves
pub mod Completing
use cd.Prelude.{not, Option, none, some, List, [], if◌then◌else◌}
use cd.Domain.State.{verifying_local, completed}
use cd.Domain.Problem.{
  copy_timeout, cloud_response_invalid, copy_task_failed, local_filesystem_unavailable,
  local_filesystem_unavailable_timeout, local_verification_timeout, code_eq,
}
use cd.Domain.Model.{Download}
use cd.Domain.Validate.{float_one}
use cd.Reconcile.World.{
  Reply, answer, fault, CopyState, pending, scanning, scanned, copied, copy_failed, other_copy,
  CopyTask, Op, Env, Outcome, outcome, broken, Effect, manifest_repository,
}
use cd.Reconcile.Failure.{
  clear_problem, advance, poll, fail, timed_out, deadline_problem, cloud_failure, candidate,
  handle_local_failure,
}
use cd.Reconcile.Manifest.{workspace_root}
use cd.Reconcile.Verify.{
  Verified, recorded, unverified, VerifyError, manifest_error, fs_error, missing_local_content,
  verify_and_record,
}
use cd.Reconcile.Copy.{valid_copy_task, record_copy, record_copy_completed}

-- What a failed check of the local content does to the row, or the error that stops the step.
after_verify_error : Env → Download → VerifyError → List Effect → Outcome
unfolding outcome broken
after_verify_error e d manifest_error effects = broken Op.verify_local d manifest_repository effects
after_verify_error e d err effects =
    if missing_local_content err
    then outcome Op.verify_local (poll e d) effects
    else outcome Op.verify_local (handle_local_failure e d (fs_error err) candidate) effects

found_local : Env → Download → Verified → List Effect → Outcome
unfolding after_verify_error
found_local e d (recorded v) effects =
    outcome Op.verify_local (advance (record_copy_completed v e.now) verifying_local e.now e.now)
      effects
found_local e d (unverified err) effects = after_verify_error e d err effects

after_copy_inspection : Env → Download → CopyState → Download
after_copy_inspection e d pending = poll e d
after_copy_inspection e d scanning = poll e d
after_copy_inspection e d scanned = poll e d
after_copy_inspection e d copied =
    advance (record_copy_completed d e.now) verifying_local e.now e.now
after_copy_inspection e d copy_failed = fail d copy_task_failed
after_copy_inspection e d (other_copy _) = fail d cloud_response_invalid

copy_inspection : Env → Download → Reply (Option CopyTask) → Outcome
unfolding found_local after_copy_inspection record_copy outcome
copy_inspection e d (fault err) = outcome Op.inspect_copy (cloud_failure e d err Op.inspect_copy) []
copy_inspection e d (answer none) =
    found_local e d (verify_and_record e d).0 (verify_and_record e d).1
copy_inspection e d (answer (some t)) =
    if not (valid_copy_task e.floats t d.copy_source_path (workspace_root d))
    then outcome Op.inspect_copy (fail d cloud_response_invalid) []
    else outcome Op.inspect_copy (after_copy_inspection e (record_copy e.floats d t) t.state) []

-- The case WAITING_COPY of `decide`.
unfoldable pub decide_waiting_copy : Env → Download → Outcome
unfolding copy_inspection
decide_waiting_copy e d =
    if timed_out e d e.config.copy_timeout
    then outcome Op.inspect_copy (fail d (deadline_problem d copy_timeout)) []
    else copy_inspection e d (e.cloud.inspect_copy d.copy_source_path (workspace_root d))

completing : Env → Download → Verified → List Effect → Outcome
unfolding after_verify_error
completing e d (recorded v) effects =
    outcome Op.verify_local
      (record (clear_problem v) {
        offline_progress = float_one;
        copy_progress = float_one;
        qbit_progress = float_one;
        state = completed;
        completed_at = some e.now;
        next_run_at = none;
      })
      effects
completing e d (unverified err) effects = after_verify_error e d err effects

-- The case VERIFYING_LOCAL of `decide`.
unfoldable pub decide_verifying : Env → Download → Outcome
unfolding completing
decide_verifying e d =
    if timed_out e d e.config.verify_timeout
    then outcome Op.verify_local
        (fail d (
          if code_eq d.last_error_code local_filesystem_unavailable
          then local_filesystem_unavailable_timeout
          else local_verification_timeout))
        []
    else completing e d (verify_and_record e d).0 (verify_and_record e d).1
