-- ===== src/Domain/Retry.antt =====
-- internal/domain/state.go, CanPause, CanRetry and RetryTarget: what an operator may do to a row,
-- and the phase in which a failed workflow starts again.
pub mod Targets
use cd.Prelude.{Bool, true, false, ◌&&◌, ◌||◌, not, if◌then◌else◌, is_nil}
use cd.Go.Text.{GoString, bytes, str_eq, has_prefix, trim_prefix}
use cd.Domain.State.{
  State, accepted, submitting_offline, waiting_offline, submitting_copy, waiting_copy,
  verifying_local, failed, cancel_requested, delete_requested, state_eq,
}
use cd.Domain.Problem.{
  ProblemCode, destination_conflict, local_verification_failed, local_verification_timeout,
  local_filesystem_unavailable_timeout, local_permission_denied, local_path_unsafe,
  local_content_layout_invalid, local_delete_failed, code_eq,
}
use cd.Domain.Model.{
  Download, upstream_copy_completed, upstream_copy_pending, upstream_copy_scanning,
  upstream_copy_scanned, upstream_offline_error, upstream_offline_finished,
  cleanup_cancelled_prefix, copy_removed_prefix,
}

-- The states that `CanPause` lists, and those of the SQL statement behind `Pause`.
unfoldable pub is_active : State → Bool
is_active accepted = true
is_active submitting_offline = true
is_active waiting_offline = true
is_active submitting_copy = true
is_active waiting_copy = true
is_active verifying_local = true
is_active _ = false

unfoldable pub can_pause : Download → Bool
can_pause d = if d.pause_requested then false else is_active d.state

unfoldable pub is_cleanup : State → Bool
is_cleanup cancel_requested = true
is_cleanup delete_requested = true
is_cleanup _ = false

unfoldable pub can_retry : Download → Bool
unfolding state_eq
can_retry d = state_eq d.state failed || (is_cleanup d.state && not (is_nil d.last_error))

-- The codes of a local failure after which the copy is made again.
is_local_failure : ProblemCode → Bool
unfolding code_eq
is_local_failure code =
    code_eq code local_verification_failed
    || code_eq code local_verification_timeout
    || code_eq code local_filesystem_unavailable_timeout
    || code_eq code local_permission_denied
    || code_eq code local_path_unsafe
    || code_eq code local_content_layout_invalid
    || code_eq code local_delete_failed

-- The status without its cleanup markers.
unfoldable pub bare_status : GoString → GoString
bare_status status = trim_prefix (trim_prefix status cleanup_cancelled_prefix) copy_removed_prefix

-- The cases of `RetryTarget` that look at the upstream status alone.
target_of_status : Download → GoString → State
target_of_status d status =
    if not (is_nil d.content_path) || str_eq status upstream_copy_completed
    then verifying_local
    else if str_eq status upstream_copy_pending
        || str_eq status upstream_copy_scanning
        || str_eq status upstream_copy_scanned
    then waiting_copy
    else if str_eq status upstream_offline_error
    then submitting_offline
    else if has_prefix status (bytes "copy:")
    then submitting_copy
    else if str_eq status upstream_offline_finished || not (is_nil d.cloud_result_path)
    then submitting_copy
    else if has_prefix status (bytes "offline:")
    then waiting_offline
    else submitting_offline

unfoldable pub retry_target : Download → State
unfolding is_local_failure target_of_status bare_status
retry_target d =
    if is_cleanup d.state
    then d.state
    else if state_eq d.state failed && code_eq d.last_error_code destination_conflict
    then submitting_copy
    else if state_eq d.state failed && is_local_failure d.last_error_code
    then submitting_copy
    else target_of_status d (bare_status d.last_upstream_status)
