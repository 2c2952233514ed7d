-- ===== src/Reconcile/Failure.antt =====
-- internal/reconcile/reconcile.go: how a row records an advance, a poll, a failure or a retry, and
-- which problem a cloud or filesystem error becomes.
pub mod Moves
use cd.Prelude.{
  ℤ, pos, negsuc, ◌+◌, ◌-◌, ◌*◌, Bool, true, false, ◌&&◌, not, none, some, [], leb, ◌==◌,
  if◌then◌else◌, inc64,
}
use cd.Domain.State.{State, failed}
use cd.Domain.Problem.{
  ProblemCode, cloud_unreachable, cloud_unreachable_timeout, cloud_authentication_required,
  cloud_authentication_timeout, cloud_copy_not_ready, cloud_copy_not_ready_timeout,
  cloud_folder_unavailable, cloud_request_rejected, cloud_response_invalid,
  offline_submission_rejected, copy_timeout, local_filesystem_unavailable,
  local_filesystem_unavailable_timeout, local_permission_denied, local_path_unsafe,
  local_content_layout_invalid, internal_workflow_error, no_code, code_eq, problem_text,
}
use cd.Domain.Model.{Time, Download}
use cd.Reconcile.World.{
  ErrorKind, temporary, not_found, unauthorized, rejected, invalid_input, invalid_response,
  other_kind, CloudOperation, create_folder, add_offline, other_operation, CallError, FailureKind,
  missing, transient, permission, unsafe_path, layout, FsError, diagnose, Op, Env,
}

abbrev second : Time
second = 1000000000

-- The nanoseconds to wait after the given attempt.
unfoldable pub backoff : ℤ → Time
backoff (negsuc _) = 30 * second
backoff (pos n) =
    if leb n 1
    then 30 * second
    else if n == 2
    then 60 * second
    else if n == 3
    then 120 * second
    else if n == 4
    then 240 * second
    else 300 * second

-- `d.AttemptCount, d.LastError, d.LastErrorCode = 0, "", ""`
unfoldable pub clear_problem : Download → Download
clear_problem d = record d { attempt_count = pos 0; last_error = []; last_error_code = no_code }

unfoldable pub advance : Download → State → Time → Time → Download
advance d s now due = record d {
  state = s;
  attempt_count = pos 0;
  last_error = [];
  last_error_code = no_code;
  phase_started_at = now;
  next_run_at = some due;
}

unfoldable pub poll : Env → Download → Download
poll e d = record d {
  attempt_count = pos 0;
  last_error = [];
  last_error_code = no_code;
  next_run_at = some (e.now + e.config.poll_interval);
}

unfoldable pub fail : Download → ProblemCode → Download
fail d code = record d {
  state = failed;
  last_error = problem_text code;
  last_error_code = code;
  next_run_at = none;
}

unfoldable pub retry : Env → Download → ProblemCode → Download
unfolding backoff
retry e d code = record d {
  attempt_count = inc64 d.attempt_count;
  last_error = problem_text code;
  last_error_code = code;
  next_run_at = some (e.retry_at + backoff (inc64 d.attempt_count));
}

unfoldable pub cleanup_problem : Download → ProblemCode → Download
cleanup_problem d code = record d {
  attempt_count = inc64 d.attempt_count;
  last_error = problem_text code;
  last_error_code = code;
  next_run_at = none;
}

-- `now.Sub(start) >= limit` of a phase that has started
unfoldable pub timed_out : Env → Download → Time → Bool
timed_out e d limit = not (d.phase_started_at == 0) && leb (d.phase_started_at + limit) e.now

unfoldable pub deadline_problem : Download → ProblemCode → ProblemCode
deadline_problem d fallback = on_code d.last_error_code
  where
    on_code : ProblemCode → ProblemCode
    on_code cloud_copy_not_ready =
        if code_eq fallback copy_timeout then cloud_copy_not_ready_timeout else fallback
    on_code cloud_authentication_required = cloud_authentication_timeout
    on_code cloud_unreachable = cloud_unreachable_timeout
    on_code local_filesystem_unavailable = local_filesystem_unavailable_timeout
    on_code _ = fallback

-- The operations whose missing or rejected object may still appear.
abbrev awaits_copy : Op → Bool
awaits_copy Op.ensure_copy = true
awaits_copy Op.inspect_copy = true
awaits_copy Op.inspect_content = true
awaits_copy _ = false

rejected_problem : CloudOperation → ProblemCode
rejected_problem create_folder = cloud_folder_unavailable
rejected_problem add_offline = offline_submission_rejected
rejected_problem other_operation = cloud_request_rejected

problem_of_kind : ErrorKind → CloudOperation → Op → ProblemCode
unfolding rejected_problem
problem_of_kind temporary source op = cloud_unreachable
problem_of_kind unauthorized source op = cloud_authentication_required
problem_of_kind not_found source op =
    if awaits_copy op then cloud_copy_not_ready else cloud_folder_unavailable
problem_of_kind rejected source op =
    if awaits_copy op then cloud_copy_not_ready else rejected_problem source
problem_of_kind invalid_input source op = internal_workflow_error
problem_of_kind invalid_response source op = cloud_response_invalid
problem_of_kind other_kind source op = internal_workflow_error

unfoldable pub cloud_problem : CallError → Op → ProblemCode
unfolding problem_of_kind
cloud_problem err op = elim err.cloud [
  | none ↦ if err.ended then cloud_unreachable else cloud_response_invalid
  | some c ↦ problem_of_kind c.kind c.operation op
]

is_retried_kind : ErrorKind → Op → Bool
is_retried_kind temporary op = true
is_retried_kind unauthorized op = true
is_retried_kind not_found op = awaits_copy op
is_retried_kind rejected op = awaits_copy op
is_retried_kind _ op = false

unfoldable pub retry_observation : CallError → Op → Bool
unfolding is_retried_kind
retry_observation err op = elim err.cloud [ none ↦ err.ended | some c ↦ is_retried_kind c.kind op ]

unfoldable pub cloud_failure : Env → Download → CallError → Op → Download
cloud_failure e d err op =
    if retry_observation err op
    then retry e d (cloud_problem err op)
    else fail d (cloud_problem err op)

unfoldable pub cleanup_failure : Env → Download → CallError → Download
cleanup_failure e d err =
    if retry_observation err Op.cancel
    then retry e d (cloud_problem err Op.cancel)
    else cleanup_problem d (cloud_problem err Op.cancel)

-- Whose absence a local failure is about: the workspace, or the copied candidate.
pub data PathRole : Type 0 where
  workspace candidate : PathRole

local_outcome : Env → Download → FailureKind → Download
local_outcome e d permission = fail d local_permission_denied
local_outcome e d unsafe_path = fail d local_path_unsafe
local_outcome e d layout = fail d local_content_layout_invalid
local_outcome e d missing = retry e d local_filesystem_unavailable
local_outcome e d transient = retry e d local_filesystem_unavailable

adjusted_kind : PathRole → FailureKind → FailureKind
adjusted_kind workspace missing = transient
adjusted_kind _ k = k

unfoldable pub handle_local_failure : Env → Download → FsError → PathRole → Download
unfolding local_outcome adjusted_kind
handle_local_failure e d err role = local_outcome e d (adjusted_kind role (diagnose err).kind)
