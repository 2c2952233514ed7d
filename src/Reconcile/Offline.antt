-- ===== src/Reconcile/Offline.antt =====
-- internal/reconcile/reconcile.go: the phases of the offline download in the cloud.
pub mod Moves
use cd.Prelude.{
  pos, ◌+◌, Bool, true, false, ◌&&◌, ◌||◌, not, Option, none, some, [], ◌∷◌, ◌++◌, if◌then◌else◌,
  is_nil, is_some, is_neg, eqb_ℤ,
}
use cd.Go.Text.{bytes, str_eq}
use cd.Go.Paths.{base}
use cd.Domain.State.{waiting_offline, submitting_copy}
use cd.Domain.Problem.{offline_timeout, offline_download_failed, cloud_response_invalid}
use cd.Domain.Model.{Float64, Download, upstream_offline_error}
use cd.Domain.Validate.{FloatOps, float_zero, float_one, float_0_9, float_0_09, float_million}
use cd.Reconcile.World.{
  Reply, answer, fault, CallError, OfflineState, init, downloading, finished, offline_error,
  other_offline, offline_text, OfflineTask, Op, Env, Outcome, outcome, offline_submitted,
  offline_cancelled,
}
use cd.Reconcile.Failure.{
  clear_problem, advance, poll, fail, timed_out, deadline_problem, cloud_failure,
}
use cd.Reconcile.Manifest.{is_magnet, safe_name, safe_cloud_path, cloud_descendant}

-- `round6`
unfoldable pub round6 : FloatOps → Float64 → Float64
round6 fl v = fl.div (fl.round (fl.mul v float_million)) float_million

unfoldable pub offline_progress_of : FloatOps → Float64 → Float64
unfolding round6
offline_progress_of fl v = round6 fl (fl.mul float_0_9 v)

unfoldable pub copy_progress_of : FloatOps → Float64 → Float64
unfolding round6
copy_progress_of fl v = round6 fl (fl.add float_0_9 (fl.mul float_0_09 v))

abbrev pub is_known_offline : OfflineState → Bool
is_known_offline (other_offline _) = false
is_known_offline _ = true

abbrev pub is_init : OfflineState → Bool
is_init init = true
is_init _ = false

abbrev pub is_finished : OfflineState → Bool
is_finished finished = true
is_finished _ = false

-- The test of a task that has no name yet, and of one that has.
valid_named_task : Download → OfflineTask → Bool
valid_named_task d t =
    if is_nil t.name
    then is_init t.state
    else safe_cloud_path t.source_path
      && str_eq (base t.source_path) t.name
      && cloud_descendant d.cloud_folder t.source_path

-- `validateOfflineTask`; true where it returns nil.
unfoldable pub valid_offline_task : FloatOps → Download → OfflineTask → Bool
unfolding valid_named_task
valid_offline_task fl d t =
    is_known_offline t.state
    && not (
        not (str_eq t.info_hash d.hash)
        || fl.lt t.progress float_zero
        || fl.lt float_one t.progress
        || is_neg t.size
        || (is_nil t.name && not (is_nil t.source_path))
        || (not (is_nil t.name) && not (safe_name t.name)))
    && valid_named_task d t

record_result : Download → OfflineTask → Download
record_result d t =
    if is_finished t.state
    then record d {
      cloud_task_name = t.name;
      cloud_result_path = t.source_path;
      name = if is_magnet d.source_kind && not d.name_overridden then t.name else d.name;
    }
    else d

-- `recordOffline`
unfoldable pub record_offline : FloatOps → Download → OfflineTask → Download
unfolding record_result
record_offline fl d t =
    let r = record_result d t in
    record r {
      offline_progress = t.progress;
      qbit_progress = offline_progress_of fl t.progress;
      last_upstream_status = bytes "offline:" ++ offline_text t.state;
      total_size =
          if is_magnet d.source_kind
            && eqb_ℤ d.total_size (pos 0)
            && not (is_neg t.size)
            && not (eqb_ℤ t.size (pos 0))
          then t.size
          else d.total_size;
    }

-- The progress of a finished offline task, on the way to the copy.
abbrev to_copy : Env → Download → Download
to_copy e d =
    advance (record d { offline_progress = float_one; qbit_progress = float_0_9 }) submitting_copy
      e.now e.now

-- The last switch of the submission. The source has no default there: an unknown state has been
-- refused before.
after_submission : Env → Download → OfflineState → Download
after_submission e d init = advance d waiting_offline e.now (e.now + e.config.poll_interval)
after_submission e d downloading = advance d waiting_offline e.now (e.now + e.config.poll_interval)
after_submission e d finished = to_copy e d
after_submission e d offline_error = fail d offline_download_failed
after_submission e d (other_offline _) = d

submitted : Env → Download → Reply OfflineTask → Download
unfolding after_submission
submitted e d (fault err) = cloud_failure e d err Op.ensure_offline
submitted e d (answer t) =
    if not (valid_offline_task e.floats d t)
    then fail d cloud_response_invalid
    else after_submission e (record_offline e.floats d t) t.state

-- `d.OfflineStartedAt` is set at the first submission.
start_offline : Env → Download → Download
start_offline e d =
    if is_some d.offline_started_at then d else record d { offline_started_at = some e.started }

retry_cancelled : Env → Download → Option CallError → Download
retry_cancelled e d (some err) = cloud_failure e d err Op.cancel_offline
retry_cancelled e d none = clear_problem (record d {
  offline_progress = float_zero;
  qbit_progress = float_zero;
  last_upstream_status = [];
  next_run_at = some e.now;
})

-- The case SUBMITTING_OFFLINE of `decide`.
unfoldable pub decide_submitting_offline : Env → Download → Outcome
unfolding submitted start_offline retry_cancelled outcome
decide_submitting_offline e d =
    if timed_out e d e.config.offline_timeout
    then outcome Op.ensure_offline (fail d (deadline_problem d offline_timeout)) []
    else if str_eq d.last_upstream_status upstream_offline_error
    then outcome Op.retry_cancel_offline
        (retry_cancelled e d (e.cloud.cancel_offline d.cloud_folder d.hash))
        (offline_cancelled d.hash ∷ [])
    else outcome Op.ensure_offline
        (submitted e (start_offline e d)
          (e.cloud.ensure_offline d.submission_uri d.cloud_folder d.hash))
        (offline_submitted d.hash ∷ [])

-- The last switch of the inspection, on the row with the task recorded.
after_inspection : Env → Download → OfflineTask → OfflineState → Download
after_inspection e d t init = poll e d
after_inspection e d t downloading = poll e d
after_inspection e d t finished =
    if is_nil t.name || is_nil t.source_path then fail d cloud_response_invalid else to_copy e d
after_inspection e d t offline_error = fail d offline_download_failed
after_inspection e d t (other_offline _) = fail d cloud_response_invalid

inspected : Env → Download → Reply (Option OfflineTask) → Download
unfolding after_inspection
inspected e d (fault err) = cloud_failure e d err Op.inspect_offline
inspected e d (answer none) = poll e d
inspected e d (answer (some t)) =
    if not (valid_offline_task e.floats d t)
    then fail d cloud_response_invalid
    else after_inspection e (record_offline e.floats d t) t t.state

-- The case WAITING_OFFLINE of `decide`.
unfoldable pub decide_waiting_offline : Env → Download → Outcome
unfolding inspected outcome
decide_waiting_offline e d =
    if timed_out e d e.config.offline_timeout
    then outcome Op.inspect_offline (fail d (deadline_problem d offline_timeout)) []
    else outcome Op.inspect_offline (inspected e d (e.cloud.inspect_offline d.cloud_folder d.hash))
        []
