-- ===== src/Store/Rows.antt =====
-- internal/store/sqlc/claims.sql.go and downloads.sql.go: the UPDATE statements on one row by which the
-- lifecycle of a download goes on, and CommitClaim of internal/store/repository.go. `none` where the WHERE clause does not
-- hold, so that no row is updated. A NULL string is the empty one. The row version is a 64-bit integer
-- of SQLite, far from its bound.
use cd.Prelude.{
  Bool, true, false, ◌&&◌, ◌||◌, not, Option, none, some, [], leb, if◌then◌else◌, is_nil, is_some,
  eqb_ℤ, inc_ℤ, pos, ◌==◌,
}
use cd.Go.Text.{GoString, str_eq}
use cd.Domain.State.{
  State, accepted, stopped, submitting_copy, verifying_local, completed, failed, cancelled,
  cancel_requested, delete_requested, deleted, state_eq, is_valid,
}
use cd.Domain.Problem.{no_code, destination_conflict, code_eq}
use cd.Domain.Model.{Time, Download, upstream_copy_completed, upstream_retained_content}
use cd.Domain.Retry.{is_active, is_cleanup}
use cd.Domain.Validate.{FloatOps, validate_download, valid_source}
use cd.Store.Commit.{Claim, commit_refused}

-- The row that is written back with a new version.
abbrev touched : Download → Time → Download
touched d now = record d {
  phase_started_at = now;
  next_run_at = some now;
  updated_at = now;
  row_version = inc_ℤ d.row_version;
}

abbrev pub when : Bool → Download → Option Download
when b d = if b then some d else none

abbrev is_past : Option Time → Time → Bool
is_past none now = false
is_past (some t) now = leb t now

-- The candidates of ClaimDue.
unfoldable pub is_due : Time → Download → Bool
is_due now d =
    is_past d.next_run_at now
    && not (
        state_eq d.state completed
        || state_eq d.state failed
        || state_eq d.state cancelled
        || state_eq d.state deleted)
    && (not (is_some d.lease_until) || is_past d.lease_until now)

-- ClaimDue of the row that it has chosen.
unfoldable pub claim_row : GoString → Time → Time → Download → Option Download
unfolding is_due
claim_row owner until now d =
    when (is_due now d) (record d {
      lease_owner = owner;
      lease_until = some until;
      row_version = inc_ℤ d.row_version;
    })

-- The columns of the statement CommitClaim.
abbrev pub committed : Download → Download → Download
committed row next = record next {
  hash = row.hash;
  source_kind = row.source_kind;
  submission_uri = row.submission_uri;
  category = row.category;
  cloud_folder = row.cloud_folder;
  save_path = row.save_path;
  private = row.private;
  created_at = row.created_at;
  lease_until = none;
  lease_owner = [];
  row_version = inc_ℤ row.row_version;
}

unfoldable pub commit_row : Claim → Download → Download → Option Download
commit_row claim next row =
    when
      (str_eq row.hash claim.download.hash
        && state_eq row.state claim.state
        && str_eq row.lease_owner claim.owner
        && eqb_ℤ row.row_version claim.version)
      (committed row next)

-- `validNullableTime`
abbrev valid_time : Option Time → Bool
valid_time none = true
valid_time (some t) = not (t == 0)

-- `downloadFromDB` of a stored row: true where it returns no error. The columns that hold a boolean
-- are 0 or 1.
unfoldable pub reads_back : FloatOps → Download → Bool
reads_back fl d =
    valid_source d.source_kind
    && is_valid d.state
    && not (d.phase_started_at == 0)
    && not (d.created_at == 0)
    && not (d.updated_at == 0)
    && leb d.created_at d.updated_at
    && valid_time d.next_run_at
    && valid_time d.lease_until
    && valid_time d.offline_started_at
    && valid_time d.copy_completed_at
    && valid_time d.completed_at
    && valid_time d.removed_at
    && not (is_some (validate_download fl d))

-- The rest of CommitClaim on the row that the statement would write over the given one: `refuses` is
-- what a constraint of the schema, such as the unique destination, refuses; a row that cannot be read
-- back rolls the transaction back.
kept_if_read :
    FloatOps → (Download → Download → Bool) → Download → Option Download → Option Download
kept_if_read fl refuses row none = none
kept_if_read fl refuses row (some n) = when (not (refuses row n) && reads_back fl n) n

-- CommitClaim: the checks, the statement, and the reading of the row. `none` where it fails. The event
-- of a change of state is left out, and a database that fails.
unfoldable pub commit_claim :
    FloatOps → (Download → Download → Bool) → Claim → Download → Download → Option Download
unfolding kept_if_read
commit_claim fl refuses claim next row =
    if is_some (commit_refused fl claim next)
    then none
    else kept_if_read fl refuses row (commit_row claim next row)

unfoldable pub start_row : Time → Download → Option Download
start_row now d = when (state_eq d.state stopped) (record (touched d now) {
  state =
      if not (is_nil d.cloud_result_path)
        && (not (is_nil d.content_path)
            || str_eq d.last_upstream_status upstream_copy_completed
            || str_eq d.last_upstream_status upstream_retained_content)
      then verifying_local
      else if not (is_nil d.cloud_result_path)
      then submitting_copy
      else accepted;
  pause_requested = false;
  lease_until = none;
  lease_owner = [];
})

unfoldable pub retry_row : State → Time → Download → Option Download
retry_row target now d =
    let again = state_eq target submitting_copy && code_eq d.last_error_code destination_conflict in
    when (state_eq d.state failed) (record (touched d now) {
      state = target;
      copy_source_path = if again then [] else d.copy_source_path;
      destination_name = if again then [] else d.destination_name;
      last_error = [];
      last_error_code = no_code;
      attempt_count = pos 0;
      lease_until = none;
      lease_owner = [];
    })

unfoldable pub retry_cleanup_row : Time → Download → Option Download
retry_cleanup_row now d =
    when (is_cleanup d.state && not (is_nil d.last_error))
      (record (touched d now) { last_error = []; last_error_code = no_code; attempt_count = pos 0 })

unfoldable pub pause_row : Time → Download → Option Download
pause_row now d =
    when (is_active d.state)
      (record (touched d now) { state = cancel_requested; pause_requested = true })

unfoldable pub cancel_row : Time → Download → Option Download
cancel_row now d =
    when (is_active d.state || state_eq d.state stopped)
      (record (touched d now) { state = cancel_requested; pause_requested = false })

unfoldable pub request_delete_row : Bool → Time → Download → Option Download
request_delete_row files now d =
    when
      (not (state_eq d.state deleted)
        && (not (state_eq d.state delete_requested) || (files && not d.delete_files_requested)))
      (record (touched d now) {
        state = delete_requested;
        pause_requested = false;
        delete_files_requested = d.delete_files_requested || files;
        removed_at = if is_some d.removed_at then d.removed_at else some now;
      })
