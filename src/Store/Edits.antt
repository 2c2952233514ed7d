-- ===== src/Store/Edits.antt =====
-- internal/store/sqlc/qbt_compat.sql.go and downloads.sql.go: the UPDATE statements by which an
-- operator edits one row, revives a deleted one or has a completed one checked again. `none` where the
-- WHERE clause does not hold. A NULL string is the empty one.
use cd.Prelude.{
  ℤ, pos, Bool, true, ◌&&◌, ◌||◌, not, Option, none, some, List, [], any, is_nil, eqb_ℤ, inc_ℤ,
}
use cd.Go.Text.{GoString, str_eq}
use cd.Domain.State.{accepted, stopped, verifying_local, completed, deleted, state_eq}
use cd.Domain.Problem.{no_code}
use cd.Domain.Model.{Time, Download}
use cd.Store.Rows.{when}
use cd.Store.Create.{revived_row}

-- What every edit writes besides its own columns.
abbrev edited : Download → Time → Download
edited d now = record d { updated_at = now; row_version = inc_ℤ d.row_version }

abbrev is_there : Download → Bool
is_there d = not (state_eq d.state deleted)

-- ReviveDownload with the columns of a new submission.
unfoldable pub revive_row : Download → Download → Option Download
revive_row new d = when (state_eq d.state deleted) (revived_row d new)

unfoldable pub reverify_row : Time → Download → Option Download
reverify_row now d = when (state_eq d.state completed) (record (edited d now) {
  state = verifying_local;
  last_error = [];
  last_error_code = no_code;
  attempt_count = pos 0;
  phase_started_at = now;
  next_run_at = some now;
  lease_until = none;
  lease_owner = [];
  completed_at = none;
})

-- SetDownloadCategory, of a row in any state.
unfoldable pub set_category_row : GoString → Time → Download → Option Download
set_category_row category now d = some (record (edited d now) { category = category })

unfoldable pub clear_category_row : List GoString → Time → Download → Option Download
clear_category_row names now d =
    when (any (str_eq d.category) names && is_there d) (record (edited d now) { category = [] })

unfoldable pub set_name_row : GoString → Time → Download → Option Download
set_name_row name now d =
    when (is_there d) (record (edited d now) { name = name; name_overridden = true })

unfoldable pub touch_row : Time → Download → Option Download
touch_row now d = when (is_there d) (edited d now)

unfoldable pub set_content_path_row : GoString → Time → Download → Option Download
set_content_path_row path now d =
    when (state_eq d.state completed) (record (edited d now) { content_path = path })

unfoldable pub set_auto_tmm_row : Bool → Time → Download → Option Download
set_auto_tmm_row on now d = when (is_there d) (record (edited d now) { auto_tmm = on })

unfoldable pub set_save_path_row : GoString → GoString → ℤ → Time → Download → Option Download
set_save_path_row save workspace expected now d =
    when
      ((state_eq d.state stopped || state_eq d.state accepted)
        && is_nil d.lease_owner
        && is_nil d.content_path
        && is_nil d.copy_source_path
        && is_nil d.cloud_result_path
        && eqb_ℤ d.row_version expected)
      (record (edited d now) { save_path = save; workspace_path = workspace })

unfoldable pub set_tags_row : GoString → Time → Download → Option Download
set_tags_row tags now d = when (is_there d) (record (edited d now) { tags = tags })
