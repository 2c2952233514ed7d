-- ===== src/Reconcile/Licence.antt =====
-- What each outside effect needs of the row: an account of the cleanup protocol that does not follow
-- the control flow of `decide`.
pub mod Copying
pub mod Cleaning
use cd.Prelude.{Bool, true, false, ◌&&◌, ◌||◌, not, List, [], ◌∷◌, is_nil, is_some, all}
use cd.Go.Text.{GoString, str_eq}
use cd.Go.Paths.{join}
use cd.Domain.State.{
  State, submitting_offline, submitting_copy, waiting_copy, verifying_local, cancel_requested,
  delete_requested, state_eq,
}
use cd.Domain.Model.{Download, upstream_offline_error}
use cd.Reconcile.World.{
  Effect, offline_submitted, offline_cancelled, copy_submitted, copy_removed, workspace_prepared,
  workspace_deleted, content_deleted, plan_applied, Outcome,
}
use cd.Reconcile.Status.{destination_clear, cleanup_completed, copy_removal_completed}
use cd.Reconcile.Manifest.{workspace_root}

-- No copy task in the cloud can still write into the row's directory: none was ever submitted, or
-- its removal is on record.
unfoldable pub no_copy_running : Download → Bool
no_copy_running d = is_nil d.copy_source_path || copy_removal_completed d.last_upstream_status

-- Local content may go: the operator asked for it, paused the download, or the copy is made again.
unfoldable pub may_delete_local : Download → Bool
may_delete_local d =
    (state_eq d.state delete_requested && d.delete_files_requested)
    || (state_eq d.state cancel_requested && d.pause_requested && is_nil d.content_path)
    || (state_eq d.state submitting_copy && not (is_nil d.destination_name))

unfoldable pub licensed : Download → Effect → Bool
unfolding no_copy_running may_delete_local
licensed d (offline_submitted hash) =
    str_eq hash d.hash
    && state_eq d.state submitting_offline
    && not (str_eq d.last_upstream_status upstream_offline_error)
licensed d (offline_cancelled hash) =
    str_eq hash d.hash
    && ((state_eq d.state submitting_offline
          && str_eq d.last_upstream_status upstream_offline_error)
        || (state_eq d.state cancel_requested && is_nil d.copy_source_path)
        || (state_eq d.state delete_requested
            && is_nil d.copy_source_path
            && is_nil d.content_path
            && not (is_some d.completed_at)
            && not (cleanup_completed d.last_upstream_status)))
licensed d (copy_submitted source destination) =
    str_eq source d.copy_source_path
    && str_eq destination (workspace_root d)
    && state_eq d.state submitting_copy
    && not (is_nil d.cloud_result_path)
    && not (is_nil d.copy_source_path)
    && not (is_nil d.destination_name)
    && str_eq d.last_upstream_status destination_clear
licensed d (copy_removed source destination) =
    str_eq source d.copy_source_path
    && str_eq destination (workspace_root d)
    && not (is_nil d.copy_source_path)
    && (state_eq d.state cancel_requested
        || ((state_eq d.state delete_requested || state_eq d.state submitting_copy)
            && not (copy_removal_completed d.last_upstream_status)))
licensed d (workspace_prepared hash) =
    str_eq hash d.hash
    && state_eq d.state submitting_copy
    && not (is_nil d.workspace_path)
    && not (is_nil d.destination_name)
licensed d (workspace_deleted hash) =
    str_eq hash d.hash && not (is_nil d.workspace_path) && no_copy_running d && may_delete_local d
licensed d (content_deleted p) =
    (str_eq p d.content_path || str_eq p (join (d.save_path ∷ d.destination_name ∷ [])))
    && is_nil d.workspace_path
    && no_copy_running d
    && may_delete_local d
licensed d (plan_applied root) = state_eq d.state waiting_copy || state_eq d.state verifying_local

-- All effects of an outcome are licensed by the row before it.
unfoldable pub all_licensed : Download → Outcome → Bool
all_licensed d o = all (licensed d) o.effects
