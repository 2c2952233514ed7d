-- ===== src/Reconcile/Status.antt =====
-- internal/reconcile/reconcile.go: the cleanup markers kept in front of the upstream status.
use cd.Prelude.{Bool, ◌||◌, ◌++◌, if◌then◌else◌, is_nil}
use cd.Go.Text.{GoString, bytes, str_eq, has_prefix, trim_prefix}
use cd.Domain.Model.{
  Download, upstream_copy_pending, upstream_copy_scanning, upstream_copy_scanned,
  upstream_copy_completed, upstream_copy_failed, upstream_cleanup_cancelled, upstream_copy_removed,
  cleanup_cancelled_prefix, copy_removed_prefix,
}

abbrev pub destination_clear : GoString
destination_clear = bytes "local:destination_clear"

unfoldable pub cleanup_completed : GoString → Bool
cleanup_completed status =
    str_eq status upstream_cleanup_cancelled || has_prefix status cleanup_cancelled_prefix

unfoldable pub mark_cleanup_cancelled : Download → Download
unfolding cleanup_completed
mark_cleanup_cancelled d =
    if cleanup_completed d.last_upstream_status
    then d
    else if is_nil d.last_upstream_status
    then record d { last_upstream_status = upstream_cleanup_cancelled }
    else record d { last_upstream_status = cleanup_cancelled_prefix ++ d.last_upstream_status }

unfoldable pub copy_removal_completed : GoString → Bool
copy_removal_completed status =
    str_eq status upstream_copy_removed || has_prefix status copy_removed_prefix

unfoldable pub mark_copy_removed : Download → Download
unfolding copy_removal_completed
mark_copy_removed d =
    let status = trim_prefix d.last_upstream_status cleanup_cancelled_prefix in
    if copy_removal_completed d.last_upstream_status
    then d
    else if is_nil status || str_eq status upstream_cleanup_cancelled
    then record d { last_upstream_status = upstream_copy_removed }
    else record d { last_upstream_status = copy_removed_prefix ++ status }

unfoldable pub has_copy_evidence : GoString → Bool
has_copy_evidence raw =
    let status = trim_prefix (trim_prefix raw cleanup_cancelled_prefix) copy_removed_prefix in
    str_eq status destination_clear
    || str_eq status upstream_copy_pending
    || str_eq status upstream_copy_scanning
    || str_eq status upstream_copy_scanned
    || str_eq status upstream_copy_completed
    || str_eq status upstream_copy_failed
