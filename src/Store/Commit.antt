-- ===== src/Store/Commit.antt =====
-- internal/store/repository.go: what CommitClaim checks of a row before it writes it.
use cd.Prelude.{
  ◌==◌, Bool, true, false, ◌&&◌, ◌||◌, not, Option, none, some, [], ◌++◌, if◌then◌else◌, is_nil, ℤ,
  is_neg, is_some,
}
use cd.Go.Text.{GoString, bytes, str_eq, has_prefix}
use cd.Go.Utf8.{is_blank}
use cd.Domain.State.{State, submitting_copy, state_eq, is_valid, may_commit}
use cd.Domain.Model.{
  Download, SourceKind, magnet, torrent, other_source, upstream_offline_finished,
  upstream_copy_removed,
}
use cd.Domain.Validate.{FloatOps, Invalid, validate_download}
use cd.Reconcile.Manifest.{workspace_path_of}
pub mod Identity

pub record Claim : Type 0 where
  pub download : Download
  pub owner : GoString
  pub state : State
  pub version : ℤ

-- The claim that ClaimDue gives out for a row.
abbrev pub claim_of : GoString → Download → Claim
claim_of owner d = record { download = d; owner = owner; state = d.state; version = d.row_version }

pub data CommitError : Type 0 where
  claim_lost : CommitError
  invalid_transition : CommitError
  invalid_row : Invalid → CommitError

kind_eq : SourceKind → SourceKind → Bool
kind_eq magnet magnet = true
kind_eq torrent torrent = true
kind_eq other_source other_source = true
kind_eq _ _ = false

unfoldable pub same_claim_identity : Download → Download → Bool
unfolding kind_eq
same_claim_identity current next =
    str_eq current.hash next.hash
    && kind_eq current.source_kind next.source_kind
    && str_eq current.submission_uri next.submission_uri
    && str_eq current.cloud_folder next.cloud_folder
    && str_eq current.save_path next.save_path
    && current.created_at == next.created_at

-- `validateClaimWorkspace`; true where it returns nil.
unfoldable pub valid_claim_workspace : Download → Download → Bool
valid_claim_workspace current next =
    if str_eq current.workspace_path next.workspace_path
    then true
    else if not (is_nil current.workspace_path)
        || is_nil next.workspace_path
        || not (state_eq current.state submitting_copy)
        || not (str_eq current.save_path next.save_path)
        || not (is_nil next.content_path)
        || not (str_eq next.last_upstream_status upstream_offline_finished)
        || (not (str_eq current.last_upstream_status upstream_offline_finished)
            && not
                (has_prefix current.last_upstream_status (upstream_copy_removed ++ bytes "|copy:")))
    then false
    else elim (workspace_path_of next.save_path next.hash) [
      | none ↦ false
      | some expected ↦ str_eq next.workspace_path expected
    ]

unfoldable pub invalid_of : Option Invalid → Option CommitError
invalid_of none = none
invalid_of (some i) = some (invalid_row i)

unfoldable pub commit_refused : FloatOps → Claim → Download → Option CommitError
commit_refused fl claim next =
    if is_blank claim.owner
      || is_neg claim.version
      || is_nil claim.download.hash
      || not (is_valid claim.state)
      || not (state_eq claim.download.state claim.state)
    then some claim_lost
    else if not (same_claim_identity claim.download next)
    then some invalid_transition
    else if not (valid_claim_workspace claim.download next)
    then some invalid_transition
    else if not (may_commit claim.state next.state)
    then some invalid_transition
    else invalid_of (validate_download fl (record next { lease_owner = []; lease_until = none }))
