-- ===== src/Store/Commit/Identity.antt =====
-- What a row that goes back to CommitClaim shares with the claimed one.
use cd.Prelude.{◌≡◌, refl, true, arith}
use cd.Go.Text.{str_eq_refl}
use cd.Domain.Model.{SourceKind, magnet, torrent, other_source, Download}
use cd.Store.Commit.{kind_eq, same_claim_identity, valid_claim_workspace}

-- The columns that no step may change, and the workspace.
pub record Same (d n : Download) : Type 0 where
  pub hash : n.hash ≡ d.hash
  pub source_kind : n.source_kind ≡ d.source_kind
  pub submission_uri : n.submission_uri ≡ d.submission_uri
  pub cloud_folder : n.cloud_folder ≡ d.cloud_folder
  pub save_path : n.save_path ≡ d.save_path
  pub created_at : n.created_at ≡ d.created_at
  pub workspace_path : n.workspace_path ≡ d.workspace_path

-- The two checks that CommitClaim makes of a row against the claimed one.
pub record SameClaim (d n : Download) : Type 0 where
  pub identity : same_claim_identity d n ≡ true
  pub workspace : valid_claim_workspace d n ≡ true

kind_eq_refl : (k : SourceKind) → kind_eq k k ≡ true
unfolding kind_eq
kind_eq_refl magnet = refl
kind_eq_refl torrent = refl
kind_eq_refl other_source = refl

pub same_identity :
    (d n : Download)
    → n.hash ≡ d.hash
    → n.source_kind ≡ d.source_kind
    → n.submission_uri ≡ d.submission_uri
    → n.cloud_folder ≡ d.cloud_folder
    → n.save_path ≡ d.save_path
    → n.created_at ≡ d.created_at
    → same_claim_identity d n ≡ true
unfolding same_claim_identity
same_identity d n p q r s t u = ground (
  arith,
  str_eq_refl d.hash,
  kind_eq_refl d.source_kind,
  str_eq_refl d.submission_uri,
  str_eq_refl d.cloud_folder,
  str_eq_refl d.save_path,
)

pub unchanged_workspace :
    (d n : Download) → n.workspace_path ≡ d.workspace_path → valid_claim_workspace d n ≡ true
unfolding valid_claim_workspace
unchanged_workspace d n p = ground (arith, str_eq_refl d.workspace_path)

pub same_claim : (d n : Download) → Same d n → SameClaim d n
same_claim d n s = record {
  identity =
      same_identity d n s.hash s.source_kind s.submission_uri s.cloud_folder s.save_path
        s.created_at;
  workspace = unchanged_workspace d n s.workspace_path;
}
