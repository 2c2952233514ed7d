-- ===== src/Submission/Submit.antt =====
-- internal/submission/service.go: SubmitMagnetWithOptions and SubmitTorrentWithOptions, with the row that
-- they hand to the repository.
pub mod Evidence
use cd.Prelude.{
  ℕ, ℤ, pos, Bool, true, false, ◌&&◌, ◌||◌, not, Option, none, some, List, [], ◌∷◌, ◌++◌,
  if◌then◌else◌, is_nil, map,
}
use cd.Go.Text.{GoString, bytes, str_eq, split_on}
use cd.Go.Paths.{is_abs, clean}
use cd.Domain.State.{accepted, stopped}
use cd.Domain.Problem.{no_code}
use cd.Domain.Model.{Time, SourceKind, magnet, torrent, Download, DownloadFile, Submission}
use cd.Domain.Redact.{trim_space}
use cd.Domain.Validate.{float_zero}
use cd.Reconcile.World.{FsReply, found, failure}
use cd.Reconcile.Manifest.{workspace_path_of}
use cd.Torrent.Names.{Limits, Checked, ok, err, invalid_magnet, valid_limits}
use cd.Torrent.Hash.{lower}
use cd.Torrent.Trackers.{Url, normalize_trackers}
use cd.Torrent.Files.Manifest.{manifest}
use cd.Torrent.Parse.{Result, Parsers, parse_magnet, parse_torrent}
use cd.Submission.Options.{canonical_category, canonical_tags, safe_retained_name, one_magnet_line}
use cd.Submission.Retained.{Lookups, prepare_retained_content}
use cd.Submission.Service.{
  Options, Category, CategoryReply, category_found, category_missing, category_failed, Resolver,
  MagnetUrl, Service, SubmitError, invalid_source, category_invalid, invalid_options,
  internal_error, Answer, done, refused, ◌>>=◌, Destination,
}
use cd.Submission.Choices.{
  submission_paths, magnet_with_preferences, renamed, tagged, save_root, wants_auto_tmm,
}

abbrev or_default {ℓ} : {A : Type ℓ} → A → Option A → A
or_default a none = a
or_default a (some b) = b

abbrev layout_of : SourceKind → Result → Option Bool
layout_of torrent result = some result.multi_file
layout_of _ result = none

-- The files of a torrent's row; a magnet has none.
unfoldable pub files_of : SourceKind → Result → List DownloadFile
files_of torrent result = manifest result.hash result.files
files_of _ result = []

-- The row before its retained content, its new name and `stopped` are taken into account.
unfoldable pub fresh_row :
    Service
    → Result
    → SourceKind
    → Destination
    → GoString
    → GoString
    → Options
    → Option GoString
    → Download
fresh_row e result source (category, cloud, _) uri root options tags = record {
  hash = result.hash;
  name = result.name;
  name_overridden = false;
  source_kind = source;
  submission_uri = uri;
  category = category;
  tags = or_default [] tags;
  auto_tmm = or_default false options.auto_tmm;
  cloud_folder = cloud;
  save_path = root;
  workspace_path = or_default [] (workspace_path_of root result.hash);
  destination_name = [];
  cloud_task_name = [];
  cloud_result_path = [];
  copy_source_path = [];
  content_path = [];
  is_multi_file = layout_of source result;
  private = result.private;
  total_size = result.total_size;
  state = accepted;
  offline_progress = float_zero;
  copy_progress = float_zero;
  qbit_progress = float_zero;
  last_upstream_status = [];
  last_error = [];
  last_error_code = no_code;
  phase_started_at = e.now;
  offline_started_at = none;
  copy_completed_at = none;
  next_run_at = some e.now;
  lease_until = none;
  lease_owner = [];
  attempt_count = pos 0;
  delete_files_requested = false;
  pause_requested = false;
  created_at = e.now;
  updated_at = e.now;
  completed_at = none;
  removed_at = none;
  row_version = pos 0;
}

abbrev pub with_name : Option GoString → Download → Download
with_name none d = d
with_name (some name) d = record d { name = name; name_overridden = true }

abbrev pub with_stop : Bool → Download → Download
with_stop false d = d
with_stop true d = record d { state = stopped; next_run_at = none }

-- The submission that `submit` hands to the repository.
unfoldable pub submission_of :
    Service → Result → SourceKind → Destination → Bool → Options → Answer Submission
unfolding magnet_with_preferences renamed tagged save_root fresh_row files_of
    prepare_retained_content
submission_of e result source (category, cloud, save) halt options = do
  uri ← magnet_with_preferences e result.magnet_uri
  if wants_auto_tmm options.auto_tmm then refused invalid_options else do
    name ← renamed options.rename
    tags ← tagged options.tags
    root ← save_root e save options.save_path
    elim (workspace_path_of root result.hash) [
      | none ↦ refused internal_error
      | some workspace ↦ done (record {
        download = with_stop halt (
            with_name name (
              prepare_retained_content e.lookups
                (fresh_row e result source (category, cloud, save) uri root options tags)
                (files_of source result)));
        files = files_of source result;
      })
    ]

-- The row, whether it is new, and whether the reconciler is woken for it.
pub record Submitted : Type 0 where
  pub row : Download
  pub inserted : Bool
  pub woken : Bool

created : Option (Download × Bool) → Answer Submitted
created none = refused internal_error
created (some (row, inserted)) = done (record { row = row; inserted = inserted; woken = inserted })

-- `submit`
unfoldable pub submit :
    Service → Result → SourceKind → Destination → Bool → Options → Answer Submitted
unfolding submission_of created
submit e result source destination halt options = do
  s ← submission_of e result source destination halt options
  created (e.create_submission s)

parsed : Checked Result → Answer Result
parsed (ok result) = done result
parsed (err x) = refused invalid_source

-- `SubmitMagnetWithOptions`
unfoldable pub submit_magnet : Service → GoString → GoString → Bool → Options → Answer Submitted
unfolding submission_paths parsed submit
submit_magnet e raw category halt options = do
  destination ← submission_paths e category
  elim (one_magnet_line raw) [
    | none ↦ refused invalid_source
    | some line ↦ do
      result ← parsed (parse_magnet e.parsers line e.limits)
      submit e result magnet destination halt options
  ]

-- `SubmitTorrentWithOptions`
unfoldable pub submit_torrent : Service → GoString → GoString → Bool → Options → Answer Submitted
unfolding submission_paths parsed submit
submit_torrent e content category halt options = do
  destination ← submission_paths e category
  result ← parsed (parse_torrent e.parsers content e.limits)
  submit e result torrent destination halt options

abbrev pub no_options : Options
no_options = record { rename = none; tags = none; auto_tmm = none; save_path = none }

-- `SubmitMagnet`
unfoldable pub submit_plain_magnet : Service → GoString → GoString → Bool → Answer Submitted
unfolding submit_magnet
submit_plain_magnet e raw category halt = submit_magnet e raw category halt no_options

-- `SubmitTorrent`
unfoldable pub submit_plain_torrent : Service → GoString → GoString → Bool → Answer Submitted
unfolding submit_torrent
submit_plain_torrent e content category halt = submit_torrent e content category halt no_options
