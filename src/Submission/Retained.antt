-- ===== src/Submission/Retained.antt =====
-- internal/submission/service.go, prepareRetainedContent: a new submission of a deleted download takes
-- over the content that is still on the disk.
pub mod Evidence
use cd.Prelude.{
  ℤ, pos, Bool, true, false, ◌&&◌, ◌||◌, not, Option, none, some, List, [], ◌∷◌, if◌then◌else◌,
  is_nil, is_some, eqb_ℤ,
}
use cd.Go.Text.{GoString, str_eq}
use cd.Go.Paths.{clean, base, dir}
use cd.Domain.State.{deleted, verifying_local, state_eq}
use cd.Domain.Model.{
  SourceKind, magnet, torrent, Download, DownloadFile, FileOverride, upstream_retained_content,
}
use cd.Domain.Validate.{float_one, float_0_99}
use cd.Reconcile.World.{FsReply, found, failure, ExpectedFile, ExpectedContent, VerifiedContent}
use cd.Submission.Options.{safe_retained_name}

-- The reads of `Repository` for a revival, with the optional ListDownloadFileOverrides, and the check
-- of the `Filesystem`. An error is `none`.
pub record Lookups : Type 0 where
  pub get_download : GoString → Option Download
  pub list_overrides : Option (GoString → Option (List FileOverride))
  pub verify : GoString → ExpectedContent → FsReply VerifiedContent

-- A deleted row whose content was kept, under the same save path.
unfoldable pub is_retained : Download → Download → Bool
is_retained existing d = not (
    not (state_eq existing.state deleted)
    || existing.delete_files_requested
    || is_nil existing.content_path
    || is_nil existing.cloud_result_path
    || is_nil existing.copy_source_path
    || not (is_some existing.is_multi_file)
    || not (str_eq (clean existing.save_path) (clean d.save_path)))

-- The root of the content: the workspace, or the save path of a legacy row.
abbrev pub content_root : Download → GoString
content_root existing =
    if is_nil existing.workspace_path then existing.save_path else existing.workspace_path

-- The name under which the content lies.
unfoldable pub retained_name : Download → Option GoString
unfolding safe_retained_name
retained_name existing =
    if not (is_nil existing.destination_name)
    then (if safe_retained_name existing.destination_name
        then some existing.destination_name
        else none)
    else if not (str_eq (dir (clean existing.content_path)) (clean (content_root existing)))
        || not (safe_retained_name (base (clean existing.content_path)))
    then none
    else some (base (clean existing.content_path))

-- The map of overrides: of several for one file, the last counts.
pub override_of : ℤ → List FileOverride → Option FileOverride
override_of i [] = none
override_of i (o ∷ os) = elim (override_of i os) [
  | some later ↦ some later
  | none ↦ if eqb_ℤ o.file_index i then some o else none
]

abbrev pub override_path : DownloadFile → Option FileOverride → GoString
override_path f none = f.relative_path
override_path f (some o) = o.relative_path

abbrev pub is_excluded : Option FileOverride → Bool
is_excluded none = false
is_excluded (some o) = eqb_ℤ o.priority (pos 0)

-- The files that the manifest keeps under the overrides.
unfoldable pub kept_files : List FileOverride → List DownloadFile → List ExpectedFile
unfolding override_of
kept_files os [] = []
kept_files os (f ∷ fs) =
    let rest = kept_files os fs in
    if is_excluded (override_of f.index os)
    then rest
    else record { relative_path = override_path f (override_of f.index os); size = f.size } ∷ rest

-- `*row.IsMultiFile`, which is not nil where it is read.
abbrev pub multi_of : Option Bool → Bool
multi_of none = false
multi_of (some multi) = multi

-- The overrides of the row; `none` is an error.
abbrev pub overrides_of : Lookups → GoString → Option (List FileOverride)
overrides_of e hash = elim e.list_overrides [ none ↦ some [] | some list ↦ list hash ]

torrent_content : Download → Download → GoString → List ExpectedFile → Option ExpectedContent
torrent_content existing d name [] = none
torrent_content existing d name (f ∷ fs) = some (record {
  candidate_name = name;
  multi_file =
      multi_of d.is_multi_file
      && str_eq (clean existing.copy_source_path) (clean existing.cloud_result_path);
  files = f ∷ fs;
})

-- What the disk is expected to hold.
unfoldable pub expected_of :
    Lookups → Download → Download → List DownloadFile → GoString → Option ExpectedContent
unfolding torrent_content kept_files
expected_of e existing d files name = by_kind d.source_kind
  where
    by_kind : SourceKind → Option ExpectedContent
    by_kind torrent = elim (overrides_of e d.hash) [
      | none ↦ none
      | some os ↦ torrent_content existing d name (kept_files os files)
    ]
    by_kind _ =
        some (record {
          candidate_name = name;
          multi_file = multi_of existing.is_multi_file;
          files = [];
        })

abbrev magnet_fields : Download → VerifiedContent → Download → Download
magnet_fields existing c d = by_kind d.source_kind
  where
    by_kind : SourceKind → Download
    by_kind magnet = record d {
      name = existing.name;
      is_multi_file = some (multi_of existing.is_multi_file);
      total_size = c.size;
    }
    by_kind _ = d

-- The row with the content taken over.
abbrev pub revived : Download → GoString → VerifiedContent → Download → Download
revived existing candidate c d = record (magnet_fields existing c d) {
  destination_name = candidate;
  cloud_task_name = existing.cloud_task_name;
  cloud_result_path = existing.cloud_result_path;
  workspace_path = existing.workspace_path;
  copy_source_path = existing.copy_source_path;
  content_path = c.path;
  state = verifying_local;
  offline_progress = float_one;
  copy_progress = float_one;
  qbit_progress = float_0_99;
  last_upstream_status = upstream_retained_content;
}

take_over : Lookups → Download → Download → ExpectedContent → Download
take_over e existing d x = elim (e.verify (content_root existing) x) [
  | failure err ↦ d
  | found c ↦
      if not (str_eq (clean c.path) (clean existing.content_path))
      then d
      else revived existing x.candidate_name c d
]

take_existing : Lookups → Download → Download → List DownloadFile → Download
unfolding take_over expected_of retained_name is_retained
take_existing e existing d files =
    if not (is_retained existing d) then d else elim (retained_name existing) [
      | none ↦ d
      | some name ↦ elim (expected_of e existing d files name) [
        | none ↦ d
        | some x ↦ take_over e existing d x
      ]
    ]

-- `prepareRetainedContent`
unfoldable pub prepare_retained_content : Lookups → Download → List DownloadFile → Download
unfolding take_existing
prepare_retained_content e d files = elim (e.get_download d.hash) [
  | none ↦ d
  | some existing ↦ take_existing e existing d files
]
