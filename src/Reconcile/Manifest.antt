-- ===== src/Reconcile/Manifest.antt =====
-- internal/reconcile/reconcile.go: safe names and paths, the check of a torrent's manifest, and the
-- choice of the cloud object to copy.
use cd.Prelude.{
  ℕ, ◌+◌, ◌-◌, ℤ, pos, negsuc, Bool, true, false, ◌&&◌, ◌||◌, not, Option, none, some, List, [],
  ◌∷◌, ◌++◌, ltb, ◌==◌, if◌then◌else◌, is_nil, any, length, max_int64, eqb_ℤ,
}
use cd.Go.Text.{GoString, bytes, str_eq, has_prefix, contains_byte}
use cd.Go.Utf8.{valid_string, contains_control}
use cd.Go.Paths.{slash, is_abs, clean, base, join}
use cd.Domain.Model.{SourceKind, magnet, torrent, Download, DownloadFile}
use cd.Domain.Validate.{valid_hash}
use cd.Reconcile.World.{answer, fault, CallError, Content, ContentKind, directory, file, Env}

abbrev pub is_magnet : SourceKind → Bool
is_magnet magnet = true
is_magnet _ = false

-- A backslash or a NUL.
abbrev pub is_forbidden : ℕ → Bool
is_forbidden c = c == 0x5C || c == 0

unfoldable pub safe_name : GoString → Bool
safe_name v =
    not (
      is_nil v
      || str_eq v (bytes ".")
      || str_eq v (bytes "..")
      || not (valid_string v)
      || contains_byte (λ c. c == b'/' || is_forbidden c) v)
    && not (contains_control v)

unfoldable pub safe_cloud_path : GoString → Bool
safe_cloud_path v =
    is_abs v
    && str_eq (clean v) v
    && valid_string v
    && not (contains_byte is_forbidden v)
    && not (contains_control v)

unfoldable pub cloud_descendant : GoString → GoString → Bool
cloud_descendant folder source =
    if str_eq (clean folder) slash
    then not (str_eq (clean source) slash) && has_prefix (clean source) slash
    else has_prefix (clean source) (clean folder ++ slash)

-- The physical root of a row: its own workspace, or the shared layout of a legacy row.
unfoldable pub workspace_root : Download → GoString
workspace_root d = if is_nil d.workspace_path then d.save_path else d.workspace_path

-- internal/fsafe/fsafe.go, WorkspacePath; its test of the hash is the one of ValidateDownload
unfoldable pub workspace_path_of : GoString → GoString → Option GoString
workspace_path_of save hash =
    if not (is_abs save) || not (str_eq (clean save) save)
    then none
    else if not (valid_hash hash)
    then none
    else some (join (save ∷ bytes ".cd211" ∷ hash ∷ []))

unfoldable pub copies_torrent_as_file : Download → Bool
copies_torrent_as_file d = by_kind d.source_kind d.is_multi_file
  where
    by_kind : SourceKind → Option Bool → Bool
    by_kind torrent (some multi) = not multi || not (str_eq d.copy_source_path d.cloud_result_path)
    by_kind _ _ = false

unfoldable pub bad_relative_path : GoString → Bool
bad_relative_path p =
    is_nil p
    || is_abs p
    || not (str_eq (clean p) p)
    || str_eq p (bytes ".")
    || str_eq p (bytes "..")
    || has_prefix p (bytes "../")
    || contains_byte is_forbidden p
    || not (valid_string p)
    || contains_control p

-- The loop of `validateManifest`: the sum of the sizes, or `none` at the first file that is refused.
unfoldable pub manifest_total : GoString → ℕ → List GoString → ℕ → List DownloadFile → Option ℕ
manifest_total hash index seen total [] = some total
manifest_total hash index seen total (f ∷ fs) = elim (accept f) [
  | none ↦ none
  | some n ↦ manifest_total hash (index + 1) (f.relative_path ∷ seen) (total + n) fs
]
  where
    sized : Bool → ℤ → Option ℕ
    sized refused (negsuc _) = none
    sized refused (pos n) =
        if refused || any (str_eq f.relative_path) seen || ltb (max_int64 - n) total
        then none
        else some n

    accept : DownloadFile → Option ℕ
    accept f =
        sized
          (not (str_eq f.download_hash hash)
            || not (eqb_ℤ f.index (pos index))
            || bad_relative_path f.relative_path)
          f.size

-- The number of files that the layout allows.
unfoldable pub count_fits : Bool → List DownloadFile → Bool
count_fits true files = not (is_nil files)
count_fits false files = length files == 1

-- `validateManifest`; true where it returns nil.
unfoldable pub valid_manifest : Download → List DownloadFile → Bool
unfolding manifest_total count_fits
valid_manifest d files = by_layout d.is_multi_file
  where
    sums_up : Option ℕ → Bool
    sums_up none = false
    sums_up (some n) = eqb_ℤ (pos n) d.total_size

    by_layout : Option Bool → Bool
    by_layout none = true
    by_layout (some multi) = count_fits multi files && sums_up (manifest_total d.hash 0 [] 0 files)

pub data Source : Type 0 where
  resolved : GoString → Source
  layout_error repository_error : Source
  cloud_fault : CallError → Source

abbrev is_directory : ContentKind → Bool
is_directory directory = true
is_directory _ = false

abbrev is_file : ContentKind → Bool
is_file file = true
is_file _ = false

-- The last switch of `resolveCopySource`.
source_by_layout : GoString → Bool → ℤ → Content → Source
source_by_layout result true size content =
    if is_directory content.kind then resolved result else layout_error
source_by_layout result false size content =
    if is_file content.kind && eqb_ℤ content.size size then resolved result else layout_error

-- The one file of the manifest inside the directory that the cloud made around it.
source_of_child : Env → GoString → GoString → ℤ → Source
source_of_child e result child size =
    if not (cloud_descendant result child)
    then layout_error
    else elim (e.cloud.inspect_content child) [
      | fault err ↦ cloud_fault err
      | answer c ↦ if is_file c.kind && eqb_ℤ c.size size then resolved child else layout_error
    ]

-- What the manifest's first file weighs; the manifest of a single file has one.
first_size : List DownloadFile → ℤ
first_size [] = pos 0
first_size (f ∷ fs) = f.size

source_in_content : Env → GoString → Bool → List DownloadFile → Content → Source
unfolding source_by_layout source_of_child first_size
source_in_content e result multi (f ∷ []) content =
    if is_directory content.kind && str_eq (base f.relative_path) f.relative_path
    then source_of_child e result (join (result ∷ f.relative_path ∷ [])) f.size
    else source_by_layout result multi f.size content
source_in_content e result multi files content =
    source_by_layout result multi (first_size files) content

source_of_manifest : Env → Download → GoString → Bool → Option (List DownloadFile) → Source
unfolding source_in_content valid_manifest
source_of_manifest e d result multi none = repository_error
source_of_manifest e d result multi (some files) =
    if not (valid_manifest d files) then layout_error else elim (e.cloud.inspect_content result) [
      | fault err ↦ cloud_fault err
      | answer content ↦ source_in_content e result multi files content
    ]

-- `resolveCopySource`
unfoldable pub resolve_copy_source : Env → Download → Source
unfolding source_of_manifest
resolve_copy_source e d =
    if not (safe_cloud_path d.cloud_result_path)
      || not (str_eq (clean d.cloud_result_path) d.cloud_result_path)
    then layout_error
    else if is_magnet d.source_kind
    then resolved (clean d.cloud_result_path)
    else elim d.is_multi_file [
      | none ↦ resolved (clean d.cloud_result_path)
      | some multi ↦
          source_of_manifest e d (clean d.cloud_result_path) multi
            (e.repo.list_download_files d.hash)
    ]
