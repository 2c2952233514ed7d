-- ===== src/Domain/Model.antt =====
-- internal/domain/model.go: the durable row of a download, its files and its upstream statuses.
use cd.Prelude.{ℕ, ℤ, Bool, Option, List}
use cd.Go.Text.{GoString, bytes}
use cd.Domain.State.{State}
use cd.Domain.Problem.{ProblemCode}

-- time.Time in nanoseconds after the zero time, which is 0.
abbrev pub Time : Type 0
Time = ℕ

-- A float64 by its bit pattern; the arithmetic on it is a parameter where it is used.
abbrev pub Float64 : Type 0
Float64 = ℕ

-- `other_source` is any string but the two constants.
pub data SourceKind : Type 0 where
  magnet torrent other_source : SourceKind

pub record Download : Type 0 where
  pub hash : GoString
  pub name : GoString
  pub name_overridden : Bool
  pub source_kind : SourceKind
  pub submission_uri : GoString
  pub category : GoString
  pub tags : GoString
  pub auto_tmm : Bool
  pub cloud_folder : GoString
  pub save_path : GoString
  pub workspace_path : GoString
  pub destination_name : GoString
  pub cloud_task_name : GoString
  pub cloud_result_path : GoString
  pub copy_source_path : GoString
  pub content_path : GoString
  pub is_multi_file : Option Bool
  pub private : Option Bool
  pub total_size : ℤ
  pub state : State
  pub offline_progress : Float64
  pub copy_progress : Float64
  pub qbit_progress : Float64
  pub last_upstream_status : GoString
  pub last_error : GoString
  pub last_error_code : ProblemCode
  pub phase_started_at : Time
  pub offline_started_at : Option Time
  pub copy_completed_at : Option Time
  pub next_run_at : Option Time
  pub lease_until : Option Time
  pub lease_owner : GoString
  pub attempt_count : ℤ
  pub delete_files_requested : Bool
  pub pause_requested : Bool
  pub created_at : Time
  pub updated_at : Time
  pub completed_at : Option Time
  pub removed_at : Option Time
  pub row_version : ℤ

pub record DownloadFile : Type 0 where
  pub download_hash : GoString
  pub index : ℤ
  pub relative_path : GoString
  pub size : ℤ
  pub priority : ℤ

pub record FileOverride : Type 0 where
  pub download_hash : GoString
  pub file_index : ℤ
  pub relative_path : GoString
  pub priority : ℤ

pub record Submission : Type 0 where
  pub download : Download
  pub files : List DownloadFile

abbrev pub upstream_offline_init : GoString
upstream_offline_init = bytes "offline:INIT"

abbrev pub upstream_offline_downloading : GoString
upstream_offline_downloading = bytes "offline:DOWNLOADING"

abbrev pub upstream_offline_finished : GoString
upstream_offline_finished = bytes "offline:FINISHED"

abbrev pub upstream_offline_error : GoString
upstream_offline_error = bytes "offline:ERROR"

abbrev pub upstream_copy_pending : GoString
upstream_copy_pending = bytes "copy:PENDING"

abbrev pub upstream_copy_scanning : GoString
upstream_copy_scanning = bytes "copy:SCANNING"

abbrev pub upstream_copy_scanned : GoString
upstream_copy_scanned = bytes "copy:SCANNED"

abbrev pub upstream_copy_completed : GoString
upstream_copy_completed = bytes "copy:COMPLETED"

abbrev pub upstream_copy_failed : GoString
upstream_copy_failed = bytes "copy:FAILED"

abbrev pub upstream_retained_content : GoString
upstream_retained_content = bytes "revive:retained_content"

abbrev pub upstream_cleanup_cancelled : GoString
upstream_cleanup_cancelled = bytes "cleanup:cancelled"

abbrev pub upstream_copy_removed : GoString
upstream_copy_removed = bytes "cleanup:copy_removed"

-- The prefixes under which a cleanup marker keeps the status before it.
abbrev pub cleanup_cancelled_prefix : GoString
cleanup_cancelled_prefix = bytes "cleanup:cancelled|"

abbrev pub copy_removed_prefix : GoString
copy_removed_prefix = bytes "cleanup:copy_removed|"
