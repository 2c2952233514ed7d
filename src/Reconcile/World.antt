-- ===== src/Reconcile/World.antt =====
-- What surrounds a workflow step: the answers of CloudDrive2 (internal/clouddrive/client.go), of
-- the local filesystem (internal/fsafe/fsafe.go), of the repository and of the clock. A step asks
-- each of them at most a few times, so its answers are functions of the request.
use cd.Prelude.{ℤ, Bool, Option, none, some, List}
use cd.Go.Text.{GoString, bytes}
use cd.Domain.Model.{Time, Float64, Download, DownloadFile, FileOverride}
use cd.Domain.Validate.{FloatOps}

pub data ErrorKind : Type 0 where
  temporary not_found unauthorized rejected invalid_input invalid_response other_kind : ErrorKind

-- The `Operation` of a clouddrive error, as far as the workflow looks at it.
pub data CloudOperation : Type 0 where
  create_folder add_offline other_operation : CloudOperation

pub record CloudError : Type 0 where
  pub operation : CloudOperation
  pub kind : ErrorKind

-- An error of a cloud call. `cloud` is what `errors.As` finds, `ended` says that the error is
-- context.Canceled or context.DeadlineExceeded, and `absent` that the error which it wraps is a
-- gRPC NotFound.
pub record CallError : Type 0 where
  pub cloud : Option CloudError
  pub ended : Bool
  pub absent : Bool

pub data Reply {ℓ} (A : Type ℓ) : Type ℓ where
  answer : A → Reply A
  fault : CallError → Reply A

pub data OfflineState : Type 0 where
  init downloading finished offline_error : OfflineState
  other_offline : GoString → OfflineState

unfoldable pub offline_text : OfflineState → GoString
offline_text init = bytes "INIT"
offline_text downloading = bytes "DOWNLOADING"
offline_text finished = bytes "FINISHED"
offline_text offline_error = bytes "ERROR"
offline_text (other_offline s) = s

pub record OfflineTask : Type 0 where
  pub name : GoString
  pub info_hash : GoString
  pub source_path : GoString
  pub state : OfflineState
  pub progress : Float64
  pub size : ℤ

pub data CopyState : Type 0 where
  pending scanning scanned copied copy_failed : CopyState
  other_copy : GoString → CopyState

unfoldable pub copy_text : CopyState → GoString
copy_text pending = bytes "PENDING"
copy_text scanning = bytes "SCANNING"
copy_text scanned = bytes "SCANNED"
copy_text copied = bytes "COMPLETED"
copy_text copy_failed = bytes "FAILED"
copy_text (other_copy s) = s

pub record CopyTask : Type 0 where
  pub source_path : GoString
  pub destination_path : GoString
  pub state : CopyState
  pub progress : Float64

pub data ContentKind : Type 0 where
  directory file other_content : ContentKind

pub record Content : Type 0 where
  pub path : GoString
  pub kind : ContentKind
  pub size : ℤ

pub data FailureKind : Type 0 where
  missing transient permission unsafe_path layout : FailureKind

-- `no_operation` is the empty operation of an error that is no `Failure`.
pub data FsOperation : Type 0 where
  no_operation operation_prepare_workspace operation_validate_workspace_identity : FsOperation
  operation_inspect_candidate operation_resolve_candidate operation_measure_content : FsOperation
  operation_verify_manifest operation_apply_file_plan : FsOperation

pub data Errno : Type 0 where
  enoent eacces eperm erofs eio estale ebusy etimedout other_errno : Errno

-- A filesystem error, by what `errors.As` and `errors.Is` find in it, the first that they find.
pub data FsError : Type 0 where
  typed : FailureKind → FsOperation → FsError
  errno : Errno → FsError
  not_exist : FsError
  denied : FsError
  plain : FsError

pub record Diagnostic : Type 0 where
  pub kind : FailureKind
  pub operation : FsOperation

kind_of_errno : Errno → FailureKind
kind_of_errno enoent = missing
kind_of_errno eacces = permission
kind_of_errno eperm = permission
kind_of_errno erofs = permission
kind_of_errno _ = transient

-- `Diagnose` of an error that is not nil, without the error number that it keeps for the log.
unfoldable pub diagnose : FsError → Diagnostic
unfolding kind_of_errno
diagnose (typed k op) = record { kind = k; operation = op }
diagnose (errno n) = record { kind = kind_of_errno n; operation = no_operation }
diagnose not_exist = record { kind = missing; operation = no_operation }
diagnose denied = record { kind = permission; operation = no_operation }
diagnose plain = record { kind = transient; operation = no_operation }

pub data FsReply {ℓ} (A : Type ℓ) : Type ℓ where
  found : A → FsReply A
  failure : FsError → FsReply A

pub record ExpectedFile : Type 0 where
  pub relative_path : GoString
  pub size : ℤ

pub record ExpectedContent : Type 0 where
  pub candidate_name : GoString
  pub multi_file : Bool
  pub files : List ExpectedFile

pub record VerifiedContent : Type 0 where
  pub path : GoString
  pub size : ℤ

pub record UnknownContent : Type 0 where
  pub path : GoString
  pub size : ℤ
  pub multi_file : Bool

pub record FilePlan : Type 0 where
  pub index : ℤ
  pub original_path : GoString
  pub effective_path : GoString
  pub priority : ℤ
  pub size : ℤ

-- The interface `CloudDrive`; a task that was not found is `none`.
pub record CloudDrive : Type 0 where
  pub ensure_offline : GoString → GoString → GoString → Reply OfflineTask
  pub inspect_offline : GoString → GoString → Reply (Option OfflineTask)
  pub inspect_content : GoString → Reply Content
  pub cancel_offline : GoString → GoString → Option CallError
  pub ensure_copy : GoString → GoString → Reply CopyTask
  pub inspect_copy : GoString → GoString → Reply (Option CopyTask)
  pub remove_copy : GoString → GoString → Option CallError

-- The interface `Filesystem`, and the optional `ApplyFilePlan`.
pub record Filesystem : Type 0 where
  pub verify : GoString → ExpectedContent → FsReply VerifiedContent
  pub verify_unknown_type : GoString → GoString → FsReply UnknownContent
  pub inspect_candidate : GoString → GoString → FsReply Bool
  pub delete : GoString → GoString → Option FsError
  pub prepare_workspace : GoString → GoString → FsReply GoString
  pub delete_workspace : GoString → GoString → Option FsError
  pub apply_file_plan : Option (GoString → GoString → List FilePlan → Option FsError)

-- The reads of `Repository`, and the optional `ListDownloadFileOverrides`; `none` is an error.
pub record Repository : Type 0 where
  pub list_download_files : GoString → Option (List DownloadFile)
  pub list_overrides : Option (GoString → Option (List FileOverride))

-- The durations of `Config` in nanoseconds.
pub record Config : Type 0 where
  pub poll_interval : Time
  pub offline_timeout : Time
  pub copy_timeout : Time
  pub verify_timeout : Time

-- One step's surroundings. The clock is read at most three times by a decision: `now` at its start,
-- `started` before the offline submission, and `retry_at` where a retry is scheduled.
pub record Env : Type 0 where
  pub config : Config
  pub floats : FloatOps
  pub cloud : CloudDrive
  pub files : Filesystem
  pub repo : Repository
  pub now : Time
  pub started : Time
  pub retry_at : Time

-- The labels under which a step is logged, and which name the operation of a cloud failure.
pub data Op : Type 0 where
  transition resolve_copy_source inspect_content reserve_destination ensure_offline : Op
  retry_cancel_offline inspect_offline retry_remove_copy retry_delete_copy : Op
  preflight_local ensure_copy inspect_copy verify_local cancel_offline remove_copy : Op
  pause_verified_copy pause_offline pause_remove_copy pause_copy delete_local cancel : Op

-- A call that changes something outside, whether it succeeds or not, in the order in which a step makes them.
pub data Effect : Type 0 where
  offline_submitted : GoString → Effect
  offline_cancelled : GoString → Effect
  copy_submitted : GoString → GoString → Effect
  copy_removed : GoString → GoString → Effect
  workspace_prepared : GoString → Effect
  workspace_deleted : GoString → Effect
  content_deleted : GoString → Effect
  plan_applied : GoString → Effect

-- The errors that a decision returns instead of a row: they leave the row uncommitted.
pub data DecideError : Type 0 where
  manifest_repository unclassified_call impossible_state : DecideError

-- What a decision yields: its label, the row to commit, its error, and what it did outside.
pub record Outcome : Type 0 where
  pub op : Op
  pub next : Download
  pub error : Option DecideError
  pub effects : List Effect

unfoldable pub outcome : Op → Download → List Effect → Outcome
outcome op d effects = record { op = op; next = d; error = none; effects = effects }

unfoldable pub broken : Op → Download → DecideError → List Effect → Outcome
broken op d e effects = record { op = op; next = d; error = some e; effects = effects }
