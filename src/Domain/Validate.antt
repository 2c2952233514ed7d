-- ===== src/Domain/Validate.antt =====
-- internal/domain/projection.go, ValidateDownload and its helpers: what a row must satisfy before
-- it is persisted.
use cd.Prelude.{
  ℕ, ℤ, Bool, true, false, ◌&&◌, ◌||◌, not, Option, none, some, List, [], ◌∷◌, ◌==◌, ltb, leb,
  if◌then◌else◌, is_nil, is_some, is_neg, length, all, ◌*◌,
}
use cd.Go.Text.{GoString, bytes, str_eq, contains_byte}
use cd.Go.Utf8.{valid_string, contains_control}
use cd.Go.Paths.{is_abs, clean, join}
use cd.Domain.State.{
  State, submitting_copy, waiting_copy, verifying_local, completed, delete_requested, deleted,
  is_valid, state_eq,
}
use cd.Domain.Problem.{safe_problem_code}
use cd.Domain.Model.{Float64, SourceKind, magnet, torrent, other_source, Download}

-- The arithmetic of float64 on bit patterns, which is the processor's.
pub record FloatOps : Type 0 where
  pub is_nan : Float64 → Bool
  pub is_inf : Float64 → Bool
  pub le : Float64 → Float64 → Bool
  pub lt : Float64 → Float64 → Bool
  pub add : Float64 → Float64 → Float64
  pub mul : Float64 → Float64 → Float64
  pub div : Float64 → Float64 → Float64
  pub min : Float64 → Float64 → Float64
  pub max : Float64 → Float64 → Float64
  pub round : Float64 → Float64
  pub of_int : ℤ → Float64
  pub to_int : Float64 → ℤ

-- The bit patterns of the literals of the source.
abbrev pub float_zero : Float64
float_zero = 0

abbrev pub float_one : Float64
float_one = 0x3FF0000000000000

abbrev pub float_0_9 : Float64
float_0_9 = 0x3FECCCCCCCCCCCCD

abbrev pub float_0_09 : Float64
float_0_09 = 0x3FB70A3D70A3D70A

abbrev pub float_0_99 : Float64
float_0_99 = 0x3FEFAE147AE147AE

abbrev pub float_million : Float64
float_million = 0x412E848000000000

-- One constructor for each error of `ValidateDownload`, in the order of its tests.
pub data Invalid : Type 0 where
  hash name submission_uri source_kind state category cloud_folder save_path workspace : Invalid
  destination_name cloud_result_path copy_source_path content_path content_is_save : Invalid
  task_name total_size attempt_count error_code row_version : Invalid
  offline_progress copy_progress qbit_progress created_at updated_at phase_started_at : Invalid
  lease cloud_result_required copy_source_required : Invalid
  content_required completed_required deletion_content completed_forbidden tags : Invalid

-- A row of tests with early returns: the error of the first test that passes.
unfoldable pub first_failure : List (Bool × Invalid) → Option Invalid
first_failure [] = none
first_failure ((test, e) ∷ rest) = if test then some e else first_failure rest

unfoldable pub is_hash_byte : ℕ → Bool
is_hash_byte c = (leb b'0' c && leb c b'9') || (leb b'a' c && leb c b'f')

unfoldable pub valid_hash : GoString → Bool
unfolding is_hash_byte
valid_hash s = length s == 40 && all is_hash_byte s

unfoldable pub safe_component : GoString → Bool
safe_component s =
    not (
      is_nil s || str_eq s (bytes ".") || str_eq s (bytes "..") || not (valid_string s) || is_abs s)
    && not (contains_byte (λ c. c == b'/' || c == 0x5C) s || contains_control s)

unfoldable pub valid_task_name : GoString → Bool
valid_task_name s = valid_string s && not (contains_control s)

unfoldable pub absolute_path : GoString → Bool
absolute_path s = not (is_nil s) && is_abs s

unfoldable pub is_progress : FloatOps → Float64 → Bool
is_progress fl v = not (fl.is_nan v) && not (fl.is_inf v) && fl.le float_zero v && fl.le v float_one

unfoldable pub requires_cloud_result : State → Bool
requires_cloud_result submitting_copy = true
requires_cloud_result waiting_copy = true
requires_cloud_result verifying_local = true
requires_cloud_result completed = true
requires_cloud_result _ = false

unfoldable pub requires_copy_source : State → Bool
requires_copy_source waiting_copy = true
requires_copy_source verifying_local = true
requires_copy_source completed = true
requires_copy_source _ = false

unfoldable pub valid_source : SourceKind → Bool
valid_source magnet = true
valid_source torrent = true
valid_source other_source = false

-- A path that is absent or absolute.
abbrev optional_path : GoString → Bool
optional_path s = is_nil s || absolute_path s

bad_workspace : Download → Bool
bad_workspace d =
    not (is_nil d.workspace_path)
    && (not (absolute_path d.workspace_path)
        || not (str_eq (clean d.workspace_path) d.workspace_path)
        || not (str_eq (clean d.save_path) d.save_path)
        || not (str_eq d.workspace_path (join (d.save_path ∷ bytes ".cd211" ∷ d.hash ∷ []))))

-- The tests that a workflow step cannot change the outcome of, or that concern one field alone.
unfoldable pub field_tests : FloatOps → Download → List (Bool × Invalid)
unfolding bad_workspace
field_tests fl d =
    (not (valid_hash d.hash), hash)
    ∷ (not (safe_component d.name), name)
    ∷ (is_nil d.submission_uri, submission_uri)
    ∷ (not (valid_source d.source_kind), source_kind)
    ∷ (not (is_valid d.state), state)
    ∷ (not (is_nil d.category) && not (safe_component d.category), category)
    ∷ (not (absolute_path d.cloud_folder), cloud_folder)
    ∷ (not (absolute_path d.save_path), save_path)
    ∷ (bad_workspace d, workspace)
    ∷ (not (is_nil d.destination_name) && not (safe_component d.destination_name), destination_name)
    ∷ (not (optional_path d.cloud_result_path), cloud_result_path)
    ∷ (not (optional_path d.copy_source_path), copy_source_path)
    ∷ (not (optional_path d.content_path), content_path)
    ∷ (
      not (is_nil d.content_path) && str_eq (clean d.content_path) (clean d.save_path),
      content_is_save,
    )
    ∷ (not (valid_task_name d.cloud_task_name), task_name)
    ∷ (is_neg d.total_size, total_size)
    ∷ (is_neg d.attempt_count, attempt_count)
    ∷ (not (safe_problem_code d.last_error_code), error_code)
    ∷ (is_neg d.row_version, row_version)
    ∷ (not (is_progress fl d.offline_progress), offline_progress)
    ∷ (not (is_progress fl d.copy_progress), copy_progress)
    ∷ (not (is_progress fl d.qbit_progress), qbit_progress)
    ∷ (d.created_at == 0, created_at)
    ∷ (d.updated_at == 0, updated_at)
    ∷ (d.phase_started_at == 0, phase_started_at)
    ∷ []

abbrev differ : Bool → Bool → Bool
differ true b = not b
differ false b = b

-- The branch of `ValidateDownload` on the completion time.
unfoldable pub completion_tests : Download → List (Bool × Invalid)
completion_tests d =
    if state_eq d.state completed
    then (is_nil d.content_path, content_required)
      ∷ (not (is_some d.completed_at), completed_required)
      ∷ []
    else if state_eq d.state delete_requested || state_eq d.state deleted
    then (is_some d.completed_at && is_nil d.content_path, deletion_content) ∷ []
    else (is_some d.completed_at, completed_forbidden) ∷ []

-- The tests that relate the state to what the row must hold by then.
unfoldable pub evidence_tests : Download → List (Bool × Invalid)
evidence_tests d =
    (differ (is_nil d.lease_owner) (not (is_some d.lease_until)), lease)
    ∷ (requires_cloud_result d.state && is_nil d.cloud_result_path, cloud_result_required)
    ∷ (requires_copy_source d.state && is_nil d.copy_source_path, copy_source_required)
    ∷ []

unfoldable pub or_else : Option Invalid → Option Invalid → Option Invalid
or_else (some e) _ = some e
or_else none r = r

-- `none` is a nil error.
unfoldable pub validate_download : FloatOps → Download → Option Invalid
unfolding first_failure or_else
validate_download fl d = or_else (first_failure (field_tests fl d)) (
    or_else (first_failure (evidence_tests d)) (
      or_else (first_failure (completion_tests d))
        (first_failure ((ltb (64 * 1024) (length d.tags) || contains_control d.tags, tags) ∷ []))))
