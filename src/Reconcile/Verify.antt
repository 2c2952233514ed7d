-- ===== src/Reconcile/Verify.antt =====
-- internal/reconcile/reconcile.go, verifyAndRecord: the check of the copied content, with the
-- operator's overrides of paths and priorities applied first.
pub mod Frame
pub mod Content
pub mod Effects
pub mod Selection
use cd.Prelude.{
  ℕ, ◌+◌, ◌-◌, ℤ, pos, negsuc, Bool, true, false, ◌&&◌, ◌||◌, not, Option, none, some, List, [],
  ◌∷◌, map, ltb, if◌then◌else◌, is_nil, max_int64, eqb_ℤ,
}
use cd.Go.Text.{GoString}
use cd.Go.Paths.{join}
use cd.Domain.Model.{Download, DownloadFile, FileOverride}
use cd.Reconcile.World.{
  FsError, plain, FailureKind, missing, FsOperation, no_operation, operation_inspect_candidate,
  operation_verify_manifest, diagnose, found, failure, ExpectedContent, FilePlan, Effect,
  plan_applied, Env,
}
use cd.Reconcile.Manifest.{is_magnet, workspace_root, copies_torrent_as_file, valid_manifest}

-- `refused` is errCloudContentLayout, an error that is no filesystem failure.
pub data VerifyError : Type 0 where
  manifest_error refused : VerifyError
  local_error : FsError → VerifyError

pub data Verified : Type 0 where
  recorded : Download → Verified
  unverified : VerifyError → Verified

-- The error as `Diagnose` sees it.
unfoldable pub fs_error : VerifyError → FsError
fs_error (local_error err) = err
fs_error _ = plain

abbrev candidate_operation : FsOperation → Bool
candidate_operation no_operation = true
candidate_operation operation_inspect_candidate = true
candidate_operation operation_verify_manifest = true
candidate_operation _ = false

abbrev is_missing : FailureKind → Bool
is_missing missing = true
is_missing _ = false

unfoldable pub missing_local_content : VerifyError → Bool
unfolding fs_error
missing_local_content err =
    let diagnostic = diagnose (fs_error err) in
    is_missing diagnostic.kind && candidate_operation diagnostic.operation

find_override : ℤ → List FileOverride → Option FileOverride
find_override i [] = none
find_override i (o ∷ os) = if eqb_ℤ o.file_index i then some o else find_override i os

plan_of : DownloadFile → Option FileOverride → FilePlan
plan_of f none = record {
  index = f.index;
  original_path = f.relative_path;
  effective_path = f.relative_path;
  priority = pos 1;
  size = f.size;
}
plan_of f (some o) = record {
  index = f.index;
  original_path = f.relative_path;
  effective_path = o.relative_path;
  priority = o.priority;
  size = f.size;
}

-- The plans of all files, the files that stay, numbered anew, and whether any was overridden.
pub record Planned : Type 0 where
  pub plans : List FilePlan
  pub effective : List DownloadFile
  pub has_override : Bool

overridden : Option FileOverride → Bool
overridden none = false
overridden (some _) = true

-- The loop over the files; `kept` is the number of those that stayed so far.
pub plan_files : List FileOverride → ℕ → List DownloadFile → Planned
unfolding find_override plan_of overridden
plan_files overrides kept [] = record { plans = []; effective = []; has_override = false }
plan_files overrides kept (f ∷ fs) =
    let o = find_override f.index overrides in
    let plan = plan_of f o in
    let drops = eqb_ℤ plan.priority (pos 0) in
    let rest = plan_files overrides (if drops then kept else kept + 1) fs in
    record {
      plans = plan ∷ rest.plans;
      effective =
          if drops
          then rest.effective
          else record f { index = pos kept; relative_path = plan.effective_path } ∷ rest.effective;
      has_override = overridden o || rest.has_override;
    }

-- The sum of the sizes, or `none` where it would pass the largest int64. (A negative size makes
-- the subtraction in the test wrap around to a negative number, so the test refuses it.)
selected_size : ℕ → List DownloadFile → Option ℕ
selected_size total [] = some total
selected_size total (f ∷ fs) = elim (room f.size) [
  | none ↦ none
  | some n ↦ selected_size (total + n) fs
]
  where
    room : ℤ → Option ℕ
    room (negsuc _) = none
    room (pos n) = if ltb (max_int64 - n) total then none else some n

abbrev pub expected_content : Download → List DownloadFile → ExpectedContent
expected_content d files = record {
  candidate_name = d.destination_name;
  multi_file = not (copies_torrent_as_file d);
  files =
      map (λ (f : DownloadFile). record { relative_path = f.relative_path; size = f.size }) files;
}

verify_expected : Env → Download → List DownloadFile → Verified
verify_expected e d files = elim (e.files.verify (workspace_root d) (expected_content d files)) [
  | failure err ↦ unverified (local_error err)
  | found c ↦ recorded (record d { content_path = c.path; total_size = c.size })
]

-- From the effective files on: their total, the manifest test, the check on disk.
verify_files : Env → Download → List DownloadFile → Verified
unfolding selected_size verify_expected
verify_files e d files = elim (selected_size 0 files) [
  | none ↦ unverified refused
  | some n ↦
      if not (valid_manifest (record d { total_size = pos n }) files)
      then unverified refused
      else verify_expected e d files
]

plan_root : Download → GoString
plan_root d =
    if copies_torrent_as_file d
    then workspace_root d
    else join (workspace_root d ∷ d.destination_name ∷ [])

abbrev Checked : Type 0
Checked = Verified × List Effect

verify_planned : Env → Download → Planned → Checked
unfolding verify_files plan_root
verify_planned e d p =
    if is_nil p.effective
    then (unverified refused, [])
    else if not p.has_override
    then (verify_files e d p.effective, [])
    else elim e.files.apply_file_plan [
      | none ↦ (verify_files e d p.effective, [])
      | some apply ↦ elim (apply (plan_root d) d.hash p.plans) [
        | some err ↦ (unverified (local_error err), plan_applied (plan_root d) ∷ [])
        | none ↦ (verify_files e d p.effective, plan_applied (plan_root d) ∷ [])
      ]
    ]

verify_listed : Env → Download → List DownloadFile → Checked
unfolding verify_planned plan_files
verify_listed e d files = elim e.repo.list_overrides [
  | none ↦ verify_planned e d (record { plans = []; effective = files; has_override = false })
  | some overrides ↦ elim (overrides d.hash) [
    | none ↦ (unverified manifest_error, [])
    | some os ↦ verify_planned e d (plan_files os 0 files)
  ]
]

verify_torrent : Env → Download → Checked
unfolding verify_listed
verify_torrent e d = elim (e.repo.list_download_files d.hash) [
  | none ↦ (unverified manifest_error, [])
  | some files ↦ verify_listed e d files
]

verify_unknown : Env → Download → Checked
verify_unknown e d = elim (e.files.verify_unknown_type (workspace_root d) d.destination_name) [
  | failure err ↦ (unverified (local_error err), [])
  | found c ↦ (
    recorded (record d {
      is_multi_file = some c.multi_file;
      content_path = c.path;
      total_size = c.size;
    }),
    [],
  )
]

-- `verifyAndRecord`
unfoldable pub verify_and_record : Env → Download → Checked
unfolding verify_torrent verify_unknown
verify_and_record e d =
    if is_magnet d.source_kind
    then verify_unknown e d
    else elim d.is_multi_file [ none ↦ verify_unknown e d | some _ ↦ verify_torrent e d ]
