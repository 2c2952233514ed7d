-- ===== src/Fsafe/Candidate.antt =====
-- internal/fsafe/fsafe.go: the candidate of a torrent's content, inspected without following links,
-- and content whose kind only the disk tells.
use cd.Prelude.{ℤ, pos, Bool, true, false, ◌&&◌, ◌||◌, not, List, [], ◌∷◌, if◌then◌else◌, add64}
use cd.Go.Text.{GoString}
use cd.Go.Paths.{clean, join}
use cd.Reconcile.World.{
  transient, unsafe_path, operation_inspect_candidate, operation_resolve_candidate,
  operation_measure_content, FsError, typed, FsReply, found, failure, UnknownContent, diagnose,
  FsOperation, Diagnostic,
}
use cd.Fsafe.Disk.{
  Disk, NodeInfo, Visit, walk_fault, entry, is_regular, is_dir, is_symlink, kind_is_missing, ◌>>=◌,
  or_error, classify_failure, classify_candidate_root_failure,
}
use cd.Fsafe.Confine.{valid_name, strictly_within}
use cd.Fsafe.Roots.{resolve_existing_root}

-- The three results of `inspectCandidate`.
pub record Candidate : Type 0 where
  pub path : GoString
  pub resolved : GoString
  pub info : NodeInfo

-- The steps of `inspectCandidate` after the first look at the candidate.
unfoldable pub resolve_candidate :
    Disk → GoString → GoString → GoString → NodeInfo → FsReply Candidate
resolve_candidate disk root save_root path first =
    if is_symlink first.kind then failure (typed unsafe_path operation_inspect_candidate) else do
      evaluated ←
          or_error (classify_failure operation_inspect_candidate transient)
            (disk.eval_symlinks path)
      if not (strictly_within save_root (clean evaluated))
            || not (strictly_within root (clean evaluated))
          then failure (typed unsafe_path operation_resolve_candidate)
          else do
            info ←
                or_error (classify_failure operation_inspect_candidate transient)
                  (disk.stat (clean evaluated))
            found (record { path = path; resolved = clean evaluated; info = info })

-- `inspectCandidate`
unfoldable pub candidate_of : Disk → GoString → GoString → GoString → FsReply Candidate
unfolding resolve_candidate
candidate_of disk root save name =
    if not (valid_name name) then failure (typed unsafe_path operation_inspect_candidate) else do
      save_root ← or_error classify_candidate_root_failure (resolve_existing_root disk root save)
      first ←
          or_error (classify_failure operation_inspect_candidate transient)
            (disk.lstat (join (clean save ∷ name ∷ [])))
      resolve_candidate disk root save_root (join (clean save ∷ name ∷ [])) first

abbrev is_inspection : FsOperation → Bool
is_inspection operation_inspect_candidate = true
is_inspection _ = false

-- What `InspectCandidate` makes of an error.
absent_or : FsError → Diagnostic → FsReply Bool
absent_or err diagnostic =
    if kind_is_missing diagnostic.kind && is_inspection diagnostic.operation
    then found false
    else failure err

-- `InspectCandidate`
unfoldable pub inspect_candidate : Disk → GoString → GoString → GoString → FsReply Bool
unfolding candidate_of absent_or
inspect_candidate disk root save name = elim (candidate_of disk root save name) [
  | failure err ↦ absent_or err (diagnose err)
  | found c ↦
      if not (is_dir c.info.kind) && not (is_regular c.info.kind)
      then failure (typed unsafe_path operation_inspect_candidate)
      else found true
]

-- The function that `treeSize` gives to filepath.WalkDir, over the calls that are left.
unfoldable pub sum_visits : ℤ → List Visit → FsReply ℤ
sum_visits total [] = found total
sum_visits total (walk_fault err ∷ visits) =
    failure (classify_failure operation_measure_content transient err)
sum_visits total (entry kind info ∷ visits) = elim (is_dir kind) [
  | true ↦ sum_visits total visits
  | false ↦ elim (is_symlink kind || not (is_regular kind)) [
    | true ↦ failure (typed unsafe_path operation_measure_content)
    | false ↦ elim info [
      | failure err ↦ failure (classify_failure operation_measure_content transient err)
      | found i ↦ sum_visits (add64 total i.size) visits
    ]
  ]
]

-- `treeSize`
unfoldable pub tree_size : Disk → GoString → FsReply ℤ
unfolding sum_visits
tree_size disk root = sum_visits (pos 0) (disk.walk root)

verify_tree : Disk → Candidate → FsReply UnknownContent
unfolding tree_size
verify_tree disk c = do
  size ← tree_size disk c.resolved
  found (record { path = c.path; size = size; multi_file = true })

-- `VerifyUnknownType`
unfoldable pub verify_unknown_type : Disk → GoString → GoString → GoString → FsReply UnknownContent
unfolding candidate_of verify_tree
verify_unknown_type disk root save name = do
  c ← candidate_of disk root save name
  if is_dir c.info.kind
      then verify_tree disk c
      else if not (is_regular c.info.kind)
      then failure (typed unsafe_path operation_inspect_candidate)
      else found (record { path = c.path; size = c.info.size; multi_file = false })
