-- ===== src/Fsafe/Verify.antt =====
-- internal/fsafe/fsafe.go: the check of a manifest against the disk.
pub mod Parts
pub mod Exact
use cd.Prelude.{
  ℕ, ◌+◌, ◌-◌, ℤ, pos, negsuc, Bool, true, false, ◌&&◌, ◌||◌, not, Option, none, some, List, [],
  ◌∷◌, ltb, if◌then◌else◌, is_nil, any, max_int64, eqb_ℤ, is_neg,
}
use cd.Go.Text.{GoString, str_eq, split_on}
use cd.Go.Paths.{clean, join}
use cd.Reconcile.World.{
  transient, unsafe_path, layout, operation_inspect_candidate, operation_verify_manifest, FsError,
  typed, FsReply, found, failure, ExpectedFile, ExpectedContent, VerifiedContent,
}
use cd.Reconcile.Manifest.{bad_relative_path}
use cd.Fsafe.Disk.{
  Disk, NodeInfo, is_regular, is_dir, is_symlink, ◌>>=◌, or_error, classify_failure,
  classify_candidate_root_failure,
}
use cd.Fsafe.Roots.{resolve_existing_root}
use cd.Fsafe.Candidate.{Candidate, candidate_of, tree_size}

-- `validManifestPath`: the tests that the reconciler's validateManifest makes of a path, negated.
abbrev pub valid_manifest_path : GoString → Bool
valid_manifest_path relative = not (bad_relative_path relative)

-- The loop over the parts of one path from `current` down; `none` where it ends without an error.
unfoldable pub part_failure : Disk → GoString → ℤ → List GoString → Option FsError
part_failure disk current size [] = none
part_failure disk current size (part ∷ parts) = elim (disk.lstat (join (current ∷ part ∷ []))) [
  | failure err ↦ some (classify_failure operation_verify_manifest transient err)
  | found info ↦ elim (is_symlink info.kind) [
    | true ↦ some (typed unsafe_path operation_verify_manifest)
    | false ↦ elim (is_nil parts) [
      | true ↦
          if not (is_regular info.kind) || not (eqb_ℤ info.size size)
          then some (typed layout operation_verify_manifest)
          else none
      | false ↦ elim (is_dir info.kind) [
        | true ↦ part_failure disk (join (current ∷ part ∷ [])) size parts
        | false ↦ some (typed layout operation_verify_manifest)
      ]
    ]
  ]
]

-- The body of the loop over the files: the size of the file, or the error.
unfoldable pub check_file : Disk → GoString → List GoString → ℕ → ExpectedFile → FsReply ℕ
unfolding part_failure
check_file disk root seen total f = sized f.size
  where
    on_disk : ℕ → Option FsError → FsReply ℕ
    on_disk n (some err) = failure err
    on_disk n none =
        if ltb (max_int64 - n) total
        then failure (typed layout operation_verify_manifest)
        else found n

    sized : ℤ → FsReply ℕ
    sized (negsuc n) = failure (typed unsafe_path operation_verify_manifest)
    sized (pos n) =
        if not (valid_manifest_path f.relative_path)
        then failure (typed unsafe_path operation_verify_manifest)
        else if any (str_eq f.relative_path) seen
        then failure (typed layout operation_verify_manifest)
        else on_disk n (part_failure disk root f.size (split_on b'/' f.relative_path))

-- The loop of `verifyManifest`, from the paths and the total of the files so far.
unfoldable pub verify_each : Disk → GoString → List GoString → ℕ → List ExpectedFile → FsReply ℤ
verify_each disk root seen total [] = found (pos total)
verify_each disk root seen total (f ∷ fs) = elim (check_file disk root seen total f) [
  | failure err ↦ failure err
  | found n ↦ verify_each disk root (f.relative_path ∷ seen) (total + n) fs
]

-- `verifyManifest`
unfoldable pub verify_manifest : Disk → GoString → List ExpectedFile → FsReply ℤ
unfolding verify_each
verify_manifest disk root files = verify_each disk root [] 0 files

-- The one listed file of a torrent that is no directory.
unfoldable pub verify_one_file :
    Disk → GoString → GoString → List ExpectedFile → FsReply VerifiedContent
verify_one_file disk root save (f ∷ []) = do
  save_root ← or_error classify_candidate_root_failure (resolve_existing_root disk root save)
  size ← verify_manifest disk save_root (f ∷ [])
  found (record { path = join (clean save ∷ f.relative_path ∷ []); size = size })
verify_one_file disk root save files = failure (typed layout operation_verify_manifest)

-- The manifest of a single file against the candidate; the files that reach it are none.
single_mismatch : ℤ → List ExpectedFile → Bool
single_mismatch size [] = false
single_mismatch size (f ∷ []) =
    not (valid_manifest_path f.relative_path) || is_neg f.size || not (eqb_ℤ size f.size)
single_mismatch size files = true

verify_single : Candidate → List ExpectedFile → FsReply VerifiedContent
unfolding single_mismatch
verify_single c files =
    if not (is_regular c.info.kind)
    then failure (typed layout operation_inspect_candidate)
    else if single_mismatch c.info.size files
    then failure (typed layout operation_verify_manifest)
    else found (record { path = c.path; size = c.info.size })

unfoldable pub verify_multi : Disk → Candidate → List ExpectedFile → FsReply VerifiedContent
unfolding tree_size verify_manifest
verify_multi disk c files =
    if not (is_dir c.info.kind) then failure (typed layout operation_inspect_candidate) else do
      size ←
          if is_nil files then tree_size disk c.resolved else verify_manifest disk c.resolved files
      found (record { path = c.path; size = size })

-- `Verify`
unfoldable pub verify : Disk → GoString → GoString → ExpectedContent → FsReply VerifiedContent
unfolding verify_one_file verify_single verify_multi candidate_of
verify disk root save x =
    if not x.multi_file && not (is_nil x.files) then verify_one_file disk root save x.files else do
      c ← candidate_of disk root save x.candidate_name
      if x.multi_file then verify_multi disk c x.files else verify_single c x.files
