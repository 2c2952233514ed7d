-- ===== src/Fsafe/Disk.antt =====
-- internal/fsafe/fsafe.go: the classification of errors, and the disk as the operating system shows
-- it. The calls of packages os and path/filepath that look at the disk are functions of the path:
-- the disk does not change while one check runs.
use cd.Prelude.{ℤ, Bool, true, false, List, ◌≡◌, refl, ℕ}
use cd.Go.Text.{GoString}
use cd.Reconcile.World.{
  FailureKind, missing, transient, FsOperation, operation_resolve_candidate, Errno, enoent, FsError,
  typed, errno, not_exist, diagnose, FsReply, found, failure,
}

-- The type bits of a file mode.
pub data NodeKind : Type 0 where
  regular folder symlink special : NodeKind

abbrev pub is_regular : NodeKind → Bool
is_regular regular = true
is_regular _ = false

abbrev pub is_dir : NodeKind → Bool
is_dir folder = true
is_dir _ = false

abbrev pub is_symlink : NodeKind → Bool
is_symlink symlink = true
is_symlink _ = false

-- os.NodeInfo, as far as the package reads it; os.SameFile compares identities.
pub record NodeInfo : Type 0 where
  pub kind : NodeKind
  pub size : ℤ
  pub identity : ℕ

-- One call of the function that filepath.WalkDir is given: with an error, or with an entry, its type
-- and what its Info returns.
pub data Visit : Type 0 where
  walk_fault : FsError → Visit
  entry : NodeKind → FsReply NodeInfo → Visit

-- os.Lstat, os.Stat, filepath.EvalSymlinks and the calls that filepath.WalkDir makes for a root. With
-- a directory and a relative path: os.OpenRoot of the directory, OpenRoot of the path in it and Stat of
-- what was opened (`anchored`); and Lstat of the path in the opened directory (`lstat_in`).
pub record Disk : Type 0 where
  pub lstat : GoString → FsReply NodeInfo
  pub stat : GoString → FsReply NodeInfo
  pub eval_symlinks : GoString → FsReply GoString
  pub walk : GoString → List Visit
  pub anchored : GoString → GoString → FsReply NodeInfo
  pub lstat_in : GoString → GoString → FsReply NodeInfo

infixl 20 ◌>>=◌
abbrev pub ◌>>=◌ {ℓ κ} : {A : Type ℓ} {B : Type κ} → FsReply A → (A → FsReply B) → FsReply B
found a >>= f = f a
failure err >>= f = failure err

-- The result with its error mapped, as `return ..., classify(err)` does.
abbrev pub or_error {ℓ} : {A : Type ℓ} → (FsError → FsError) → FsReply A → FsReply A
or_error g (found a) = found a
or_error g (failure err) = failure (g err)

abbrev is_enoent : Errno → Bool
is_enoent enoent = true
is_enoent _ = false

-- errors.Is(err, fs.ErrNotExist), and os.IsNotExist of an error that package os returned itself.
unfoldable pub is_not_exist : FsError → Bool
is_not_exist (errno n) = is_enoent n
is_not_exist not_exist = true
is_not_exist _ = false

fallback_kind : FailureKind → FailureKind → FailureKind
fallback_kind fallback transient = fallback
fallback_kind fallback kind = kind

-- `classifyFailure` of an error that is not nil.
unfoldable pub classify_failure : FsOperation → FailureKind → FsError → FsError
unfolding fallback_kind
classify_failure op fallback (typed kind o) = typed kind o
classify_failure op fallback err = typed (fallback_kind fallback (diagnose err).kind) op

abbrev pub kind_is_missing : FailureKind → Bool
kind_is_missing missing = true
kind_is_missing _ = false

-- `classifyCandidateRootFailure`
unfoldable pub classify_candidate_root_failure : FsError → FsError
unfolding classify_failure
classify_candidate_root_failure err =
    let classified = classify_failure operation_resolve_candidate transient err in
    elim (kind_is_missing (diagnose classified).kind) [
      | true ↦ typed transient operation_resolve_candidate
      | false ↦ classified
    ]

-- A chain succeeds through its first step.
pub bind_found {ℓ κ} :
    {A : Type ℓ} {B : Type κ} (r : FsReply A) (f : A → FsReply B) (b : B)
    → (r >>= f) ≡ found b
    → (a : A) × (r ≡ found a) × (f a ≡ found b)
bind_found (found a) f b p = (a, refl, p)
bind_found (failure err) f b p = cc

pub or_error-found {ℓ} :
    {A : Type ℓ} (g : FsError → FsError) (r : FsReply A) (a : A)
    → or_error g r ≡ found a
    → r ≡ found a
or_error-found g (found a) b p = p
or_error-found g (failure err) b p = cc
