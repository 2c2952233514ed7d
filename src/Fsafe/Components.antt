-- ===== src/Fsafe/Components.antt =====
-- internal/fsafe/plan.go, safePlanComponents, and internal/fsafe/fsafe.go, openSaveRoot: how a save
-- root is opened, and a look at each component below it without following links.
use cd.Prelude.{
  ◌≡◌, Bool, true, false, not, Option, none, some, List, [], ◌∷◌, ◌==◌, arith, if◌then◌else◌,
}
use cd.Go.Text.{GoString, bytes, str_eq}
use cd.Go.Paths.{clean, join}
use cd.Reconcile.World.{
  transient, unsafe_path, operation_apply_file_plan, FsError, typed, plain, FsReply, found, failure,
}
use cd.Fsafe.Disk.{Disk, NodeInfo, is_dir, is_symlink, is_not_exist, classify_failure, ◌>>=◌}
use cd.Fsafe.Confine.{rel, outside_root, elements}

-- os.SameFile
abbrev pub same_file : NodeInfo → NodeInfo → Bool
same_file a b = a.identity == b.identity

-- `openSaveRoot`: the evaluated path whose directory was opened.
unfoldable pub open_save_root : Disk → GoString → GoString → FsReply GoString
open_save_root disk root save = do
  local ← disk.anchored root (bytes ".")
  evaluated ← disk.eval_symlinks (clean save)
  expected ← disk.stat (clean evaluated)
  if not (is_dir expected.kind) then failure plain else elim (rel root (clean evaluated)) [
    | none ↦ failure plain
    | some relative ↦ if outside_root relative then failure plain else do
      anchored ← disk.anchored root relative
      if same_file expected anchored then found (clean evaluated) else failure plain
  ]

-- The loop of `safeAbsoluteComponents` from `current` down; `none` where it ends without an error.
unfoldable pub component_failure : Disk → GoString → List GoString → Option FsError
component_failure disk current [] = none
component_failure disk current (part ∷ parts) = elim (disk.lstat (join (current ∷ part ∷ []))) [
  | found info ↦ elim (is_symlink info.kind) [
    | true ↦ some (typed unsafe_path operation_apply_file_plan)
    | false ↦ component_failure disk (join (current ∷ part ∷ [])) parts
  ]
  | failure err ↦ elim (is_not_exist err) [
    | true ↦ component_failure disk (join (current ∷ part ∷ [])) parts
    | false ↦ some (classify_failure operation_apply_file_plan transient err)
  ]
]

-- `safeAbsoluteComponents`; splitPath takes the elements of a clean relative path, by Dir and Base.
unfoldable pub safe_absolute_components : Disk → GoString → GoString → Option FsError
unfolding component_failure
safe_absolute_components disk root target = elim (rel root target) [
  | none ↦ some (typed unsafe_path operation_apply_file_plan)
  | some relative ↦
      if outside_root relative
      then some (typed unsafe_path operation_apply_file_plan)
      else if str_eq relative (bytes ".")
      then none
      else component_failure disk root (elements relative)
]

-- `safePlanComponents`
unfoldable pub safe_plan_components : Disk → GoString → GoString → Option FsError
unfolding safe_absolute_components
safe_plan_components disk root relative =
    safe_absolute_components disk root (join (root ∷ relative ∷ []))

abbrev linked : FsReply NodeInfo → Bool
linked (found info) = is_symlink info.kind
linked (failure err) = false

-- No component from `current` down is a link.
abbrev pub Unlinked : Disk → GoString → List GoString → Type 0
Unlinked disk current [] = Unit
Unlinked disk current (part ∷ parts) =
    (linked (disk.lstat (join (current ∷ part ∷ []))) ≡ false)
    × Unlinked disk (join (current ∷ part ∷ [])) parts

pub component_failure-Unlinked :
    (disk : Disk) (current : GoString) (parts : List GoString)
    → component_failure disk current parts ≡ none
    → Unlinked disk current parts
unfolding component_failure
component_failure-Unlinked disk current [] h = tt
component_failure-Unlinked disk current (part ∷ parts) h = (
  ground arith,
  component_failure-Unlinked disk (join (current ∷ part ∷ [])) parts (ground arith),
)
