-- ===== src/Fsafe/Delete.antt =====
-- internal/fsafe/fsafe.go: the removal of a torrent's content.
pub mod Safe
use cd.Prelude.{
  ◌≡◌, refl, Bool, true, false, ◌&&◌, ◌||◌, not, Option, none, some, List, [], ◌∷◌, arith,
  if◌then◌else◌,
}
use cd.Go.Text.{GoString, bytes, str_eq}
use cd.Go.Paths.{is_abs, clean, join, dir}
use cd.Reconcile.World.{FsError, plain, FsReply, found, failure}
use cd.Reconcile.Manifest.{bad_relative_path}
use cd.Fsafe.Disk.{
  Disk, NodeInfo, Visit, walk_fault, entry, is_dir, is_regular, is_symlink, is_not_exist,
}
use cd.Fsafe.Confine.{rel, outside_root}
use cd.Fsafe.Verify.{valid_manifest_path}
use cd.Fsafe.Components.{open_save_root, safe_plan_components}

-- What is removed in the opened save root: one file (Remove), or a directory with all in it (RemoveAll).
pub data Removal : Type 0 where
  remove remove_all : GoString → GoString → Removal

-- What the call returns, and the removal that it made, if any.
pub record Deleted : Type 0 where
  pub error : Option FsError
  pub removal : Option Removal

abbrev refused : FsError → Deleted
refused err = record { error = some err; removal = none }

abbrev nothing_there : Deleted
nothing_there = record { error = none; removal = none }

-- An error as it came from package os, or inside one of fmt.Errorf, through which os.IsNotExist does
-- not look.
pub data WalkError : Type 0 where
  wrapped : FsError → WalkError
  linked_tree : WalkError

-- os.IsNotExist of the error of a walk.
abbrev walk_not_exist : WalkError → Bool
walk_not_exist (wrapped err) = false
walk_not_exist linked_tree = false

abbrev walk_error : WalkError → FsError
walk_error (wrapped err) = err
walk_error linked_tree = plain

-- `rejectSymlinkTree`, over the calls that filepath.WalkDir makes; `none` where it returns nil.
unfoldable pub tree_error : List Visit → Option WalkError
tree_error [] = none
tree_error (walk_fault err ∷ visits) = some (wrapped err)
tree_error (entry kind info ∷ visits) = elim (is_symlink kind) [
  | true ↦ some linked_tree
  | false ↦ tree_error visits
]

-- The relative path of the content: below the save path as given, else below the evaluated one.
relative_content : GoString → GoString → GoString → Option GoString
relative_content save evaluated content = elim (rel save content) [
  | none ↦ rel evaluated content
  | some relative ↦ elim (outside_root relative) [
    | true ↦ rel evaluated content
    | false ↦ some relative
  ]
]

-- What the removal returns; content that is gone already is no error.
removed : (Removal → Option FsError) → Removal → Deleted
removed remove_call r = elim (remove_call r) [
  | none ↦ record { error = none; removal = some r }
  | some err ↦ record { error = if is_not_exist err then none else some err; removal = some r }
]

remove_tree : Disk → (Removal → Option FsError) → GoString → GoString → Deleted
unfolding tree_error removed
remove_tree disk remove_call evaluated relative =
    elim (tree_error (disk.walk (join (evaluated ∷ relative ∷ [])))) [
      | some err ↦ if walk_not_exist err then nothing_there else refused (walk_error err)
      | none ↦ removed remove_call (remove_all evaluated relative)
    ]

delete_found : Disk → (Removal → Option FsError) → GoString → GoString → NodeInfo → Deleted
unfolding remove_tree removed
delete_found disk remove_call evaluated relative info =
    if is_symlink info.kind
    then refused plain
    else if not (is_dir info.kind) && not (is_regular info.kind)
    then refused plain
    else if is_dir info.kind && not (str_eq (dir relative) (bytes "."))
    then refused plain
    else if is_dir info.kind
    then remove_tree disk remove_call evaluated relative
    else removed remove_call (remove evaluated relative)

delete_relative : Disk → (Removal → Option FsError) → GoString → GoString → Deleted
unfolding delete_found safe_plan_components
delete_relative disk remove_call evaluated relative =
    if not (valid_manifest_path relative)
    then refused plain
    else elim (safe_plan_components disk evaluated relative) [
      | some err ↦ refused err
      | none ↦ elim (disk.lstat_in evaluated relative) [
        | failure err ↦ if is_not_exist err then nothing_there else refused err
        | found info ↦ delete_found disk remove_call evaluated relative info
      ]
    ]

-- `Delete`
unfoldable pub delete : Disk → (Removal → Option FsError) → GoString → GoString → GoString → Deleted
unfolding delete_relative relative_content open_save_root
delete disk remove_call root content save =
    if not (is_abs save) || not (is_abs content)
    then refused plain
    else elim (open_save_root disk root (clean save)) [
      | failure err ↦ refused err
      | found evaluated ↦ elim (relative_content (clean save) evaluated (clean content)) [
        | none ↦ refused plain
        | some relative ↦ delete_relative disk remove_call evaluated relative
      ]
    ]
