-- ===== src/Fsafe/Roots.antt =====
-- internal/fsafe/fsafe.go: the local root and the save roots below it.
use mathlib.Core.List.{reverse}
use cd.Prelude.{Bool, true, false, ◌||◌, ◌&&◌, not, none, some, List, [], ◌∷◌, if◌then◌else◌}
use cd.Go.Text.{GoString, str_eq}
use cd.Go.Paths.{slash, is_abs, clean, join}
use cd.Reconcile.World.{plain, FsReply, found, failure}
use cd.Fsafe.Disk.{Disk, NodeInfo, is_dir, is_not_exist, ◌>>=◌}
use cd.Fsafe.Confine.{
  within_or_equal, strictly_within, has_reserved, outside_root, rel, elements, abs_of,
}

-- `rejectReservedComponent` in front of the rest.
abbrev unreserved {ℓ} : {A : Type ℓ} → GoString → FsReply A → FsReply A
unreserved path rest = if has_reserved path then failure plain else rest

-- The root that `New` keeps.
unfoldable pub new_root : Disk → GoString → FsReply GoString
new_root disk local_root =
    if not (is_abs local_root)
    then failure plain
    else unreserved (clean local_root) (disk.eval_symlinks (clean local_root) >>= existing)
  where
    directory_only : GoString → NodeInfo → FsReply GoString
    directory_only path info = if is_dir info.kind then found path else failure plain

    existing : GoString → FsReply GoString
    existing evaluated =
        unreserved (clean evaluated)
          (disk.stat (clean evaluated) >>= directory_only (clean evaluated))

-- `resolveSaveRoot`
unfoldable pub resolve_existing_root : Disk → GoString → GoString → FsReply GoString
resolve_existing_root disk root save = if not (is_abs save) then failure plain else do
  evaluated ← disk.eval_symlinks (clean save)
  info ← disk.stat (clean evaluated)
  if not (is_dir info.kind)
      then failure plain
      else if not (within_or_equal root (clean evaluated))
      then failure plain
      else found (clean evaluated)

-- `validateExternalSaveRoot`; true where it returns nil.
unfoldable pub valid_external_root : Disk → GoString → Bool
valid_external_root disk save =
    if not (is_abs save) || not (str_eq (clean save) save) || has_reserved save
    then false
    else elim (disk.eval_symlinks save) [
      | failure err ↦ true
      | found evaluated ↦ not (has_reserved (clean evaluated))
    ]

-- `ValidatePersistedRoot`
unfoldable pub validate_persisted_root : Disk → GoString → GoString → FsReply GoString
unfolding valid_external_root resolve_existing_root
validate_persisted_root disk root save =
    if not (valid_external_root disk save) then failure plain else do
      evaluated ← resolve_existing_root disk root save
      if has_reserved evaluated then failure plain else found (clean evaluated)

-- The existing ancestor of a save root, and the elements below it, the topmost first.
pub record Ancestor : Type 0 where
  pub evaluated : GoString
  pub below : List GoString

-- One turn of the loop of `ResolveSaveRoot`, with the result of the next one.
unfoldable pub ancestor_or : List GoString → FsReply GoString → FsReply Ancestor → FsReply Ancestor
ancestor_or below (found evaluated) next =
    if has_reserved (clean evaluated)
    then failure plain
    else found (record { evaluated = clean evaluated; below = below })
ancestor_or below (failure err) next = if is_not_exist err then next else failure err

-- The loop, on the elements of `current`, the last of them first: filepath.Dir takes the last element
-- off, filepath.Base gives it, and only the root is its own parent.
unfoldable pub existing_ancestor : Disk → List GoString → List GoString → FsReply Ancestor
unfolding ancestor_or
existing_ancestor disk [] below = ancestor_or below (disk.eval_symlinks slash) (failure plain)
existing_ancestor disk (name ∷ parent) below =
    ancestor_or below (disk.eval_symlinks (abs_of (reverse (name ∷ parent))))
      (existing_ancestor disk parent (name ∷ below))

-- The canonical path of a save root that does not exist yet.
unfoldable pub missing_root : GoString → Ancestor → FsReply (GoString × Bool)
missing_root root a =
    if not (str_eq a.evaluated root) && not (strictly_within root a.evaluated)
    then failure plain
    else elim (rel root a.evaluated) [
      | none ↦ failure plain
      | some relative ↦
          if outside_root relative
          then failure plain
          else canonical (join (root ∷ join_all relative a.below ∷ []))
    ]
  where
    join_all : GoString → List GoString → GoString
    join_all relative [] = relative
    join_all relative (name ∷ names) = join_all (join (relative ∷ name ∷ [])) names

    canonical : GoString → FsReply (GoString × Bool)
    canonical path = if has_reserved path then failure plain else found (path, false)

unfoldable pub existing_root : GoString → GoString → FsReply (GoString × Bool)
existing_root root evaluated =
    if has_reserved evaluated
    then failure plain
    else if str_eq evaluated root
    then failure plain
    else found (evaluated, true)

-- `ResolveSaveRoot`: the canonical save root, and whether it exists.
unfoldable pub resolve_save_root : Disk → GoString → GoString → FsReply (GoString × Bool)
unfolding valid_external_root resolve_existing_root existing_root missing_root existing_ancestor
resolve_save_root disk root save =
    if not (valid_external_root disk save)
    then failure plain
    else elim (resolve_existing_root disk root save) [
      | found evaluated ↦ existing_root root evaluated
      | failure err ↦
          if not (is_not_exist err)
          then failure err
          else existing_ancestor disk (reverse (elements save)) [] >>= missing_root root
    ]
