-- ===== src/Fsafe/Listing.antt =====
-- internal/fsafe/fsafe.go, ListDirectory: the children of a directory that may be shown.
use cd.Prelude.{
  ◌≡◌, refl, Bool, true, false, ◌||◌, not, Option, none, some, List, [], ◌∷◌, arith, if◌then◌else◌,
  All, Bool-cases, inl, inr,
}
use cd.Go.Text.{GoString, bytes, str_eq, str_lt}
use cd.Go.Paths.{is_abs, clean, join}
use cd.Reconcile.World.{plain, FsReply, found, failure}
use cd.Fsafe.Disk.{Disk, NodeKind, NodeInfo, is_dir, is_regular, is_symlink, ◌>>=◌}
use cd.Fsafe.Confine.{rel, outside_root, within_or_equal}

-- The names in a directory below the opened local root (`read_dir`), the Lstat of a name in it, and
-- opening a path below the root with Stat of what was opened.
pub record Reads : Type 0 where
  pub read_dir : GoString → FsReply (List GoString)
  pub lstat_child : GoString → GoString → FsReply NodeInfo
  pub open_stat : GoString → FsReply NodeInfo

pub data Visibility : Type 0 where
  all_entries dirs_only files_only : Visibility

-- The switch on the filter; `none` is ErrInvalidVisibility.
unfoldable pub visibility_of : GoString → Option Visibility
visibility_of v =
    if str_eq v (bytes "all")
    then some all_entries
    else if str_eq v (bytes "dirs")
    then some dirs_only
    else if str_eq v (bytes "files")
    then some files_only
    else none

-- What a link leads to, if it stays within the root; `none` where the child is passed over.
unfoldable pub link_target : Disk → Reads → GoString → FsReply GoString → Option NodeInfo
link_target disk r root (failure err) = none
link_target disk r root (found evaluated) =
    if not (within_or_equal root (clean evaluated))
    then none
    else elim (rel root (clean evaluated)) [
      | none ↦ none
      | some relative ↦
          if outside_root relative
          then none
          else elim (r.open_stat relative) [ failure err ↦ none | found info ↦ some info ]
    ]

-- The child's own information, or that of its target.
unfoldable pub child_info :
    Disk → Reads → GoString → GoString → GoString → GoString → Option NodeInfo
unfolding link_target
child_info disk r root dir path name = elim (r.lstat_child dir name) [
  | failure err ↦ none
  | found info ↦ elim (is_symlink info.kind) [
    | true ↦ link_target disk r root (disk.eval_symlinks (join (path ∷ name ∷ [])))
    | false ↦ some info
  ]
]

abbrev pub is_shown : Visibility → NodeKind → Bool
is_shown all_entries kind = is_dir kind || is_regular kind
is_shown dirs_only kind = is_dir kind
is_shown files_only kind = is_regular kind

abbrev child_shown : Visibility → Option NodeInfo → Bool
child_shown v none = false
child_shown v (some info) = is_shown v info.kind

-- The loop over the entries.
unfoldable pub shown_children :
    Disk → Reads → GoString → Visibility → GoString → GoString → List GoString → List GoString
shown_children disk r root v dir path [] = []
shown_children disk r root v dir path (name ∷ names) =
    let rest = shown_children disk r root v dir path names in
    if child_shown v (child_info disk r root dir path name)
    then join (path ∷ name ∷ []) ∷ rest
    else rest

-- sort.Strings
insert_sorted : GoString → List GoString → List GoString
insert_sorted s [] = s ∷ []
insert_sorted s (t ∷ ts) =
    let rest = insert_sorted s ts in if str_lt t s then t ∷ rest else s ∷ t ∷ ts

unfoldable pub sort_strings : List GoString → List GoString
unfolding insert_sorted
sort_strings [] = []
sort_strings (s ∷ ss) = insert_sorted s (sort_strings ss)

-- The requested directory, opened below the root by its relative path.
opened_listing :
    Disk → Reads → GoString → Visibility → GoString → GoString → FsReply (List GoString)
opened_listing disk r root v path relative = do
  requested ← r.open_stat relative
  if not (is_dir requested.kind) then failure plain else do
    names ← r.read_dir relative
    found (sort_strings (shown_children disk r root v relative path names))

-- `ListDirectory`; ErrUnsafePath and ErrInvalidVisibility are plain errors here.
unfoldable pub list_directory :
    Disk → Reads → GoString → GoString → GoString → FsReply (List GoString)
unfolding visibility_of opened_listing shown_children sort_strings
list_directory disk r root path filter = elim (visibility_of filter) [
  | none ↦ failure plain
  | some v ↦ if not (is_abs path) || not (str_eq (clean path) path) then failure plain else do
    evaluated ← disk.eval_symlinks path
    if not (within_or_equal root (clean evaluated))
        then failure plain
        else elim (rel root (clean evaluated)) [
          | none ↦ failure plain
          | some relative ↦
              if outside_root relative
              then failure plain
              else opened_listing disk r root v path relative
        ]
]

-- A listed path is the join of the directory and an entry whose own kind, or that of its target
-- within the root, passes the filter.
abbrev pub IsListed : Disk → Reads → GoString → Visibility → GoString → GoString → GoString → Type 0
IsListed disk r root v dir path p =
    (name : GoString) × (p ≡ join (path ∷ name ∷ []))
    × (child_shown v (child_info disk r root dir path name) ≡ true)

module _ (disk : Disk) (r : Reads) (root : GoString) (v : Visibility) (dir path : GoString) where
  shown_children-IsListed :
      (names : List GoString)
      → All (IsListed disk r root v dir path) (shown_children disk r root v dir path names)
  unfolding shown_children
  shown_children-IsListed [] = tt
  shown_children-IsListed (name ∷ names) =
      elim (Bool-cases (child_shown v (child_info disk r root dir path name))) [
        | inl shown ↦ rw shown ((name, refl, shown), shown_children-IsListed names)
        | inr hidden ↦ rw hidden (shown_children-IsListed names)
      ]

insert_sorted-All {κ} :
    (P : GoString → Type κ) (s : GoString) (ts : List GoString)
    → P s
    → All P ts
    → All P (insert_sorted s ts)
unfolding insert_sorted
insert_sorted-All P s [] p ps = (p, tt)
insert_sorted-All P s (t ∷ ts) p ps = elim (Bool-cases (str_lt t s)) [
  | inl before ↦ rw before (ps.0, insert_sorted-All P s ts p ps.1)
  | inr after ↦ rw after (p, ps)
]

sort_strings-All {κ} :
    (P : GoString → Type κ) (ss : List GoString) → All P ss → All P (sort_strings ss)
unfolding sort_strings
sort_strings-All P [] ps = tt
sort_strings-All P (s ∷ ss) ps =
    insert_sorted-All P s (sort_strings ss) ps.0 (sort_strings-All P ss ps.1)

-- A link is shown only for a target within the root.
link_target-within :
    (disk : Disk) (r : Reads) (root evaluated : GoString) (info : NodeInfo)
    → link_target disk r root (found evaluated) ≡ some info
    → within_or_equal root (clean evaluated) ≡ true
unfolding link_target
link_target-within disk r root evaluated info h = ground arith
