-- ===== src/Fsafe/Delete/Safe.antt =====
-- What a removal of content may touch.
use cd.Prelude.{
  ◌≡◌, refl, Bool, true, false, not, Option, none, some, List, [], ◌∷◌, arith, Bool-cases, inl, inr,
  Option-cases, ◌⊎◌, all, subst, sym,
}
use cd.Go.Text.{GoString, bytes, str_eq}
use cd.Go.Paths.{clean, join, dir}
use cd.Reconcile.World.{FsError, found, failure}
use cd.Reconcile.Manifest.{bad_relative_path}
use cd.Fsafe.Disk.{Disk, NodeInfo, Visit, walk_fault, entry, is_dir, is_regular, is_symlink}
use cd.Fsafe.Confine.{rel, outside_root, elements, within_or_equal}
use cd.Fsafe.Components.{
  Unlinked, component_failure-Unlinked, safe_absolute_components, safe_plan_components,
  open_save_root,
}
use cd.Fsafe.Delete.{
  Removal, remove, remove_all, tree_error, removed, remove_tree, delete_found, delete_relative,
  delete, relative_content,
}

abbrev pub base_of : Removal → GoString
base_of (remove base relative) = base
base_of (remove_all base relative) = base

abbrev pub relative_of : Removal → GoString
relative_of (remove base relative) = relative
relative_of (remove_all base relative) = relative

-- An entry that is no link.
abbrev pub no_link : Visit → Bool
no_link (walk_fault err) = false
no_link (entry kind info) = not (is_symlink kind)

-- A file may be removed where the name is a regular file; a directory with its content where it is
-- a direct child of the base and a walk of it met neither an error nor a link.
abbrev pub Fits : Disk → Removal → NodeInfo → Type 0
Fits disk (remove base relative) info = is_regular info.kind ≡ true
Fits disk (remove_all base relative) info =
    (is_dir info.kind ≡ true)
    × (str_eq (dir relative) (bytes ".") ≡ true)
    × (all no_link (disk.walk (join (base ∷ relative ∷ []))) ≡ true)

-- The path from the base down to the name, and what it meets.
pub record Descent (disk : Disk) (base relative : GoString) : Type 0 where
  pub path : GoString
  pub leads : rel base (join (base ∷ relative ∷ [])) ≡ some path
  pub inside : outside_root path ≡ false
  pub unlinked : (str_eq path (bytes ".") ≡ true) ⊎ Unlinked disk base (elements path)

-- A removal that keeps to the local root.
pub record SafeRemoval (disk : Disk) (root : GoString) (r : Removal) : Type 0 where
  pub inside : within_or_equal root (base_of r) ≡ true
  pub clean_name : bad_relative_path (relative_of r) ≡ false
  pub descent : Descent disk (base_of r) (relative_of r)
  pub info : NodeInfo
  pub seen : disk.lstat_in (base_of r) (relative_of r) ≡ found info
  pub fits : Fits disk r info

tree_error-no_link : (visits : List Visit) → tree_error visits ≡ none → all no_link visits ≡ true
unfolding tree_error
tree_error-no_link [] h = refl
tree_error-no_link (walk_fault err ∷ visits) h = cc
tree_error-no_link (entry kind info ∷ visits) h = ground (arith, tree_error-no_link visits)

module _ (disk : Disk) (remove_call : Removal → Option FsError) (root : GoString) where
  plan_components-Descent :
      (base relative : GoString)
      → safe_plan_components disk base relative ≡ none
      → Descent disk base relative
  unfolding safe_plan_components safe_absolute_components
  plan_components-Descent base relative h =
      elim (Option-cases (rel base (join (base ∷ relative ∷ [])))) [
        | inl none_such ↦ ground arith
        | inr (path, at) ↦ record {
          path = path;
          leads = at;
          inside = ground arith;
          unlinked = elim (Bool-cases (str_eq path (bytes "."))) [
            | inl dot ↦ inl dot
            | inr below ↦ inr (component_failure-Unlinked disk base (elements path) (ground arith))
          ];
        }
      ]

  open_save_root-inside :
      (save base : GoString)
      → open_save_root disk root save ≡ found base
      → within_or_equal root base ≡ true
  unfolding open_save_root within_or_equal
  open_save_root-inside save base h = ground arith

  delete_found-Fits :
      (base relative : GoString) (info : NodeInfo) (r : Removal)
      → (delete_found disk remove_call base relative info).removal ≡ some r
      → (base_of r ≡ base) × (relative_of r ≡ relative) × Fits disk r info
  unfolding delete_found remove_tree removed
  delete_found-Fits base relative info (remove b n) h = (ground arith, ground arith, ground arith)
  delete_found-Fits base relative info (remove_all b n) h =
      let same : (b ≡ base) × (n ≡ relative) = (ground arith, ground arith) in
      let walked : tree_error (disk.walk (join (base ∷ relative ∷ []))) ≡ none = ground arith in
      (
        same.0,
        same.1,
        (
          ground arith,
          ground arith,
          rw (same.0, same.1) (tree_error-no_link (disk.walk (join (base ∷ relative ∷ []))) walked),
        ),
      )

  relative-SafeRemoval :
      (base relative : GoString) (r : Removal)
      → within_or_equal root base ≡ true
      → (delete_relative disk remove_call base relative).removal ≡ some r
      → SafeRemoval disk root r
  unfolding delete_relative
  relative-SafeRemoval base relative r within h =
      elim (disk.lstat_in base relative)
          as (λ x. disk.lstat_in base relative ≡ x → SafeRemoval disk root r) [
            | failure err ↦ λ eq. ground arith
            | found info ↦ λ eq.
                let (at_base, at_relative, fits) =
                  delete_found-Fits base relative info r (ground arith) in
                record {
                  inside = subst (λ b. within_or_equal root b ≡ true) (sym at_base) within;
                  clean_name =
                      subst (λ n. bad_relative_path n ≡ false) (sym at_relative) (ground arith);
                  descent =
                      subst (λ b. Descent disk b (relative_of r)) (sym at_base)
                        (subst (Descent disk base) (sym at_relative)
                          (plan_components-Descent base relative (ground arith)));
                  info = info;
                  seen = rw (at_base, at_relative) eq;
                  fits = fits;
                }
          ]
        refl

  -- Delete removes something only below a save root that it opened within the local root, under a clean
  -- relative path. Nothing on the way from the save root to the joined path was a link, and what lay
  -- there was a regular file, or a directory that is a direct child of the save root and in which a
  -- walk met no link.
  pub delete-SafeRemoval :
      (content save : GoString) (r : Removal)
      → (delete disk remove_call root content save).removal ≡ some r
      → SafeRemoval disk root r
  unfolding delete
  delete-SafeRemoval content save r h =
      elim (open_save_root disk root (clean save))
          as (λ x. open_save_root disk root (clean save) ≡ x → SafeRemoval disk root r) [
            | failure err ↦ λ eq. ground arith
            | found base ↦ λ eq.
                elim (Option-cases (relative_content (clean save) base (clean content))) [
                  | inl outside ↦ ground arith
                  | inr (relative, at) ↦
                      relative-SafeRemoval base relative r
                        (open_save_root-inside (clean save) base eq) (ground arith)
                ]
          ]
        refl
