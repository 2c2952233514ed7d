-- ===== src/Examples/Disks.antt =====
-- A disk with one arrived file, and the theorems at it.
use cd.Prelude.{
  ◌≡◌, refl, ◌↔◌, pos, true, false, ◌&&◌, not, none, some, [], ◌∷◌, if◌then◌else◌, all, arith,
  Option,
}
use cd.Go.Text.{GoString, bytes, str_eq, split_on, join_with, has_prefix, cut_prefix, contains_byte}
use cd.Go.Utf8.{valid_string, contains_control, scan, after_byte, lead}
use cd.Go.Paths.{is_abs, clean, join, clean_element, clean_elements, without_empty, dir}
use cd.Go.Paths.Clean.{is_plain}
use cd.Domain.State.{completed}
use cd.Domain.Model.{Download, DownloadFile, torrent}
use cd.Reconcile.World.{Filesystem, FsReply, found, ExpectedFile, Env, FsError}
use cd.Reconcile.Manifest.{
  bad_relative_path, workspace_root, valid_manifest, manifest_total, count_fits,
  copies_torrent_as_file,
}
use cd.Reconcile.Failure.{timed_out}
use cd.Reconcile.Verify.{verify_and_record, expected_content}
use cd.Reconcile.Arrival.{decide_verifying}
use cd.Reconcile.Decide.{decide}
use cd.Fsafe.Disk.{Disk, NodeInfo, regular, folder, is_not_exist}
use cd.Fsafe.Confine.{
  abs_of, within_or_equal, strictly_within, rel, rel_elements, elements, outside_root, climb,
}
use cd.Fsafe.Confine.Relative.{is_prefix}
use cd.Fsafe.Confine.Prefix.{within-is_prefix}
use cd.Fsafe.Roots.{resolve_existing_root}
use cd.Fsafe.Verify.{
  verify, verify_one_file, verify_manifest, verify_each, check_file, part_failure,
}
use cd.Fsafe.Verify.Exact.{Holds, sum_sizes, verify_manifest-exact}
use cd.Fsafe.Interface.{on_disk}
use cd.Fsafe.Completion.{Arrived, decide-completed}
use cd.Examples.Rows.{sample_hash, sample_root, sample_files, sample_env, arrived_row}
use cd.Fsafe.Delete.{Removal, remove_all, delete, tree_error}
use cd.Fsafe.Delete.Safe.{SafeRemoval, delete-SafeRemoval}
use cd.Fsafe.Components.{
  open_save_root, safe_plan_components, safe_absolute_components, component_failure,
}

abbrev pub local_root : GoString
local_root = bytes "/downloads"

abbrev staged_file : NodeInfo
staged_file = record { kind = regular; size = pos 700; identity = 1 }

-- One file in the workspace, and directories everywhere else.
abbrev staged : GoString → FsReply NodeInfo
staged p =
    if str_eq p (bytes "/downloads/.cd211/0123456789abcdef0123456789abcdef01234567/film")
    then found staged_file
    else found (record { kind = folder; size = pos 0; identity = 2 })

abbrev pub disk : Disk
disk = record {
  lstat = staged;
  stat = staged;
  eval_symlinks = λ p. found p;
  walk = λ p. [];
  anchored = λ dir p. staged (join (dir ∷ p ∷ []));
  lstat_in = λ dir p. staged (join (dir ∷ p ∷ []));
}

abbrev disk_files : Filesystem
disk_files = on_disk disk local_root sample_files

abbrev pub film : ExpectedFile
film = record { relative_path = bytes "film"; size = pos 700 }

abbrev film_row : DownloadFile
film_row = record {
  download_hash = sample_hash;
  index = pos 0;
  relative_path = bytes "film";
  size = pos 700;
  priority = pos 1;
}

abbrev disk_env : Env
disk_env = record sample_env {
  files = disk_files;
  repo = record { list_download_files = λ hash. some (film_row ∷ []); list_overrides = none };
}

-- A torrent of one file whose content is checked.
abbrev pub torrent_row : Download
torrent_row = record arrived_row { source_kind = torrent; is_multi_file = some false }

verify_manifest-exact_example :
    (verify_manifest disk sample_root (film ∷ []) ≡ found (pos 700))
    ↔ (Holds disk sample_root (film ∷ []) × (pos 700 ≡ pos (sum_sizes (film ∷ []))))
verify_manifest-exact_example =
    verify_manifest-exact disk sample_root (film ∷ []) (pos 700) (omega arith, tt)

elements_plain : all is_plain (bytes "downloads" ∷ bytes "film" ∷ []) ≡ true
unfolding bytes str_eq contains_byte
elements_plain = refl

within-is_prefix_example :
    (within_or_equal
        (abs_of (bytes "downloads" ∷ []))
        (abs_of (bytes "downloads" ∷ bytes "film" ∷ []))
      ≡ is_prefix (bytes "downloads" ∷ []) (bytes "downloads" ∷ bytes "film" ∷ []))
    × (strictly_within
          (abs_of (bytes "downloads" ∷ []))
          (abs_of (bytes "downloads" ∷ bytes "film" ∷ []))
        ≡ (is_prefix (bytes "downloads" ∷ []) (bytes "downloads" ∷ bytes "film" ∷ [])
            && not (is_prefix (bytes "downloads" ∷ bytes "film" ∷ []) (bytes "downloads" ∷ []))))
unfolding bytes str_eq contains_byte
within-is_prefix_example =
    within-is_prefix (bytes "downloads" ∷ []) (bytes "downloads" ∷ bytes "film" ∷ []) refl refl

film_done : (decide disk_env torrent_row).next.state ≡ completed
unfolding decide decide_verifying timed_out verify_and_record workspace_root copies_torrent_as_file
    valid_manifest manifest_total count_fits bad_relative_path verify verify_one_file
    verify_manifest verify_each check_file part_failure resolve_existing_root within_or_equal rel
    rel_elements elements outside_root climb is_abs clean join clean_element clean_elements
    without_empty bytes str_eq split_on join_with has_prefix cut_prefix contains_byte valid_string
    contains_control scan after_byte lead
film_done = refl

decide-completed_example :
    Arrived disk local_root
      (expected_content torrent_row (film_row ∷ [])).files
      (decide disk_env torrent_row).next.total_size
decide-completed_example =
    decide-completed disk local_root disk_env torrent_row sample_files (film_row ∷ []) refl refl
      refl refl refl (omega arith, tt) film_done

abbrev removes : Removal → Option FsError
removes r = none

abbrev film_path : GoString
film_path = bytes "/downloads/film"

-- A legacy torrent that lies in a directory of the local root.
film_removed :
    (delete disk removes local_root film_path local_root).removal
    ≡ some (remove_all local_root (bytes "film"))
unfolding delete open_save_root safe_plan_components safe_absolute_components component_failure
    bad_relative_path tree_error is_not_exist rel rel_elements elements outside_root climb is_abs
    clean join dir clean_element clean_elements without_empty bytes str_eq split_on join_with
    has_prefix cut_prefix contains_byte valid_string contains_control scan after_byte lead
film_removed = refl

delete-SafeRemoval_example : SafeRemoval disk local_root (remove_all local_root (bytes "film"))
delete-SafeRemoval_example =
    delete-SafeRemoval disk removes local_root film_path local_root
      (remove_all local_root (bytes "film")) film_removed
