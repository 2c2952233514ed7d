-- ===== src/Examples/Submissions.antt =====
-- A torrent that is submitted again, and the theorems at it.
use cd.Prelude.{◌≡◌, refl, pos, true, false, none, some, [], ◌∷◌, arith, List, Bool}
use cd.Go.Text.{bytes, str_eq, split_on, join_with, has_prefix, cut_prefix, contains_byte}
use cd.Go.Utf8.{valid_string, contains_control, scan, after_byte, lead}
use cd.Go.Paths.{is_abs, clean, join, base, dir, clean_element, clean_elements, without_empty}
use cd.Domain.State.{deleted, verifying_local, state_eq, is_valid}
use cd.Domain.Model.{Download, torrent, Submission}
use cd.Domain.Validate.{
  valid_hash, is_hash_byte, validate_download, first_failure, field_tests, evidence_tests,
  completion_tests, or_else, safe_component, valid_task_name, absolute_path, is_progress,
  valid_source, requires_cloud_result, requires_copy_source,
}
use cd.Reconcile.Evidence.{HasEvidence}
use cd.Reconcile.Manifest.{bad_relative_path, workspace_path_of}
use cd.Torrent.Files.Manifest.{manifest}
use cd.Torrent.Parse.{Result}
use cd.Fsafe.Confine.{within_or_equal, rel, rel_elements, elements, outside_root, climb}
use cd.Fsafe.Roots.{resolve_existing_root}
use cd.Fsafe.Verify.{
  verify, verify_one_file, verify_manifest, verify_each, check_file, part_failure,
}
use cd.Submission.Options.{safe_retained_name}
use cd.Submission.Retained.{
  Lookups, is_retained, retained_name, kept_files, expected_of, prepare_retained_content,
}
use cd.Submission.Service.{Service, Destination, category_missing, done}
use cd.Submission.Choices.{magnet_with_preferences, renamed, tagged, save_root}
use cd.Submission.Submit.{fresh_row, files_of, submission_of, no_options}
use cd.Submission.Submit.Evidence.{submission_of-HasEvidence}
use cd.Submission.Revival.{KeptOnDisk, submission_of-KeptOnDisk}
use cd.Examples.Rows.{sample_hash, sample_floats}
use cd.Examples.Torrents.{limits, parsers}
use cd.Examples.Disks.{disk, local_root, torrent_row}
use cd.Store.Create.{
  Tables, revived_row, create_submission, added, find_download, valid_submission, valid_files,
  revive_download, delete_files,
}
use cd.Store.Create.Kept.{IsCreated, create_submission-IsCreated}
use cd.Domain.Problem.{safe_problem_code}

-- The deleted row whose content was kept.
abbrev deleted_row : Download
deleted_row = record torrent_row {
  state = deleted;
  content_path = bytes "/downloads/.cd211/0123456789abcdef0123456789abcdef01234567/film";
}

abbrev lookups : Lookups
lookups = record {
  get_download = λ hash. some deleted_row;
  list_overrides = none;
  verify = verify disk local_root;
}

abbrev service : Service
service = record {
  cloud_root = bytes "/cloud";
  local_root = local_root;
  limits = limits;
  parsers = parsers;
  magnet_url = record { trackers = λ uri. []; with_trackers = λ uri trackers. uri };
  to_lower = λ s. s;
  lookups = lookups;
  get_category = λ name. category_missing;
  list_settings = none;
  resolver = none;
  create_submission = λ s. some (s.download, true);
  now = 2000000000000;
}

abbrev film_result : Result
film_result = record {
  hash = sample_hash;
  name = bytes "film";
  magnet_uri = bytes "magnet:?xt=urn:btih:0123456789abcdef0123456789abcdef01234567";
  total_size = pos 700;
  multi_file = false;
  private = none;
  files = record { index = pos 0; relative_path = bytes "film"; size = pos 700 } ∷ [];
}

abbrev root_destination : Destination
root_destination = ([], bytes "/cloud", local_root)

abbrev film_submission : Submission
film_submission = record {
  download =
      prepare_retained_content lookups
        (fresh_row service film_result torrent root_destination film_result.magnet_uri local_root
          no_options none)
        (files_of torrent film_result);
  files = files_of torrent film_result;
}

film_built :
    submission_of service film_result torrent root_destination false no_options
    ≡ done film_submission
unfolding submission_of magnet_with_preferences renamed tagged save_root workspace_path_of
    valid_hash is_hash_byte is_abs clean join clean_element clean_elements without_empty bytes
    str_eq split_on join_with
film_built = refl

submission_of-HasEvidence_example : HasEvidence film_submission.download
submission_of-HasEvidence_example =
    submission_of-HasEvidence service film_result torrent root_destination false no_options
      film_submission film_built

film_starts : film_submission.download.state ≡ verifying_local
unfolding prepare_retained_content fresh_row files_of manifest is_retained retained_name kept_files
    expected_of safe_retained_name state_eq verify verify_one_file verify_manifest verify_each
    check_file part_failure bad_relative_path resolve_existing_root within_or_equal rel rel_elements
    elements outside_root climb is_abs clean join base dir clean_element clean_elements
    without_empty bytes str_eq split_on join_with has_prefix cut_prefix contains_byte valid_string
    contains_control scan after_byte lead
film_starts = refl

submission_of-KeptOnDisk_example :
    KeptOnDisk lookups sample_hash disk local_root film_submission.files
unfolding files_of manifest
submission_of-KeptOnDisk_example =
    submission_of-KeptOnDisk service film_result root_destination false no_options disk local_root
      film_submission refl (omega arith, tt) film_built film_starts

-- The table that holds the deleted row, and no constraint of the schema.
abbrev tables : Tables
tables = record { downloads = deleted_row ∷ []; files = []; events = [] }

abbrev no_constraint : List Download → Download → Bool
no_constraint rows row = false

abbrev film_row_again : Download
film_row_again = revived_row deleted_row film_submission.download

abbrev tables_after : Tables
tables_after = record {
  downloads = film_row_again ∷ [];
  files = film_submission.files;
  events = record { previous = some deleted; after = film_row_again } ∷ [];
}

film_created :
    create_submission sample_floats no_constraint film_submission tables
    ≡ added film_row_again tables_after
unfolding create_submission find_download valid_submission valid_files revive_download delete_files
    prepare_retained_content fresh_row files_of manifest is_retained retained_name kept_files
    expected_of safe_retained_name state_eq verify verify_one_file verify_manifest verify_each
    check_file part_failure bad_relative_path resolve_existing_root within_or_equal rel rel_elements
    elements outside_root climb is_abs clean join base dir clean_element clean_elements
    without_empty bytes str_eq split_on join_with has_prefix cut_prefix contains_byte valid_string
    contains_control scan after_byte lead validate_download first_failure field_tests evidence_tests
    completion_tests or_else valid_hash is_hash_byte safe_component valid_task_name absolute_path
    is_progress valid_source is_valid requires_cloud_result requires_copy_source safe_problem_code
    workspace_path_of
film_created = refl

create_submission-IsCreated_example : IsCreated film_submission tables tables_after film_row_again
create_submission-IsCreated_example =
    create_submission-IsCreated sample_floats no_constraint film_submission tables film_row_again
      tables_after film_created
