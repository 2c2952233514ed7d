-- ===== src/Domain/Problem.antt =====
-- internal/domain/problem.go: the catalogue of stable problem codes, and the text of each.
pub mod Catalogue
use cd.Prelude.{
  ℕ, zero, suc, String, ◌≡◌, Bool, true, false, ◌&&◌, ◌||◌, not, [], ◌∷◌, ◌==◌, ltb, if◌then◌else◌,
}
use cd.Go.Text.{GoString, bytes, contains_byte}
use cd.Go.Utf8.{valid_string}

-- `no_code` is the empty string, and `unlisted` any other string that is none of the constants.
pub data ProblemCode : Type 0 where
  cloud_unreachable : ProblemCode
  cloud_unreachable_timeout : ProblemCode
  cloud_authentication_required : ProblemCode
  cloud_authentication_timeout : ProblemCode
  cloud_copy_not_ready : ProblemCode
  cloud_copy_not_ready_timeout : ProblemCode
  cloud_folder_unavailable : ProblemCode
  cloud_request_rejected : ProblemCode
  cloud_content_layout_invalid : ProblemCode
  cloud_response_invalid : ProblemCode
  offline_submission_rejected : ProblemCode
  offline_download_failed : ProblemCode
  offline_timeout : ProblemCode
  copy_task_failed : ProblemCode
  copy_timeout : ProblemCode
  destination_conflict : ProblemCode
  destination_collision : ProblemCode
  local_filesystem_unavailable : ProblemCode
  local_filesystem_unavailable_timeout : ProblemCode
  local_permission_denied : ProblemCode
  local_path_unsafe : ProblemCode
  local_content_layout_invalid : ProblemCode
  local_verification_failed : ProblemCode
  local_verification_timeout : ProblemCode
  local_delete_failed : ProblemCode
  workflow_operation_timeout : ProblemCode
  internal_workflow_error : ProblemCode
  legacy : ProblemCode
  no_code : ProblemCode
  unlisted : GoString → ProblemCode

-- The position of the constant in the source, to compare a code with a constant by.
abbrev pub code_index : ProblemCode → ℕ
code_index cloud_unreachable = 0
code_index cloud_unreachable_timeout = 1
code_index cloud_authentication_required = 2
code_index cloud_authentication_timeout = 3
code_index cloud_copy_not_ready = 4
code_index cloud_copy_not_ready_timeout = 5
code_index cloud_folder_unavailable = 6
code_index cloud_request_rejected = 7
code_index cloud_content_layout_invalid = 8
code_index cloud_response_invalid = 9
code_index offline_submission_rejected = 10
code_index offline_download_failed = 11
code_index offline_timeout = 12
code_index copy_task_failed = 13
code_index copy_timeout = 14
code_index destination_conflict = 15
code_index destination_collision = 16
code_index local_filesystem_unavailable = 17
code_index local_filesystem_unavailable_timeout = 18
code_index local_permission_denied = 19
code_index local_path_unsafe = 20
code_index local_content_layout_invalid = 21
code_index local_verification_failed = 22
code_index local_verification_timeout = 23
code_index local_delete_failed = 24
code_index workflow_operation_timeout = 25
code_index internal_workflow_error = 26
code_index legacy = 27
code_index no_code = 28
code_index (unlisted _) = 29

-- Comparison with one of the constants.
unfoldable pub code_eq : ProblemCode → ProblemCode → Bool
code_eq a b = code_index a == code_index b

unfoldable pub is_known : ProblemCode → Bool
is_known no_code = false
is_known (unlisted _) = false
is_known _ = true

unfoldable pub problem_text : ProblemCode → GoString
problem_text cloud_unreachable = bytes "CloudDrive2 is unreachable."
problem_text cloud_unreachable_timeout =
    bytes
      "CloudDrive2 stayed unreachable until the phase deadline. Check its connection, then Retry."
problem_text cloud_authentication_required = bytes "CloudDrive2 requires authentication."
problem_text cloud_authentication_timeout =
    bytes
      "CloudDrive2 kept rejecting the credentials until the phase deadline. Check the CloudDrive2 login credentials, then Retry."
problem_text cloud_copy_not_ready =
    bytes
      "The 115 offline download finished, but CloudDrive2 has not accepted the copy yet. If this persists, refresh the 115 mount and verify the cloud category and NAS staging paths."
problem_text cloud_copy_not_ready_timeout =
    bytes
      "CloudDrive2 did not accept the copy before the deadline. Refresh the 115 mount and verify the cloud category and NAS staging paths, then Retry."
problem_text cloud_folder_unavailable =
    bytes
      "The 115 category folder is unavailable. Check the cloud root and category configuration, then Retry."
problem_text cloud_request_rejected =
    bytes "CloudDrive2 rejected the request. Check the configuration, then Retry."
problem_text cloud_content_layout_invalid =
    bytes "The 115 offline result does not match the torrent file layout."
problem_text cloud_response_invalid =
    bytes "CloudDrive2 returned an invalid response. Retry to try the operation again."
problem_text offline_submission_rejected =
    bytes "115 rejected the offline download submission. Check the source, then Retry."
problem_text offline_download_failed =
    bytes "The 115 offline download failed. Retry to submit it again."
problem_text offline_timeout =
    bytes
      "The 115 offline download did not finish before the deadline. Check the source, then Retry."
problem_text copy_task_failed =
    bytes "The CloudDrive2 copy task failed. Retry to submit the copy again."
problem_text copy_timeout =
    bytes
      "The copy did not finish before the deadline. Refresh the 115 mount and verify the cloud category and NAS staging paths, then Retry."
problem_text destination_conflict =
    bytes "Another download reserved the same destination. Resolve the conflict, then Retry."
problem_text destination_collision =
    bytes "Content already exists at the destination. Remove it, then Retry."
problem_text local_filesystem_unavailable =
    bytes "The shared local filesystem is temporarily unavailable. CD211 will retry automatically."
problem_text local_filesystem_unavailable_timeout =
    bytes
      "The shared local filesystem stayed unavailable until the workflow deadline. Check the shared mount, then Retry."
problem_text local_permission_denied =
    bytes
      "CD211 does not have permission to access the shared local path. Check the shared user and group permissions, then Retry."
problem_text local_path_unsafe =
    bytes
      "The shared local path contains a symbolic link, special file, or unsafe path change. Remove the unsafe entry, then Retry."
problem_text local_content_layout_invalid =
    bytes
      "The copied local content does not match the expected file type, size, or file list. Remove the incomplete content, then Retry."
problem_text local_verification_failed =
    bytes "Local content verification failed. Check the shared staging folder, then Retry."
problem_text local_verification_timeout =
    bytes
      "The local content did not appear before the verification deadline. Refresh the 115 mount and the staging folder, then Retry."
problem_text local_delete_failed =
    bytes "Local content could not be deleted. Check the staging folder permissions, then Retry."
problem_text workflow_operation_timeout =
    bytes "A workflow operation exceeded its deadline. CD211 will retry automatically."
problem_text internal_workflow_error =
    bytes "An internal workflow error occurred. Retry to continue."
problem_text _ = []

-- On the code's own text: the constants are printable.
unfoldable pub safe_problem_code : ProblemCode → Bool
safe_problem_code (unlisted s) =
    valid_string s && not (contains_byte (λ c. ltb c 0x20 || c == 0x7F) s)
safe_problem_code _ = true
