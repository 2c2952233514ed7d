-- ===== src/Examples/Histories.antt =====
-- The theorems on the history of a row at concrete rows.
use cd.Prelude.{◌≡◌, refl, Bool, true, false, none, some, [], pos}
use cd.Go.Text.{bytes, str_eq, contains_byte}
use cd.Go.Utf8.{is_blank, valid_string, contains_control}
use cd.Go.Paths.{is_abs, clean, join}
use cd.Domain.State.{accepted, cancel_requested, is_claimable, is_valid, state_eq}
use cd.Domain.Model.{Download}
use cd.Domain.Retry.{is_active}
use cd.Domain.Problem.{safe_problem_code, is_known}
use cd.Domain.Validate.{
  validate_download, first_failure, or_else, field_tests, evidence_tests, completion_tests,
  valid_hash, safe_component, valid_task_name, absolute_path, is_progress, requires_cloud_result,
  requires_copy_source, valid_source,
}
use cd.Reconcile.World.{outcome}
use cd.Reconcile.Failure.{advance}
use cd.Reconcile.Cleanup.Moves.{is_stranded}
use cd.Reconcile.Decide.{decide, decide_in}
use cd.Reconcile.Step.{proposed}
use cd.Reconcile.Step.Lands.{commit_claim-proposed}
use cd.Store.Commit.{claim_of}
use cd.Store.Rows.{claim_row, commit_row, commit_claim, committed, reads_back, pause_row, is_due}
use cd.Store.History.{◌⇒◌, paused, unchanged, after}
use cd.Store.History.Versions.{commit_row_overtaken}
use cd.Store.History.Leases.{lease_exclusive, all_before, is_before}
use cd.Store.History.States.{all_allowed, all_allowed_lem}
use cd.Examples.Rows.{sample_env, sample_row}

-- The operator pauses the download while a worker holds it.
abbrev paused_row : Download
paused_row = record sample_row {
  state = cancel_requested;
  pause_requested = true;
  phase_started_at = 2001000000000;
  next_run_at = some 2001000000000;
  updated_at = 2001000000000;
  row_version = pos 8;
}

pause_in_between : sample_row ⇒ paused_row
unfolding pause_row is_active
pause_in_between = paused 2001000000000 refl

commit_row_overtaken_example :
    commit_row (claim_of (bytes "worker") sample_row) sample_row paused_row ≡ none
commit_row_overtaken_example =
    commit_row_overtaken (bytes "worker") sample_row pause_in_between unchanged

all_allowed_lem_example : all_allowed (after pause_in_between unchanged) ≡ true
unfolding is_valid
all_allowed_lem_example = all_allowed_lem (after pause_in_between unchanged) refl

abbrev due_row : Download
due_row = record sample_row { state = accepted; lease_owner = []; lease_until = none }

abbrev claimed_row : Download
claimed_row = record due_row {
  lease_owner = bytes "worker";
  lease_until = some 2300000000000;
  row_version = pos 8;
}

claim_of_due : claim_row (bytes "worker") 2300000000000 2000000000000 due_row ≡ some claimed_row
unfolding claim_row is_due state_eq
claim_of_due = refl

proposed_is_valid :
    validate_download sample_env.floats
      (record (proposed sample_env false 2001000000000 claimed_row).next {
        lease_owner = [];
        lease_until = none;
      })
    ≡ none
unfolding proposed decide decide_in outcome advance validate_download first_failure or_else
    field_tests evidence_tests completion_tests valid_hash safe_component valid_task_name
    absolute_path is_progress requires_cloud_result requires_copy_source state_eq is_valid bytes
    str_eq contains_byte valid_string contains_control is_abs clean join safe_problem_code is_known
    valid_source
proposed_is_valid = refl

-- No other row has the destination.
abbrev no_conflict : Download → Download → Bool
no_conflict row n = false

proposed-reads_back :
    reads_back sample_env.floats
      (committed claimed_row (proposed sample_env false 2001000000000 claimed_row).next)
    ≡ true
unfolding reads_back proposed decide decide_in outcome advance validate_download first_failure
    or_else field_tests evidence_tests completion_tests valid_hash safe_component valid_task_name
    absolute_path is_progress requires_cloud_result requires_copy_source state_eq is_valid bytes
    str_eq contains_byte valid_string contains_control is_abs clean join safe_problem_code is_known
    valid_source
proposed-reads_back = refl

commit_claim-proposed_example :
    commit_claim sample_env.floats no_conflict
      (claim_of (bytes "worker") claimed_row)
      (proposed sample_env false 2001000000000 claimed_row).next
      claimed_row
    ≡ some (committed claimed_row (proposed sample_env false 2001000000000 claimed_row).next)
unfolding is_claimable bytes is_blank is_stranded
commit_claim-proposed_example =
    commit_claim-proposed sample_env due_row claimed_row false 2001000000000 (bytes "worker")
      2300000000000 2000000000000 no_conflict claim_of_due refl refl refl refl refl
      proposed_is_valid refl proposed-reads_back

pause_after_claim : claimed_row ⇒ record paused_row { row_version = pos 9 }
unfolding pause_row is_active
pause_after_claim = paused 2001000000000 refl

lease_exclusive_example :
    ((record paused_row { row_version = pos 9 }).lease_owner ≡ bytes "worker")
    × (claim_row
          (bytes "other")
          2400000000000
          2002000000000
          (record paused_row { row_version = pos 9 })
        ≡ none)
unfolding is_claimable all_before is_before pause_after_claim
lease_exclusive_example =
    lease_exclusive (bytes "worker") 2300000000000 2000000000000 due_row refl claim_of_due
      (after pause_after_claim unchanged) refl (bytes "other") 2400000000000 2002000000000 refl
