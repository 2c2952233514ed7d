-- ===== src/Examples/Steps.antt =====
-- The theorems at concrete rows.
use cd.Prelude.{
  ◌+◌, ◌≡◌, refl, ◌⊎◌, ◌||◌, not, true, false, none, some, [], if◌then◌else◌, arith, ◌==◌, ◌&&◌,
  leb,
}
use cd.Go.Text.{bytes}
use cd.Domain.State.{
  failed, accepted, completed, deleted, delete_requested, can_transition, may_commit, is_claimable,
  is_valid, is_visible, state_eq,
}
use cd.Go.Utf8.{is_blank}
use cd.Domain.State.Graph.{◌⟶*◌, ⟶*-connected, can_transition_sound}
use cd.Domain.Retry.{can_retry, retry_target, is_cleanup}
use cd.Domain.Retry.Targets.{retry_target-accepted}
use cd.Domain.Validate.{
  first_failure, evidence_tests, completion_tests, validate_download, requires_cloud_result,
  requires_copy_source,
}
use cd.Reconcile.Verify.Content.{NamesContent}
use cd.Reconcile.Licence.{all_licensed}
use cd.Reconcile.Schedule.{is_scheduled}
use cd.Reconcile.Evidence.{HasEvidence}
use cd.Reconcile.Cleanup.Moves.{is_stranded}
use cd.Reconcile.Decide.{decide}
use cd.Reconcile.Decide.Moves.{decide-may_commit}
use cd.Reconcile.Decide.Deadline.{phase_limit, decide_late, decide-is_deadline_code}
use cd.Reconcile.Deadline.{is_deadline_code}
use cd.Reconcile.Decide.Effects.{decide-licensed}
use cd.Reconcile.Decide.Schedule.{decide-is_scheduled}
use cd.Reconcile.Decide.Evidence.{decide-HasEvidence}
use cd.Reconcile.Step.{proposed, conflicted}
use cd.Reconcile.Step.Conflict.{commit-conflicted}
use cd.Domain.Retry.{is_active}
use cd.Reconcile.Step.Commit.{commit-proposed}
use cd.Store.Commit.{claim_of, commit_refused, invalid_of, invalid_transition}
use cd.Examples.Rows.{
  sample_env, sample_files, sample_row, arrived_row, late_row, legacy_row, failed_row,
}

⟶*-connected_example : completed ⟶* accepted
unfolding is_valid
⟶*-connected_example = ⟶*-connected completed accepted refl refl

can_transition_sound_example :
    (is_valid deleted ≡ true)
    × (is_valid accepted ≡ true)
    × (state_eq deleted accepted ≡ false)
    × ((is_visible deleted || not (is_visible accepted) || state_eq deleted deleted) ≡ true)
unfolding can_transition
can_transition_sound_example = can_transition_sound deleted accepted refl

retry_target-accepted_example :
    ((failed_row.state ≡ failed)
      × (can_transition failed (retry_target failed_row) ≡ true)
      × (is_cleanup (retry_target failed_row) ≡ false))
    ⊎ ((is_cleanup failed_row.state ≡ true) × (retry_target failed_row ≡ failed_row.state))
unfolding can_retry bytes
retry_target-accepted_example = retry_target-accepted failed_row refl

decide-may_commit_example :
    may_commit delete_requested (decide sample_env legacy_row).next.state
    ≡ not (is_stranded legacy_row)
unfolding is_claimable
decide-may_commit_example = decide-may_commit sample_env legacy_row refl

decide_late_example :
    ((decide sample_env late_row).next.state ≡ failed)
    × ((decide sample_env late_row).next.next_run_at ≡ none)
    × ((decide sample_env late_row).error ≡ none)
    × ((decide sample_env late_row).effects ≡ [])
    × (is_deadline_code (decide sample_env late_row).next.last_error_code ≡ true)
unfolding phase_limit
decide_late_example = decide_late sample_env late_row 600000000000 refl refl refl

decide-is_deadline_code_example :
    is_deadline_code (decide sample_env late_row).next.last_error_code ≡ (
      not (late_row.phase_started_at == 0)
      && leb (late_row.phase_started_at + 600000000000) sample_env.now)
unfolding phase_limit is_deadline_code
decide-is_deadline_code_example = decide-is_deadline_code sample_env late_row 600000000000 refl refl

decide-licensed_example : all_licensed sample_row (decide sample_env sample_row) ≡ true
decide-licensed_example = decide-licensed sample_env sample_row

late_no_error : (decide sample_env late_row).error ≡ none
unfolding phase_limit
late_no_error = (decide_late sample_env late_row 600000000000 refl refl refl).2

decide-is_scheduled_example : is_scheduled (decide sample_env late_row).next ≡ true
decide-is_scheduled_example = decide-is_scheduled sample_env late_row late_no_error

sample_names : NamesContent sample_files
unfolding bytes
sample_names = record {
  verified = λ root x c h. ground arith;
  unknown = λ root name c h. ground arith;
}

arrived_evidence : HasEvidence arrived_row
unfolding first_failure evidence_tests completion_tests state_eq bytes requires_cloud_result
    requires_copy_source
arrived_evidence = record { required = refl; completion = refl }

decide-HasEvidence_example : HasEvidence (decide sample_env arrived_row).next
decide-HasEvidence_example = decide-HasEvidence sample_env arrived_row sample_names arrived_evidence

commit-proposed_example :
    commit_refused sample_env.floats
      (claim_of (bytes "worker") sample_row)
      (proposed sample_env false 2001000000000 sample_row).next
    ≡ (if false || not (is_stranded sample_row)
        then invalid_of (
            validate_download sample_env.floats
              (record (proposed sample_env false 2001000000000 sample_row).next {
                lease_owner = [];
                lease_until = none;
              }))
        else some invalid_transition)
unfolding is_claimable bytes is_blank
commit-proposed_example =
    commit-proposed sample_env sample_row false 2001000000000 (bytes "worker") refl refl refl refl

commit-conflicted_example :
    commit_refused sample_env.floats
      (claim_of (bytes "worker") sample_row)
      (conflicted 2002000000000 (proposed sample_env false 2001000000000 sample_row).next)
    ≡ invalid_of (
        validate_download sample_env.floats
          (record (conflicted 2002000000000
            (proposed sample_env false 2001000000000 sample_row).next) {
              lease_owner = [];
              lease_until = none;
            }))
unfolding is_active bytes is_blank
commit-conflicted_example =
    commit-conflicted sample_env sample_row false 2001000000000 2002000000000 (bytes "worker") refl
      refl refl refl
