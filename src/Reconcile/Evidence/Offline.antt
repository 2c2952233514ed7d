-- ===== src/Reconcile/Evidence/Offline.antt =====
-- The evidence after a step of the offline phases.
use cd.Prelude.{◌≡◌, arith}
use cd.Go.Paths.{is_abs}
use cd.Domain.State.{submitting_offline, waiting_offline, state_eq}
use cd.Domain.Model.{Download}
use cd.Domain.Validate.{
  first_failure, evidence_tests, completion_tests, requires_cloud_result, requires_copy_source,
}
use cd.Reconcile.World.{Env, outcome}
use cd.Reconcile.Failure.{clear_problem, advance, poll, fail, retry, cloud_failure}
use cd.Reconcile.Manifest.{safe_cloud_path}
use cd.Reconcile.Offline.{
  valid_offline_task, record_offline, decide_submitting_offline, decide_waiting_offline,
}
use cd.Reconcile.Evidence.{HasEvidence}

module _ (e : Env) (d : Download) where
  pub submitting_offline_evidence :
      d.state ≡ submitting_offline
      → HasEvidence d
      → HasEvidence (decide_submitting_offline e d).next
  unfolding decide_submitting_offline outcome first_failure evidence_tests completion_tests state_eq
      requires_cloud_result requires_copy_source clear_problem advance fail retry cloud_failure
      record_offline valid_offline_task safe_cloud_path is_abs
  submitting_offline_evidence at h = ground arith

  pub waiting_offline_evidence :
      d.state ≡ waiting_offline → HasEvidence d → HasEvidence (decide_waiting_offline e d).next
  unfolding decide_waiting_offline outcome first_failure evidence_tests completion_tests state_eq
      requires_cloud_result requires_copy_source clear_problem advance poll fail retry cloud_failure
      record_offline
  waiting_offline_evidence at h = ground arith
