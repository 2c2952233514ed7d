-- ===== src/Reconcile/Evidence/Cleanup.antt =====
-- The evidence after a step of cancel, pause or delete.
use cd.Prelude.{◌≡◌, arith}
use cd.Domain.State.{cancel_requested, delete_requested, state_eq}
use cd.Domain.Model.{Download}
use cd.Domain.Validate.{
  first_failure, evidence_tests, completion_tests, requires_cloud_result, requires_copy_source,
}
use cd.Reconcile.World.{Env, outcome}
use cd.Reconcile.Failure.{clear_problem, fail, retry, cleanup_problem, cleanup_failure}
use cd.Reconcile.Cleanup.{pause, decide_cancel, decide_delete, mark_deleted}
use cd.Reconcile.Evidence.{HasEvidence}

module _ (e : Env) (d : Download) where
  pub cancel_evidence :
      d.state ≡ cancel_requested → HasEvidence d → HasEvidence (decide_cancel e d).next
  unfolding decide_cancel pause outcome first_failure evidence_tests completion_tests state_eq
      requires_cloud_result requires_copy_source clear_problem fail retry cleanup_problem
      cleanup_failure
  cancel_evidence at h = ground arith

  pub delete_evidence :
      d.state ≡ delete_requested → HasEvidence d → HasEvidence (decide_delete e d).next
  unfolding decide_delete mark_deleted outcome first_failure evidence_tests completion_tests
      state_eq requires_cloud_result requires_copy_source clear_problem fail retry cleanup_problem
      cleanup_failure
  delete_evidence at h = ground arith
