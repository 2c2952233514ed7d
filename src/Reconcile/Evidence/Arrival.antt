-- ===== src/Reconcile/Evidence/Arrival.antt =====
-- The evidence after a step of the wait for the copy and of the local check.
use cd.Prelude.{◌≡◌, arith, ap}
use cd.Domain.State.{waiting_copy, verifying_local, state_eq}
use cd.Domain.Model.{Download}
use cd.Domain.Validate.{
  first_failure, evidence_tests, completion_tests, requires_cloud_result, requires_copy_source,
}
use cd.Reconcile.World.{Env, outcome, broken}
use cd.Reconcile.Failure.{
  clear_problem, advance, poll, fail, retry, cloud_failure, handle_local_failure,
}
use cd.Reconcile.Verify.{Verified, recorded, verify_and_record}
use cd.Reconcile.Verify.Frame.{verify_and_record_frame}
use cd.Reconcile.Verify.Content.{NamesContent, verify_and_record_named}
use cd.Reconcile.Copy.{record_copy, record_copy_completed}
use cd.Reconcile.Arrival.{decide_waiting_copy, decide_verifying}
use cd.Reconcile.Evidence.{HasEvidence}

-- The fields that the evidence is about, of the row that a check of the local content records.
record SameEvidence (d : Download) (r : Verified) : Type 0 where
  same :
      (v : Download)
      → r ≡ recorded v
      → (v.state ≡ d.state)
        × (v.cloud_result_path ≡ d.cloud_result_path)
        × (v.copy_source_path ≡ d.copy_source_path)
        × (v.completed_at ≡ d.completed_at)
        × (v.lease_owner ≡ d.lease_owner)
        × (v.lease_until ≡ d.lease_until)

verified_same : (e : Env) (d : Download) → SameEvidence d (verify_and_record e d).0
verified_same e d = record {
  same = λ v h.
      let p = (verify_and_record_frame e d).frame v h in
      (
        ap (λ (r : Download). r.state) p,
        ap (λ (r : Download). r.cloud_result_path) p,
        ap (λ (r : Download). r.copy_source_path) p,
        ap (λ (r : Download). r.completed_at) p,
        ap (λ (r : Download). r.lease_owner) p,
        ap (λ (r : Download). r.lease_until) p,
      );
}

module _ (e : Env) (d : Download) where
  pub waiting_copy_evidence :
      d.state ≡ waiting_copy → HasEvidence d → HasEvidence (decide_waiting_copy e d).next
  unfolding decide_waiting_copy outcome broken first_failure evidence_tests completion_tests
      state_eq requires_cloud_result requires_copy_source clear_problem advance poll fail retry
      cloud_failure handle_local_failure record_copy record_copy_completed
  waiting_copy_evidence at h = grind (arith, (verified_same e d).same)

  pub verifying_evidence :
      NamesContent e.files
      → d.state ≡ verifying_local
      → HasEvidence d
      → HasEvidence (decide_verifying e d).next
  unfolding decide_verifying outcome broken first_failure evidence_tests completion_tests state_eq
      requires_cloud_result requires_copy_source clear_problem advance poll fail retry
      handle_local_failure
  verifying_evidence names at h =
      grind (arith, (verified_same e d).same, (verify_and_record_named e d names).named)
