-- ===== src/Reconcile/Decide/Evidence.antt =====
-- The evidence that a claimed row carries after one step.
use cd.Prelude.{◌≡◌, refl, arith}
use cd.Domain.State.{
  State, accepted, submitting_offline, waiting_offline, submitting_copy, waiting_copy,
  verifying_local, cancel_requested, delete_requested, state_eq,
}
use cd.Domain.Model.{Download}
use cd.Domain.Validate.{
  first_failure, evidence_tests, completion_tests, requires_cloud_result, requires_copy_source,
}
use cd.Reconcile.World.{Env, outcome}
use cd.Reconcile.Failure.{advance, clear_problem}
use cd.Reconcile.Verify.Content.{NamesContent}
use cd.Reconcile.Evidence.{HasEvidence}
use cd.Reconcile.Evidence.Offline.{submitting_offline_evidence, waiting_offline_evidence}
use cd.Reconcile.Copy.Evidence.{submitting_copy-Carries}
use cd.Reconcile.Evidence.Arrival.{waiting_copy_evidence, verifying_evidence}
use cd.Reconcile.Evidence.Cleanup.{cancel_evidence, delete_evidence}
use cd.Reconcile.Decide.{decide_in, decide}

module _ (e : Env) (d : Download) where
  advance_evidence :
      d.state ≡ accepted → HasEvidence d → HasEvidence (advance d submitting_offline e.now e.now)
  unfolding advance clear_problem first_failure evidence_tests completion_tests state_eq
      requires_cloud_result requires_copy_source
  advance_evidence at h = ground arith

  decide_in_evidence :
      (s : State)
      → d.state ≡ s
      → NamesContent e.files
      → HasEvidence d
      → HasEvidence (decide_in s e d).next
  unfolding decide_in outcome
  decide_in_evidence accepted at names h = advance_evidence at h
  decide_in_evidence submitting_offline at names h = submitting_offline_evidence e d at h
  decide_in_evidence waiting_offline at names h = waiting_offline_evidence e d at h
  decide_in_evidence submitting_copy at names h = (submitting_copy-Carries e d at h).carried
  decide_in_evidence waiting_copy at names h = waiting_copy_evidence e d at h
  decide_in_evidence verifying_local at names h = verifying_evidence e d names at h
  decide_in_evidence cancel_requested at names h = cancel_evidence e d at h
  decide_in_evidence delete_requested at names h = delete_evidence e d at h
  decide_in_evidence _ at names h = h

  -- A row that passes the tests of `ValidateDownload` which relate the state to the cloud result,
  -- the copy source, the content path, the lease and the completion time still passes them after
  -- a step, if the filesystem names the content of each check that succeeds.
  pub decide-HasEvidence : NamesContent e.files → HasEvidence d → HasEvidence (decide e d).next
  unfolding decide
  decide-HasEvidence names h = decide_in_evidence d.state refl names h
