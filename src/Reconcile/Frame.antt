-- ===== src/Reconcile/Frame.antt =====
-- What the steps of the other states keep of the row.
use cd.Prelude.{◌≡◌, arith, ap}
use cd.Domain.Model.{Download}
use cd.Reconcile.World.{Env, outcome, broken}
use cd.Reconcile.Failure.{
  clear_problem, advance, poll, fail, retry, cleanup_problem, cleanup_failure, cloud_failure,
  handle_local_failure,
}
use cd.Reconcile.Verify.{recorded, verify_and_record}
use cd.Reconcile.Verify.Frame.{verify_and_record_frame}
use cd.Reconcile.Offline.{record_offline, decide_submitting_offline, decide_waiting_offline}
use cd.Reconcile.Copy.{record_copy, record_copy_completed}
use cd.Reconcile.Arrival.{decide_waiting_copy, decide_verifying}
use cd.Reconcile.Cleanup.{pause, decide_cancel, decide_delete, mark_deleted}
use cd.Store.Commit.Identity.{Same}

module _ (e : Env) (d : Download) where
  pub submitting_offline-Same : Same d (decide_submitting_offline e d).next
  unfolding decide_submitting_offline outcome clear_problem advance fail retry cloud_failure
      record_offline
  submitting_offline-Same = ground arith

  pub waiting_offline-Same : Same d (decide_waiting_offline e d).next
  unfolding decide_waiting_offline outcome clear_problem advance poll fail retry cloud_failure
      record_offline
  waiting_offline-Same = ground arith

  recorded-Same : (v : Download) → (verify_and_record e d).0 ≡ recorded v → Same d v
  recorded-Same v h =
      let p = (verify_and_record_frame e d).frame v h in
      record {
        hash = ap (λ (r : Download). r.hash) p;
        source_kind = ap (λ (r : Download). r.source_kind) p;
        submission_uri = ap (λ (r : Download). r.submission_uri) p;
        cloud_folder = ap (λ (r : Download). r.cloud_folder) p;
        save_path = ap (λ (r : Download). r.save_path) p;
        created_at = ap (λ (r : Download). r.created_at) p;
        workspace_path = ap (λ (r : Download). r.workspace_path) p;
      }

  pub waiting_copy-Same : Same d (decide_waiting_copy e d).next
  unfolding decide_waiting_copy outcome broken clear_problem advance poll fail retry cloud_failure
      handle_local_failure record_copy record_copy_completed
  waiting_copy-Same = grind (arith, recorded-Same)

  pub verifying-Same : Same d (decide_verifying e d).next
  unfolding decide_verifying outcome broken clear_problem advance poll fail retry
      handle_local_failure
  verifying-Same = grind (arith, recorded-Same)

  pub cancel-Same : Same d (decide_cancel e d).next
  unfolding decide_cancel pause outcome clear_problem fail retry cleanup_problem cleanup_failure
  cancel-Same = ground arith

  pub delete-Same : Same d (decide_delete e d).next
  unfolding decide_delete mark_deleted outcome clear_problem fail retry cleanup_problem
      cleanup_failure
  delete-Same = ground arith
