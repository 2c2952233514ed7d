-- ===== src/Reconcile/Arrival/Completing.antt =====
-- A row is completed only by the check of its content.
use cd.Prelude.{◌≡◌, refl, arith, List, Bool-cases, inl, inr}
use cd.Domain.State.{verifying_local, completed}
use cd.Domain.Model.{Download}
use cd.Reconcile.World.{Env, outcome, broken, Effect}
use cd.Reconcile.Failure.{clear_problem, poll, fail, retry, handle_local_failure, timed_out}
use cd.Reconcile.Verify.{Verified, recorded, unverified, verify_and_record}
use cd.Reconcile.Arrival.{after_verify_error, completing, decide_verifying}

-- The row that the check recorded.
abbrev pub RecordedBy : Env → Download → Download → Type 0
RecordedBy e d next =
    (v : Download) × ((verify_and_record e d).0 ≡ recorded v) × (next.total_size ≡ v.total_size)

module _ (e : Env) (d : Download) (at : d.state ≡ verifying_local) where
  completing-Recorded :
      (r : Verified) (fx : List Effect)
      → (completing e d r fx).next.state ≡ completed
      → (v : Download) × (r ≡ recorded v) × ((completing e d r fx).next.total_size ≡ v.total_size)
  unfolding completing after_verify_error outcome broken poll fail retry handle_local_failure
      clear_problem
  completing-Recorded (recorded v) fx h = (v, refl, refl)
  completing-Recorded (unverified err) fx h = ground arith

  pub decide_verifying-completed :
      (decide_verifying e d).next.state ≡ completed → RecordedBy e d (decide_verifying e d).next
  unfolding decide_verifying outcome fail
  decide_verifying-completed h = elim (Bool-cases (timed_out e d e.config.verify_timeout)) [
    | inl late ↦ ground arith
    | inr timely ↦
        let (v, recording, total) =
          completing-Recorded (verify_and_record e d).0 (verify_and_record e d).1 (ground arith) in
        (v, recording, ground (arith, total))
  ]
