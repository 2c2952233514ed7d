-- ===== src/Reconcile/Offline/Moves.antt =====
-- Where a step of the offline phases leads.
use cd.Prelude.{◌≡◌, arith}
use cd.Domain.State.{submitting_offline, waiting_offline, may_commit}
use cd.Domain.Model.{Download}
use cd.Reconcile.World.{Env}
use cd.Reconcile.Failure.{clear_problem, advance, poll, fail, retry, cloud_failure}
use cd.Reconcile.Failure.Moves.{Leads}
use cd.Reconcile.Offline.{record_offline, decide_submitting_offline, decide_waiting_offline}

module _ (e : Env) (d : Download) where
  -- Every step of SUBMITTING_OFFLINE stays there or makes a move that the lifecycle allows.
  pub submitting_offline-Leads :
      d.state ≡ submitting_offline → Leads d (decide_submitting_offline e d)
  unfolding may_commit decide_submitting_offline fail advance poll retry cloud_failure
      record_offline clear_problem
  submitting_offline-Leads at = record { allowed = ground arith }

  -- Every step of WAITING_OFFLINE stays there or makes a move that the lifecycle allows.
  pub waiting_offline-Leads : d.state ≡ waiting_offline → Leads d (decide_waiting_offline e d)
  unfolding may_commit decide_waiting_offline fail advance poll retry cloud_failure record_offline
      clear_problem
  waiting_offline-Leads at = record { allowed = ground arith }
