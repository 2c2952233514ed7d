-- ===== src/Reconcile/Decide.antt =====
-- internal/reconcile/reconcile.go, decide: one step of a claimed row, by its state.
pub mod Moves
pub mod Deadline
pub mod Effects
pub mod Schedule
pub mod Evidence
use cd.Prelude.{[]}
use cd.Domain.State.{
  State, accepted, submitting_offline, waiting_offline, submitting_copy, waiting_copy,
  verifying_local, cancel_requested, delete_requested,
}
use cd.Domain.Model.{Download}
use cd.Reconcile.World.{Op, Env, Outcome, outcome, broken, impossible_state}
use cd.Reconcile.Failure.{advance}
use cd.Reconcile.Offline.{decide_submitting_offline, decide_waiting_offline}
use cd.Reconcile.Copy.{decide_submitting_copy}
use cd.Reconcile.Arrival.{decide_waiting_copy, decide_verifying}
use cd.Reconcile.Cleanup.{decide_cancel, decide_delete}

unfoldable pub decide_in : State → Env → Download → Outcome
unfolding outcome broken
decide_in accepted e d = outcome Op.transition (advance d submitting_offline e.now e.now) []
decide_in submitting_offline e d = decide_submitting_offline e d
decide_in waiting_offline e d = decide_waiting_offline e d
decide_in submitting_copy e d = decide_submitting_copy e d
decide_in waiting_copy e d = decide_waiting_copy e d
decide_in verifying_local e d = decide_verifying e d
decide_in cancel_requested e d = decide_cancel e d
decide_in delete_requested e d = decide_delete e d
decide_in _ e d = broken Op.transition d impossible_state []

unfoldable pub decide : Env → Download → Outcome
unfolding decide_in
decide e d = decide_in d.state e d
