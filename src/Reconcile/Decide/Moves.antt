-- ===== src/Reconcile/Decide/Moves.antt =====
-- One step of a claimed row against the moves of the lifecycle.
use cd.Prelude.{◌≡◌, refl, true, false, not, arith}
use cd.Domain.State.{
  State, accepted, submitting_offline, waiting_offline, submitting_copy, waiting_copy,
  verifying_local, cancel_requested, delete_requested, is_claimable, may_commit,
}
use cd.Domain.Retry.{is_active}
use cd.Domain.Model.{Download}
use cd.Reconcile.World.{Env}
use cd.Reconcile.Failure.{advance}
use cd.Reconcile.Offline.Moves.{submitting_offline-Leads, waiting_offline-Leads}
use cd.Reconcile.Copy.Moves.{submitting_copy-Leads}
use cd.Reconcile.Arrival.Moves.{waiting_copy-Leads, verifying-Leads}
use cd.Reconcile.Cleanup.Moves.{is_stranded, cancel_moves, delete_moves}
use cd.Reconcile.Decide.{decide_in, decide}

active-not_stranded : (d : Download) → is_active d.state ≡ true → is_stranded d ≡ false
unfolding is_stranded is_active
active-not_stranded d h = ground arith

module _ (e : Env) (d : Download) where
  decide_in_moves :
      (s : State)
      → d.state ≡ s
      → is_claimable s ≡ true
      → may_commit d.state (decide_in s e d).next.state ≡ not (is_stranded d)
  unfolding decide_in is_claimable is_active may_commit advance
  decide_in_moves accepted at h = ground (arith, active-not_stranded d (ground arith))
  decide_in_moves submitting_offline at h =
      ground
        (arith, (submitting_offline-Leads e d at).allowed, active-not_stranded d (ground arith))
  decide_in_moves waiting_offline at h =
      ground (arith, (waiting_offline-Leads e d at).allowed, active-not_stranded d (ground arith))
  decide_in_moves submitting_copy at h =
      ground (arith, (submitting_copy-Leads e d at).allowed, active-not_stranded d (ground arith))
  decide_in_moves waiting_copy at h =
      ground (arith, (waiting_copy-Leads e d at).allowed, active-not_stranded d (ground arith))
  decide_in_moves verifying_local at h =
      ground (arith, (verifying-Leads e d at).allowed, active-not_stranded d (ground arith))
  decide_in_moves cancel_requested at h = cancel_moves e d at
  decide_in_moves delete_requested at h = delete_moves e d at
  decide_in_moves _ at h = cc

  -- A step of a claimable row, whatever the cloud, the filesystem and the repository answer, leaves
  -- its state as it was or moves it along `CanTransition`, unless the row is stranded; and every
  -- step of a stranded row goes against `CanTransition`, so that it can never be committed.
  pub decide-may_commit :
      is_claimable d.state ≡ true → may_commit d.state (decide e d).next.state ≡ not (is_stranded d)
  unfolding decide
  decide-may_commit h = decide_in_moves d.state refl h
