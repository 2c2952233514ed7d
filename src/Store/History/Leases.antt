-- ===== src/Store/History/Leases.antt =====
-- The lease of a row over its history.
use cd.Prelude.{◌≡◌, Bool, true, false, ◌&&◌, none, some, arith, ltb}
use cd.Go.Text.{GoString}
use cd.Domain.State.{is_claimable, state_eq, is_valid}
use cd.Domain.Model.{Time, Download}
use cd.Domain.Retry.{is_active, is_cleanup}
use cd.Store.Rows.{
  is_due, claim_row, start_row, retry_row, retry_cleanup_row, pause_row, cancel_row,
  request_delete_row,
}
use cd.Store.Edits.{
  revive_row, reverify_row, set_category_row, clear_category_row, set_name_row, touch_row,
  set_content_path_row, set_auto_tmm_row, set_save_path_row, set_tags_row,
}
use cd.Store.History.{
  ◌⇒◌, claimed, committed_by, started, retried, cleanup_retried, paused, cancelled_by,
  deletion_requested, ◌⇒*◌, unchanged, after, revived_by, reverified, category_set,
  category_cleared, name_set, touched_by, content_path_set, auto_tmm_set, save_path_set, tags_set,
}

-- Before the given time, and not the commit of a claim.
unfoldable pub is_before : {d n : Download} → Time → d ⇒ n → Bool
is_before until (claimed _ _ now _) = ltb now until
is_before until (committed_by _ _ _ _ _) = false
is_before until _ = true

unfoldable pub all_before : {d n : Download} → Time → d ⇒* n → Bool
unfolding is_before
all_before until unchanged = true
all_before until (after s r) = is_before until s && all_before until r

-- The row is leased until the given time, in a state that a worker works on.
pub record Held (owner : GoString) (until : Time) (d : Download) : Type 0 where
  pub lease : d.lease_until ≡ some until
  pub holder : d.lease_owner ≡ owner
  pub working : is_claimable d.state ≡ true

module _ (owner : GoString) (until : Time) where
  Held-step :
      {d n : Download} (s : d ⇒ n)
      → is_before until s ≡ true
      → Held owner until d
      → Held owner until n
  unfolding is_before claim_row is_due start_row retry_row retry_cleanup_row pause_row cancel_row
      request_delete_row revive_row reverify_row set_category_row clear_category_row set_name_row
      touch_row set_content_path_row set_auto_tmm_row set_save_path_row set_tags_row is_claimable
      is_valid state_eq is_active is_cleanup
  Held-step (claimed other until' now h) b held = ground arith
  Held-step (committed_by fl refuses claim next h) b held = cc
  Held-step (started now h) b held = ground arith
  Held-step (retried target now p q h) b held = ground arith
  Held-step (cleanup_retried now h) b held = ground arith
  Held-step (paused now h) b held = ground arith
  Held-step (cancelled_by now h) b held = ground arith
  Held-step (deletion_requested files now h) b held = ground arith
  Held-step (revived_by fl s p h) b held = ground arith
  Held-step (reverified now h) b held = ground arith
  Held-step (category_set category now h) b held = ground arith
  Held-step (category_cleared names now h) b held = ground arith
  Held-step (name_set name now h) b held = ground arith
  Held-step (touched_by now h) b held = ground arith
  Held-step (content_path_set path now h) b held = ground arith
  Held-step (auto_tmm_set on now h) b held = ground arith
  Held-step (save_path_set save workspace expected now h) b held = ground arith
  Held-step (tags_set tags now h) b held = ground arith

  Held-run :
      {d n : Download} (r : d ⇒* n)
      → all_before until r ≡ true
      → Held owner until d
      → Held owner until n
  unfolding all_before
  Held-run unchanged b held = held
  Held-run (after s r) b held = Held-run r (ground arith) (Held-step s (ground arith) held)

  Held-refuses :
      (d : Download) (other : GoString) (until' now : Time)
      → Held owner until d
      → ltb now until ≡ true
      → claim_row other until' now d ≡ none
  unfolding claim_row is_due
  Held-refuses d other until' now held early = ground (arith, held.lease)

  claim-Held :
      (now : Time) (d c : Download)
      → is_claimable d.state ≡ true
      → claim_row owner until now d ≡ some c
      → Held owner until c
  unfolding claim_row
  claim-Held now d c working h = ground arith

  -- A lease is exclusive: after a worker has claimed a row in a state that workers work on, and
  -- whatever statements of the store operators and other workers run on the row before the lease ends,
  -- short of a commit, the row is still the worker's, and nobody else can claim it before the lease
  -- ends.
  pub lease_exclusive :
      (now : Time) (d : Download) {c n : Download}
      → is_claimable d.state ≡ true
      → claim_row owner until now d ≡ some c
      → (r : c ⇒* n) → all_before until r ≡ true
      → (other : GoString) (until' now' : Time) → ltb now' until ≡ true
      → (n.lease_owner ≡ owner) × (claim_row other until' now' n ≡ none)
  lease_exclusive now d {c} {n} working h r b other until' now' early =
      let held = Held-run r b (claim-Held now d c working h) in
      (held.holder, Held-refuses n other until' now' held early)
