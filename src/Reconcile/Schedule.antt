-- ===== src/Reconcile/Schedule.antt =====
-- A row that a worker may still claim has a time for its next run, or waits for an operator.
pub mod Problems
pub mod Cases
use cd.Prelude.{Bool, ◌||◌, not, is_some}
use cd.Domain.State.{is_claimable}
use cd.Domain.Retry.{can_retry}
use cd.Domain.Model.{Download}

unfoldable pub is_scheduled : Download → Bool
is_scheduled d = not (is_claimable d.state) || is_some d.next_run_at || can_retry d
