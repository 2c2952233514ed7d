-- ===== src/Reconcile/Step.antt =====
-- internal/reconcile/reconcile.go, Step: the row that a worker hands to CommitClaim.
pub mod Commit
pub mod Lands
pub mod Conflict
use cd.Prelude.{Bool, none, [], if◌then◌else◌}
use cd.Domain.Problem.{workflow_operation_timeout, destination_conflict}
use cd.Domain.Model.{Time, Download}
use cd.Reconcile.World.{Env, Outcome}
use cd.Reconcile.Failure.{retry, fail}
use cd.Reconcile.Decide.{decide}

-- The outcome of a step at the time it ends; `expired` where its operation context has run out. The
-- effects of the step stand even then.
unfoldable pub proposed : Env → Bool → Time → Download → Outcome
proposed e expired at d =
    if expired
    then record (decide e d) {
      next = record (retry e d workflow_operation_timeout) { updated_at = at };
      error = none;
    }
    else record (decide e d) { next = record (decide e d).next { updated_at = at } }

-- The row that is committed in its place after ErrDestinationConflict.
unfoldable pub conflicted : Time → Download → Download
conflicted at d = record (fail (record d { destination_name = [] }) destination_conflict) {
  updated_at = at;
}
