-- ===== src/Domain/Retry/Targets.antt =====
-- Where a retry leads, for each row that may be retried.
use cd.Prelude.{◌≡◌, ◌⊎◌, true, false, arith}
use cd.Domain.State.{failed, state_eq, can_transition}
use cd.Domain.Model.{Download}
use cd.Domain.Retry.{can_retry, is_cleanup, retry_target}

-- Of a failed row the target is a phase that `CanTransition` allows from FAILED, and it is neither
-- cleanup state; of a cleanup that failed the target is the cleanup state itself. So every row that
-- `CanRetry` admits passes the guard with which the store checks the target.
pub retry_target-accepted :
    (d : Download)
    → can_retry d ≡ true
    → ((d.state ≡ failed)
        × (can_transition failed (retry_target d) ≡ true)
        × (is_cleanup (retry_target d) ≡ false))
      ⊎ ((is_cleanup d.state ≡ true) × (retry_target d ≡ d.state))
unfolding can_retry retry_target can_transition is_cleanup state_eq
retry_target-accepted d h = ground arith
