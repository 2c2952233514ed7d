-- ===== src/Webhook/Idle.antt =====
-- The sleep of an idle worker.
use cd.Prelude.{◌≡◌, true, some, arith, leb, ◌+◌, ◌⊎◌}
use cd.Domain.Model.{Time}
use cd.Webhook.{idle_wait}

-- An idle worker never sleeps longer than its bound, and never past a due time: it wakes at the due
-- time or before, or does not sleep at all because the due time has come.
pub idle_wait_bounded :
    (now due max : Time)
    → (leb (idle_wait now (some due) max) max ≡ true)
      × ((leb (now + idle_wait now (some due) max) due ≡ true) ⊎ (idle_wait now (some due) max ≡ 0))
unfolding idle_wait
idle_wait_bounded now due max = ground arith
