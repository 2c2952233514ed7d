-- ===== src/Webhook.antt =====
-- internal/webhook/http.go, internal/webhook/dispatcher.go, internal/outbox/payload.go: the outcome of
-- one attempt to deliver an event, and how long an idle worker sleeps.
pub mod Attempts
pub mod Idle
pub mod Queue
use cd.Prelude.{
  ℕ, ℤ, pos, negsuc, ◌+◌, ◌-◌, ◌*◌, ◌&&◌, Bool, true, false, Option, none, some, leb, ltb, ◌==◌,
  if◌then◌else◌,
}
use cd.Domain.Model.{Time}

-- A delivery is delivering while it is leased, and cancelled with its endpoint or subscription.
pub data DeliveryStatus : Type 0 where
  pending delivering succeeded dead cancelled : DeliveryStatus

-- What an attempt knows of its delivery.
pub record DeliveryClaim : Type 0 where
  pub attempt_count : ℤ
  pub first_attempt_at : Option Time

-- `Result` without its text for the log; `last_http_status` is 0 where there was no response.
pub record DeliveryResult : Type 0 where
  pub status : DeliveryStatus
  pub last_http_status : ℤ
  pub next_attempt_at : Option Time
  pub delivered_at : Option Time

abbrev minutes : Time
minutes = 60000000000

abbrev hours : Time
hours = 3600000000000

abbrev pub retry_deadline : Time
retry_deadline = 24 * hours

-- The entries of `delays`, the last one for every index from there on.
unfoldable pub delay_at : ℕ → Time
delay_at i =
    if i == 0
    then 30000000000
    else if i == 1
    then minutes
    else if i == 2
    then 2 * minutes
    else if i == 3
    then 4 * minutes
    else if i == 4
    then 8 * minutes
    else if i == 5
    then 16 * minutes
    else if i == 6
    then 32 * minutes
    else if i == 7
    then hours
    else if i == 8
    then 2 * hours
    else if i == 9
    then 4 * hours
    else 6 * hours

unfoldable pub delivery_delay : ℤ → Time
unfolding delay_at
delivery_delay (negsuc _) = delay_at 0
delivery_delay (pos n) = delay_at (n - 1)

abbrev is_expired : Option Time → Time → Bool
is_expired none next = false
is_expired (some first) next = leb (first + retry_deadline) next

unfoldable pub failure_result : DeliveryClaim → Time → ℤ → DeliveryResult
unfolding delivery_delay
failure_result claim now code =
    let next = now + delivery_delay claim.attempt_count in
    if is_expired claim.first_attempt_at next
    then record {
      status = dead;
      last_http_status = code;
      next_attempt_at = none;
      delivered_at = none;
    }
    else record {
      status = pending;
      last_http_status = code;
      next_attempt_at = some next;
      delivered_at = none;
    }

-- The end of an attempt that got a response.
unfoldable pub response_result : DeliveryClaim → Time → ℕ → DeliveryResult
unfolding failure_result
response_result claim now code =
    if leb 200 code && ltb code 300
    then record {
      status = succeeded;
      last_http_status = pos code;
      next_attempt_at = none;
      delivered_at = some now;
    }
    else failure_result claim now (pos code)

-- `due.Sub(now)` is negative before the test where the due time has passed.
unfoldable pub idle_wait : Time → Option Time → Time → Time
idle_wait now none max = max
idle_wait now (some due) max =
    if ltb due now then 0 else if ltb max (due - now) then max else due - now
