-- ===== src/Examples/Deliveries.antt =====
-- The theorems on webhook deliveries at concrete times.
use cd.Prelude.{◌≡◌, refl, true, leb, pos}
use cd.Webhook.{failure_result, delivery_delay, delay_at}
use cd.Webhook.Attempts.{Failing, once, again, Failing-bounded}

failed_twice : Failing 1000 2 40000002000
unfolding failure_result delivery_delay delay_at
failed_twice = again {now = 2000} {next = 30000002000} (pos 503) (once refl) refl refl

Failing-bounded_example : leb 2 13 ≡ true
Failing-bounded_example = Failing-bounded failed_twice
