-- ===== src/Webhook/Attempts.antt =====
-- The attempts of a delivery that keeps failing.
use cd.Prelude.{
  ℕ, zero, suc, ◌≡◌, refl, true, false, some, arith, leb, ltb, ◌+◌, ◌-◌, pos, ℤ, ap, Bool-cases,
  inl, inr, false,
}
use cd.Domain.Model.{Time}
use cd.Webhook.{DeliveryClaim, delay_at, delivery_delay, failure_result, retry_deadline}

abbrev claim_at : Time → ℕ → DeliveryClaim
claim_at first k = record { attempt_count = pos k; first_attempt_at = some first }

-- The k-th attempt, counted from 1, has failed at the given time, like all before it. The first attempt
-- was claimed at `first`, and each later one ended when it was due or after that.
pub data Failing (first : Time) : ℕ → Time → Type 0 where
  once : {now : Time} → leb first now ≡ true → Failing first 1 now
  again :
      {k : ℕ} {now now' next : Time} (code : ℤ)
      → Failing first (suc k) now
      → (failure_result (claim_at first (suc k)) now code).next_attempt_at ≡ some next
      → leb next now' ≡ true
      → Failing first (suc (suc k)) now'

-- The delays before the k-th attempt, summed up.
total : ℕ → Time
total zero = 0
total (suc zero) = 0
total (suc (suc k)) = total (suc k) + delay_at k

total_of_14 : total 14 ≡ 93810000000000
unfolding total delay_at
total_of_14 = refl

-- After thirteen attempts the delays exceed the deadline.
total_late : (k : ℕ) → leb retry_deadline (total (14 + k)) ≡ true
unfolding total
total_late zero = ground (arith, total_of_14)
total_late (suc k) = ground (arith, total_late k)

delay_of_attempt : (k : ℕ) → delivery_delay (pos (suc k)) ≡ delay_at k
unfolding delivery_delay
delay_of_attempt k = ground arith

failed_again :
    (first : Time) (k : ℕ) (now next : Time) (code : ℤ)
    → (failure_result (claim_at first k) now code).next_attempt_at ≡ some next
    → (next ≡ now + delivery_delay (pos k)) × (ltb next (first + retry_deadline) ≡ true)
unfolding failure_result
failed_again first k now next code h = ground arith

Failing-after :
    {first : Time} {k : ℕ} {now : Time} → Failing first k now → leb (first + total k) now ≡ true
unfolding total
Failing-after (once h) = ground arith
Failing-after {first} (again {k} {now} {now'} {next} code f h due) =
    ground (arith, Failing-after f, failed_again first (suc k) now next code h, delay_of_attempt k)

restored : (k : ℕ) → leb k 13 ≡ false → 14 + (k - 14) ≡ k
restored k h = ground arith

total_small : (k : ℕ) → ltb (total k) retry_deadline ≡ true → leb k 13 ≡ true
total_small k h = elim (Bool-cases (leb k 13)) [
  | inl p ↦ p
  | inr q ↦ ground (arith, total_late (k - 14), ap total (restored k q))
]

-- A delivery is not retried for ever: however late each attempt is made, a delivery that keeps failing
-- is given up after thirteen attempts at most, counted from the first claim.
pub Failing-bounded : {first : Time} {k : ℕ} {now : Time} → Failing first k now → leb k 13 ≡ true
unfolding total
Failing-bounded (once h) = refl
Failing-bounded {first} (again {k} {now} {now'} {next} code f h due) = total_small (suc (suc k)) (
    ground (arith, Failing-after f, failed_again first (suc k) now next code h, delay_of_attempt k))
