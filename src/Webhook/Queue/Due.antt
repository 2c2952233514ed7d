-- ===== src/Webhook/Queue/Due.antt =====
-- When a delivery can be claimed.
use cd.Prelude.{
  ◌≡◌, refl, true, leb, ◌||◌, Option, none, some, List, [], ◌∷◌, any, is_some, arith, Bool-cases,
  inl, inr, Option-cases, ap, ◌∙◌,
}
use cd.Go.Text.{GoString}
use cd.Domain.Model.{Time}
use cd.Webhook.Queue.{
  Delivery, EndpointRow, Queue, is_claimable, is_past, pick, effective_due, next_webhook_due,
  claim_webhook_due, sooner, earliest,
}

-- On a table that stays as it is, the effective due time of a delivery has come exactly where the
-- delivery can be claimed, also at a later time than the one it was read at.
effective_due-is_claimable :
    (now later : Time) (es : List EndpointRow) (q : Queue) (d : Delivery)
    → leb now later ≡ true
    → is_past later (effective_due now es q d) ≡ is_claimable later es q d
unfolding effective_due is_claimable
effective_due-is_claimable now later es q d h = ground arith

past-earliest :
    (now : Time) (a b : Option Time) → is_past now (earliest a b) ≡ (is_past now a || is_past now b)
past-earliest now none b = refl
past-earliest now (some a) none = ground arith
past-earliest now (some a) (some b) = ground arith

next_due-any :
    (now later : Time) (es : List EndpointRow) (q ds : Queue)
    → leb now later ≡ true
    → is_past later (next_webhook_due now es q ds) ≡ any (is_claimable later es q) ds
unfolding next_webhook_due
next_due-any now later es q [] h = refl
next_due-any now later es q (d ∷ ds) h =
    past-earliest later (effective_due now es q d) (next_webhook_due now es q ds)
    ∙ ap (λ b. b || is_past later (next_webhook_due now es q ds))
        (effective_due-is_claimable now later es q d h)
    ∙ ap (λ b. is_claimable later es q d || b) (next_due-any now later es q ds h)

pick-any :
    (now : Time) (es : List EndpointRow) (q : Queue) (best : Option Delivery) (ds : Queue)
    → is_some (pick now es q best ds) ≡ (is_some best || any (is_claimable now es q) ds)
unfolding pick
pick-any now es q none [] = refl
pick-any now es q (some b) [] = refl
pick-any now es q best (d ∷ ds) = elim (Bool-cases (is_claimable now es q d)) [
  | inl p ↦ ground (arith, pick-any now es q (sooner best d) ds)
  | inr n ↦ ground (arith, pick-any now es q best ds)
]

-- NextWebhookDue tells a worker how long to sleep: what it answers at one time is the time from which
-- on a delivery can be claimed. While the table stays as it is, ClaimWebhookDue finds a delivery at a
-- time that is not before the question exactly where the answered time has come, and never where the
-- answer was that there is none.
pub claim-next_due :
    (owner : GoString) (now later duration : Time) (es : List EndpointRow) (q : Queue)
    → leb now later ≡ true
    → is_some (claim_webhook_due owner later duration es q).0
      ≡ is_past later (next_webhook_due now es q q)
unfolding claim_webhook_due
claim-next_due owner now later duration es q h = elim (Option-cases (pick later es q none q)) [
  | inl p ↦ ground (arith, pick-any later es q none q, next_due-any now later es q q h)
  | inr p ↦ ground (arith, pick-any later es q none q, next_due-any now later es q q h)
]
