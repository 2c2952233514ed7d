-- ===== src/Examples/Queues.antt =====
-- A table of deliveries, and the theorems at it.
use cd.Prelude.{◌≡◌, refl, true, none, some, [], ◌∷◌, List, is_some, false, ◌==◌, pos}
use cd.Go.Text.{bytes, str_eq}
use cd.Webhook.{pending, succeeded, DeliveryResult}
use cd.Webhook.Queue.{
  Delivery, EndpointRow, Queue, claim_webhook_due, next_webhook_due, is_past, is_delivering,
  same_stream, lease, pick, is_claimable, is_candidate, is_unsettled, is_open, is_first, blocks,
  due_before, update_where,
}
use cd.Webhook.Queue.Due.{claim-next_due}
use cd.Webhook.Queue.Order.{◌∈◌, here, there, InOrder}
use cd.Webhook.Queue.Exclusive.{◌⟿*◌, done, one_more, claims, inserts, one_in_flight}
use cd.Go.Utf8.{is_blank, ascii_space}
use cd.Webhook.Queue.Outcome.{commit_webhook_claim, accepted, valid_result}
use cd.Webhook.Queue.Lands.{commit-claimed, landed, claim_of_delivery}

abbrev older : Delivery
older = record {
  id = 1;
  endpoint_id = 7;
  event_type = bytes "download.completed";
  aggregate_type = bytes "download";
  aggregate_id = bytes "h";
  status = pending;
  attempt_count = 0;
  first_attempt_at = none;
  next_attempt_at = some 100;
  lease_owner = none;
  lease_until = none;
  last_http_status = none;
  delivered_at = none;
  created_at = 100;
  updated_at = 100;
  row_version = 0;
}

abbrev newer : Delivery
newer = record older { id = 2; created_at = 150; next_attempt_at = some 50 }

abbrev endpoints : List EndpointRow
endpoints = record { id = 7; enabled = true; deleted_at = none } ∷ []

abbrev table : Queue
table = newer ∷ older ∷ []

claim-next_due_example :
    is_some (claim_webhook_due (bytes "w") 200 30 endpoints table).0
    ≡ is_past 200 (next_webhook_due 60 endpoints table table)
claim-next_due_example = claim-next_due (bytes "w") 60 200 30 endpoints table refl

empty_InOrder : InOrder []
empty_InOrder = record { first = λ d m. elim m [ ]; unique = λ d e m. elim m [ ] }

history : [] ⟿* (claim_webhook_due (bytes "w") 200 30 endpoints table).1
history =
    one_more
      (one_more (one_more done (inserts older [] refl refl)) (inserts newer (older ∷ []) refl refl))
      (claims (bytes "w") 200 30 endpoints table)

unfoldable leased : Delivery
unfolding lease
leased = lease (bytes "w") 200 230 older

leased_there : leased ∈ (claim_webhook_due (bytes "w") 200 30 endpoints table).1
unfolding claim_webhook_due lease pick is_claimable is_candidate is_unsettled is_open is_first
    blocks same_stream due_before update_where str_eq bytes leased
leased_there = there here

leased_stream : same_stream leased leased ≡ true
unfolding same_stream str_eq bytes leased lease
leased_stream = refl

leased_delivering : is_delivering leased.status ≡ true
unfolding is_delivering leased lease
leased_delivering = refl

one_in_flight_example : leased ≡ leased
one_in_flight_example =
    one_in_flight [] (claim_webhook_due (bytes "w") 200 30 endpoints table).1 leased leased
      empty_InOrder history leased_there leased_there leased_delivering leased_delivering
      leased_stream

abbrev delivered : DeliveryResult
delivered = record {
  status = succeeded;
  last_http_status = pos 200;
  next_attempt_at = none;
  delivered_at = some 210;
}

claim_leases : (claim_webhook_due (bytes "w") 200 30 endpoints table).0 ≡ some leased
unfolding claim_webhook_due lease pick is_claimable is_candidate is_unsettled is_open is_first
    blocks same_stream due_before update_where str_eq bytes leased
claim_leases = refl

worker_named : is_blank (bytes "w") ≡ false
unfolding is_blank ascii_space bytes
worker_named = refl

delivered_valid : valid_result delivered ≡ true
unfolding valid_result
delivered_valid = refl

older_id : (leased.id == 0) ≡ false
unfolding leased lease
older_id = refl

older_endpoint : (leased.endpoint_id == 0) ≡ false
unfolding leased lease
older_endpoint = refl

commit-claimed_example :
    commit_webhook_claim
      (claim_of_delivery (bytes "w") leased)
      delivered
      210
      endpoints
      (claim_webhook_due (bytes "w") 200 30 endpoints table).1
    ≡ accepted (
        landed
          (bytes "w")
          delivered
          210
          endpoints
          leased
          (claim_webhook_due (bytes "w") 200 30 endpoints table).1)
commit-claimed_example =
    commit-claimed (bytes "w") 200 30 210 endpoints endpoints table leased delivered claim_leases
      worker_named older_id older_endpoint refl delivered_valid
