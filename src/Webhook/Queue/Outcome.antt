-- ===== src/Webhook/Queue/Outcome.antt =====
-- What becomes of a leased delivery, and the other statements on the table of deliveries.
use cd.Prelude.{
  ℕ, ◌+◌, ℤ, pos, negsuc, Bool, true, false, ◌&&◌, ◌||◌, not, Option, none, some, List, [], ◌∷◌,
  ltb, ◌==◌, if◌then◌else◌, any, is_some,
}
use cd.Go.Text.{GoString, str_eq}
use cd.Go.Utf8.{is_blank}
use cd.Domain.Model.{Time}
use cd.Webhook.{DeliveryStatus, pending, delivering, succeeded, dead, cancelled, DeliveryResult}
use cd.Webhook.Queue.{Delivery, EndpointRow, Queue, is_open, update_where}

-- The lease identity of a claim.
pub record WebhookClaim : Type 0 where
  pub delivery_id : ℕ
  pub claim_endpoint_id : ℕ
  pub owner : GoString
  pub version : ℕ

pub data WebhookAnswer : Type 0 where
  accepted : Queue → WebhookAnswer
  claim_lost invalid_result : WebhookAnswer

abbrev is_time : Option Time → Bool
is_time none = false
is_time (some at) = not (at == 0)

-- The switch over the status of the result.
unfoldable pub valid_result : DeliveryResult → Bool
valid_result r = elim r.status [
  | succeeded ↦ is_time r.delivered_at
  | pending ↦ is_time r.next_attempt_at
  | dead ↦ not (is_some r.next_attempt_at)
  | _ ↦ false
]

-- `GetEndpointDeletedAt`; a missing endpoint counts as deleted.
unfoldable pub is_deleted : ℕ → List EndpointRow → Bool
is_deleted id [] = true
is_deleted id (e ∷ es) =
    let rest = is_deleted id es in if e.id == id then is_some e.deleted_at else rest

abbrev http_status : ℤ → Option ℤ
http_status (pos n) = if n == 0 then none else some (pos n)
http_status (negsuc _) = none

-- The UPDATE of commitWebhookClaim on its row, where the endpoint is deleted or not.
unfoldable pub resolve : Time → Bool → DeliveryResult → Delivery → Delivery
resolve now gone r d = record d {
  status = if gone then cancelled else r.status;
  last_http_status = http_status r.last_http_status;
  next_attempt_at = if gone then none else r.next_attempt_at;
  delivered_at = if gone then none else r.delivered_at;
  lease_owner = none;
  lease_until = none;
  updated_at = now;
  row_version = d.row_version + 1;
}

abbrev owned_by : GoString → Option GoString → Bool
owned_by owner none = false
owned_by owner (some o) = str_eq o owner

abbrev in_flight : DeliveryStatus → Bool
in_flight delivering = true
in_flight _ = false

unfoldable pub is_claimed : WebhookClaim → Delivery → Bool
is_claimed c d =
    d.id == c.delivery_id
    && in_flight d.status
    && owned_by c.owner d.lease_owner
    && d.row_version == c.version

-- `Store.CommitWebhookClaim`
unfoldable pub commit_webhook_claim :
    WebhookClaim → DeliveryResult → Time → List EndpointRow → Queue → WebhookAnswer
unfolding valid_result is_deleted resolve is_claimed update_where
commit_webhook_claim c r now es q =
    if c.delivery_id == 0 || c.claim_endpoint_id == 0 || is_blank c.owner || now == 0
    then claim_lost
    else if not (valid_result r)
    then invalid_result
    else if any (is_claimed c) q
    then accepted
        (update_where (is_claimed c) (resolve now (is_deleted c.claim_endpoint_id es) r) q)
    else claim_lost

abbrev is_open_ended : DeliveryStatus → Bool
is_open_ended pending = true
is_open_ended dead = true
is_open_ended _ = false

unfoldable pub cancel : Time → Delivery → Delivery
cancel now d = record d {
  status = cancelled;
  next_attempt_at = none;
  lease_owner = none;
  lease_until = none;
  updated_at = now;
  row_version = d.row_version + 1;
}

-- `CancelEndpointDeliveries`
unfoldable pub cancel_endpoint_deliveries : ℕ → Time → Queue → Queue
unfolding cancel update_where
cancel_endpoint_deliveries id now q =
    update_where (λ d. d.endpoint_id == id && is_open_ended d.status) (cancel now) q

-- `CancelSubscriptionDeliveries`
unfoldable pub cancel_subscription_deliveries : ℕ → GoString → Time → Queue → Queue
unfolding cancel update_where
cancel_subscription_deliveries id event now q =
    update_where (λ d. d.endpoint_id == id && str_eq d.event_type event && is_open_ended d.status)
      (cancel now) q

abbrev is_done : DeliveryStatus → Bool
is_done succeeded = true
is_done cancelled = true
is_done _ = false

-- `PruneDeliveries`
unfoldable pub prune_deliveries : Time → Queue → Queue
prune_deliveries cutoff [] = []
prune_deliveries cutoff (d ∷ ds) =
    let rest = prune_deliveries cutoff ds in
    if is_done d.status && ltb d.updated_at cutoff then rest else d ∷ rest

-- `ReplayDelivery`
unfoldable pub replay : Time → Delivery → Delivery
replay now d = record d {
  status = pending;
  attempt_count = 0;
  first_attempt_at = none;
  next_attempt_at = some now;
  lease_owner = none;
  lease_until = none;
  last_http_status = none;
  delivered_at = none;
  updated_at = now;
  row_version = d.row_version + 1;
}

abbrev is_dead : DeliveryStatus → Bool
is_dead dead = true
is_dead _ = false

unfoldable pub replay_delivery : Time → ℕ → List EndpointRow → Queue → Queue
unfolding replay update_where
replay_delivery now id es q =
    update_where (λ d. d.id == id && is_dead d.status && is_open d.endpoint_id es) (replay now) q
