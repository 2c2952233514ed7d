-- ===== src/Webhook/Queue.antt =====
-- internal/store/repository_outbox.go with internal/store/sqlc/outbox.sql.go: the table of webhook
-- deliveries. A NULL column is `none`.
pub mod Due
pub mod Outcome
pub mod Order
pub mod Flight
pub mod Exclusive
pub mod Lands
use cd.Prelude.{
  ℕ, ◌+◌, ◌-◌, ℤ, pos, Bool, true, false, ◌&&◌, ◌||◌, not, Option, none, some, List, [], ◌∷◌, ltb,
  leb, ◌==◌, if◌then◌else◌, any, map, is_some,
}
use cd.Go.Text.{GoString, str_eq}
use cd.Domain.Model.{Time}
use cd.Webhook.{DeliveryStatus, pending, delivering, succeeded, dead, cancelled, DeliveryResult}

-- A delivery without its event, the name of its endpoint and the text of its last error.
pub record Delivery : Type 0 where
  pub id : ℕ
  pub endpoint_id : ℕ
  pub event_type : GoString
  pub aggregate_type : GoString
  pub aggregate_id : GoString
  pub status : DeliveryStatus
  pub attempt_count : ℕ
  pub first_attempt_at : Option Time
  pub next_attempt_at : Option Time
  pub lease_owner : Option GoString
  pub lease_until : Option Time
  pub last_http_status : Option ℤ
  pub delivered_at : Option Time
  pub created_at : Time
  pub updated_at : Time
  pub row_version : ℕ

-- What these statements read of an endpoint.
pub record EndpointRow : Type 0 where
  pub id : ℕ
  pub enabled : Bool
  pub deleted_at : Option Time

abbrev pub Queue : Type 0
Queue = List Delivery

unfoldable pub is_unsettled : DeliveryStatus → Bool
is_unsettled pending = true
is_unsettled delivering = true
is_unsettled _ = false

unfoldable pub is_delivering : DeliveryStatus → Bool
is_delivering delivering = true
is_delivering _ = false

-- The endpoint is there, enabled and not deleted.
unfoldable pub is_open : ℕ → List EndpointRow → Bool
is_open id [] = false
is_open id (e ∷ es) = (e.id == id && e.enabled && not (is_some e.deleted_at)) || is_open id es

-- One stream: the same endpoint and the same aggregate.
unfoldable pub same_stream : Delivery → Delivery → Bool
same_stream a b =
    a.endpoint_id == b.endpoint_id
    && str_eq a.aggregate_type b.aggregate_type
    && str_eq a.aggregate_id b.aggregate_id

abbrev pub created_before : Delivery → Delivery → Bool
created_before a b =
    ltb a.created_at b.created_at || (a.created_at == b.created_at && ltb a.id b.id)

-- `NOT EXISTS` of an earlier delivery of the stream that is not settled.
unfoldable pub blocks : Delivery → Delivery → Bool
unfolding same_stream is_unsettled
blocks candidate earlier =
    same_stream earlier candidate && is_unsettled earlier.status && created_before earlier candidate

unfoldable pub is_first : Queue → Delivery → Bool
unfolding blocks
is_first q candidate = not (any (blocks candidate) q)

abbrev pub is_past : Time → Option Time → Bool
is_past now none = false
is_past now (some at) = leb at now

abbrev pub is_unleased : Time → Option Time → Bool
is_unleased now none = true
is_unleased now (some until) = leb until now

-- What NextWebhookDue and ClaimWebhookDue ask alike.
unfoldable pub is_candidate : List EndpointRow → Queue → Delivery → Bool
unfolding is_unsettled is_open is_first
is_candidate es q d = is_unsettled d.status && is_open d.endpoint_id es && is_first q d

unfoldable pub is_claimable : Time → List EndpointRow → Queue → Delivery → Bool
unfolding is_candidate
is_claimable now es q d =
    is_candidate es q d && is_past now d.next_attempt_at && is_unleased now d.lease_until

-- A NULL sorts first, but what is compared has a time.
abbrev due_time : Option Time → Time
due_time none = 0
due_time (some at) = at

-- ORDER BY next_attempt_at, created_at, id
unfoldable pub due_before : Delivery → Delivery → Bool
due_before a b =
    let x = due_time a.next_attempt_at in
    let y = due_time b.next_attempt_at in
    if x == y
    then if a.created_at == b.created_at then ltb a.id b.id else ltb a.created_at b.created_at
    else ltb x y

abbrev pub sooner : Option Delivery → Delivery → Option Delivery
sooner none d = some d
sooner (some b) d = if due_before d b then some d else some b

-- The best of the claimable deliveries in the rest of the table.
unfoldable pub pick : Time → List EndpointRow → Queue → Option Delivery → Queue → Option Delivery
unfolding is_claimable due_before
pick now es q best [] = best
pick now es q best (d ∷ ds) =
    pick now es q (if is_claimable now es q d then sooner best d else best) ds

unfoldable pub lease : GoString → Time → Time → Delivery → Delivery
lease owner now until d = record d {
  status = delivering;
  attempt_count = d.attempt_count + 1;
  first_attempt_at = if is_some d.first_attempt_at then d.first_attempt_at else some now;
  lease_owner = some owner;
  lease_until = some until;
  updated_at = now;
  row_version = d.row_version + 1;
}

-- An UPDATE of the rows that a test selects.
unfoldable pub update_where : (Delivery → Bool) → (Delivery → Delivery) → Queue → Queue
update_where p f [] = []
update_where p f (d ∷ ds) = (if p d then f d else d) ∷ update_where p f ds

-- `Store.ClaimWebhookDue`, once its arguments have passed: the leased row, and the table.
unfoldable pub claim_webhook_due :
    GoString → Time → Time → List EndpointRow → Queue → Option Delivery × Queue
unfolding pick lease update_where
claim_webhook_due owner now duration es q = elim (pick now es q none q) [
  | none ↦ (none, q)
  | some d ↦ (
    some (lease owner now (now + duration) d),
    update_where (λ r. r.id == d.id) (lease owner now (now + duration)) q,
  )
]

-- The time at which NextWebhookDue says that the delivery can be claimed.
unfoldable pub effective_due : Time → List EndpointRow → Queue → Delivery → Option Time
unfolding is_candidate
effective_due now es q d =
    if is_candidate es q d then by_lease d.next_attempt_at d.lease_until else none
  where
    by_lease : Option Time → Option Time → Option Time
    by_lease none _ = none
    by_lease (some at) none = some at
    by_lease (some at) (some until) = if leb until now || leb until at then some at else some until

abbrev pub earliest : Option Time → Option Time → Option Time
earliest none b = b
earliest (some a) none = some a
earliest (some a) (some b) = if ltb b a then some b else some a

-- `Store.NextWebhookDue`
unfoldable pub next_webhook_due : Time → List EndpointRow → Queue → Queue → Option Time
unfolding effective_due
next_webhook_due now es q [] = none
next_webhook_due now es q (d ∷ ds) =
    let rest = next_webhook_due now es q ds in earliest (effective_due now es q d) rest
