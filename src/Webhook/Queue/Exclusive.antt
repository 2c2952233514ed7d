-- ===== src/Webhook/Queue/Exclusive.antt =====
-- Histories of the table of deliveries without a replay.
use cd.Prelude.{
  ℕ, ◌≡◌, subst, ◌+◌, true, false, none, List, ◌∷◌, ◌==◌, all, arith, inl, inr, Option-cases,
}
use cd.Go.Text.{GoString, str_eq_sym}
use cd.Domain.Model.{Time}
use cd.Webhook.{DeliveryResult, pending}
use cd.Webhook.Queue.{
  Delivery, EndpointRow, Queue, is_unsettled, is_delivering, blocks, is_first, pick, lease,
  update_where, claim_webhook_due, same_stream,
}
use cd.Webhook.Queue.Outcome.{
  WebhookClaim, accepted, commit_webhook_claim, valid_result, resolve, is_claimed, is_deleted,
  cancel, cancel_endpoint_deliveries, cancel_subscription_deliveries, prune_deliveries,
}
use cd.Webhook.Queue.Order.{◌∈◌, InOrder, any-∈, update_where-InOrder}
use cd.Webhook.Queue.Flight.{
  is_newer, pick-claimable, first-claimable, lease-Harmless, resolve-Harmless, cancel-Harmless,
  prune-InOrder, insert-first, insert_unique,
}

-- An operation on the table other than a replay.
infix 4 ◌⟿◌
pub data ◌⟿◌ : Queue → Queue → Type 0 where
  claims :
      (owner : GoString) (now duration : Time) (es : List EndpointRow) (q : Queue)
      → q ⟿ (claim_webhook_due owner now duration es q).1
  commits :
      (c : WebhookClaim) (r : DeliveryResult) (now : Time) (es : List EndpointRow) (q u : Queue)
      → commit_webhook_claim c r now es q ≡ accepted u
      → q ⟿ u
  cancels_endpoint : (id : ℕ) (now : Time) (q : Queue) → q ⟿ cancel_endpoint_deliveries id now q
  cancels_subscription :
      (id : ℕ) (event : GoString) (now : Time) (q : Queue)
      → q ⟿ cancel_subscription_deliveries id event now q
  prunes : (cutoff : Time) (q : Queue) → q ⟿ prune_deliveries cutoff q
  inserts :
      (d : Delivery) (q : Queue) → all (is_newer d) q ≡ true → d.status ≡ pending → q ⟿ (d ∷ q)

claim-InOrder :
    (owner : GoString) (now duration : Time) (es : List EndpointRow) (q : Queue)
    → InOrder q
    → InOrder (claim_webhook_due owner now duration es q).1
unfolding claim_webhook_due
claim-InOrder owner now duration es q o = elim (Option-cases (pick now es q none q)) [
  | inl p ↦ rw (p, claim_webhook_due) o
  | inr (c, p) ↦ elim (pick-claimable now es q none q c p) [
    | inl e ↦ cc
    | inr (m, y) ↦
        let f = first-claimable now es q c y in
        rw (p, claim_webhook_due)
          (update_where-InOrder (λ r. r.id == c.id) (lease owner now (now + duration)) q
            (lease-Harmless owner now (now + duration) q c o m f.0 f.1) o)
  ]
]

commit-accepted :
    (c : WebhookClaim) (r : DeliveryResult) (now : Time) (es : List EndpointRow) (q u : Queue)
    → commit_webhook_claim c r now es q ≡ accepted u
    → (valid_result r ≡ true)
      × (update_where (is_claimed c) (resolve now (is_deleted c.claim_endpoint_id es) r) q ≡ u)
unfolding commit_webhook_claim
commit-accepted c r now es q u h = ground arith

step-InOrder : (q u : Queue) → q ⟿ u → InOrder q → InOrder u
unfolding cancel_endpoint_deliveries cancel_subscription_deliveries
step-InOrder _ _ (claims owner now duration es q) o = claim-InOrder owner now duration es q o
step-InOrder _ _ (commits c r now es q u h) o =
    let a = commit-accepted c r now es q u h in
    subst InOrder a.1 (
      update_where-InOrder (is_claimed c) (resolve now (is_deleted c.claim_endpoint_id es) r) q
        (resolve-Harmless c r now (is_deleted c.claim_endpoint_id es) q a.0) o)
step-InOrder _ _ (cancels_endpoint id now q) o =
    update_where-InOrder _ (cancel now) q (cancel-Harmless _ now q) o
step-InOrder _ _ (cancels_subscription id event now q) o =
    update_where-InOrder _ (cancel now) q (cancel-Harmless _ now q) o
step-InOrder _ _ (prunes cutoff q) o = prune-InOrder cutoff q o
step-InOrder _ _ (inserts d q new fresh) o = record {
  first = λ e m b. insert-first d e q new fresh o m b;
  unique = λ x y m n same. insert_unique d x y q new o m n same;
}

-- Any number of operations.
infix 4 ◌⟿*◌
pub data ◌⟿*◌ (q : Queue) : Queue → Type 0 where
  done : q ⟿* q
  one_more : {u v : Queue} → q ⟿* u → u ⟿ v → q ⟿* v

history-InOrder : (q u : Queue) → q ⟿* u → InOrder q → InOrder u
history-InOrder q _ done o = o
history-InOrder q u (one_more {u = v} before last) o =
    step-InOrder v u last (history-InOrder q v before o)

same_stream_sym : (d e : Delivery) → same_stream d e ≡ true → same_stream e d ≡ true
unfolding same_stream
same_stream_sym d e h =
    ground (
      arith,
      str_eq_sym d.aggregate_type e.aggregate_type,
      str_eq_sym d.aggregate_id e.aggregate_id,
    )

flight_id :
    (d e : Delivery)
    → same_stream d e ≡ true
    → same_stream e d ≡ true
    → is_delivering d.status ≡ true
    → is_delivering e.status ≡ true
    → blocks d e ≡ false
    → blocks e d ≡ false
    → d.id ≡ e.id
unfolding blocks is_unsettled is_delivering
flight_id d e de ed busy_d busy_e free_d free_e = ground arith

first-free : (q : Queue) (d e : Delivery) → is_first q d ≡ true → e ∈ q → blocks d e ≡ false
unfolding is_first
first-free q d e first m = any-∈ (blocks d) q e (ground arith) m

-- An endpoint never has two deliveries of one aggregate in flight: from a table where every leased
-- delivery is the first of its stream that is not settled, and after any claims, commits, cancellations,
-- prunings and insertions of newer deliveries, two leased deliveries for the same endpoint and aggregate
-- are one and the same. Replays are left out.
pub one_in_flight :
    (q u : Queue) (d e : Delivery)
    → InOrder q
    → q ⟿* u
    → d ∈ u
    → e ∈ u
    → is_delivering d.status ≡ true
    → is_delivering e.status ≡ true
    → same_stream d e ≡ true
    → d ≡ e
one_in_flight q u d e o h m n busy_d busy_e same =
    let after = history-InOrder q u h o in
    after.unique d e m n (
      flight_id d e same (same_stream_sym d e same) busy_d busy_e
        (first-free u d e (after.first d m busy_d) n) (first-free u e d (after.first e n busy_e) m))
