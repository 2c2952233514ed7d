-- ===== src/Webhook/Queue/Lands.antt =====
-- The outcome of a delivery that was just claimed.
use cd.Prelude.{
  ◌≡◌, ap, sym, ◌∙◌, subst, ◌+◌, Bool, true, false, Option, none, some, List, [], ◌∷◌, ◌==◌, any,
  arith, inl, inr, Option-cases,
}
use cd.Go.Text.{GoString, str_eq_refl}
use cd.Go.Utf8.{is_blank}
use cd.Domain.Model.{Time}
use cd.Webhook.{DeliveryResult}
use cd.Webhook.Queue.{Delivery, EndpointRow, Queue, pick, lease, update_where, claim_webhook_due}
use cd.Webhook.Queue.Outcome.{
  WebhookClaim, accepted, commit_webhook_claim, valid_result, resolve, is_claimed, is_deleted,
}
use cd.Webhook.Queue.Order.{◌∈◌, here, there}
use cd.Webhook.Queue.Flight.{pick-claimable, some_injective}

-- The claim that ClaimWebhookDue hands out for a leased row.
abbrev pub claim_of_delivery : GoString → Delivery → WebhookClaim
claim_of_delivery owner d = record {
  delivery_id = d.id;
  claim_endpoint_id = d.endpoint_id;
  owner = owner;
  version = d.row_version;
}

any-update :
    (p u : Delivery → Bool) (f : Delivery → Delivery) (q : Queue) (d : Delivery)
    → d ∈ q
    → p d ≡ true
    → u (f d) ≡ true
    → any u (update_where p f q) ≡ true
unfolding update_where
any-update p u f [] d m pd ud = elim m [ ]
any-update p u f (_ ∷ q) d here pd ud = ground arith
any-update p u f (e ∷ q) d (there m) pd ud = ground (arith, any-update p u f q d m pd ud)

lease-is_claimed :
    (owner : GoString) (now until : Time) (d : Delivery)
    → is_claimed (claim_of_delivery owner (lease owner now until d)) (lease owner now until d)
      ≡ true
unfolding lease is_claimed
lease-is_claimed owner now until d = ground (arith, str_eq_refl owner)

claim-picked :
    (owner : GoString) (now duration : Time) (es : List EndpointRow) (q : Queue) (c : Delivery)
    → pick now es q none q ≡ some c
    → claim_webhook_due owner now duration es q ≡ (
      some (lease owner now (now + duration) c),
      update_where (λ r. r.id == c.id) (lease owner now (now + duration)) q,
    )
unfolding claim_webhook_due
claim-picked owner now duration es q c p = rw (p, claim_webhook_due)

claimed-there :
    (owner : GoString) (now duration : Time) (es : List EndpointRow) (q : Queue) (d : Delivery)
    → (claim_webhook_due owner now duration es q).0 ≡ some d
    → any (is_claimed (claim_of_delivery owner d)) (claim_webhook_due owner now duration es q).1
      ≡ true
unfolding claim_webhook_due
claimed-there owner now duration es q d h = elim (Option-cases (pick now es q none q)) [
  | inl p ↦ ground arith
  | inr (c, p) ↦ elim (pick-claimable now es q none q c p) [
    | inl e ↦ cc
    | inr (m, y) ↦
        let leased = lease owner now (now + duration) c in
        let same : some leased ≡ some d =
          sym (ap (λ (o : Option Delivery × Queue). o.0) (claim-picked owner now duration es q c p))
          ∙ h in
        subst
          (λ x.
            any (is_claimed (claim_of_delivery owner x))
              (claim_webhook_due owner now duration es q).1
            ≡ true)
          (some_injective leased d same)
          (ap
              (λ (o : Option Delivery × Queue).
                any (is_claimed (claim_of_delivery owner leased)) o.1)
              (claim-picked owner now duration es q c p)
            ∙ any-update (λ r. r.id == c.id) (is_claimed (claim_of_delivery owner leased))
                (lease owner now (now + duration)) q c m (ground arith)
                (lease-is_claimed owner now (now + duration) c))
  ]
]

-- The table that the commit leaves.
abbrev pub landed : GoString → DeliveryResult → Time → List EndpointRow → Delivery → Queue → Queue
landed owner r later es d q =
    update_where (is_claimed (claim_of_delivery owner d))
      (resolve later (is_deleted d.endpoint_id es) r) q

-- The outcome of a claimed delivery lands: where nothing touches the table in between, a commit of a
-- valid result with the identity of the claim is accepted and writes the outcome on the claimed row, for
-- a worker with a name and a row with positive ids.
pub commit-claimed :
    (owner : GoString) (now duration later : Time) (es es' : List EndpointRow) (q : Queue)
    (d : Delivery) (r : DeliveryResult)
    → (claim_webhook_due owner now duration es q).0 ≡ some d
    → is_blank owner ≡ false
    → (d.id == 0) ≡ false
    → (d.endpoint_id == 0) ≡ false
    → (later == 0) ≡ false
    → valid_result r ≡ true
    → commit_webhook_claim
        (claim_of_delivery owner d)
        r
        later
        es'
        (claim_webhook_due owner now duration es q).1
      ≡ accepted (landed owner r later es' d (claim_webhook_due owner now duration es q).1)
unfolding commit_webhook_claim
commit-claimed owner now duration later es es' q d r h named id endpoint time valid =
    let there_still = claimed-there owner now duration es q d h in
    rw (id, endpoint, named, time, valid, there_still)
