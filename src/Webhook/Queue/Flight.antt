-- ===== src/Webhook/Queue/Flight.antt =====
-- The operations on the table of deliveries, and the deliveries in flight.
use cd.Prelude.{
  ◌≡◌, refl, ap, sym, subst, Bool, true, false, ◌&&◌, Option, none, some, List, [], ◌∷◌, ltb, leb,
  ◌==◌, if◌then◌else◌, any, all, arith, Bool-cases, inl, inr, ◌⊎◌, if_cases,
}
use cd.Go.Text.{GoString}
use cd.Domain.Model.{Time}
use cd.Webhook.{DeliveryResult, pending}
use cd.Webhook.Queue.{
  Delivery, EndpointRow, Queue, is_unsettled, is_delivering, blocks, is_first, is_candidate,
  is_claimable, pick, sooner, lease, same_stream, due_before,
}
use cd.Webhook.Queue.Outcome.{
  WebhookClaim, valid_result, resolve, is_claimed, cancel, prune_deliveries,
}
use cd.Webhook.Queue.Order.{◌∈◌, here, there, InOrder, any-∈, any-none, Harmless}

pub some_injective : (a b : Delivery) → some a ≡ some b → a ≡ b
some_injective a b h = cc

sooner-one :
    (best : Option Delivery) (d c : Delivery) → sooner best d ≡ some c → (best ≡ some c) ⊎ (d ≡ c)
sooner-one none d c h = inr (some_injective d c h)
sooner-one (some b) d c h = elim (if_cases (due_before d b) (some d) (some b) (some c) h) [
  | inl p ↦ inr (some_injective d c p)
  | inr q ↦ inl q
]

-- What is picked is the best so far, or claimable.
pub pick-claimable :
    (now : Time) (es : List EndpointRow) (q : Queue) (best : Option Delivery) (ds : Queue)
    (c : Delivery)
    → pick now es q best ds ≡ some c
    → (best ≡ some c) ⊎ ((c ∈ ds) × (is_claimable now es q c ≡ true))
unfolding pick
pick-claimable now es q best [] c h = inl h
pick-claimable now es q best (d ∷ ds) c h =
    let next = if is_claimable now es q d then sooner best d else best in
    elim (pick-claimable now es q next ds c h) [
      | inr (m, p) ↦ inr (there m, p)
      | inl e ↦ elim (Bool-cases (is_claimable now es q d)) [
        | inl y ↦
            elim (sooner-one best d c
              (subst (λ b. (if b then sooner best d else best) ≡ some c) y e)) [
                | inl p ↦ inl p
                | inr p ↦
                    inr (subst (λ x. (x ∈ (d ∷ ds)) × (is_claimable now es q x ≡ true)) p (here, y))
              ]
        | inr n ↦ inl (subst (λ b. (if b then sooner best d else best) ≡ some c) n e)
      ]
    ]

pub first-claimable :
    (now : Time) (es : List EndpointRow) (q : Queue) (c : Delivery)
    → is_claimable now es q c ≡ true
    → (is_first q c ≡ true) × (is_unsettled c.status ≡ true)
unfolding is_claimable is_candidate
first-claimable now es q c h = ground arith

pub lease-Harmless :
    (owner : GoString) (now until : Time) (q : Queue) (c : Delivery)
    → InOrder q
    → c ∈ q
    → is_first q c ≡ true
    → is_unsettled c.status ≡ true
    → Harmless (λ r. r.id == c.id) (lease owner now until) q
unfolding lease blocks same_stream is_unsettled
lease-Harmless owner now until q c o m first busy = record {
  id_kept = λ d. refl;
  stream_kept = λ d e. refl;
  settles = λ d e n p free.
      let same = o.unique e c n m (ground arith) in
      ground (arith, ap (λ (x : Delivery). x.status) same);
  leases =
      λ d n p b. subst (λ x. is_first q x ≡ true) (sym (o.unique d c n m (ground arith))) first;
}

pub resolve-Harmless :
    (c : WebhookClaim) (r : DeliveryResult) (now : Time) (gone : Bool) (q : Queue)
    → valid_result r ≡ true
    → Harmless (is_claimed c) (resolve now gone r) q
unfolding resolve blocks same_stream is_claimed valid_result is_delivering is_unsettled
resolve-Harmless c r now gone q v = record {
  id_kept = λ d. refl;
  stream_kept = λ d e. refl;
  settles = λ d e n p free. ground arith;
  leases = λ d n p b. ground arith;
}

pub cancel-Harmless : (p : Delivery → Bool) (now : Time) (q : Queue) → Harmless p (cancel now) q
unfolding cancel blocks same_stream is_delivering is_unsettled
cancel-Harmless p now q = record {
  id_kept = λ d. refl;
  stream_kept = λ d e. refl;
  settles = λ d e n pe free. ground arith;
  leases = λ d n pd b. ground arith;
}

kept-∈ :
    (b : Bool) (d e : Delivery) (rest q : Queue)
    → (d ∈ rest → d ∈ q)
    → d ∈ (if b then rest else e ∷ rest)
    → d ∈ (e ∷ q)
kept-∈ true d e rest q k m = there (k m)
kept-∈ false d _ rest q k here = here
kept-∈ false d e rest q k (there m) = there (k m)

prune-∈ : (cutoff : Time) (q : Queue) (d : Delivery) → d ∈ prune_deliveries cutoff q → d ∈ q
unfolding prune_deliveries
prune-∈ cutoff [] d m = elim m [ ]
prune-∈ cutoff (e ∷ q) d m = kept-∈ _ d e (prune_deliveries cutoff q) q (prune-∈ cutoff q d) m

pub prune-InOrder : (cutoff : Time) (q : Queue) → InOrder q → InOrder (prune_deliveries cutoff q)
unfolding is_first
prune-InOrder cutoff q o = record {
  first = λ d m b.
      let free : any (blocks d) q ≡ false = ground (arith, o.first d (prune-∈ cutoff q d m) b) in
      let free_after : any (blocks d) (prune_deliveries cutoff q) ≡ false =
        any-none (blocks d) (prune_deliveries cutoff q)
          (λ e n. any-∈ (blocks d) q e free (prune-∈ cutoff q e n)) in
      rw (free_after);
  unique = λ d e m n. o.unique d e (prune-∈ cutoff q d m) (prune-∈ cutoff q e n);
}

pub all-∈ : (p : Delivery → Bool) (q : Queue) (e : Delivery) → all p q ≡ true → e ∈ q → p e ≡ true
all-∈ p [] e h m = elim m [ ]
all-∈ p (d ∷ q) _ h here = ground arith
all-∈ p (d ∷ q) e h (there m) = all-∈ p q e (ground arith) m

-- A new delivery has the next id and is created no earlier than the others.
abbrev pub is_newer : Delivery → Delivery → Bool
is_newer d e = leb e.created_at d.created_at && ltb e.id d.id

pub insert-first :
    (d e : Delivery) (q : Queue)
    → all (is_newer d) q ≡ true
    → d.status ≡ pending
    → InOrder q
    → e ∈ (d ∷ q)
    → is_delivering e.status ≡ true
    → is_first (d ∷ q) e ≡ true
unfolding is_first blocks is_delivering
insert-first d _ q new fresh o here b = ground arith
insert-first d e q new fresh o (there m) b =
    ground (arith, all-∈ (is_newer d) q e new m, o.first e m b)

pub insert_unique :
    (d x y : Delivery) (q : Queue)
    → all (is_newer d) q ≡ true
    → InOrder q
    → x ∈ (d ∷ q)
    → y ∈ (d ∷ q)
    → x.id ≡ y.id
    → x ≡ y
insert_unique d _ _ q new o here here same = refl
insert_unique d _ y q new o here (there n) same = ground (arith, all-∈ (is_newer d) q y new n)
insert_unique d x _ q new o (there m) here same = ground (arith, all-∈ (is_newer d) q x new m)
insert_unique d x y q new o (there m) (there n) same = o.unique x y m n same
