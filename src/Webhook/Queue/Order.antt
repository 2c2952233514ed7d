-- ===== src/Webhook/Queue/Order.antt =====
-- One delivery at a time in each stream.
use cd.Prelude.{
  ◌≡◌, refl, ap, sym, ◌∙◌, subst, Bool, true, false, [], ◌∷◌, if◌then◌else◌, any, arith, Bool-cases,
  inl, inr,
}
use cd.Webhook.Queue.{Delivery, Queue, is_delivering, blocks, is_first, update_where}

infix 4 ◌∈◌
pub data ◌∈◌ (d : Delivery) : Queue → Type 0 where
  here : {ds : Queue} → d ∈ (d ∷ ds)
  there : {e : Delivery} {ds : Queue} → d ∈ ds → d ∈ (e ∷ ds)

-- A leased delivery is the first of its stream that is not settled.
pub record InOrder (q : Queue) : Type 0 where
  pub first : (d : Delivery) → d ∈ q → is_delivering d.status ≡ true → is_first q d ≡ true
  pub unique : (d e : Delivery) → d ∈ q → e ∈ q → d.id ≡ e.id → d ≡ e

pub any-∈ : (p : Delivery → Bool) (q : Queue) (e : Delivery) → any p q ≡ false → e ∈ q → p e ≡ false
any-∈ p [] e h m = elim m [ ]
any-∈ p (d ∷ q) _ h here = ground arith
any-∈ p (d ∷ q) e h (there m) = any-∈ p q e (ground arith) m

pub any-none :
    (p : Delivery → Bool) (q : Queue) → ((e : Delivery) → e ∈ q → p e ≡ false) → any p q ≡ false
any-none p [] h = refl
any-none p (d ∷ q) h = ground (arith, h d here, any-none p q (λ e m. h e (there m)))

-- Where a row of the updated table comes from.
abbrev Origin : (Delivery → Bool) → (Delivery → Delivery) → Queue → Delivery → Type 0
Origin p f q e = (d : Delivery) × (d ∈ q) × ((if p d then f d else d) ≡ e)

origin :
    (p : Delivery → Bool) (f : Delivery → Delivery) (q : Queue) (e : Delivery)
    → e ∈ update_where p f q
    → Origin p f q e
unfolding update_where
origin p f [] e m = elim m [ ]
origin p f (d ∷ q) _ here = (d, here, refl)
origin p f (d ∷ q) e (there m) = let o = origin p f q e m in (o.0, there o.1, o.2)

-- An update that keeps streams, unsettles nothing and leases only first deliveries.
pub record Harmless (p : Delivery → Bool) (f : Delivery → Delivery) (q : Queue) : Type 0 where
  pub id_kept : (d : Delivery) → (f d).id ≡ d.id
  pub stream_kept : (c e : Delivery) → blocks (f c) e ≡ blocks c e
  pub settles : (c e : Delivery) → e ∈ q → p e ≡ true → blocks c e ≡ false → blocks c (f e) ≡ false
  pub leases :
      (d : Delivery) → d ∈ q → p d ≡ true → is_delivering (f d).status ≡ true → is_first q d ≡ true

module _ (p : Delivery → Bool) (f : Delivery → Delivery) (q : Queue) (h : Harmless p f q) where
  updated : Delivery → Delivery
  updated d = if p d then f d else d

  blocks-updated :
      (c e : Delivery) → e ∈ q → blocks c e ≡ false → blocks (updated c) (updated e) ≡ false
  unfolding updated
  blocks-updated c e m free = elim (Bool-cases (p c)) [
    | inl pc ↦ elim (Bool-cases (p e)) [
      | inl pe ↦ rw (pc, pe) (h.stream_kept c (f e) ∙ h.settles c e m pe free)
      | inr ne ↦ rw (pc, ne) (h.stream_kept c e ∙ free)
    ]
    | inr nc ↦ elim (Bool-cases (p e)) [
      | inl pe ↦ rw (nc, pe) (h.settles c e m pe free)
      | inr ne ↦ rw (nc, ne) free
    ]
  ]

  is_first-updated :
      (d : Delivery) → is_first q d ≡ true → is_first (update_where p f q) (updated d) ≡ true
  unfolding is_first updated
  is_first-updated d first =
      let free : any (blocks d) q ≡ false = ground arith in
      let free_after : any (blocks (updated d)) (update_where p f q) ≡ false =
        any-none (blocks (updated d)) (update_where p f q) (λ e m.
          let o = origin p f q e m in
          subst (λ x. blocks (updated d) x ≡ false) o.2
            (blocks-updated d o.0 o.1 (any-∈ (blocks d) q o.0 free o.1))) in
      rw (free_after)

  id-updated : (d : Delivery) → (updated d).id ≡ d.id
  unfolding updated
  id-updated d = elim (Bool-cases (p d)) [ inl y ↦ rw (y) (h.id_kept d) | inr n ↦ rw (n) ]

  first-updated :
      InOrder q
      → (d : Delivery) → d ∈ q
      → is_delivering (updated d).status ≡ true
      → is_first q d ≡ true
  unfolding updated
  first-updated o d m busy = elim (Bool-cases (p d)) [
    | inl y ↦
        h.leases d m y (subst (λ b. is_delivering (if b then f d else d).status ≡ true) y busy)
    | inr n ↦ o.first d m (subst (λ b. is_delivering (if b then f d else d).status ≡ true) n busy)
  ]

  pub update_where-InOrder : InOrder q → InOrder (update_where p f q)
  unfolding updated
  update_where-InOrder o = record {
    first = λ e m busy.
        let r = origin p f q e m in
        subst (λ x. is_first (update_where p f q) x ≡ true) r.2
          (is_first-updated r.0
            (first-updated o r.0 r.1 (subst (λ x. is_delivering x.status ≡ true) (sym r.2) busy)));
    unique = λ d e m n same.
        let r = origin p f q d m in
        let s = origin p f q e n in
        let ids : r.0.id ≡ s.0.id =
          sym (id-updated r.0)
          ∙ ap (λ x. x.id) r.2
          ∙ same
          ∙ ap (λ x. x.id) (sym s.2)
          ∙ id-updated s.0 in
        sym r.2 ∙ ap updated (o.unique r.0 s.0 r.1 s.1 ids) ∙ s.2;
  }
