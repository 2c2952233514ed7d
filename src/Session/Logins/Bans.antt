-- ===== src/Session/Logins/Bans.antt =====
-- How long a ban lasts.
use cd.Prelude.{
  ℕ, ◌≡◌, refl, ap, ◌∙◌, sym, Bool, true, false, ◌&&◌, ◌||◌, not, Option, none, some, List, [], ◌∷◌,
  arith, leb, ltb, ◌+◌, length, suc, all, Bool-cases, inl, inr, subst,
}
use cd.Go.Text.{GoString, str_eq, str_eq_refl, eq_of_str_eq}
use cd.Domain.Model.{Time}
use cd.Session.Logins.{
  LoginAttempt, LoginTable, LoginDecision, login_banned, find, put, purge_login_attempts,
  authorize_login, authorize_purged, failed_attempt, make_room, touch,
}
use cd.Session.Logins.Table.{
  find-put, find-erase, length-put, length-erase, length-purge, length-touch,
}

-- One call of AuthorizeLogin.
pub record LoginCall : Type 0 where
  pub at : Time
  pub client : GoString
  pub valid : Bool

abbrev is_ban : LoginDecision → Bool
is_ban login_banned = true
is_ban _ = false

-- Every call of the client is answered by a ban.
unfoldable pub all_banned : ℕ → GoString → List LoginCall → LoginTable → Bool
all_banned capacity key [] t = true
all_banned capacity key (c ∷ cs) t =
    (not (str_eq key c.client) || is_ban (authorize_login capacity c.at c.client c.valid t).0)
    && all_banned capacity key cs (authorize_login capacity c.at c.client c.valid t).1

-- The client has a ban on record that ends at the given time.
pub record Banned (key : GoString) (until : Time) (t : LoginTable) : Type 0 where
  pub attempt : LoginAttempt
  pub found : find key t ≡ some attempt
  pub ends : attempt.banned_until ≡ until

find-purge :
    (key : GoString) (now : Time) (a : LoginAttempt) (t : LoginTable)
    → find key t ≡ some a
    → ltb now a.banned_until ≡ true
    → find key (purge_login_attempts now t) ≡ some a
unfolding find purge_login_attempts
find-purge key now a [] h b = cc
find-purge key now a ((k, v) ∷ t) h b = ground (arith, find-purge key now a t)

pub find_self :
    (key : GoString) (v : LoginAttempt) (t : LoginTable) → find key (put key v t) ≡ some v
find_self key v t = find-put key key v t ∙ ground (arith, str_eq_refl key)

make_room-short :
    (capacity : ℕ) (k : GoString) (t : LoginTable)
    → ltb (length t) capacity ≡ true
    → make_room capacity k t ≡ t
unfolding make_room
make_room-short capacity k t h = ground arith

-- The client's own call while the ban lasts.
own_call :
    (capacity : ℕ) (now : Time) (key : GoString) (valid : Bool) (a : LoginAttempt) (t : LoginTable)
    → find key t ≡ some a
    → ltb now a.banned_until ≡ true
    → authorize_purged capacity now key valid t
      ≡ (login_banned, put key (record a { touched_at = now }) t)
unfolding authorize_purged
own_call capacity now key valid a t h b = ground arith

find-touch :
    (key k : GoString) (found : Option LoginAttempt) (now : Time) (t : LoginTable)
    → str_eq key k ≡ false
    → find key (touch found now k t) ≡ find key t
find-touch key k none now t h = refl
find-touch key k (some a) now t h = ground (arith, find-put key k (record a { touched_at = now }) t)

-- Another client's call, where none has to be evicted.
other_call :
    (capacity : ℕ) (now : Time) (key k : GoString) (valid : Bool) (t : LoginTable)
    → str_eq key k ≡ false
    → ltb (length t) capacity ≡ true
    → find key (authorize_purged capacity now k valid t).1 ≡ find key t
unfolding authorize_purged
other_call capacity now key k valid t h short = ground (
  arith,
  find-touch key k (find k t) now t h,
  find-erase key k t,
  make_room-short capacity k t short,
  find-put key k (failed_attempt (find k t) now) t,
)

length-call :
    (capacity : ℕ) (now : Time) (k : GoString) (valid : Bool) (t : LoginTable)
    → ltb (length t) capacity ≡ true
    → leb (length (authorize_purged capacity now k valid t).1) (suc (length t)) ≡ true
unfolding authorize_purged
length-call capacity now k valid t short = ground (
  arith,
  length-touch (find k t) now k t refl,
  length-erase k t,
  make_room-short capacity k t short,
  length-put k (failed_attempt (find k t) now) t,
)

length-authorize :
    (capacity : ℕ) (now : Time) (k : GoString) (valid : Bool) (t : LoginTable)
    → ltb (length t) capacity ≡ true
    → leb (length (authorize_login capacity now k valid t).1) (suc (length t)) ≡ true
unfolding authorize_login
length-authorize capacity now k valid t short =
    ground
      (arith, length-purge now t, length-call capacity now k valid (purge_login_attempts now t))

Banned-own :
    (capacity : ℕ) (now until : Time) (key : GoString) (valid : Bool) (t : LoginTable)
    → ltb now until ≡ true
    → Banned key until t
    → (is_ban (authorize_login capacity now key valid t).0 ≡ true)
      × Banned key until (authorize_login capacity now key valid t).1
unfolding authorize_login
Banned-own capacity now until key valid t early b =
    let live : ltb now b.attempt.banned_until ≡ true = ap (ltb now) b.ends ∙ early in
    let p =
      own_call capacity now key valid b.attempt (purge_login_attempts now t)
        (find-purge key now b.attempt t b.found live) live in
    (
      ap (λ (r : LoginDecision × LoginTable). is_ban r.0) p,
      record {
        attempt = record b.attempt { touched_at = now };
        found =
            ap (λ (r : LoginDecision × LoginTable). find key r.1) p
            ∙ find_self key (record b.attempt { touched_at = now }) (purge_login_attempts now t);
        ends = b.ends;
      },
    )

Banned-other :
    (capacity : ℕ) (now until : Time) (key k : GoString) (valid : Bool) (t : LoginTable)
    → ltb now until ≡ true
    → str_eq key k ≡ false
    → ltb (length t) capacity ≡ true
    → Banned key until t
    → Banned key until (authorize_login capacity now k valid t).1
unfolding authorize_login
Banned-other capacity now until key k valid t early differ short b = record {
  attempt = b.attempt;
  found =
      other_call capacity now key k valid (purge_login_attempts now t) differ
        (ground (arith, length-purge now t))
      ∙ find-purge key now b.attempt t b.found (ap (ltb now) b.ends ∙ early);
  ends = b.ends;
}

-- A ban is absolute while it lasts, whatever credentials the client presents and whatever other clients
-- do meanwhile: each call of the client before the end of its ban is answered by a ban, as long as the
-- table has room for the calls, so that no address is evicted.
pub ban_lasts :
    (capacity : ℕ) (key : GoString) (until : Time) (cs : List LoginCall) (t : LoginTable)
    → leb (length t + length cs) capacity ≡ true
    → all (λ c. ltb c.at until) cs ≡ true
    → Banned key until t
    → all_banned capacity key cs t ≡ true
unfolding all_banned
ban_lasts capacity key until [] t room early b = refl
ban_lasts capacity key until (c ∷ cs) t room early b =
    let next = (authorize_login capacity c.at c.client c.valid t).1 in
    let soon : ltb c.at until ≡ true = ground arith in
    let later : all (λ d. ltb d.at until) cs ≡ true = ground arith in
    let fits : leb (length next + length cs) capacity ≡ true =
      ground (arith, length-authorize capacity c.at c.client c.valid t (ground arith)) in
    elim (Bool-cases (str_eq key c.client)) [
      | inl same ↦
          let same_key = eq_of_str_eq key c.client same in
          let own =
            Banned-own capacity c.at until c.client c.valid t soon
              (subst (λ k. Banned k until t) same_key b) in
          ground (
            arith,
            own.0,
            ban_lasts capacity key until cs next fits later
                (subst (λ k. Banned k until next) (sym same_key) own.1),
          )
      | inr differ ↦ ground (
        arith,
        ban_lasts capacity key until cs next fits later
            (Banned-other capacity c.at until key c.client c.valid t soon differ (ground arith) b),
      )
    ]
