-- ===== src/Session/Logins/Failures.antt =====
-- How a ban comes about.
use cd.Prelude.{
  ℕ, ◌≡◌, ap, ◌∙◌, refl, true, false, none, some, List, [], ◌∷◌, all, suc, arith, leb, ltb, ◌+◌,
  if◌then◌else◌, ◌==◌,
}
use cd.Go.Text.{GoString}
use cd.Domain.Model.{Time}
use cd.Session.Logins.{
  LoginAttempt, LoginTable, LoginDecision, login_banned, find, put, purge_login_attempts,
  authorize_login, authorize_purged, failed_attempt, make_room, login_failure_limit, login_invalid,
  login_window, login_ban_duration,
}
use cd.Session.Logins.Bans.{Banned, find_self}

find-purge_window :
    (key : GoString) (now : Time) (a : LoginAttempt) (t : LoginTable)
    → find key t ≡ some a
    → ltb now (a.window_start + login_window) ≡ true
    → find key (purge_login_attempts now t) ≡ some a
unfolding find purge_login_attempts
find-purge_window key now a [] h w = cc
find-purge_window key now a ((k, v) ∷ t) h w = ground (arith, find-purge_window key now a t)

-- The attempt that one failure more makes of an attempt whose window lasts.
abbrev pub failed_again : LoginAttempt → Time → LoginAttempt
failed_again a now = record a {
  failures = a.failures + 1;
  touched_at = now;
  banned_until =
      if leb login_failure_limit (a.failures + 1) then now + login_ban_duration else a.banned_until;
}

failed_call :
    (capacity : ℕ) (now : Time) (key : GoString) (a : LoginAttempt) (t : LoginTable)
    → find key t ≡ some a
    → ltb now (a.window_start + login_window) ≡ true
    → ltb now a.banned_until ≡ false
    → authorize_purged capacity now key false t ≡ (
      if (failed_again a now).banned_until == 0 then login_invalid else login_banned,
      put key (failed_again a now) t,
    )
unfolding authorize_purged failed_attempt make_room
failed_call capacity now key a t h w free = rw (h, w, free, authorize_purged)

last_failure-Banned :
    (capacity : ℕ) (now : Time) (key : GoString) (a : LoginAttempt) (t : LoginTable)
    → find key t ≡ some a
    → leb 4 a.failures ≡ true
    → ltb now (a.window_start + login_window) ≡ true
    → ltb now a.banned_until ≡ false
    → ((authorize_login capacity now key false t).0 ≡ login_banned)
      × Banned key (now + login_ban_duration) (authorize_login capacity now key false t).1
unfolding authorize_login
last_failure-Banned capacity now key a t h many w free =
    let p =
      failed_call capacity now key a (purge_login_attempts now t)
        (find-purge_window key now a t h w) w free in
    let until : (failed_again a now).banned_until ≡ now + login_ban_duration = ground arith in
    (
      ap (λ (r : LoginDecision × LoginTable). r.0) p ∙ ground (arith, until),
      record {
        attempt = failed_again a now;
        found =
            ap (λ (r : LoginDecision × LoginTable). find key r.1) p
            ∙ find_self key (failed_again a now) (purge_login_attempts now t);
        ends = until;
      },
    )

find-purge_none :
    (key : GoString) (now : Time) (t : LoginTable)
    → find key t ≡ none
    → find key (purge_login_attempts now t) ≡ none
unfolding find purge_login_attempts
find-purge_none key now [] h = refl
find-purge_none key now ((k, v) ∷ t) h = ground (arith, find-purge_none key now t)

-- The failures of a client that is not banned, since the given time.
record Failing (key : GoString) (start : Time) (n : ℕ) (t : LoginTable) : Type 0 where
  pub attempt : LoginAttempt
  pub found : find key t ≡ some attempt
  pub failed : attempt.failures ≡ n
  pub opened : attempt.window_start ≡ start
  pub free : attempt.banned_until ≡ 0

module _ (capacity : ℕ) (key : GoString) where
  first_failure :
      (now : Time) (t : LoginTable)
      → find key t ≡ none
      → ((authorize_login capacity now key false t).0 ≡ login_invalid)
        × Failing key now 1 (authorize_login capacity now key false t).1
  unfolding authorize_login authorize_purged failed_attempt
  first_failure now t unknown =
      let p = find-purge_none key now t unknown in
      (
        rw p refl,
        record {
          attempt = failed_attempt none now;
          found = rw p (
              find_self key (failed_attempt none now)
                (make_room capacity key (purge_login_attempts now t)));
          failed = refl;
          opened = refl;
          free = refl;
        },
      )

  next_failure :
      (now start : Time) (n : ℕ) (t : LoginTable)
      → leb n 3 ≡ true
      → ltb now (start + login_window) ≡ true
      → Failing key start n t
      → ((authorize_login capacity now key false t).0 ≡ login_invalid)
        × Failing key start (suc n) (authorize_login capacity now key false t).1
  unfolding authorize_login
  next_failure now start n t few w f =
      let open_window : ltb now (f.attempt.window_start + login_window) ≡ true =
        ground (arith, f.opened) in
      let p =
        failed_call capacity now key f.attempt (purge_login_attempts now t)
          (find-purge_window key now f.attempt t f.found open_window) open_window
          (ground (arith, f.free)) in
      let until : (failed_again f.attempt now).banned_until ≡ 0 =
        ground (arith, f.failed, f.free) in
      (
        ap (λ (r : LoginDecision × LoginTable). r.0) p ∙ ground (arith, until),
        record {
          attempt = failed_again f.attempt now;
          found =
              ap (λ (r : LoginDecision × LoginTable). find key r.1) p
              ∙ find_self key (failed_again f.attempt now) (purge_login_attempts now t);
          failed = ground (arith, f.failed);
          opened = f.opened;
          free = until;
        },
      )

  -- The client fails once at each of the given times: the answers, and the table that is left.
  unfoldable pub failures_at : List Time → LoginTable → List LoginDecision × LoginTable
  failures_at [] t = ([], t)
  failures_at (now ∷ later) t =
      let call = authorize_login capacity now key false t in
      let rest = failures_at later call.1 in (call.0 ∷ rest.0, rest.1)

  -- Five failed calls ban a client: for an address without a record, whose four further failures come
  -- less than 300 seconds after the first, with no other call in between, the first four are answered
  -- as invalid and the fifth by a ban, and a ban is on record that ends 900 seconds after the fifth.
  -- Times are in nanoseconds.
  pub five_failures-Banned :
      (a b c d e : Time) (t : LoginTable)
      → find key t ≡ none
      → all (λ now. ltb now (a + 300000000000)) (b ∷ c ∷ d ∷ e ∷ []) ≡ true
      → ((failures_at (a ∷ b ∷ c ∷ d ∷ e ∷ []) t).0
          ≡ login_invalid ∷ login_invalid ∷ login_invalid ∷ login_invalid ∷ login_banned ∷ [])
        × Banned key (e + 900000000000) (failures_at (a ∷ b ∷ c ∷ d ∷ e ∷ []) t).1
  unfolding failures_at
  five_failures-Banned a b c d e t unknown soon =
      let first = first_failure a t unknown in
      let second = next_failure b a 1 _ refl (ground arith) first.1 in
      let third = next_failure c a 2 _ refl (ground arith) second.1 in
      let fourth = next_failure d a 3 _ refl (ground arith) third.1 in
      let f = fourth.1 in
      let last =
        last_failure-Banned capacity e key f.attempt _ f.found (ground (arith, f.failed))
          (ground (arith, f.opened)) (ground (arith, f.free)) in
      (rw (first.0, second.0, third.0, fourth.0, last.0) refl, last.1)
