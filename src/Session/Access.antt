-- ===== src/Session/Access.antt =====
-- internal/session/store.go: the sessions behind their identifiers. `hash` is SHA-256, and the random
-- source is the bytes that it has left.
pub mod Grants
pub mod Fresh
use cd.Prelude.{
  ℕ, zero, suc, ◌+◌, ◌-◌, Bool, true, false, ◌&&◌, not, Option, none, some, List, [], ◌∷◌, ltb, leb,
  if◌then◌else◌, ◌>>=◌,
}
use cd.Go.Text.{GoString}
use cd.Domain.Model.{Time}
use cd.Session.Tokens.{new_token, valid_sid}
use cd.Session.Rows.{
  Audience, audience_web, audience_qbt, audience_other, is_known_audience, Session, SessionTable,
  GetResult, found, not_found, invalid_record, get_session, create_session, CreateResult, created,
  collided, create_refused, refresh_session, revoke_session,
}

-- What Store is configured with, and the hash.
pub record Settings : Type 0 where
  pub hash : GoString → GoString
  pub ttl : Time
  pub refresh_interval : Time
  pub capacity : ℕ

-- `New`, of the durations and the capacity.
unfoldable pub valid_settings : Settings → Bool
valid_settings s =
    ltb 0 s.ttl && ltb 0 s.refresh_interval && ltb s.refresh_interval s.ttl && ltb 0 s.capacity

-- The new identifier, its session and the table, or an error with which nothing changed.
pub data Issued : Type 0 where
  issued : GoString → Session → SessionTable → Issued
  invalid_audience no_random create_failed sid_collision : Issued

-- The CSRF token of the audience.
unfoldable pub csrf_token_for : Audience → List ℕ → Option (GoString × List ℕ)
csrf_token_for audience_web random = new_token random
csrf_token_for _ random = some ([], random)

-- The two tokens of one attempt.
unfoldable pub draw : Audience → List ℕ → Option (GoString × GoString × List ℕ)
unfolding csrf_token_for
draw audience random = do
  (sid, rest) ← new_token random
  (csrf, left) ← csrf_token_for audience rest
  some (sid, csrf, left)

unfoldable pub new_session : Settings → Audience → GoString → Time → Session
new_session s audience csrf now = record {
  audience = audience;
  csrf_token = csrf;
  created_at = now;
  expires_at = now + s.ttl;
}

-- `for range 3`, by the attempts that are left.
unfoldable pub create_loop : ℕ → Settings → Audience → Time → List ℕ → SessionTable → Issued
unfolding draw new_session
create_loop zero s audience now random t = sid_collision
create_loop (suc n) s audience now random t = elim (draw audience random) [
  | none ↦ no_random
  | some (sid, csrf, rest) ↦
      let again = create_loop n s audience now rest t in
      elim (create_session (s.hash sid) (new_session s audience csrf now) now s.capacity t) [
        | created u ↦ issued sid (new_session s audience csrf now) u
        | collided ↦ again
        | create_refused ↦ create_failed
      ]
]

-- `Store.Create`
unfoldable pub create : Settings → Audience → Time → List ℕ → SessionTable → Issued
unfolding create_loop
create s audience now random t =
    if is_known_audience audience then create_loop 3 s audience now random t else invalid_audience

-- The session and whether its expiry was renewed; a miss; or an error of the repository.
pub data Access : Type 0 where
  access : Session → Bool → Access
  missing : Access
  repository_error : Access

-- The end of `Store.Get`, and of its reading after a lost refresh: an expired session is revoked.
unfoldable pub settle :
    GoString → Audience → Time → GetResult → SessionTable → Access × SessionTable
settle digest audience now not_found t = (missing, t)
settle digest audience now invalid_record t = (repository_error, t)
settle digest audience now (found current) t =
    if ltb now current.expires_at
    then (access current false, t)
    else (missing, revoke_session digest audience t)

-- The test `now.Before(current.ExpiresAt.Add(-(s.ttl - s.refreshInterval)))`, with the duration on the
-- other side.
abbrev pub is_fresh : Settings → Time → Session → Bool
is_fresh s now current = ltb (now + (s.ttl - s.refresh_interval)) current.expires_at

-- The refresh of a session that was read and is not fresh.
unfoldable pub renew :
    Settings → GoString → Audience → Time → Session → SessionTable → Access × SessionTable
unfolding settle
renew s digest audience now current t =
    let refreshed = refresh_session digest audience current.expires_at (now + s.ttl) t in
    if refreshed.0
    then (access (record current { expires_at = now + s.ttl }) true, refreshed.1)
    else settle digest audience now (get_session digest audience refreshed.1) refreshed.1

-- `Store.Get` once the session was read.
unfoldable pub get_read :
    Settings → GoString → Audience → Time → GetResult → SessionTable → Access × SessionTable
unfolding settle renew
get_read s digest audience now (found current) t =
    if ltb now current.expires_at && not (is_fresh s now current)
    then renew s digest audience now current t
    else settle digest audience now (found current) t
get_read s digest audience now r t = settle digest audience now r t

-- `Store.Get`
unfoldable pub get : Settings → GoString → Audience → Time → SessionTable → Access × SessionTable
unfolding get_read
get s sid audience now t =
    if is_known_audience audience && valid_sid sid
    then get_read s (s.hash sid) audience now (get_session (s.hash sid) audience t) t
    else (missing, t)

-- `Store.Revoke`; an unknown audience is an error and changes nothing.
unfoldable pub revoke : Settings → GoString → Audience → SessionTable → SessionTable
revoke s sid audience t =
    if is_known_audience audience then revoke_session (s.hash sid) audience t else t
