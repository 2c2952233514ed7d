-- ===== src/Session/Access/Grants.antt =====
-- What Get grants.
use cd.Prelude.{◌≡◌, refl, Bool, true, none, arith, ltb, ◌+◌, Bool-cases, inl, inr}
use cd.Go.Text.{GoString}
use cd.Domain.Model.{Time}
use cd.Session.Tokens.{valid_sid}
use cd.Session.Rows.{
  Audience, is_known_audience, Session, SessionTable, GetResult, found, not_found, invalid_record,
  get_session, select_session, revoke_session, refresh_session,
}
use cd.Session.Rows.Lookup.{select-revoke_session, refresh-missing}
use cd.Session.Access.{Settings, Access, access, missing, get, get_read, renew, settle, revoke}

-- A session that is granted expires after the given time.
abbrev pub is_live : Time → Access → Bool
is_live now (access current renewed) = ltb now current.expires_at
is_live now _ = true

settle-is_live :
    (digest : GoString) (audience : Audience) (now : Time) (r : GetResult) (t : SessionTable)
    → is_live now (settle digest audience now r t).0 ≡ true
unfolding settle
settle-is_live digest audience now (found current) t = ground arith
settle-is_live digest audience now not_found t = refl
settle-is_live digest audience now invalid_record t = refl

renew-is_live :
    (s : Settings) (digest : GoString) (audience : Audience) (now : Time) (current : Session)
    (t : SessionTable)
    → ltb 0 s.ttl ≡ true
    → is_live now (renew s digest audience now current t).0 ≡ true
unfolding renew
renew-is_live s digest audience now current t pos =
    let refreshed = refresh_session digest audience current.expires_at (now + s.ttl) t in
    ground (
      arith,
      settle-is_live digest audience now (get_session digest audience refreshed.1) refreshed.1,
    )

-- Get never grants an expired session: whatever it read, and whatever the table has become by the time
-- it refreshes the session, a session that it grants expires after the current time.
pub get_read-is_live :
    (s : Settings) (digest : GoString) (audience : Audience) (now : Time) (r : GetResult)
    (t : SessionTable)
    → ltb 0 s.ttl ≡ true
    → is_live now (get_read s digest audience now r t).0 ≡ true
unfolding get_read
get_read-is_live s digest audience now (found current) t pos = ground (
  arith,
  renew-is_live s digest audience now current t pos,
  settle-is_live digest audience now (found current) t,
)
get_read-is_live s digest audience now not_found t pos =
    settle-is_live digest audience now not_found t
get_read-is_live s digest audience now invalid_record t pos =
    settle-is_live digest audience now invalid_record t

get-not_found :
    (digest : GoString) (audience : Audience) (t : SessionTable)
    → select_session digest audience t ≡ none
    → get_session digest audience t ≡ not_found
unfolding get_session
get-not_found digest audience t h = rw (h, get_session)

-- Once a session is revoked, Get misses it, and leaves the table as the revocation did.
pub get-revoke :
    (s : Settings) (sid : GoString) (audience : Audience) (now : Time) (t : SessionTable)
    → is_known_audience audience ≡ true
    → get s sid audience now (revoke s sid audience t) ≡ (missing, revoke s sid audience t)
unfolding get revoke get_read settle
get-revoke s sid audience now t known =
    let gone =
      get-not_found (s.hash sid) audience (revoke_session (s.hash sid) audience t)
        (select-revoke_session (s.hash sid) audience t) in
    elim (Bool-cases (valid_sid sid)) [ inl v ↦ simp (known, v, gone) | inr n ↦ simp (known, n) ]

-- A Get that read a session before it was revoked, and that is about to renew it, misses it: a refresh
-- never brings a revoked session back.
pub renew-revoked :
    (s : Settings) (digest : GoString) (audience : Audience) (now : Time) (current : Session)
    (t : SessionTable)
    → renew s digest audience now current (revoke_session digest audience t)
      ≡ (missing, revoke_session digest audience t)
unfolding renew settle
renew-revoked s digest audience now current t =
    let u = revoke_session digest audience t in
    let none_there = select-revoke_session digest audience t in
    rw (
      refresh-missing digest audience current.expires_at (now + s.ttl) u none_there,
      get-not_found digest audience u none_there,
    )
