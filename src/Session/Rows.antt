-- ===== src/Session/Rows.antt =====
-- internal/store/repository_session.go and its queries: the table of sessions. The digest of a session
-- identifier is its key; times are 0 for the zero time.
pub mod Capacity
pub mod Lookup
use cd.Prelude.{
  ℕ, zero, suc, Bool, true, false, ◌&&◌, ◌||◌, not, Option, none, some, List, [], ◌∷◌, ltb, leb,
  ◌==◌, if◌then◌else◌, is_some, is_nil, length, ◌>>=◌,
}
use cd.Go.Text.{GoString, str_eq, str_lt}
use cd.Domain.Model.{Time}

pub data Audience : Type 0 where
  audience_web audience_qbt : Audience
  audience_other : GoString → Audience

unfoldable pub same_audience : Audience → Audience → Bool
same_audience audience_web audience_web = true
same_audience audience_qbt audience_qbt = true
same_audience (audience_other a) (audience_other b) = str_eq a b
same_audience _ _ = false

abbrev pub is_known_audience : Audience → Bool
is_known_audience (audience_other _) = false
is_known_audience _ = true

pub record Session : Type 0 where
  pub audience : Audience
  pub csrf_token : GoString
  pub created_at : Time
  pub expires_at : Time

pub record SessionRow : Type 0 where
  pub sid_digest : GoString
  pub current : Session

abbrev pub SessionTable : Type 0
SessionTable = List SessionRow

-- The web audience has a CSRF token, the qBittorrent audience none.
unfoldable pub csrf_fits : Audience → GoString → Bool
csrf_fits audience_web csrf = not (is_nil csrf)
csrf_fits audience_qbt csrf = is_nil csrf
csrf_fits (audience_other _) csrf = false

-- `sessionFromDB`, and the constraints of the table.
unfoldable pub valid_row : SessionRow → Bool
unfolding csrf_fits
valid_row r =
    length r.sid_digest == 32
    && csrf_fits r.current.audience r.current.csrf_token
    && not (r.current.created_at == 0)
    && not (r.current.expires_at == 0)
    && ltb r.current.created_at r.current.expires_at

-- The query GetSession.
unfoldable pub select_session : GoString → Audience → SessionTable → Option SessionRow
unfolding same_audience
select_session digest audience [] = none
select_session digest audience (r ∷ t) =
    let rest = select_session digest audience t in
    if str_eq r.sid_digest digest && same_audience r.current.audience audience then some r else rest

-- A session that is read, is missing, or does not pass `sessionFromDB`.
pub data GetResult : Type 0 where
  found : Session → GetResult
  not_found invalid_record : GetResult

-- `Store.GetSession`
unfoldable pub get_session : GoString → Audience → SessionTable → GetResult
unfolding select_session valid_row
get_session digest audience t = elim (select_session digest audience t) [
  | none ↦ not_found
  | some r ↦ if valid_row r then found r.current else invalid_record
]

-- `Store.PurgeExpiredSessions`, without its count.
unfoldable pub purge_expired : Time → SessionTable → SessionTable
purge_expired now [] = []
purge_expired now (r ∷ t) =
    let rest = purge_expired now t in if leb r.current.expires_at now then rest else r ∷ rest

-- ORDER BY expires_at, created_at, sid_digest
unfoldable pub evicted_before : SessionRow → SessionRow → Bool
evicted_before a b =
    if a.current.expires_at == b.current.expires_at
    then if a.current.created_at == b.current.created_at
      then str_lt a.sid_digest b.sid_digest
      else ltb a.current.created_at b.current.created_at
    else ltb a.current.expires_at b.current.expires_at

unfoldable pub oldest_session : SessionRow → SessionTable → SessionRow
unfolding evicted_before
oldest_session best [] = best
oldest_session best (r ∷ t) = oldest_session (if evicted_before r best then r else best) t

unfoldable pub delete_digest : GoString → SessionTable → SessionTable
delete_digest digest [] = []
delete_digest digest (r ∷ t) =
    let rest = delete_digest digest t in if str_eq r.sid_digest digest then rest else r ∷ rest

-- The query EvictOldestSession.
unfoldable pub evict_oldest : SessionTable → SessionTable
unfolding oldest_session delete_digest
evict_oldest [] = []
evict_oldest (r ∷ t) = delete_digest (oldest_session r t).sid_digest (r ∷ t)

-- `for count >= capacity`, by the count.
unfoldable pub evict_down : ℕ → ℕ → SessionTable → SessionTable
unfolding evict_oldest
evict_down capacity zero t = t
evict_down capacity (suc count) t =
    if leb capacity (suc count) then evict_down capacity count (evict_oldest t) else t

pub data CreateResult : Type 0 where
  created : SessionTable → CreateResult
  collided create_refused : CreateResult

-- The query InsertSession, with the constraints of the table; the primary key was tested before.
unfoldable pub insert_session : SessionRow → SessionTable → CreateResult
unfolding valid_row
insert_session r t = if valid_row r then created (r ∷ t) else create_refused

abbrev pub has_digest : GoString → SessionTable → Bool
has_digest digest t =
    is_some (select_session digest audience_web t) || is_some (select_session digest audience_qbt t)

-- `Store.CreateSession`: where it does not commit, the table stays as it was.
unfoldable pub create_session : GoString → Session → Time → ℕ → SessionTable → CreateResult
unfolding evict_down insert_session
create_session digest current now capacity t =
    if capacity == 0
    then create_refused
    else if now == 0
    then create_refused
    else if has_digest digest t
    then collided
    else insert_session (record { sid_digest = digest; current = current })
        (evict_down capacity (length (purge_expired now t)) (purge_expired now t))

-- `Store.RefreshSession`: whether the row was there with the expected expiry, and the table.
unfoldable pub refresh_session :
    GoString → Audience → Time → Time → SessionTable → Bool × SessionTable
unfolding same_audience
refresh_session digest audience expected fresh [] = (false, [])
refresh_session digest audience expected fresh (r ∷ t) =
    let rest = refresh_session digest audience expected fresh t in
    if str_eq r.sid_digest digest
      && same_audience r.current.audience audience
      && r.current.expires_at == expected
    then (true, record r { current = record r.current { expires_at = fresh } } ∷ rest.1)
    else (rest.0, r ∷ rest.1)

-- `Store.RevokeSession`
unfoldable pub revoke_session : GoString → Audience → SessionTable → SessionTable
unfolding same_audience
revoke_session digest audience [] = []
revoke_session digest audience (r ∷ t) =
    let rest = revoke_session digest audience t in
    if str_eq r.sid_digest digest && same_audience r.current.audience audience
    then rest
    else r ∷ rest
