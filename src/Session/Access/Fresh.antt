-- ===== src/Session/Access/Fresh.antt =====
-- What Get makes of a session that Create has just issued.
use cd.Prelude.{
  ℕ, zero, suc, ◌≡◌, refl, ap, sym, true, false, some, List, ◌∷◌, arith, ltb, ◌+◌, length,
  if◌then◌else◌, inl, inr, Option-cases, ◌⊎◌,
}
use cd.Go.Text.{GoString, str_eq_refl}
use cd.Domain.Model.{Time}
use cd.Session.Tokens.{new_token, valid_sid}
use cd.Session.Tokens.Format.{new_token-valid}
use cd.Session.Rows.{
  Audience, is_known_audience, Session, SessionTable, found, get_session, select_session, valid_row,
  refresh_session, CreateResult, created, collided, create_refused, create_session, insert_session,
  evict_down, purge_expired,
}
use cd.Session.Rows.Lookup.{same_audience_refl}
use cd.Session.Access.{
  Settings, Access, access, get, get_read, renew, settle, is_fresh, create, create_loop, issued,
  draw, new_session, csrf_token_for,
}

-- The identifier of an issued session is valid, and its row comes first in the table.
record Stored (s : Settings) (audience : Audience) (sid : GoString) (current : Session)
    (t : SessionTable) : Type 0 where
  pub rest : SessionTable
  pub first : t ≡ record { sid_digest = s.hash sid; current = current } ∷ rest
  pub row_valid : valid_row (record { sid_digest = s.hash sid; current = current }) ≡ true
  pub sid_valid : valid_sid sid ≡ true
  pub audience_eq : current.audience ≡ audience

create_session-first :
    (digest : GoString) (current : Session) (now : Time) (capacity : ℕ) (t u : SessionTable)
    → create_session digest current now capacity t ≡ created u
    → (u
        ≡ record { sid_digest = digest; current = current }
          ∷ evict_down capacity (length (purge_expired now t)) (purge_expired now t))
      × (valid_row (record { sid_digest = digest; current = current }) ≡ true)
unfolding create_session insert_session
create_session-first digest current now capacity t u h = ground arith

draw-valid :
    (audience : Audience) (random sid csrf rest : List ℕ)
    → draw audience random ≡ some (sid, csrf, rest)
    → valid_sid sid ≡ true
unfolding draw
draw-valid audience random sid csrf rest h = elim (Option-cases (new_token random)) [
  | inl p ↦ ground arith
  | inr q ↦ elim (Option-cases (csrf_token_for audience q.0.1)) [
    | inl p ↦ ground arith
    | inr c ↦ ground (arith, new_token-valid random q.0.0 q.0.1 q.1)
  ]
]

CreateResult-cases :
    (r : CreateResult)
    → ((u : SessionTable) × (r ≡ created u)) ⊎ ((r ≡ collided) ⊎ (r ≡ create_refused))
CreateResult-cases (created u) = inl (u, refl)
CreateResult-cases collided = inr (inl refl)
CreateResult-cases create_refused = inr (inr refl)

attempt-Stored :
    (s : Settings) (audience : Audience) (now : Time) (t u : SessionTable)
    (drawn csrf sid : GoString) (current : Session)
    → valid_sid drawn ≡ true
    → create_session (s.hash drawn) (new_session s audience csrf now) now s.capacity t ≡ created u
    → drawn ≡ sid
    → new_session s audience csrf now ≡ current
    → Stored s audience sid current u
unfolding new_session
attempt-Stored s audience now t u drawn csrf sid current v h same_sid same_session =
    let c =
      create_session-first (s.hash drawn) (new_session s audience csrf now) now s.capacity t u h in
    record {
      rest = evict_down s.capacity (length (purge_expired now t)) (purge_expired now t);
      first = ground (arith, c.0, same_sid, same_session);
      row_valid = ground (arith, c.1, same_sid, same_session);
      sid_valid = ground (arith, v, same_sid);
      audience_eq = ap (λ (x : Session). x.audience) (sym same_session);
    }

create_loop-Stored :
    (n : ℕ) (s : Settings) (audience : Audience) (now : Time) (random : List ℕ) (t : SessionTable)
    (sid : GoString) (current : Session) (u : SessionTable)
    → create_loop n s audience now random t ≡ issued sid current u
    → Stored s audience sid current u
unfolding create_loop
create_loop-Stored zero s audience now random t sid current u h = cc
create_loop-Stored (suc n) s audience now random t sid current u h =
    elim (Option-cases (draw audience random)) [
      | inl p ↦ ground arith
      | inr ((drawn, csrf, rest), d) ↦
          elim (CreateResult-cases
            (create_session (s.hash drawn) (new_session s audience csrf now) now s.capacity t)) [
              | inl (v, p) ↦
                  let same : issued drawn (new_session s audience csrf now) v
                      ≡ issued sid current u =
                    ground arith in
                  attempt-Stored s audience now t u drawn csrf sid current
                    (draw-valid audience random drawn csrf rest d) (ground arith) (ground arith)
                    (ground arith)
              | inr (inl p) ↦
                  create_loop-Stored n s audience now rest t sid current u (ground arith)
              | inr (inr p) ↦ ground arith
            ]
    ]

get_session-Stored :
    (s : Settings) (audience : Audience) (sid : GoString) (current : Session) (t : SessionTable)
    → Stored s audience sid current t
    → get_session (s.hash sid) audience t ≡ found current
unfolding get_session select_session
get_session-Stored s audience sid current t st = ground (
  arith,
  st.first,
  st.row_valid,
  st.audience_eq,
  str_eq_refl (s.hash sid),
  same_audience_refl audience,
)

refresh-Stored :
    (s : Settings) (audience : Audience) (sid : GoString) (current : Session) (fresh : Time)
    (t : SessionTable)
    → Stored s audience sid current t
    → (refresh_session (s.hash sid) audience current.expires_at fresh t).0 ≡ true
unfolding refresh_session
refresh-Stored s audience sid current fresh t st =
    ground (arith, st.first, st.audience_eq, str_eq_refl (s.hash sid), same_audience_refl audience)

-- The session that Get returns for one that was issued: renewed as soon as less than the lifetime
-- without the refresh interval is left.
abbrev pub granted : Settings → Time → Session → Access
granted s now current =
    if is_fresh s now current
    then access current false
    else access (record current { expires_at = now + s.ttl }) true

-- What Create issues, Get returns under the same identifier, read before the session expires on the
-- table exactly as Create left it, with no other operation in between: the same session, or the session
-- with its expiry renewed once the refresh is due.
pub get-create :
    (s : Settings) (audience : Audience) (now later : Time) (random : List ℕ) (t : SessionTable)
    (sid : GoString) (current : Session) (u : SessionTable)
    → create s audience now random t ≡ issued sid current u
    → ltb later current.expires_at ≡ true
    → (get s sid audience later u).0 ≡ granted s later current
unfolding create get get_read renew settle
get-create s audience now later random t sid current u h live =
    let known : is_known_audience audience ≡ true = ground arith in
    let st = create_loop-Stored 3 s audience now random t sid current u (ground arith) in
    ground (
      arith,
      st.sid_valid,
      get_session-Stored s audience sid current u st,
      refresh-Stored s audience sid current (later + s.ttl) u st,
    )
