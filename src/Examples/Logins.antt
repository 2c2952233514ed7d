-- ===== src/Examples/Logins.antt =====
-- Clients, sessions and identifiers, and the theorems at them.
use cd.Prelude.{◌≡◌, refl, ℕ, true, false, List, [], ◌∷◌, leb, length, some, take, ◌+◌}
use cd.Go.Text.{GoString, bytes, str_eq}
use cd.Session.Logins.{LoginTable, authorize_login, find, login_banned, login_invalid}
use cd.Session.Logins.Table.{length-authorize_login}
use cd.Session.Logins.Bans.{LoginCall, all_banned, Banned, ban_lasts}
use cd.Session.Tokens.{new_token, valid_sid, encode, read_full, symbol}
use cd.Session.Tokens.Format.{new_token-total}
use cd.Session.Rows.{
  audience_web, audience_qbt, Session, SessionTable, create_session, found, select_session,
  valid_row, same_audience, csrf_fits, evict_down, purge_expired, insert_session,
}
use cd.Session.Rows.Capacity.{created_size, length-create_session}
use cd.Session.Access.{
  Settings, missing, get, get_read, renew, revoke, create, issued, draw, create_loop, new_session,
  csrf_token_for,
}
use cd.Session.Rows.{revoke_session}
use cd.Session.Access.Grants.{is_live, get_read-is_live, get-revoke, renew-revoked}
use cd.Session.Access.Fresh.{granted, get-create}
use cd.Session.Logins.Failures.{failures_at, five_failures-Banned}

abbrev client : GoString
client = bytes "10.0.0.1"

abbrev neighbour : GoString
neighbour = bytes "10.0.0.2"

abbrev banned_table : LoginTable
banned_table =
    (client, record { failures = 5; window_start = 100; banned_until = 1000; touched_at = 200 })
    ∷ (neighbour, record { failures = 1; window_start = 150; banned_until = 0; touched_at = 150 })
    ∷ []

abbrev calls : List LoginCall
calls =
    record { at = 300; client = client; valid = true }
    ∷ record { at = 400; client = neighbour; valid = false }
    ∷ record { at = 999; client = client; valid = false }
    ∷ []

length-authorize_login_example :
    leb (length (authorize_login 2 300 (bytes "10.0.0.3") false banned_table).1) 2 ≡ true
length-authorize_login_example =
    length-authorize_login 2 300 (bytes "10.0.0.3") false banned_table refl refl

client_Banned : Banned client 1000 banned_table
unfolding find str_eq bytes
client_Banned = record {
  attempt = record { failures = 5; window_start = 100; banned_until = 1000; touched_at = 200 };
  found = refl;
  ends = refl;
}

ban_lasts_example : all_banned 5 client calls banned_table ≡ true
ban_lasts_example = ban_lasts 5 client 1000 calls banned_table refl refl client_Banned

abbrev random : List ℕ
random =
    1 ∷ 2 ∷ 3 ∷ 4 ∷ 5 ∷ 6 ∷ 7 ∷ 8 ∷ 9 ∷ 10 ∷ 11 ∷ 12 ∷ 13 ∷ 14 ∷ 15 ∷ 16 ∷ 17 ∷ 18 ∷ 19 ∷ 20 ∷ 21
    ∷ 22 ∷ 23 ∷ 24 ∷ 25 ∷ 26 ∷ 27 ∷ 28 ∷ 29 ∷ 30 ∷ 31 ∷ 32 ∷ 33 ∷ []

new_token-total_example :
    (r : GoString × List ℕ) × (new_token random ≡ some r) × (valid_sid r.0 ≡ true)
new_token-total_example = new_token-total random refl

-- The hash of the examples keeps the first 32 bytes.
abbrev settings : Settings
settings = record { hash = λ sid. take 32 sid; ttl = 1000; refresh_interval = 100; capacity = 2 }

abbrev web_session : Session
web_session = record {
  audience = audience_web;
  csrf_token = bytes "t";
  created_at = 10;
  expires_at = 1010;
}

abbrev sid : GoString
unfolding encode symbol
sid = encode (take 32 random)

abbrev session_table : SessionTable
session_table = record { sid_digest = take 32 sid; current = web_session } ∷ []

length-create_session_example :
    leb (created_size (create_session (bytes "d") web_session 10 1 session_table)) 1 ≡ true
length-create_session_example = length-create_session (bytes "d") web_session 10 1 session_table

get_read-is_live_example :
    is_live 200
      (get_read settings (take 32 sid) audience_web 200 (found web_session) session_table).0
    ≡ true
get_read-is_live_example =
    get_read-is_live settings (take 32 sid) audience_web 200 (found web_session) session_table refl

get-revoke_example :
    get settings sid audience_web 200 (revoke settings sid audience_web session_table)
    ≡ (missing, revoke settings sid audience_web session_table)
get-revoke_example = get-revoke settings sid audience_web 200 session_table refl

renew-revoked_example :
    renew settings
      (take 32 sid)
      audience_web
      200
      web_session
      (revoke_session (take 32 sid) audience_web session_table)
    ≡ (missing, revoke_session (take 32 sid) audience_web session_table)
renew-revoked_example =
    renew-revoked settings (take 32 sid) audience_web 200 web_session session_table

abbrev qbt_session : Session
qbt_session = record {
  audience = audience_qbt;
  csrf_token = [];
  created_at = 10;
  expires_at = 1010;
}

abbrev issued_table : SessionTable
issued_table = record { sid_digest = take 32 sid; current = qbt_session } ∷ []

create_issues : create settings audience_qbt 10 random [] ≡ issued sid qbt_session issued_table
unfolding create create_loop draw csrf_token_for new_token read_full encode symbol new_session
    create_session purge_expired evict_down insert_session select_session valid_row same_audience
    csrf_fits
create_issues = refl

get-create_example :
    (get settings sid audience_qbt 500 issued_table).0 ≡ granted settings 500 qbt_session
get-create_example =
    get-create settings audience_qbt 10 500 random [] sid qbt_session issued_table create_issues
      refl

five_failures-Banned_example :
    ((failures_at 5 client (100 ∷ 200 ∷ 300 ∷ 400 ∷ 500 ∷ []) []).0
      ≡ login_invalid ∷ login_invalid ∷ login_invalid ∷ login_invalid ∷ login_banned ∷ [])
    × Banned client
        (500 + 900000000000)
        (failures_at 5 client (100 ∷ 200 ∷ 300 ∷ 400 ∷ 500 ∷ []) []).1
unfolding find
five_failures-Banned_example = five_failures-Banned 5 client 100 200 300 400 500 [] refl refl
