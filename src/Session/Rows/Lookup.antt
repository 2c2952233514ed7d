-- ===== src/Session/Rows/Lookup.antt =====
-- What a query finds after an operation.
use cd.Prelude.{◌≡◌, refl, true, false, none, [], ◌∷◌, arith, ◌&&◌}
use cd.Go.Text.{GoString, str_eq, str_eq_refl, eq_of_str_eq}
use cd.Domain.Model.{Time}
use cd.Session.Rows.{
  Audience, audience_web, audience_qbt, audience_other, same_audience, SessionTable, select_session,
  revoke_session, refresh_session,
}

pub same_audience_refl : (a : Audience) → same_audience a a ≡ true
unfolding same_audience
same_audience_refl audience_web = refl
same_audience_refl audience_qbt = refl
same_audience_refl (audience_other a) = str_eq_refl a

eq_of_same_audience : (a b : Audience) → same_audience a b ≡ true → a ≡ b
unfolding same_audience
eq_of_same_audience audience_web audience_web h = refl
eq_of_same_audience audience_qbt audience_qbt h = refl
eq_of_same_audience (audience_other a) (audience_other b) h = ground (arith, eq_of_str_eq a b h)
eq_of_same_audience audience_web audience_qbt h = cc
eq_of_same_audience audience_web (audience_other _) h = cc
eq_of_same_audience audience_qbt audience_web h = cc
eq_of_same_audience audience_qbt (audience_other _) h = cc
eq_of_same_audience (audience_other _) audience_web h = cc
eq_of_same_audience (audience_other _) audience_qbt h = cc

-- A revoked session is no longer found.
pub select-revoke_session :
    (digest : GoString) (audience : Audience) (t : SessionTable)
    → select_session digest audience (revoke_session digest audience t) ≡ none
unfolding select_session revoke_session
select-revoke_session digest audience [] = refl
select-revoke_session digest audience (r ∷ t) =
    ground (arith, select-revoke_session digest audience t)

-- A revocation leaves every other session as it is.
pub select-revoke_other :
    (d e : GoString) (a b : Audience) (t : SessionTable)
    → (str_eq d e && same_audience a b) ≡ false
    → select_session d a (revoke_session e b t) ≡ select_session d a t
unfolding select_session revoke_session
select-revoke_other d e a b [] h = refl
select-revoke_other d e a b (r ∷ t) h = ground (
  arith,
  select-revoke_other d e a b t h,
  eq_of_str_eq r.sid_digest d,
  eq_of_same_audience r.current.audience a,
)

-- Where the session is not there, a refresh changes nothing.
pub refresh-missing :
    (digest : GoString) (audience : Audience) (expected fresh : Time) (t : SessionTable)
    → select_session digest audience t ≡ none
    → refresh_session digest audience expected fresh t ≡ (false, t)
unfolding select_session refresh_session
refresh-missing digest audience expected fresh [] h = refl
refresh-missing digest audience expected fresh (r ∷ t) h =
    ground (arith, refresh-missing digest audience expected fresh t)
