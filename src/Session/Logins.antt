-- ===== src/Session/Logins.antt =====
-- AuthorizeLogin: the failures of each client address, and its ban. The map is an association list; no
-- result depends on its order.
pub mod Table
pub mod Bans
pub mod Failures
use cd.Prelude.{
  ℕ, ◌+◌, ◌*◌, Bool, true, false, ◌&&◌, ◌||◌, not, Option, none, some, List, [], ◌∷◌, ltb, leb,
  ◌==◌, if◌then◌else◌, is_some, length,
}
use cd.Go.Text.{GoString, str_eq, str_lt}
use cd.Domain.Model.{Time}

abbrev pub login_window : Time
login_window = 5 * 60 * 1000000000

abbrev pub login_ban_duration : Time
login_ban_duration = 15 * 60 * 1000000000

abbrev pub login_failure_limit : ℕ
login_failure_limit = 5

pub data LoginDecision : Type 0 where
  login_allowed login_invalid login_banned : LoginDecision

-- `banned_until` is 0, the zero time, where there is no ban.
pub record LoginAttempt : Type 0 where
  pub failures : ℕ
  pub window_start : Time
  pub banned_until : Time
  pub touched_at : Time

abbrev pub LoginTable : Type 0
LoginTable = List (GoString × LoginAttempt)

unfoldable pub find : GoString → LoginTable → Option LoginAttempt
find key [] = none
find key ((k, a) ∷ t) = if str_eq key k then some a else find key t

unfoldable pub erase : GoString → LoginTable → LoginTable
erase key [] = []
erase key ((k, a) ∷ t) = let rest = erase key t in if str_eq key k then rest else (k, a) ∷ rest

-- `s.logins[key] = attempt`
unfoldable pub put : GoString → LoginAttempt → LoginTable → LoginTable
put key v [] = (key, v) ∷ []
put key v ((k, a) ∷ t) =
    let rest = put key v t in if str_eq key k then (key, v) ∷ t else (k, a) ∷ rest

abbrev pub is_kept : Time → LoginAttempt → Bool
is_kept now a = ltb now a.banned_until || ltb now (a.window_start + login_window)

-- `purgeLoginAttemptsLocked`
unfoldable pub purge_login_attempts : Time → LoginTable → LoginTable
purge_login_attempts now [] = []
purge_login_attempts now ((k, a) ∷ t) =
    let rest = purge_login_attempts now t in if is_kept now a then (k, a) ∷ rest else rest

-- The loop of `evictLoginAttemptLocked`: the key that was touched longest ago, the smallest of them.
unfoldable pub oldest_key : GoString → Time → LoginTable → GoString
oldest_key best at [] = best
oldest_key best at ((k, a) ∷ t) =
    let older = ltb a.touched_at at || (a.touched_at == at && str_lt k best) in
    oldest_key (if older then k else best) (if older then a.touched_at else at) t

unfoldable pub evict_login_attempt : LoginTable → LoginTable
unfolding oldest_key erase
evict_login_attempt [] = []
evict_login_attempt ((k, a) ∷ t) = erase (oldest_key k a.touched_at t) ((k, a) ∷ t)

abbrev first_attempt : Time → LoginAttempt
first_attempt now = record { failures = 0; window_start = now; banned_until = 0; touched_at = 0 }

-- The attempt that a failure counts on: the one on record, while its window lasts.
abbrev current_attempt : Option LoginAttempt → Time → LoginAttempt
current_attempt none now = first_attempt now
current_attempt (some a) now =
    if ltb now (a.window_start + login_window) then a else first_attempt now

abbrev counted : LoginAttempt → Time → LoginAttempt
counted a now = record a {
  failures = a.failures + 1;
  touched_at = now;
  banned_until =
      if leb login_failure_limit (a.failures + 1) then now + login_ban_duration else a.banned_until;
}

-- The attempt that a failure leaves behind.
unfoldable pub failed_attempt : Option LoginAttempt → Time → LoginAttempt
failed_attempt found now = counted (current_attempt found now) now

abbrev is_banned : Option LoginAttempt → Time → Bool
is_banned none now = false
is_banned (some a) now = ltb now a.banned_until

abbrev pub touch : Option LoginAttempt → Time → GoString → LoginTable → LoginTable
touch none now key t = t
touch (some a) now key t = put key (record a { touched_at = now }) t

-- Where a new address meets a full table, one is evicted for it.
unfoldable pub make_room : ℕ → GoString → LoginTable → LoginTable
make_room capacity key t =
    if not (is_some (find key t)) && length t == capacity then evict_login_attempt t else t

-- The rest of `AuthorizeLogin`, on the purged table.
unfoldable pub authorize_purged :
    ℕ → Time → GoString → Bool → LoginTable → LoginDecision × LoginTable
unfolding failed_attempt
authorize_purged capacity now key valid t =
    if is_banned (find key t) now
    then (login_banned, touch (find key t) now key t)
    else if valid
    then (login_allowed, erase key t)
    else (
      if (failed_attempt (find key t) now).banned_until == 0 then login_invalid else login_banned,
      put key (failed_attempt (find key t) now) (make_room capacity key t),
    )

-- `key` is `clientAddress(remoteAddress)`.
unfoldable pub authorize_login :
    ℕ → Time → GoString → Bool → LoginTable → LoginDecision × LoginTable
unfolding authorize_purged
authorize_login capacity now key valid t =
    authorize_purged capacity now key valid (purge_login_attempts now t)
