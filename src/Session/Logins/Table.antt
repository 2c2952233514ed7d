-- ===== src/Session/Logins/Table.antt =====
-- The laws of the table of attempts, and its bound.
use cd.Prelude.{
  ℕ, ◌≡◌, refl, Bool, true, ◌||◌, Option, none, some, [], ◌∷◌, arith, leb, ltb, if◌then◌else◌,
  is_some, length, suc,
}
use cd.Go.Text.{GoString, str_eq, str_eq_refl, eq_of_str_eq}
use cd.Domain.Model.{Time}
use cd.Session.Logins.{
  LoginAttempt, LoginTable, find, erase, put, purge_login_attempts, evict_login_attempt, oldest_key,
  authorize_login, authorize_purged, failed_attempt, make_room, touch,
}

pub find-put :
    (j k : GoString) (v : LoginAttempt) (t : LoginTable)
    → find j (put k v t) ≡ (if str_eq j k then some v else find j t)
unfolding find put
find-put j k v [] = refl
find-put j k v ((i, w) ∷ t) =
    ground
      (arith, find-put j k v t, eq_of_str_eq j k, eq_of_str_eq k i, eq_of_str_eq j i, str_eq_refl k)

pub find-erase :
    (j k : GoString) (t : LoginTable) → find j (erase k t) ≡ (if str_eq j k then none else find j t)
unfolding find erase
find-erase j k [] = ground arith
find-erase j k ((i, w) ∷ t) =
    ground
      (arith, find-erase j k t, eq_of_str_eq j k, eq_of_str_eq k i, eq_of_str_eq j i, str_eq_refl k)

pub length-put :
    (k : GoString) (v : LoginAttempt) (t : LoginTable)
    → length (put k v t) ≡ (if is_some (find k t) then length t else suc (length t))
unfolding find put
length-put k v [] = refl
length-put k v ((i, w) ∷ t) = ground (arith, length-put k v t)

pub length-erase : (k : GoString) (t : LoginTable) → leb (length (erase k t)) (length t) ≡ true
unfolding erase
length-erase k [] = refl
length-erase k ((i, w) ∷ t) = ground (arith, length-erase k t)

length-erase_found :
    (k : GoString) (t : LoginTable)
    → is_some (find k t) ≡ true
    → ltb (length (erase k t)) (length t) ≡ true
unfolding find erase
length-erase_found k [] h = cc
length-erase_found k ((i, w) ∷ t) h = ground (arith, length-erase_found k t, length-erase k t)

pub length-purge :
    (now : Time) (t : LoginTable) → leb (length (purge_login_attempts now t)) (length t) ≡ true
unfolding purge_login_attempts
length-purge now [] = refl
length-purge now ((k, a) ∷ t) = ground (arith, length-purge now t)

-- The key that goes is one of the table's.
oldest_key-found :
    (best : GoString) (at : Time) (t : LoginTable)
    → (str_eq (oldest_key best at t) best || is_some (find (oldest_key best at t) t)) ≡ true
unfolding find oldest_key
oldest_key-found best at [] = ground (arith, str_eq_refl best)
oldest_key-found best at ((k, a) ∷ t) =
    ground (arith, oldest_key-found best at t, oldest_key-found k a.touched_at t)

length-evict :
    (k : GoString) (a : LoginAttempt) (t : LoginTable)
    → ltb (length (evict_login_attempt ((k, a) ∷ t))) (suc (length t)) ≡ true
unfolding evict_login_attempt find
length-evict k a t = ground (
  arith,
  length-erase_found (oldest_key k a.touched_at t) ((k, a) ∷ t),
  oldest_key-found k a.touched_at t,
)

length-make_room :
    (capacity : ℕ) (key : GoString) (t : LoginTable)
    → ltb 0 capacity ≡ true
    → leb (length t) capacity ≡ true
    → (if is_some (find key t)
        then leb (length (make_room capacity key t)) capacity
        else ltb (length (make_room capacity key t)) capacity)
      ≡ true
unfolding make_room
length-make_room capacity key [] pos h = ground arith
length-make_room capacity key ((k, a) ∷ t) pos h = ground (arith, length-evict k a t)

make_room-found :
    (capacity : ℕ) (key : GoString) (t : LoginTable)
    → is_some (find key t) ≡ true
    → make_room capacity key t ≡ t
unfolding make_room
make_room-found capacity key t h = ground arith

length-put_room :
    (capacity : ℕ) (key : GoString) (v : LoginAttempt) (t : LoginTable)
    → ltb 0 capacity ≡ true
    → leb (length t) capacity ≡ true
    → leb (length (put key v (make_room capacity key t))) capacity ≡ true
length-put_room capacity key v t pos h = ground (
  arith,
  length-put key v (make_room capacity key t),
  length-make_room capacity key t pos h,
  make_room-found capacity key t,
)

pub length-touch :
    (found : Option LoginAttempt) (now : Time) (key : GoString) (t : LoginTable)
    → find key t ≡ found
    → length (touch found now key t) ≡ length t
length-touch none now key t h = refl
length-touch (some a) now key t h = ground (arith, length-put key (record a { touched_at = now }) t)

length-authorize_purged :
    (capacity : ℕ) (now : Time) (key : GoString) (valid : Bool) (t : LoginTable)
    → ltb 0 capacity ≡ true
    → leb (length t) capacity ≡ true
    → leb (length (authorize_purged capacity now key valid t).1) capacity ≡ true
unfolding authorize_purged
length-authorize_purged capacity now key valid t pos h = ground (
  arith,
  length-put_room capacity key (failed_attempt (find key t) now) t pos h,
  length-erase key t,
  length-touch (find key t) now key t refl,
)

-- The table of attempts never holds more addresses than the capacity, whatever arrives.
pub length-authorize_login :
    (capacity : ℕ) (now : Time) (key : GoString) (valid : Bool) (t : LoginTable)
    → ltb 0 capacity ≡ true
    → leb (length t) capacity ≡ true
    → leb (length (authorize_login capacity now key valid t).1) capacity ≡ true
unfolding authorize_login
length-authorize_login capacity now key valid t pos h =
    length-authorize_purged capacity now key valid (purge_login_attempts now t) pos
      (ground (arith, length-purge now t))
