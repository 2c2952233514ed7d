-- ===== src/Session/Rows/Capacity.antt =====
-- The number of sessions that the table retains.
use cd.Prelude.{
  ℕ, zero, suc, ◌≡◌, refl, Bool, true, false, [], ◌∷◌, arith, leb, ltb, length, Bool-cases, inl,
  inr, ◌||◌,
}
use cd.Go.Text.{GoString, str_eq, str_eq_refl}
use cd.Domain.Model.{Time}
use cd.Session.Rows.{
  Session, SessionRow, SessionTable, oldest_session, delete_digest, evict_oldest, evict_down,
  evicted_before, purge_expired, CreateResult, created, insert_session, create_session,
}

holds_digest : GoString → SessionTable → Bool
holds_digest digest [] = false
holds_digest digest (r ∷ t) = str_eq r.sid_digest digest || holds_digest digest t

-- The row that is evicted is the best so far or one of the rows.
oldest_session-held :
    (best : SessionRow) (t : SessionTable)
    → holds_digest (oldest_session best t).sid_digest (best ∷ t) ≡ true
unfolding oldest_session holds_digest
oldest_session-held best [] = ground (arith, str_eq_refl best.sid_digest)
oldest_session-held best (r ∷ t) = elim (Bool-cases (evicted_before r best)) [
  | inl p ↦ ground (arith, oldest_session-held r t)
  | inr q ↦ ground (arith, oldest_session-held best t)
]

length-delete_digest :
    (digest : GoString) (t : SessionTable) → leb (length (delete_digest digest t)) (length t) ≡ true
unfolding delete_digest
length-delete_digest digest [] = refl
length-delete_digest digest (r ∷ t) = ground (arith, length-delete_digest digest t)

length-delete_held :
    (digest : GoString) (t : SessionTable)
    → holds_digest digest t ≡ true
    → ltb (length (delete_digest digest t)) (length t) ≡ true
unfolding delete_digest holds_digest
length-delete_held digest [] h = ground arith
length-delete_held digest (r ∷ t) h =
    ground (arith, length-delete_digest digest t, length-delete_held digest t)

length-evict_oldest :
    (count : ℕ) (t : SessionTable)
    → leb (length t) (suc count) ≡ true
    → leb (length (evict_oldest t)) count ≡ true
unfolding evict_oldest
length-evict_oldest count [] h = ground arith
length-evict_oldest count (r ∷ t) h =
    ground
      (arith, length-delete_held (oldest_session r t).sid_digest (r ∷ t) (oldest_session-held r t))

length-evict_down :
    (capacity count : ℕ) (t : SessionTable)
    → leb (length t) count ≡ true
    → ltb 0 capacity ≡ true
    → ltb (length (evict_down capacity count t)) capacity ≡ true
unfolding evict_down
length-evict_down capacity zero t h pos = ground arith
length-evict_down capacity (suc count) t h pos =
    ground (arith, length-evict_down capacity count (evict_oldest t), length-evict_oldest count t h)

-- The size of the table that a creation leaves, 0 where it leaves the table alone.
abbrev pub created_size : CreateResult → ℕ
created_size (created t) = length t
created_size _ = 0

-- However full the table was, a CreateSession that commits leaves at most `capacity` sessions in it.
pub length-create_session :
    (digest : GoString) (current : Session) (now : Time) (capacity : ℕ) (t : SessionTable)
    → leb (created_size (create_session digest current now capacity t)) capacity ≡ true
unfolding create_session insert_session
length-create_session digest current now capacity t = ground (
  arith,
  length-evict_down capacity (length (purge_expired now t)) (purge_expired now t) (ground arith),
)
