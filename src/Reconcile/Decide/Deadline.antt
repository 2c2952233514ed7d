-- ===== src/Reconcile/Decide/Deadline.antt =====
-- The deadlines of the phases.
use cd.Prelude.{
  ◌≡◌, refl, sym, ◌∙◌, ◌+◌, ◌==◌, ◌&&◌, not, leb, Bool, true, false, Option, none, some, [], arith,
  Bool-cases, inl, inr,
}
use cd.Reconcile.Deadline.{
  is_deadline_code, submitting_offline-plain, waiting_offline-plain, waiting_copy-plain,
  verifying-plain,
}
use cd.Reconcile.Copy.Deadline.{submitting_copy-Punctual}
use cd.Domain.State.{
  State, submitting_offline, waiting_offline, submitting_copy, waiting_copy, verifying_local,
  failed,
}
use cd.Domain.Model.{Time, Download}
use cd.Reconcile.World.{Config, Env, outcome}
use cd.Reconcile.Failure.{fail, timed_out, deadline_problem}
use cd.Reconcile.Offline.{decide_submitting_offline, decide_waiting_offline}
use cd.Reconcile.Copy.{decide_submitting_copy}
use cd.Reconcile.Arrival.{decide_waiting_copy, decide_verifying}
use cd.Reconcile.Decide.{decide_in, decide}

-- How long a row may stay in a phase; the other states have no deadline.
unfoldable pub phase_limit : Config → State → Option Time
phase_limit c submitting_offline = some c.offline_timeout
phase_limit c waiting_offline = some c.offline_timeout
phase_limit c submitting_copy = some c.copy_timeout
phase_limit c waiting_copy = some c.copy_timeout
phase_limit c verifying_local = some c.verify_timeout
phase_limit c _ = none

module _ (e : Env) (d : Download) (limit : Time) (late : timed_out e d limit ≡ true) where
  decide_in_late :
      (s : State)
      → phase_limit e.config s ≡ some limit
      → ((decide_in s e d).next.state ≡ failed)
        × ((decide_in s e d).next.next_run_at ≡ none)
        × ((decide_in s e d).error ≡ none)
        × ((decide_in s e d).effects ≡ [])
        × (is_deadline_code (decide_in s e d).next.last_error_code ≡ true)
  unfolding is_deadline_code deadline_problem decide_in phase_limit decide_submitting_offline
      decide_waiting_offline decide_submitting_copy decide_waiting_copy decide_verifying outcome
      fail
  decide_in_late submitting_offline h = ground arith
  decide_in_late waiting_offline h = ground arith
  decide_in_late submitting_copy h = ground arith
  decide_in_late waiting_copy h = ground arith
  decide_in_late verifying_local h = ground arith
  decide_in_late _ h = cc

-- Whether the phase of the row started, at a time that is so long ago.
abbrev has_passed : Download → Time → Time → Bool
has_passed d limit now = not (d.phase_started_at == 0) && leb (d.phase_started_at + limit) now

timed_out-has_passed :
    (e : Env) (d : Download) (limit : Time) → timed_out e d limit ≡ has_passed d limit e.now
unfolding timed_out
timed_out-has_passed e d limit = refl

-- A deadline ends a phase: a step of a row in a phase that has a limit, whose phase started, and at
-- least the limit ago, makes the row FAILED with one of the problems of a missed deadline and with no
-- further run scheduled, and nothing is asked of the cloud or done to local files any more.
pub decide_late :
    (e : Env) (d : Download) (limit : Time)
    → phase_limit e.config d.state ≡ some limit
    → d.phase_started_at == 0 ≡ false
    → leb (d.phase_started_at + limit) e.now ≡ true
    → ((decide e d).next.state ≡ failed)
      × ((decide e d).next.next_run_at ≡ none)
      × ((decide e d).error ≡ none)
      × ((decide e d).effects ≡ [])
      × (is_deadline_code (decide e d).next.last_error_code ≡ true)
unfolding decide
decide_late e d limit h started past =
    decide_in_late e d limit (timed_out-has_passed e d limit ∙ ground arith) d.state h

decide_in_early :
    (e : Env) (d : Download) (limit : Time) (s : State)
    → is_deadline_code d.last_error_code ≡ false
    → phase_limit e.config s ≡ some limit
    → timed_out e d limit ≡ false
    → is_deadline_code (decide_in s e d).next.last_error_code ≡ false
unfolding decide_in phase_limit
decide_in_early e d limit submitting_offline fresh h early =
    submitting_offline-plain e d fresh (ground arith)
decide_in_early e d limit waiting_offline fresh h early =
    waiting_offline-plain e d fresh (ground arith)
decide_in_early e d limit submitting_copy fresh h early =
    (submitting_copy-Punctual e d fresh (ground arith)).code
decide_in_early e d limit waiting_copy fresh h early = waiting_copy-plain e d fresh (ground arith)
decide_in_early e d limit verifying_local fresh h early = verifying-plain e d fresh (ground arith)
decide_in_early e d limit _ fresh h early = cc

-- No phase is ended too early: a step of a row in a phase that has a limit leaves a problem of a missed
-- deadline exactly where the phase started and at least the limit has passed since. The row had no such
-- problem before.
pub decide-is_deadline_code :
    (e : Env) (d : Download) (limit : Time)
    → phase_limit e.config d.state ≡ some limit
    → is_deadline_code d.last_error_code ≡ false
    → is_deadline_code (decide e d).next.last_error_code
      ≡ (not (d.phase_started_at == 0) && leb (d.phase_started_at + limit) e.now)
unfolding decide
decide-is_deadline_code e d limit h fresh = elim (Bool-cases (timed_out e d limit)) [
  | inl late ↦
      (decide_in_late e d limit late d.state h).4 ∙ sym late ∙ timed_out-has_passed e d limit
  | inr early ↦
      decide_in_early e d limit d.state fresh h early ∙ sym early ∙ timed_out-has_passed e d limit
]
