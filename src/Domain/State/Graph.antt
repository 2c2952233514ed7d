-- ===== src/Domain/State/Graph.antt =====
-- The lifecycle as a graph: what can be reached from where by the moves of `CanTransition`.
use cd.Prelude.{◌≡◌, refl, Bool, true, false, ◌||◌, arith, not}
use cd.Domain.State.{
  State, accepted, stopped, submitting_offline, waiting_offline, submitting_copy, waiting_copy,
  verifying_local, completed, failed, cancel_requested, cancelled, delete_requested, deleted,
  undefined, can_transition, is_valid, is_visible, state_eq,
}

-- A run of allowed moves.
infix 40 ◌⟶*◌
pub data ◌⟶*◌ : State → State → Type 0 where
  here : {s : State} → s ⟶* s
  move : {s t u : State} → can_transition s t ≡ true → t ⟶* u → s ⟶* u

⟶*-trans : {s t u : State} → s ⟶* t → t ⟶* u → s ⟶* u
⟶*-trans here q = q
⟶*-trans (move h p) q = move h (⟶*-trans p q)

-- From every state that may be persisted the row can be deleted, step by step.
to_deleted : (s : State) → is_valid s ≡ true → s ⟶* deleted
unfolding can_transition is_valid
to_deleted delete_requested h = move {t = deleted} refl here
to_deleted deleted h = here
to_deleted undefined h = cc
to_deleted accepted h = move {t = delete_requested} refl (move {t = deleted} refl here)
to_deleted _ h = move {t = delete_requested} refl (move {t = deleted} refl here)

-- A deleted row can be brought back to every state by a revival and the moves after it.
from_deleted : (t : State) → is_valid t ≡ true → deleted ⟶* t
unfolding can_transition is_valid
from_deleted accepted h = move {t = accepted} refl here
from_deleted stopped h = move {t = stopped} refl here
from_deleted submitting_offline h =
    move {t = accepted} refl (move {t = submitting_offline} refl here)
from_deleted waiting_offline h =
    move {t = accepted} refl
      (move {t = submitting_offline} refl (move {t = waiting_offline} refl here))
from_deleted submitting_copy h = move {t = stopped} refl (move {t = submitting_copy} refl here)
from_deleted waiting_copy h =
    move {t = stopped} refl (move {t = submitting_copy} refl (move {t = waiting_copy} refl here))
from_deleted verifying_local h = move {t = verifying_local} refl here
from_deleted completed h = move {t = verifying_local} refl (move {t = completed} refl here)
from_deleted failed h = move {t = accepted} refl (move {t = failed} refl here)
from_deleted cancel_requested h = move {t = accepted} refl (move {t = cancel_requested} refl here)
from_deleted cancelled h =
    move {t = accepted} refl (move {t = cancel_requested} refl (move {t = cancelled} refl here))
from_deleted delete_requested h = move {t = accepted} refl (move {t = delete_requested} refl here)
from_deleted deleted h = here
from_deleted undefined h = cc

-- No state is a dead end: between any two valid states there is a run of moves that `CanTransition`
-- allows.
pub ⟶*-connected : (s t : State) → is_valid s ≡ true → is_valid t ≡ true → s ⟶* t
⟶*-connected s t hs ht = ⟶*-trans (to_deleted s hs) (from_deleted t ht)

abbrev is_deletion : State → Bool
is_deletion s = state_eq s delete_requested || state_eq s deleted

-- A move joins valid states only, never a state to itself. A row whose deletion was requested can
-- only move on to DELETED: a move out of the hidden states starts at DELETED, so no workflow step
-- brings back a row whose deletion is under way.
pub can_transition_sound :
    (s t : State)
    → can_transition s t ≡ true
    → (is_valid s ≡ true)
      × (is_valid t ≡ true)
      × (state_eq s t ≡ false)
      × ((is_visible s || not (is_visible t) || state_eq s deleted) ≡ true)
unfolding can_transition is_valid is_visible state_eq
can_transition_sound accepted t h = ground arith
can_transition_sound _ t h = ground arith
