-- ===== src/Domain/State.antt =====
-- internal/domain/state.go: the lifecycle states of a download and the moves between them.
pub mod Graph
use cd.Prelude.{ℕ, Bool, true, false, ◌&&◌, ◌||◌, not, ◌==◌, if◌then◌else◌}

-- `undefined` stands for every string that is none of the constants.
pub data State : Type 0 where
  accepted stopped submitting_offline waiting_offline submitting_copy waiting_copy : State
  verifying_local completed failed cancel_requested cancelled delete_requested deleted : State
  undefined : State

-- The position of the constant in the source, to compare two states by.
abbrev pub state_index : State → ℕ
state_index accepted = 0
state_index stopped = 1
state_index submitting_offline = 2
state_index waiting_offline = 3
state_index submitting_copy = 4
state_index waiting_copy = 5
state_index verifying_local = 6
state_index completed = 7
state_index failed = 8
state_index cancel_requested = 9
state_index cancelled = 10
state_index delete_requested = 11
state_index deleted = 12
state_index undefined = 13

unfoldable pub state_eq : State → State → Bool
state_eq s t = state_index s == state_index t

unfoldable pub is_valid : State → Bool
is_valid undefined = false
is_valid _ = true

unfoldable pub is_visible : State → Bool
unfolding is_valid state_eq
is_visible s = is_valid s && not (state_eq s delete_requested) && not (state_eq s deleted)

unfoldable pub is_terminal : State → Bool
is_terminal completed = true
is_terminal failed = true
is_terminal cancelled = true
is_terminal _ = false

-- The switch of `Claimable`, behind its test of validity.
is_idle : State → Bool
is_idle stopped = true
is_idle completed = true
is_idle failed = true
is_idle cancelled = true
is_idle deleted = true
is_idle _ = false

unfoldable pub is_claimable : State → Bool
unfolding is_valid is_idle
is_claimable s = if not (is_valid s) then false else not (is_idle s)

unfoldable pub active_exit : State → Bool
unfolding state_eq
active_exit to = state_eq to failed || state_eq to cancel_requested || state_eq to delete_requested

-- The switch of `CanTransition` on `from`.
allowed_from : State → State → Bool
unfolding active_exit state_eq
allowed_from accepted to = state_eq to submitting_offline || active_exit to
allowed_from stopped to =
    state_eq to accepted
    || state_eq to submitting_copy
    || state_eq to verifying_local
    || state_eq to cancel_requested
    || state_eq to delete_requested
allowed_from submitting_offline to =
    state_eq to waiting_offline || state_eq to submitting_copy || active_exit to
allowed_from waiting_offline to = state_eq to submitting_copy || active_exit to
allowed_from submitting_copy to = state_eq to waiting_copy || active_exit to
allowed_from waiting_copy to = state_eq to verifying_local || active_exit to
allowed_from verifying_local to = state_eq to completed || active_exit to
allowed_from completed to = state_eq to delete_requested || state_eq to verifying_local
allowed_from cancelled to = state_eq to delete_requested
allowed_from failed delete_requested = true
allowed_from failed accepted = true
allowed_from failed submitting_offline = true
allowed_from failed waiting_offline = true
allowed_from failed submitting_copy = true
allowed_from failed waiting_copy = true
allowed_from failed verifying_local = true
allowed_from failed _ = false
allowed_from cancel_requested to =
    state_eq to stopped || state_eq to cancelled || state_eq to delete_requested
allowed_from delete_requested to = state_eq to deleted
allowed_from deleted to = state_eq to accepted || state_eq to stopped || state_eq to verifying_local
allowed_from undefined to = false

unfoldable pub can_transition : State → State → Bool
unfolding allowed_from state_eq
can_transition from to = if state_eq from to then false else allowed_from from to

-- What `CommitClaim` asks of the state that a row had and of the one that it is to have.
unfoldable pub may_commit : State → State → Bool
unfolding can_transition state_eq
may_commit from to = state_eq from to || can_transition from to
