-- ===== src/Store/History/States.antt =====
-- The state of a row over its history.
use cd.Prelude.{◌≡◌, refl, Bool, ◌&&◌, ap, sym, ◌∙◌, ◌⊎◌, inl, inr, true, none, some, arith}
use cd.Domain.State.{State, accepted, can_transition, may_commit, is_valid, state_eq}
use cd.Domain.State.Graph.{can_transition_sound}
use cd.Domain.Model.{Download}
use cd.Domain.Retry.{is_cleanup, is_active}
use cd.Domain.Validate.{FloatOps}
use cd.Store.Commit.{Claim, commit_refused}
use cd.Store.Rows.{
  claim_row, commit_row, commit_claim, start_row, retry_row, retry_cleanup_row, pause_row,
  cancel_row, request_delete_row,
}
use cd.Store.Edits.{
  revive_row, reverify_row, set_category_row, clear_category_row, set_name_row, touch_row,
  set_content_path_row, set_auto_tmm_row, set_save_path_row, set_tags_row,
}
use cd.Store.Create.{valid_submission}
use cd.Store.History.{
  ◌⇒◌, claimed, committed_by, started, retried, cleanup_retried, paused, cancelled_by,
  deletion_requested, ◌⇒*◌, unchanged, after, revived_by, reverified, category_set,
  category_cleared, name_set, touched_by, content_path_set, auto_tmm_set, save_path_set, tags_set,
}

may_commit_accepted :
    (fl : FloatOps) (claim : Claim) (next : Download)
    → commit_refused fl claim next ≡ none
    → may_commit claim.state next.state ≡ true
unfolding commit_refused
may_commit_accepted fl claim next h = ground arith

eq_of_state_eq : (s t : State) → state_eq s t ≡ true → s ≡ t
unfolding state_eq
eq_of_state_eq accepted t h = ground arith
eq_of_state_eq _ t h = ground arith

commit_claim_state :
    (fl : FloatOps) (refuses : Download → Download → Bool) (claim : Claim) (next d n : Download)
    → commit_claim fl refuses claim next d ≡ some n
    → (state_eq d.state claim.state ≡ true)
      × (n.state ≡ next.state)
      × (commit_refused fl claim next ≡ none)
unfolding commit_claim commit_row
commit_claim_state fl refuses claim next d n h = ground arith

may_commit_claim :
    (fl : FloatOps) (refuses : Download → Download → Bool) (claim : Claim) (next d n : Download)
    → commit_claim fl refuses claim next d ≡ some n
    → may_commit d.state n.state ≡ true
may_commit_claim fl refuses claim next d n h =
    let p = commit_claim_state fl refuses claim next d n h in
    ground (arith, p, eq_of_state_eq d.state claim.state p.0, may_commit_accepted fl claim next p.2)

may_commit_step :
    {d n : Download} → d ⇒ n → is_valid d.state ≡ true → may_commit d.state n.state ≡ true
unfolding claim_row start_row retry_row retry_cleanup_row pause_row cancel_row request_delete_row
    revive_row reverify_row set_category_row clear_category_row set_name_row touch_row
    set_content_path_row set_auto_tmm_row set_save_path_row set_tags_row valid_submission may_commit
    can_transition is_valid state_eq is_active is_cleanup
may_commit_step (claimed owner until now h) v = ground arith
may_commit_step {d} {n} (committed_by fl refuses claim next h) v =
    may_commit_claim fl refuses claim next d n h
may_commit_step (started now h) v = ground arith
may_commit_step (retried target now p q h) v = ground arith
may_commit_step (cleanup_retried now h) v = ground arith
may_commit_step (paused now h) v = ground arith
may_commit_step (cancelled_by now h) v = ground arith
may_commit_step (deletion_requested files now h) v = ground arith
may_commit_step (revived_by fl s p h) v = ground arith
may_commit_step (reverified now h) v = ground arith
may_commit_step (category_set category now h) v = ground arith
may_commit_step (category_cleared names now h) v = ground arith
may_commit_step (name_set name now h) v = ground arith
may_commit_step (touched_by now h) v = ground arith
may_commit_step (content_path_set path now h) v = ground arith
may_commit_step (auto_tmm_set on now h) v = ground arith
may_commit_step (save_path_set save workspace expected now h) v = ground arith
may_commit_step (tags_set tags now h) v = ground arith

move_or_stay : (s t : State) → may_commit s t ≡ true → (s ≡ t) ⊎ (can_transition s t ≡ true)
unfolding may_commit
move_or_stay s t h = ground (arith, eq_of_state_eq s t)

valid_step : (s t : State) → may_commit s t ≡ true → is_valid s ≡ true → is_valid t ≡ true
valid_step s t h v = elim (move_or_stay s t h) [
  | inl p ↦ ap is_valid (sym p) ∙ v
  | inr q ↦ (can_transition_sound s t q).1
]

-- Every step of the history keeps the state or makes a move of `CanTransition`.
unfoldable pub all_allowed : {d n : Download} → d ⇒* n → Bool
all_allowed unchanged = true
all_allowed (after {d} {n} s r) = may_commit d.state n.state && all_allowed r

-- Over any history of a row, by whatever workers and operators, each single update keeps the state of
-- the row or makes a move that `CanTransition` allows, if the state is one of the constants at the
-- start.
pub all_allowed_lem : {d n : Download} (r : d ⇒* n) → is_valid d.state ≡ true → all_allowed r ≡ true
unfolding all_allowed
all_allowed_lem unchanged v = refl
all_allowed_lem (after {d} {n} s r) v =
    let kept = may_commit_step s v in
    ground (arith, kept, all_allowed_lem r (valid_step d.state n.state kept v))
