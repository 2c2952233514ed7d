-- ===== src/Reconcile/Step/Commit.antt =====
-- The row of one step against the checks of CommitClaim.
use cd.Prelude.{
  ◌≡◌, refl, Bool, true, false, not, none, some, [], arith, is_nil, is_neg, if◌then◌else◌, ◌||◌,
}
use cd.Go.Text.{GoString}
use cd.Go.Utf8.{is_blank}
use cd.Domain.State.{
  State, accepted, submitting_offline, waiting_offline, submitting_copy, waiting_copy,
  verifying_local, cancel_requested, delete_requested, is_claimable, may_commit, is_valid, state_eq,
}
use cd.Domain.Problem.{workflow_operation_timeout}
use cd.Domain.Model.{Time, Download}
use cd.Domain.Validate.{validate_download}
use cd.Reconcile.World.{Env, outcome, broken}
use cd.Reconcile.Failure.{advance, retry}
use cd.Reconcile.Failure.Moves.{may_commit_refl}
use cd.Reconcile.Frame.{
  submitting_offline-Same, waiting_offline-Same, waiting_copy-Same, verifying-Same, cancel-Same,
  delete-Same,
}
use cd.Reconcile.Copy.Frame.{submitting_copy-Keeps}
use cd.Reconcile.Cleanup.Moves.{is_stranded}
use cd.Reconcile.Decide.{decide_in, decide}
use cd.Reconcile.Decide.Moves.{decide-may_commit}
use cd.Reconcile.Step.{proposed}
use cd.Store.Commit.{
  claim_of, invalid_transition, invalid_of, commit_refused, same_claim_identity,
  valid_claim_workspace,
}
use cd.Store.Commit.Identity.{Same, SameClaim, same_claim}

module _ (e : Env) (d : Download) where
  Same-self : Same d d
  Same-self = record {
    hash = refl;
    source_kind = refl;
    submission_uri = refl;
    cloud_folder = refl;
    save_path = refl;
    created_at = refl;
    workspace_path = refl;
  }

  advance-Same : Same d (advance d submitting_offline e.now e.now)
  unfolding advance
  advance-Same = ground arith

  decide_in_claim : (s : State) → d.state ≡ s → SameClaim d (decide_in s e d).next
  unfolding decide_in outcome broken
  decide_in_claim accepted at = same_claim d _ advance-Same
  decide_in_claim submitting_offline at = same_claim d _ (submitting_offline-Same e d)
  decide_in_claim waiting_offline at = same_claim d _ (waiting_offline-Same e d)
  decide_in_claim submitting_copy at = (submitting_copy-Keeps e d at).kept
  decide_in_claim waiting_copy at = same_claim d _ (waiting_copy-Same e d)
  decide_in_claim verifying_local at = same_claim d _ (verifying-Same e d)
  decide_in_claim cancel_requested at = same_claim d _ (cancel-Same e d)
  decide_in_claim delete_requested at = same_claim d _ (delete-Same e d)
  decide_in_claim _ at = same_claim d d Same-self

  decide_claim : SameClaim d (decide e d).next
  unfolding decide
  decide_claim = decide_in_claim d.state refl

  retry-Same : (c : _) → Same d (retry e d c)
  unfolding retry
  retry-Same c = ground arith

  pub proposed_claim : (expired : Bool) (at : Time) → SameClaim d (proposed e expired at d).next
  unfolding proposed same_claim_identity valid_claim_workspace
  proposed_claim true at = record {
    identity = (same_claim d _ (retry-Same workflow_operation_timeout)).identity;
    workspace = (same_claim d _ (retry-Same workflow_operation_timeout)).workspace;
  }
  proposed_claim false at = record {
    identity = decide_claim.identity;
    workspace = decide_claim.workspace;
  }

  retry-may_commit : may_commit d.state (retry e d workflow_operation_timeout).state ≡ true
  unfolding retry
  retry-may_commit = may_commit_refl d.state

  may_commit-proposed :
      (expired : Bool) (at : Time)
      → is_claimable d.state ≡ true
      → may_commit d.state (proposed e expired at d).next.state ≡ (expired || not (is_stranded d))
  unfolding proposed
  may_commit-proposed true at h = retry-may_commit
  may_commit-proposed false at h = decide-may_commit e d h

-- Of the row that a step of a claimed row proposes, CommitClaim refuses only what ValidateDownload
-- refuses, whether the step ran to its end or its time ran out: its state may follow the claimed one,
-- its identity is that of the claimed row, and its workspace is the old one or the one that a legacy
-- row may get. The owner is not blank and the claimed row has a hash, a valid version and a state
-- that is claimable. The row of a stranded one is refused as an invalid transition, unless time ran
-- out.
pub commit-proposed :
    (e : Env) (d : Download) (expired : Bool) (at : Time) (owner : GoString)
    → is_blank owner ≡ false
    → is_neg d.row_version ≡ false
    → is_nil d.hash ≡ false
    → is_claimable d.state ≡ true
    → commit_refused e.floats (claim_of owner d) (proposed e expired at d).next ≡ (
        if expired || not (is_stranded d)
        then invalid_of (
            validate_download e.floats
              (record (proposed e expired at d).next { lease_owner = []; lease_until = none }))
        else some invalid_transition)
unfolding commit_refused is_valid state_eq is_claimable
commit-proposed e d expired at owner blank version hash claimable = ground (
  arith,
  (proposed_claim e d expired at).identity,
  (proposed_claim e d expired at).workspace,
  may_commit-proposed e d expired at claimable,
)
