-- ===== src/Reconcile/Step/Conflict.antt =====
-- The second commit of a step whose destination name another row has taken.
use cd.Prelude.{◌≡◌, Bool, true, false, none, [], arith, is_nil, is_neg}
use cd.Go.Text.{GoString}
use cd.Go.Utf8.{is_blank}
use cd.Domain.State.{is_valid, state_eq, may_commit, can_transition}
use cd.Domain.Model.{Time, Download}
use cd.Domain.Retry.{is_active}
use cd.Domain.Validate.{validate_download}
use cd.Reconcile.World.{Env}
use cd.Reconcile.Failure.{fail}
use cd.Reconcile.Step.{proposed, conflicted}
use cd.Reconcile.Step.Commit.{proposed_claim}
use cd.Store.Commit.{
  claim_of, invalid_of, commit_refused, same_claim_identity, valid_claim_workspace,
}
use cd.Store.Commit.Identity.{SameClaim}

conflicted_claim : (d n : Download) (at : Time) → SameClaim d n → SameClaim d (conflicted at n)
unfolding conflicted fail same_claim_identity valid_claim_workspace
conflicted_claim d n at s = record { identity = s.identity; workspace = s.workspace }

conflicted_moves :
    (d n : Download) (at : Time)
    → is_active d.state ≡ true
    → may_commit d.state (conflicted at n).state ≡ true
unfolding conflicted fail may_commit can_transition is_active state_eq
conflicted_moves d n at h = ground arith

-- When CommitClaim answers the row of a step of an active row with ErrDestinationConflict, the failed
-- row that Step hands over in its place is refused only where ValidateDownload refuses it. The owner is
-- not blank, and the claimed row has a hash and a valid version.
pub commit-conflicted :
    (e : Env) (d : Download) (expired : Bool) (at later : Time) (owner : GoString)
    → is_blank owner ≡ false
    → is_neg d.row_version ≡ false
    → is_nil d.hash ≡ false
    → is_active d.state ≡ true
    → commit_refused e.floats (claim_of owner d) (conflicted later (proposed e expired at d).next)
      ≡ invalid_of (
          validate_download e.floats (record (conflicted later (proposed e expired at d).next) {
            lease_owner = [];
            lease_until = none;
          }))
unfolding commit_refused is_valid state_eq is_active
commit-conflicted e d expired at later owner blank version hash active =
    let s =
      conflicted_claim d (proposed e expired at d).next later (proposed_claim e d expired at) in
    ground (
      arith,
      s.identity,
      s.workspace,
      conflicted_moves d (proposed e expired at d).next later active,
    )
