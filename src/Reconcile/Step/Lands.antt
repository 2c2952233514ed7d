-- ===== src/Reconcile/Step/Lands.antt =====
-- A step from the claim to the commit.
use cd.Prelude.{◌≡◌, ap, ◌∙◌, Bool, true, false, none, some, [], arith, is_nil, is_neg, ℤ, eqb_ℤ}
use cd.Go.Text.{GoString, str_eq, str_eq_refl}
use cd.Go.Utf8.{is_blank}
use cd.Domain.State.{is_claimable, state_eq}
use cd.Domain.Model.{Time, Download}
use cd.Domain.Validate.{FloatOps, validate_download}
use cd.Reconcile.World.{Env}
use cd.Reconcile.Cleanup.Moves.{is_stranded}
use cd.Reconcile.Step.{proposed}
use cd.Reconcile.Step.Commit.{commit-proposed}
use cd.Store.Commit.{Claim, claim_of, invalid_of, commit_refused}
use cd.Store.Rows.{claim_row, commit_row, commit_claim, committed, reads_back}

eqb_ℤ_refl : (a : ℤ) → eqb_ℤ a a ≡ true
eqb_ℤ_refl a = ground arith

-- The statement finds the row that was claimed, if nothing has touched it since.
commit_row_claimed :
    (c next : Download) (owner : GoString)
    → c.lease_owner ≡ owner
    → commit_row (claim_of owner c) next c ≡ some (committed c next)
unfolding commit_row state_eq
commit_row_claimed c next owner held = ground (
  arith,
  str_eq_refl c.hash,
  ap (λ s. str_eq s owner) held ∙ str_eq_refl owner,
  eqb_ℤ_refl c.row_version,
)

claim_row_owner :
    (owner : GoString) (until now : Time) (d c : Download)
    → claim_row owner until now d ≡ some c
    → c.lease_owner ≡ owner
unfolding claim_row
claim_row_owner owner until now d c h = ground arith

commit_claim_accepted :
    (fl : FloatOps) (refuses : Download → Download → Bool) (claim : Claim) (next row n : Download)
    → commit_refused fl claim next ≡ none
    → commit_row claim next row ≡ some n
    → refuses row n ≡ false
    → reads_back fl n ≡ true
    → commit_claim fl refuses claim next row ≡ some n
unfolding commit_claim
commit_claim_accepted fl refuses claim next row n h w free read =
    rw (h, w, free, read, commit_claim)

module _ (e : Env) (d c : Download) (expired : Bool) (at : Time) (owner : GoString) where
  -- A step that runs without interruption is committed: if a worker claims a row, makes its step, and
  -- no operation touches the row in between, then its commit writes the columns of the proposed row,
  -- keeps the identity of the claimed one, gives it the next version and ends the lease. The owner is
  -- not blank; the claimed row has a hash, a valid version, a claimable state and is not stranded; the
  -- proposed row passes ValidateDownload; no constraint of the schema refuses the row that is written,
  -- such as the unique destination; and downloadFromDB accepts that row when it is read back.
  pub commit_claim-proposed :
      (until now : Time) (refuses : Download → Download → Bool)
      → claim_row owner until now d ≡ some c
      → is_blank owner ≡ false
      → is_neg c.row_version ≡ false
      → is_nil c.hash ≡ false
      → is_claimable c.state ≡ true
      → is_stranded c ≡ false
      → validate_download e.floats
          (record (proposed e expired at c).next { lease_owner = []; lease_until = none })
        ≡ none
      → refuses c (committed c (proposed e expired at c).next) ≡ false
      → reads_back e.floats (committed c (proposed e expired at c).next) ≡ true
      → commit_claim e.floats refuses (claim_of owner c) (proposed e expired at c).next c
        ≡ some (committed c (proposed e expired at c).next)
  unfolding invalid_of
  commit_claim-proposed until now refuses claimed blank version hash claimable free valid open_row
        read =
      commit_claim_accepted e.floats refuses (claim_of owner c) (proposed e expired at c).next c
        (committed c (proposed e expired at c).next)
        (commit-proposed e c expired at owner blank version hash claimable ∙ ground arith)
        (commit_row_claimed c (proposed e expired at c).next owner
          (claim_row_owner owner until now d c claimed))
        open_row read
