-- ===== src/Domain/Project/Bounds.antt =====
-- Which rows have a view, and how much of a download it reports as completed.
use cd.Prelude.{
  ◌≡◌, refl, ℤ, pos, true, false, ◌&&◌, ◌||◌, not, Option, none, some, leb, ltb_ℤ, pos_part,
  is_some, arith, Bool-cases, inl, inr,
}
use cd.Domain.State.{
  State, is_visible, is_valid, state_eq, delete_requested, accepted, stopped, submitting_offline,
  waiting_offline, submitting_copy, waiting_copy, verifying_local, completed, failed,
  cancel_requested, cancelled, deleted, undefined,
}
use cd.Domain.Model.{Download, Float64}
use cd.Domain.Validate.{FloatOps, validate_download}
use cd.Domain.Project.{
  Shown, shown, is_cleanup_failure, projected, project, completed_bytes, within, clamp,
}

-- The switch knows every state that gets to it.
shown-total :
    (fl : FloatOps) (d : Download) (s : State)
    → (is_visible s || state_eq s delete_requested) ≡ is_some (shown fl d s)
unfolding shown is_visible is_valid state_eq
shown-total fl d accepted = refl
shown-total fl d stopped = refl
shown-total fl d submitting_offline = refl
shown-total fl d waiting_offline = refl
shown-total fl d submitting_copy = refl
shown-total fl d waiting_copy = refl
shown-total fl d verifying_local = refl
shown-total fl d completed = refl
shown-total fl d failed = refl
shown-total fl d cancel_requested = refl
shown-total fl d cancelled = refl
shown-total fl d delete_requested = refl
shown-total fl d deleted = refl
shown-total fl d undefined = refl

is_some-projected :
    (fl : FloatOps) (d : Download) (s : Option Shown) → is_some (projected fl d s) ≡ is_some s
is_some-projected fl d none = refl
is_some-projected fl d (some s) = refl

-- Project has a view of exactly the valid rows that are visible or whose deletion has failed: no state
-- that passes its guard is missing from its switch.
pub is_some-project :
    (fl : FloatOps) (d : Download)
    → is_some (project fl d)
      ≡ (not (is_some (validate_download fl d)) && (is_visible d.state || is_cleanup_failure d))
unfolding project is_cleanup_failure
is_some-project fl d =
    ground (arith, shown-total fl d d.state, is_some-projected fl d (shown fl d d.state))

within-bounded :
    (size count : ℤ)
    → ltb_ℤ (pos 0) size ≡ true
    → (ltb_ℤ (within size count) (pos 0) ≡ false)
      × (leb (pos_part (within size count)) (pos_part size) ≡ true)
within-bounded size count h = (ground arith, ground arith)

-- The completed bytes of a view lie between 0 and the size, or are 0 where no size is known, whatever
-- the floating-point arithmetic makes of the progress.
pub completed_bytes-bounded :
    (fl : FloatOps) (size : ℤ) (progress : Float64)
    → (ltb_ℤ (completed_bytes fl size progress) (pos 0) ≡ false)
      × (leb (pos_part (completed_bytes fl size progress)) (pos_part size) ≡ true)
unfolding completed_bytes
completed_bytes-bounded fl size progress = elim (Bool-cases (ltb_ℤ (pos 0) size)) [
  | inl p ↦
      rw (p, completed_bytes)
        (within-bounded size (fl.to_int (fl.mul (fl.of_int size) (clamp fl progress))) p)
  | inr n ↦ (ground arith, ground arith)
]
