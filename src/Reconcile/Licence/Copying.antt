-- ===== src/Reconcile/Licence/Copying.antt =====
-- The effects of the copy phases.
use cd.Prelude.{
  ◌≡◌, refl, Bool, true, false, List, [], ◌∷◌, Option, some, none, arith, ◌&&◌, ◌||◌, is_nil, all,
  ◌++◌,
}
use cd.Go.Text.{str_eq, str_eq_refl, eq_of_str_eq, has_prefix-append}
use cd.Go.Paths.{join}
use cd.Domain.State.{state_eq, submitting_copy, waiting_copy, verifying_local}
use cd.Domain.Model.{Download, copy_removed_prefix, upstream_copy_failed, upstream_copy_completed}
use cd.Reconcile.World.{Env, Effect, outcome, broken, FsError, copy_submitted}
use cd.Reconcile.Status.{copy_removal_completed}
use cd.Reconcile.Manifest.{workspace_root}
use cd.Reconcile.Copy.{
  delete_copy_workspace, prepare_workspace, decide_submitting_copy, copy_reserved, submit_copy,
}
use cd.Reconcile.Verify.{verify_and_record}
use cd.Reconcile.Verify.Effects.{is_plan, verify_and_record_effects}
use cd.Reconcile.Arrival.{decide_waiting_copy, decide_verifying}
use cd.Reconcile.Licence.{licensed, all_licensed}

-- A status behind the marker of a removed copy says that the copy was removed.
marked_status : (s : _) → copy_removal_completed (copy_removed_prefix ++ s) ≡ true
unfolding copy_removal_completed
marked_status s = ground (arith, has_prefix-append copy_removed_prefix s)

removed_marked :
    (s x : _) → str_eq s (copy_removed_prefix ++ x) ≡ true → copy_removal_completed s ≡ true
removed_marked s x h = rw (eq_of_str_eq s (copy_removed_prefix ++ x) h) (marked_status x)

all-append {ℓ} :
    {A : Type ℓ} (p : A → Bool) (xs ys : List A) → all p (xs ++ ys) ≡ (all p xs && all p ys)
all-append p [] ys = refl
all-append p (x ∷ xs) ys = ground (arith, all-append p xs ys)

plans_licensed :
    (d : Download) (fx : List Effect)
    → all is_plan fx ≡ true
    → (state_eq d.state waiting_copy || state_eq d.state verifying_local) ≡ true
    → all (licensed d) fx ≡ true
unfolding licensed
plans_licensed d [] h at = refl
plans_licensed d (x ∷ xs) h at = ground (arith, plans_licensed d xs)

module _ (e : Env) (d : Download) where
  pub waiting_copy_licensed :
      d.state ≡ waiting_copy → all_licensed d (decide_waiting_copy e d) ≡ true
  unfolding all_licensed decide_waiting_copy outcome broken state_eq
  waiting_copy_licensed h = ground (
    arith,
    plans_licensed d (verify_and_record e d).1 (verify_and_record_effects e d) (ground arith),
  )

  pub verifying_licensed : d.state ≡ verifying_local → all_licensed d (decide_verifying e d) ≡ true
  unfolding all_licensed decide_verifying outcome broken state_eq
  verifying_licensed h = ground (
    arith,
    plans_licensed d (verify_and_record e d).1 (verify_and_record_effects e d) (ground arith),
  )

  module _ (at : d.state ≡ submitting_copy) (named : is_nil d.destination_name ≡ false) where
    deleted_licensed :
        copy_removal_completed d.last_upstream_status ≡ true
        → all (licensed d) (delete_copy_workspace e d).1 ≡ true
    unfolding delete_copy_workspace licensed state_eq workspace_root
    deleted_licensed h =
        ground
          (arith, str_eq_refl d.hash, str_eq_refl (join (d.save_path ∷ d.destination_name ∷ [])))

    prepared_licensed : all (licensed d) (prepare_workspace e d).1 ≡ true
    unfolding prepare_workspace licensed state_eq
    prepared_licensed = ground (arith, str_eq_refl d.hash)

  submit_licensed :
      (r : Option FsError) (fx : List Effect)
      → all (licensed d) fx ≡ true
      → licensed d (copy_submitted d.copy_source_path (workspace_root d)) ≡ true
      → all_licensed d (submit_copy e d r fx) ≡ true
  unfolding all_licensed submit_copy
  submit_licensed none fx h k = ground (
    arith,
    all-append (licensed d) fx (copy_submitted d.copy_source_path (workspace_root d) ∷ []),
  )
  submit_licensed (some err) fx h k = h

  module _ (at : d.state ≡ submitting_copy) (named : is_nil d.destination_name ≡ false)
      (sourced : is_nil d.copy_source_path ≡ false)
      (resulted : is_nil d.cloud_result_path ≡ false) where
    copy_reserved_licensed : all_licensed d (copy_reserved e d) ≡ true
    unfolding all_licensed licensed copy_reserved outcome state_eq
    copy_reserved_licensed = ground (
      arith,
      deleted_licensed at named,
      prepared_licensed at named,
      submit_licensed (prepare_workspace e d).0 (prepare_workspace e d).1,
      removed_marked d.last_upstream_status upstream_copy_failed,
      removed_marked d.last_upstream_status upstream_copy_completed,
      str_eq_refl d.copy_source_path,
      str_eq_refl (workspace_root d),
    )

  pub submitting_copy_licensed :
      d.state ≡ submitting_copy → all_licensed d (decide_submitting_copy e d) ≡ true
  unfolding all_licensed decide_submitting_copy outcome broken
  submitting_copy_licensed at = ground (arith, copy_reserved_licensed at)
