-- ===== src/Reconcile/Licence/Cleaning.antt =====
-- The effects of the offline phases and of cancel, pause and delete.
use cd.Prelude.{◌≡◌, true, arith, [], ◌∷◌}
use cd.Go.Text.{str_eq_refl}
use cd.Go.Paths.{join}
use cd.Domain.State.{state_eq, submitting_offline, cancel_requested, delete_requested}
use cd.Domain.Model.{Download}
use cd.Reconcile.World.{Env, outcome}
use cd.Reconcile.Manifest.{workspace_root}
use cd.Reconcile.Offline.{decide_submitting_offline, decide_waiting_offline}
use cd.Reconcile.Cleanup.{decide_cancel, decide_delete, pause, needs_remote_cleanup}
use cd.Reconcile.Licence.{licensed, all_licensed}

module _ (e : Env) (d : Download) where
  pub submitting_offline_licensed :
      d.state ≡ submitting_offline → all_licensed d (decide_submitting_offline e d) ≡ true
  unfolding all_licensed licensed decide_submitting_offline outcome state_eq
  submitting_offline_licensed h = ground (arith, str_eq_refl d.hash)

  pub waiting_offline_licensed : all_licensed d (decide_waiting_offline e d) ≡ true
  unfolding all_licensed decide_waiting_offline outcome
  waiting_offline_licensed = ground arith

  pub cancel_licensed : d.state ≡ cancel_requested → all_licensed d (decide_cancel e d) ≡ true
  unfolding all_licensed licensed decide_cancel pause outcome state_eq
  cancel_licensed h = ground (
    arith,
    str_eq_refl d.hash,
    str_eq_refl d.copy_source_path,
    str_eq_refl (workspace_root d),
    str_eq_refl (join (d.save_path ∷ d.destination_name ∷ [])),
  )

  pub delete_licensed : d.state ≡ delete_requested → all_licensed d (decide_delete e d) ≡ true
  unfolding all_licensed licensed decide_delete outcome state_eq needs_remote_cleanup
  delete_licensed h = ground (
    arith,
    str_eq_refl d.hash,
    str_eq_refl d.copy_source_path,
    str_eq_refl (workspace_root d),
    str_eq_refl d.content_path,
    str_eq_refl (join (d.save_path ∷ d.destination_name ∷ [])),
  )
