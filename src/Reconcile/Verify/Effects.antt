-- ===== src/Reconcile/Verify/Effects.antt =====
-- The one effect that a check of the local content may have.
use cd.Prelude.{◌≡◌, Bool, true, false, List, arith, all}
use cd.Domain.Model.{Download, DownloadFile}
use cd.Reconcile.World.{Env, Effect, plan_applied}
use cd.Reconcile.Verify.{
  Planned, verify_planned, verify_listed, verify_torrent, verify_unknown, verify_and_record,
}

abbrev pub is_plan : Effect → Bool
is_plan (plan_applied _) = true
is_plan _ = false

module _ (e : Env) (d : Download) where
  planned_effects : (p : Planned) → all is_plan (verify_planned e d p).1 ≡ true
  unfolding verify_planned
  planned_effects p = ground arith

  listed_effects : (files : List DownloadFile) → all is_plan (verify_listed e d files).1 ≡ true
  unfolding verify_listed
  listed_effects files = grind (arith, planned_effects)

  torrent_effects : all is_plan (verify_torrent e d).1 ≡ true
  unfolding verify_torrent
  torrent_effects = grind (arith, listed_effects)

  -- A check of the local content applies a file plan, and has no other effect.
  pub verify_and_record_effects : all is_plan (verify_and_record e d).1 ≡ true
  unfolding verify_and_record verify_unknown
  verify_and_record_effects = ground (arith, torrent_effects)
