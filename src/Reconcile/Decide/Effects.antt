-- ===== src/Reconcile/Decide/Effects.antt =====
-- The outside effects of one step of a claimed row.
use cd.Prelude.{◌≡◌, refl, true}
use cd.Domain.State.{
  State, submitting_offline, waiting_offline, submitting_copy, waiting_copy, verifying_local,
  cancel_requested, delete_requested,
}
use cd.Domain.Model.{Download}
use cd.Reconcile.World.{Env, outcome, broken}
use cd.Reconcile.Licence.{all_licensed}
use cd.Reconcile.Licence.Copying.{
  submitting_copy_licensed, waiting_copy_licensed, verifying_licensed,
}
use cd.Reconcile.Licence.Cleaning.{
  submitting_offline_licensed, waiting_offline_licensed, cancel_licensed, delete_licensed,
}
use cd.Reconcile.Decide.{decide_in, decide}

decide_in_licensed :
    (e : Env) (d : Download) (s : State) → d.state ≡ s → all_licensed d (decide_in s e d) ≡ true
unfolding decide_in all_licensed outcome broken
decide_in_licensed e d submitting_offline at = submitting_offline_licensed e d at
decide_in_licensed e d waiting_offline at = waiting_offline_licensed e d
decide_in_licensed e d submitting_copy at = submitting_copy_licensed e d at
decide_in_licensed e d waiting_copy at = waiting_copy_licensed e d at
decide_in_licensed e d verifying_local at = verifying_licensed e d at
decide_in_licensed e d cancel_requested at = cancel_licensed e d at
decide_in_licensed e d delete_requested at = delete_licensed e d at
decide_in_licensed e d _ at = refl

-- Whatever a step does outside is licensed by the row as it was claimed. A copy is submitted only
-- from the recorded source to the row's own root, once the destination is reserved and found clear.
-- Local content is deleted only where no copy was submitted or its removal is on record, and only
-- for a deletion with files, a pause, or a copy that is made again. A cleanup in the cloud that is
-- on record is not made again by a deletion or a new copy.
pub decide-licensed : (e : Env) (d : Download) → all_licensed d (decide e d) ≡ true
unfolding decide
decide-licensed e d = decide_in_licensed e d d.state refl
