-- ===== src/Store/History/Versions.antt =====
-- The version of a row, and what it makes of a commit that comes too late.
use cd.Prelude.{◌≡◌, ◌∙◌, ap, true, false, none, arith, ℤ, ltb_ℤ, eqb_ℤ, inc_ℤ}
use cd.Go.Text.{GoString}
use cd.Domain.Model.{Download}
use cd.Store.Commit.{claim_of}
use cd.Store.Rows.{
  claim_row, commit_row, commit_claim, start_row, retry_row, retry_cleanup_row, pause_row,
  cancel_row, request_delete_row,
}
use cd.Store.Edits.{
  revive_row, reverify_row, set_category_row, clear_category_row, set_name_row, touch_row,
  set_content_path_row, set_auto_tmm_row, set_save_path_row, set_tags_row,
}
use cd.Store.History.{
  ◌⇒◌, claimed, committed_by, started, retried, cleanup_retried, paused, cancelled_by,
  deletion_requested, ◌⇒*◌, unchanged, after, revived_by, reverified, category_set,
  category_cleared, name_set, touched_by, content_path_set, auto_tmm_set, save_path_set, tags_set,
}

-- Every statement that updates a row gives it the next version.
version_step : {d n : Download} → d ⇒ n → n.row_version ≡ inc_ℤ d.row_version
unfolding claim_row commit_claim commit_row start_row retry_row retry_cleanup_row pause_row
    cancel_row request_delete_row revive_row reverify_row set_category_row clear_category_row
    set_name_row touch_row set_content_path_row set_auto_tmm_row set_save_path_row set_tags_row
version_step (claimed owner until now h) = ground arith
version_step (committed_by fl refuses claim next h) = ground arith
version_step (started now h) = ground arith
version_step (retried target now p q h) = ground arith
version_step (cleanup_retried now h) = ground arith
version_step (paused now h) = ground arith
version_step (cancelled_by now h) = ground arith
version_step (deletion_requested files now h) = ground arith
version_step (revived_by fl s p h) = ground arith
version_step (reverified now h) = ground arith
version_step (category_set category now h) = ground arith
version_step (category_cleared names now h) = ground arith
version_step (name_set name now h) = ground arith
version_step (touched_by now h) = ground arith
version_step (content_path_set path now h) = ground arith
version_step (auto_tmm_set on now h) = ground arith
version_step (save_path_set save workspace expected now h) = ground arith
version_step (tags_set tags now h) = ground arith

inc_grows : (a b : ℤ) → ltb_ℤ a b ≡ true → ltb_ℤ a (inc_ℤ b) ≡ true
inc_grows a b h = ground arith

inc_above : (a : ℤ) → ltb_ℤ a (inc_ℤ a) ≡ true
inc_above a = ground arith

later_differs : (a b : ℤ) → ltb_ℤ a b ≡ true → eqb_ℤ b a ≡ false
later_differs a b h = ground arith

version_run :
    {d n : Download} (a : ℤ) → ltb_ℤ a d.row_version ≡ true → d ⇒* n → ltb_ℤ a n.row_version ≡ true
version_run a h unchanged = h
version_run a h (after {d} {n} s r) =
    version_run a (ground (arith, version_step s, inc_grows a d.row_version)) r

-- A claim that was overtaken is lost: once any UPDATE statement of the store has updated the row after
-- a worker claimed it, and whatever statements update it from then on, the statement of the worker's
-- commit updates no row. So the result of a step never overwrites an intent of the operator or the work of another
-- worker.
pub commit_row_overtaken :
    {c n m : Download} (owner : GoString) (next : Download)
    → c ⇒ n
    → n ⇒* m
    → commit_row (claim_of owner c) next m ≡ none
unfolding commit_row
commit_row_overtaken {c} {n} {m} owner next s r = ground (
  arith,
  later_differs c.row_version m.row_version (
      version_run c.row_version
        (ap (ltb_ℤ c.row_version) (version_step s) ∙ inc_above c.row_version) r),
)
