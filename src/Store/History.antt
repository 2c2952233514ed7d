-- ===== src/Store/History.antt =====
-- The history of one row: every statement of the store that updates it, one after another, by any
-- number of workers and operators. The transactions of SQLite make their order total. A constraint of
-- the schema may refuse any of them, which leaves the row as it was.
pub mod Versions
pub mod States
pub mod Leases
use cd.Prelude.{◌≡◌, Bool, true, false, Option, some, ℤ, List}
use cd.Go.Text.{GoString}
use cd.Domain.State.{State, failed, can_transition}
use cd.Domain.Model.{Time, Download, Submission}
use cd.Domain.Retry.{is_cleanup}
use cd.Domain.Validate.{FloatOps}
use cd.Store.Commit.{Claim}
use cd.Store.Rows.{
  claim_row, commit_claim, start_row, retry_row, retry_cleanup_row, pause_row, cancel_row,
  request_delete_row,
}
use cd.Store.Edits.{
  revive_row, reverify_row, set_category_row, clear_category_row, set_name_row, touch_row,
  set_content_path_row, set_auto_tmm_row, set_save_path_row, set_tags_row,
}
use cd.Store.Create.{valid_submission}

infix 40 ◌⇒◌
pub data ◌⇒◌ : Download → Download → Type 0 where
  claimed :
      {d n : Download} (owner : GoString) (until now : Time)
      → claim_row owner until now d ≡ some n
      → d ⇒ n
  committed_by :
      {d n : Download} (fl : FloatOps) (refuses : Download → Download → Bool) (claim : Claim)
      (next : Download)
      → commit_claim fl refuses claim next d ≡ some n
      → d ⇒ n
  started : {d n : Download} (now : Time) → start_row now d ≡ some n → d ⇒ n
  retried :
      {d n : Download} (target : State) (now : Time)
      → is_cleanup target ≡ false
      → can_transition failed target ≡ true
      → retry_row target now d ≡ some n
      → d ⇒ n
  cleanup_retried : {d n : Download} (now : Time) → retry_cleanup_row now d ≡ some n → d ⇒ n
  paused : {d n : Download} (now : Time) → pause_row now d ≡ some n → d ⇒ n
  cancelled_by : {d n : Download} (now : Time) → cancel_row now d ≡ some n → d ⇒ n
  deletion_requested :
      {d n : Download} (files : Bool) (now : Time) → request_delete_row files now d ≡ some n → d ⇒ n
  revived_by :
      {d n : Download} (fl : FloatOps) (s : Submission)
      → valid_submission fl s ≡ true
      → revive_row s.download d ≡ some n
      → d ⇒ n
  reverified : {d n : Download} (now : Time) → reverify_row now d ≡ some n → d ⇒ n
  category_set :
      {d n : Download} (category : GoString) (now : Time)
      → set_category_row category now d ≡ some n
      → d ⇒ n
  category_cleared :
      {d n : Download} (names : List GoString) (now : Time)
      → clear_category_row names now d ≡ some n
      → d ⇒ n
  name_set :
      {d n : Download} (name : GoString) (now : Time) → set_name_row name now d ≡ some n → d ⇒ n
  touched_by : {d n : Download} (now : Time) → touch_row now d ≡ some n → d ⇒ n
  content_path_set :
      {d n : Download} (path : GoString) (now : Time)
      → set_content_path_row path now d ≡ some n
      → d ⇒ n
  auto_tmm_set :
      {d n : Download} (on : Bool) (now : Time) → set_auto_tmm_row on now d ≡ some n → d ⇒ n
  save_path_set :
      {d n : Download} (save workspace : GoString) (expected : ℤ) (now : Time)
      → set_save_path_row save workspace expected now d ≡ some n
      → d ⇒ n
  tags_set :
      {d n : Download} (tags : GoString) (now : Time) → set_tags_row tags now d ≡ some n → d ⇒ n

infix 40 ◌⇒*◌
pub data ◌⇒*◌ : Download → Download → Type 0 where
  unchanged : {d : Download} → d ⇒* d
  after : {d n m : Download} → d ⇒ n → n ⇒* m → d ⇒* m
