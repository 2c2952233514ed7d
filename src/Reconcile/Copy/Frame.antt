-- ===== src/Reconcile/Copy/Frame.antt =====
-- What a step of SUBMITTING_COPY keeps of the row.
use cd.Prelude.{
  ◌≡◌, refl, Bool-cases, inl, inr, ◌∙◌, ap, ◌++◌, Bool, true, false, Option, none, some, List,
  arith, is_nil, if◌then◌else◌,
}
use cd.Domain.State.{submitting_copy, state_eq}
use cd.Domain.Problem.{ProblemCode}
use cd.Domain.Model.{Download}
use cd.Reconcile.World.{
  Env, Op, CallError, FsError, Effect, CopyTask, Reply, answer, fault, outcome, broken, Outcome,
}
use cd.Reconcile.Status.{mark_copy_removed}
use cd.Reconcile.Failure.{
  PathRole, workspace, workspace, clear_problem, advance, fail, retry, cloud_failure,
  handle_local_failure,
}
use cd.Reconcile.Manifest.{Source, resolved, layout_error, repository_error, cloud_fault}
use cd.Go.Text.{GoString, bytes, str_eq, has_prefix, eq_of_str_eq, str_eq_refl}
use cd.Domain.Model.{
  upstream_copy_removed, upstream_copy_failed, upstream_copy_completed, copy_removed_prefix,
  upstream_offline_finished,
}
use cd.Reconcile.Manifest.{workspace_path_of}
use cd.Store.Commit.{valid_claim_workspace}
use cd.Store.Commit.Identity.{Same, SameClaim, same_claim, same_identity, unchanged_workspace}
use cd.Reconcile.Copy.{
  removed_before, own_workspace, copied_again, resolving, reserving, removing, deleting, preflight,
  record_copy, record_copy_completed, after_copy_submission, copy_submission, submit_copy,
  copy_reserved, decide_submitting_copy,
}

-- The row of an outcome is one that CommitClaim takes for the claimed row.
pub record Keeps (d : Download) (o : Outcome) : Type 0 where
  pub kept : SameClaim d o.next

if_Keeps :
    (d : Download) (b : Bool) (x y : Outcome) → Keeps d x → Keeps d y → Keeps d (if b then x else y)
if_Keeps d true x y p q = p
if_Keeps d false x y p q = q

if_true-Keeps :
    (d : Download) (b : Bool) (x y : Outcome)
    → (b ≡ true → Keeps d x)
    → Keeps d y
    → Keeps d (if b then x else y)
if_true-Keeps d true x y p q = p refl
if_true-Keeps d false x y p q = q

outcome-Keeps :
    (d : Download) (op : Op) (n : Download) (fx : List Effect)
    → SameClaim d n
    → Keeps d (outcome op n fx)
unfolding outcome
outcome-Keeps d op n fx h = record { kept = h }

module _ (e : Env) (d : Download) where
  Same-row : Same d d
  Same-row = record {
    hash = refl;
    source_kind = refl;
    submission_uri = refl;
    cloud_folder = refl;
    save_path = refl;
    created_at = refl;
    workspace_path = refl;
  }

  fail-Same : (c : ProblemCode) → Same d (fail d c)
  unfolding fail
  fail-Same c = ground arith

  cloud_failure-Same : (err : CallError) (op : Op) → Same d (cloud_failure e d err op)
  unfolding cloud_failure retry fail
  cloud_failure-Same err op = ground arith

  handle_local_failure-Same :
      (err : FsError) (role : PathRole) → Same d (handle_local_failure e d err role)
  unfolding handle_local_failure retry fail
  handle_local_failure-Same err role = ground arith

  resolving-Same : (s : Source) → Same d (resolving e d s).next
  unfolding resolving outcome broken clear_problem
  resolving-Same (resolved source) = ground arith
  resolving-Same layout_error = fail-Same _
  resolving-Same repository_error = Same-row
  resolving-Same (cloud_fault err) = grind (arith, cloud_failure-Same)

  reserving-Same : (name : GoString) → Same d (reserving e d name).next
  unfolding reserving outcome fail clear_problem
  reserving-Same name = ground arith

  removing-Same : (r : Option CallError) → Same d (removing e d r)
  unfolding removing mark_copy_removed clear_problem
  removing-Same none = ground arith
  removing-Same (some err) = cloud_failure-Same err Op.remove_copy

  preflight-Same : (r : Option FsError) → Same d (preflight e d r)
  unfolding preflight handle_local_failure retry fail clear_problem
  preflight-Same none = ground arith
  preflight-Same (some err) = handle_local_failure-Same err workspace

  copy_submission-Same : (r : Reply CopyTask) → Same d (copy_submission e d r)
  unfolding copy_submission after_copy_submission record_copy record_copy_completed advance fail
  copy_submission-Same (fault err) = cloud_failure-Same err Op.ensure_copy
  copy_submission-Same (answer t) = ground arith

  submit_copy-Same : (r : Option FsError) (fx : List Effect) → Same d (submit_copy e d r fx).next
  unfolding submit_copy outcome
  submit_copy-Same none fx = copy_submission-Same _
  submit_copy-Same (some err) fx = handle_local_failure-Same err workspace

  submit_copy-Keeps : (r : Option FsError) (fx : List Effect) → Keeps d (submit_copy e d r fx)
  submit_copy-Keeps r fx = record { kept = same_claim d _ (submit_copy-Same r fx) }

  resolving-Keeps : (s : Source) → Keeps d (resolving e d s)
  resolving-Keeps s = record { kept = same_claim d _ (resolving-Same s) }

  reserving-Keeps : (name : GoString) → Keeps d (reserving e d name)
  reserving-Keeps name = record { kept = same_claim d _ (reserving-Same name) }

removed_with_prefix :
    (d : Download) (t : GoString)
    → str_eq d.last_upstream_status t ≡ true
    → has_prefix d.last_upstream_status (upstream_copy_removed ++ bytes "|copy:")
      ≡ has_prefix t (upstream_copy_removed ++ bytes "|copy:")
removed_with_prefix d t h =
    ap (λ s. has_prefix s (upstream_copy_removed ++ bytes "|copy:"))
      (eq_of_str_eq d.last_upstream_status t h)

removed_prefix :
    (d : Download)
    → removed_before d ≡ true
    → has_prefix d.last_upstream_status (upstream_copy_removed ++ bytes "|copy:") ≡ true
unfolding removed_before has_prefix bytes
removed_prefix d h =
    elim (Bool-cases
      (str_eq d.last_upstream_status (copy_removed_prefix ++ upstream_copy_failed))) [
        | inl p ↦ removed_with_prefix d (copy_removed_prefix ++ upstream_copy_failed) p
        | inr p ↦
            removed_with_prefix d (copy_removed_prefix ++ upstream_copy_completed) (ground arith)
      ]

module _ (d : Download) (at : d.state ≡ submitting_copy) where
  -- The row that gets a workspace of its own is one that CommitClaim allows to get it.
  first_workspace :
      (n : Download) (w : GoString)
      → removed_before d ≡ true
      → is_nil d.workspace_path ≡ true
      → workspace_path_of d.save_path d.hash ≡ some w
      → n.workspace_path ≡ w
      → n.save_path ≡ d.save_path
      → n.hash ≡ d.hash
      → is_nil n.content_path ≡ true
      → n.last_upstream_status ≡ upstream_offline_finished
      → valid_claim_workspace d n ≡ true
  unfolding valid_claim_workspace state_eq
  first_workspace n w h empty own pw ps ph pc pl = ground (
    arith,
    removed_prefix d h,
    ap (str_eq d.save_path) ps ∙ str_eq_refl d.save_path,
    ap (λ s. str_eq s upstream_offline_finished) pl ∙ str_eq_refl upstream_offline_finished,
    ap (str_eq n.workspace_path) pw,
    ap (λ s. str_eq s w) pw ∙ str_eq_refl w,
    ap (λ s. workspace_path_of s n.hash) ps ∙ ap (workspace_path_of d.save_path) ph ∙ own,
  )

  copied_again_claim :
      (e : Env)
      → removed_before d ≡ true
      → (w : Option GoString) → own_workspace d ≡ w
      → SameClaim d (copied_again e d w)
  unfolding own_workspace clear_problem
  copied_again_claim e h none own = same_claim d _ (fail-Same e d _)
  copied_again_claim e h (some w) own = record {
    identity = same_identity d (copied_again e d (some w)) refl refl refl refl refl refl;
    workspace = elim (Bool-cases (is_nil d.workspace_path)) [
      | inl p ↦
          first_workspace (copied_again e d (some w)) w h p (ground arith) refl refl refl refl refl
      | inr p ↦ unchanged_workspace d (copied_again e d (some w)) (ground arith)
    ];
  }

  deleting_claim :
      (e : Env) → removed_before d ≡ true → (r : Option FsError) → SameClaim d (deleting e d r)
  unfolding deleting fail
  deleting_claim e h none = copied_again_claim e h (own_workspace d) refl
  deleting_claim e h (some err) = record {
    identity = same_identity d (deleting e d (some err)) refl refl refl refl refl refl;
    workspace = unchanged_workspace d (deleting e d (some err)) refl;
  }

module _ (e : Env) (d : Download) (at : d.state ≡ submitting_copy) where
  copy_reserved-Keeps : Keeps d (copy_reserved e d)
  unfolding copy_reserved
  copy_reserved-Keeps =
      search
        (
          if_Keeps,
          if_true-Keeps,
          outcome-Keeps,
          same_claim,
          fail-Same e d,
          removing-Same e d,
          deleting_claim d at e,
          preflight-Same e d,
          submit_copy-Keeps e d,
        )
        depth 12

  pub submitting_copy-Keeps : Keeps d (decide_submitting_copy e d)
  unfolding decide_submitting_copy
  submitting_copy-Keeps =
      search
        (
          if_Keeps,
          outcome-Keeps,
          same_claim,
          fail-Same e d,
          resolving-Keeps e d,
          reserving-Keeps e d,
          copy_reserved-Keeps,
        )
        depth 12
