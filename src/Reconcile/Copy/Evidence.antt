-- ===== src/Reconcile/Copy/Evidence.antt =====
-- The evidence that a row carries after a step of SUBMITTING_COPY.
use cd.Prelude.{
  ◌≡◌, refl, Bool, true, false, Option, none, some, List, [], arith, is_nil, if◌then◌else◌,
}
use cd.Domain.State.{submitting_copy, state_eq}
use cd.Domain.Problem.{ProblemCode}
use cd.Domain.Model.{Download}
use cd.Domain.Validate.{
  first_failure, evidence_tests, completion_tests, requires_cloud_result, requires_copy_source,
}
use cd.Reconcile.World.{
  DecideError, Env, Op, CallError, FsError, Effect, CopyTask, Reply, answer, fault, outcome, broken,
  Outcome,
}
use cd.Reconcile.Status.{mark_copy_removed}
use cd.Reconcile.Failure.{
  workspace, clear_problem, advance, fail, retry, cloud_failure, handle_local_failure,
}
use cd.Reconcile.Manifest.{Source, resolved, layout_error, repository_error, cloud_fault}
use cd.Reconcile.Evidence.{HasEvidence}
use cd.Reconcile.Copy.{
  resolving, reserving, removing, deleting, preflight, record_copy, record_copy_completed,
  after_copy_submission, copy_submission, submit_copy, copy_reserved, decide_submitting_copy,
}

-- The row of an outcome carries its evidence.
pub record Carries (o : Outcome) : Type 0 where
  pub carried : HasEvidence o.next

if_Carries : (b : Bool) (x y : Outcome) → Carries x → Carries y → Carries (if b then x else y)
if_Carries true x y p q = p
if_Carries false x y p q = q

if_not-Carries :
    (b : Bool) (x y : Outcome) → Carries x → (b ≡ false → Carries y) → Carries (if b then x else y)
if_not-Carries true x y p q = p
if_not-Carries false x y p q = q refl

outcome-Carries :
    (op : Op) (n : Download) (fx : List Effect) → HasEvidence n → Carries (outcome op n fx)
unfolding outcome
outcome-Carries op n fx h = record { carried = h }

module _ (e : Env) (d : Download) (at : d.state ≡ submitting_copy) (h : HasEvidence d) where
  fail_evidence : (c : ProblemCode) → HasEvidence (fail d c)
  unfolding fail first_failure evidence_tests completion_tests state_eq requires_cloud_result
      requires_copy_source
  fail_evidence c = ground arith

  cloud_failure_evidence : (err : CallError) (op : Op) → HasEvidence (cloud_failure e d err op)
  unfolding cloud_failure retry fail first_failure evidence_tests completion_tests state_eq
      requires_cloud_result requires_copy_source
  cloud_failure_evidence err op = ground arith

  handle_local_failure_evidence :
      (err : FsError) (role : _) → HasEvidence (handle_local_failure e d err role)
  unfolding handle_local_failure retry fail first_failure evidence_tests completion_tests state_eq
      requires_cloud_result requires_copy_source
  handle_local_failure_evidence err role = ground arith

  broken-Carries : (op : Op) (x : DecideError) → Carries (broken op d x [])
  unfolding broken
  broken-Carries op x = record { carried = h }

  resolving-Carries : (s : Source) → Carries (resolving e d s)
  unfolding resolving broken first_failure evidence_tests completion_tests state_eq
      requires_cloud_result requires_copy_source clear_problem outcome
  resolving-Carries (resolved source) = ground arith
  resolving-Carries layout_error = outcome-Carries _ _ _ (fail_evidence _)
  resolving-Carries repository_error = broken-Carries _ _
  resolving-Carries (cloud_fault err) =
      search (if_Carries, outcome-Carries, cloud_failure_evidence, broken-Carries) depth 6

  reserving-Carries : (name : _) → Carries (reserving e d name)
  unfolding reserving outcome fail clear_problem first_failure evidence_tests completion_tests
      state_eq requires_cloud_result requires_copy_source
  reserving-Carries name = ground arith

  removing_evidence : (r : Option CallError) → HasEvidence (removing e d r)
  unfolding removing mark_copy_removed clear_problem first_failure evidence_tests completion_tests
      state_eq requires_cloud_result requires_copy_source
  removing_evidence none = ground arith
  removing_evidence (some err) = cloud_failure_evidence err Op.remove_copy

  deleting_evidence : (r : Option FsError) → HasEvidence (deleting e d r)
  unfolding deleting clear_problem fail first_failure evidence_tests completion_tests state_eq
      requires_cloud_result requires_copy_source
  deleting_evidence none = ground arith
  deleting_evidence (some err) = ground arith

  preflight_evidence : (r : Option FsError) → HasEvidence (preflight e d r)
  unfolding preflight handle_local_failure retry fail clear_problem first_failure evidence_tests
      completion_tests state_eq requires_cloud_result requires_copy_source
  preflight_evidence none = ground arith
  preflight_evidence (some err) = handle_local_failure_evidence err workspace

  copy_submission_evidence :
      is_nil d.copy_source_path ≡ false → (r : Reply CopyTask) → HasEvidence (copy_submission e d r)
  unfolding copy_submission after_copy_submission record_copy record_copy_completed advance fail
      clear_problem first_failure evidence_tests completion_tests state_eq requires_cloud_result
      requires_copy_source
  copy_submission_evidence source (fault err) = cloud_failure_evidence err Op.ensure_copy
  copy_submission_evidence source (answer t) = ground arith

  submit_copy-Carries :
      is_nil d.copy_source_path ≡ false
      → (r : Option FsError) (fx : List Effect) → Carries (submit_copy e d r fx)
  unfolding submit_copy
  submit_copy-Carries source none fx = outcome-Carries _ _ _ (copy_submission_evidence source _)
  submit_copy-Carries source (some err) fx =
      outcome-Carries _ _ _ (handle_local_failure_evidence err _)

  copy_reserved-Carries : is_nil d.copy_source_path ≡ false → Carries (copy_reserved e d)
  unfolding copy_reserved
  copy_reserved-Carries source =
      search
        (
          if_Carries, outcome-Carries, fail_evidence, removing_evidence, deleting_evidence,
          preflight_evidence, submit_copy-Carries,
        )
        depth 12

  pub submitting_copy-Carries : Carries (decide_submitting_copy e d)
  unfolding decide_submitting_copy
  submitting_copy-Carries =
      search
        (
          if_Carries, if_not-Carries, outcome-Carries, fail_evidence, resolving-Carries,
          reserving-Carries, copy_reserved-Carries,
        )
        depth 12
