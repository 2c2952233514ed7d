-- ===== src/Submission/Retained/Evidence.antt =====
-- What a row that takes over retained content rests on.
use cd.Prelude.{
  ◌≡◌, refl, true, none, some, List, [], arith, Option-cases, Bool-cases, inl, inr, subst, sym,
}
use cd.Go.Text.{GoString, str_eq}
use cd.Go.Paths.{clean}
use cd.Domain.State.{accepted, verifying_local, state_eq}
use cd.Domain.Model.{Download, DownloadFile}
use cd.Domain.Validate.{
  first_failure, evidence_tests, completion_tests, requires_cloud_result, requires_copy_source,
}
use cd.Reconcile.World.{found, failure, ExpectedContent, VerifiedContent}
use cd.Reconcile.Evidence.{HasEvidence}
use cd.Submission.Retained.{
  Lookups, is_retained, content_root, retained_name, expected_of, revived, take_over, take_existing,
  prepare_retained_content,
}

-- A row that no worker has touched.
pub record IsFresh (d : Download) : Type 0 where
  pub at_start : d.state ≡ accepted
  pub unowned : d.lease_owner ≡ []
  pub unleased : d.lease_until ≡ none
  pub uncompleted : d.completed_at ≡ none

-- The content that a row takes over: the disk was asked for it, and named it where it was before.
pub record TakenOver (e : Lookups) (d : Download) (files : List DownloadFile) (r : Download)
    : Type 0 where
  pub existing : Download
  pub candidate : GoString
  pub expected : ExpectedContent
  pub content : VerifiedContent
  pub stored : e.get_download d.hash ≡ some existing
  pub retained : is_retained existing d ≡ true
  pub asked : expected_of e existing d files candidate ≡ some expected
  pub verified : e.verify (content_root existing) expected ≡ found content
  pub same_place : str_eq (clean content.path) (clean existing.content_path) ≡ true
  pub row : r ≡ revived existing expected.candidate_name content d

module _ (e : Lookups) (d : Download) (files : List DownloadFile) where
  take_over-TakenOver :
      (existing : Download) (candidate : GoString) (x : ExpectedContent)
      → e.get_download d.hash ≡ some existing
      → is_retained existing d ≡ true
      → expected_of e existing d files candidate ≡ some x
      → IsFresh d
      → (take_over e existing d x).state ≡ verifying_local
      → TakenOver e d files (take_over e existing d x)
  unfolding take_over
  take_over-TakenOver existing candidate x stored retained asked fresh h =
      elim (e.verify (content_root existing) x)
          as (λ v.
            e.verify (content_root existing) x ≡ v
            → TakenOver e d files (take_over e existing d x)) [
              | failure err ↦ λ eq. let start = fresh.at_start in ground arith
              | found c ↦ λ eq.
                  let start = fresh.at_start in
                  record {
                    existing = existing;
                    candidate = candidate;
                    expected = x;
                    content = c;
                    stored = stored;
                    retained = retained;
                    asked = asked;
                    verified = eq;
                    same_place = ground arith;
                    row = ground arith;
                  }
            ]
        refl

  take_existing-TakenOver :
      (existing : Download)
      → e.get_download d.hash ≡ some existing
      → IsFresh d
      → (take_existing e existing d files).state ≡ verifying_local
      → TakenOver e d files (take_existing e existing d files)
  unfolding take_existing
  take_existing-TakenOver existing stored fresh h =
      let start = fresh.at_start in
      elim (Bool-cases (is_retained existing d)) [
        | inr other ↦ ground arith
        | inl retained ↦ elim (Option-cases (retained_name existing)) [
          | inl unnamed ↦ ground arith
          | inr (name, named) ↦ elim (Option-cases (expected_of e existing d files name)) [
            | inl unknown ↦ ground arith
            | inr (x, asked) ↦
                let same : take_existing e existing d files ≡ take_over e existing d x =
                  ground arith in
                subst (TakenOver e d files) (sym same)
                  (take_over-TakenOver existing name x stored retained asked fresh (ground arith))
          ]
        ]
      ]

  -- A fresh row that comes out in VERIFYING_LOCAL has taken over content that the disk confirmed.
  pub prepare_retained_content-TakenOver :
      IsFresh d
      → (prepare_retained_content e d files).state ≡ verifying_local
      → TakenOver e d files (prepare_retained_content e d files)
  unfolding prepare_retained_content
  prepare_retained_content-TakenOver fresh h =
      let start = fresh.at_start in
      elim (Option-cases (e.get_download d.hash)) [
        | inl missing ↦ ground arith
        | inr (existing, stored) ↦
            let same : prepare_retained_content e d files ≡ take_existing e existing d files =
              ground arith in
            subst (TakenOver e d files) (sym same)
              (take_existing-TakenOver existing stored fresh (ground arith))
      ]

  pub prepare_retained_content-HasEvidence :
      IsFresh d → HasEvidence (prepare_retained_content e d files)
  unfolding prepare_retained_content take_existing take_over is_retained first_failure
      evidence_tests completion_tests state_eq requires_cloud_result requires_copy_source
  prepare_retained_content-HasEvidence fresh =
      let start = fresh.at_start in
      let unowned = fresh.unowned in
      let unleased = fresh.unleased in
      let uncompleted = fresh.uncompleted in
      record { required = ground arith; completion = ground arith }

  pub prepare_retained_content-completed_at :
      IsFresh d → (prepare_retained_content e d files).completed_at ≡ none
  unfolding prepare_retained_content take_existing take_over
  prepare_retained_content-completed_at fresh = let uncompleted = fresh.uncompleted in ground arith
