-- ===== src/Reconcile/Verify/Selection.antt =====
-- Which files a recorded check was made of.
use cd.Prelude.{
  ◌≡◌, refl, true, false, Option, none, some, List, [], is_nil, arith, inl, inr, Option-cases,
  is_some,
}
use cd.Domain.Model.{Download, DownloadFile}
use cd.Reconcile.World.{Env, VerifiedContent, found, failure}
use cd.Reconcile.Manifest.{is_magnet, workspace_root}
use cd.Reconcile.Verify.{
  recorded, Planned, plan_files, expected_content, verify_expected, verify_files, verify_planned,
  verify_listed, verify_torrent, verify_and_record,
}

-- The manifest of the row under the operator's overrides; `none` where the repository fails.
abbrev pub effective_files : Env → Download → Option (List DownloadFile)
effective_files e d = elim (e.repo.list_download_files d.hash) [
  | none ↦ none
  | some files ↦ elim e.repo.list_overrides [
    | none ↦ some files
    | some overrides ↦ elim (overrides d.hash) [
      | none ↦ none
      | some os ↦ some (plan_files os 0 files).effective
    ]
  ]
]

-- The row that was recorded is the one that was checked, with what the filesystem found for the files.
pub record CheckedFiles (e : Env) (d v : Download) (files : List DownloadFile) : Type 0 where
  pub content : VerifiedContent
  pub accepted : e.files.verify (workspace_root d) (expected_content d files) ≡ found content
  pub row : v ≡ record d { content_path = content.path; total_size = content.size }

module _ (e : Env) (d v : Download) where
  expected-CheckedFiles :
      (files : List DownloadFile)
      → verify_expected e d files ≡ recorded v
      → CheckedFiles e d v files
  unfolding verify_expected
  expected-CheckedFiles files h =
      elim (e.files.verify (workspace_root d) (expected_content d files))
          as (λ r.
            e.files.verify (workspace_root d) (expected_content d files) ≡ r
            → CheckedFiles e d v files) [
              | failure err ↦ λ eq. ground arith
              | found c ↦ λ eq. record { content = c; accepted = eq; row = ground arith }
            ]
        refl

  files-CheckedFiles :
      (files : List DownloadFile) → verify_files e d files ≡ recorded v → CheckedFiles e d v files
  unfolding verify_files
  files-CheckedFiles files h = expected-CheckedFiles files (ground arith)

  planned-CheckedFiles :
      (p : Planned)
      → (verify_planned e d p).0 ≡ recorded v
      → (is_nil p.effective ≡ false) × CheckedFiles e d v p.effective
  unfolding verify_planned
  planned-CheckedFiles p h = (ground arith, files-CheckedFiles p.effective (ground arith))

  -- The files of a torrent that were checked and recorded.
  pub record Selected : Type 0 where
    pub files : List DownloadFile
    pub chosen : effective_files e d ≡ some files
    pub some_left : is_nil files ≡ false
    pub checked : CheckedFiles e d v files

  listed-Selected :
      (files : List DownloadFile)
      → e.repo.list_download_files d.hash ≡ some files
      → (verify_listed e d files).0 ≡ recorded v
      → Selected
  unfolding verify_listed
  listed-Selected files at h = elim (Option-cases e.repo.list_overrides) [
    | inl none_kept ↦
        let (left, checked) =
          planned-CheckedFiles (record { plans = []; effective = files; has_override = false })
            (ground arith) in
        record { files = files; chosen = ground arith; some_left = left; checked = checked }
    | inr (overrides, kept) ↦ elim (Option-cases (overrides d.hash)) [
      | inl broken ↦ ground arith
      | inr (os, read) ↦
          let (left, checked) = planned-CheckedFiles (plan_files os 0 files) (ground arith) in
          record {
            files = (plan_files os 0 files).effective;
            chosen = ground arith;
            some_left = left;
            checked = checked;
          }
    ]
  ]

  torrent-Selected : (verify_torrent e d).0 ≡ recorded v → Selected
  unfolding verify_torrent
  torrent-Selected h = elim (Option-cases (e.repo.list_download_files d.hash)) [
    | inl broken ↦ ground arith
    | inr (files, at) ↦ listed-Selected files at (ground arith)
  ]

  -- A torrent's row is recorded only after the filesystem accepted the files of its manifest, as the
  -- operator's overrides leave them.
  pub verify_and_record-Selected :
      is_magnet d.source_kind ≡ false
      → is_some d.is_multi_file ≡ true
      → (verify_and_record e d).0 ≡ recorded v
      → Selected
  unfolding verify_and_record
  verify_and_record-Selected listed known h = torrent-Selected (ground arith)
