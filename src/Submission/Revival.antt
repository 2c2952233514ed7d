-- ===== src/Submission/Revival.antt =====
-- A torrent that is submitted again, on the disk of internal/fsafe.
use cd.Prelude.{
  ◌≡◌, refl, ℤ, pos, Bool, false, Option, some, List, [], ◌∷◌, arith, is_nil, Option-cases, inl,
  inr, subst, sym, ap, ◌∙◌, if_elim,
}
use cd.Go.Text.{GoString}
use cd.Domain.State.{verifying_local}
use cd.Domain.Model.{torrent, Download, DownloadFile, FileOverride, Submission}
use cd.Reconcile.World.{ExpectedFile, ExpectedContent, found}
use cd.Torrent.Parse.{Result}
use cd.Fsafe.Disk.{Disk}
use cd.Fsafe.Verify.{verify}
use cd.Fsafe.Verify.Exact.{Sized, sum_sizes}
use cd.Fsafe.Completion.{Arrived, Int64Sizes, verify-Arrived}
use cd.Submission.Retained.{
  Lookups, content_root, kept_files, overrides_of, expected_of, prepare_retained_content,
  override_of, override_path, is_excluded,
}
use cd.Submission.Retained.Evidence.{TakenOver, prepare_retained_content-TakenOver}
use cd.Submission.Service.{Service, Options, Destination, done}
use cd.Submission.Submit.{fresh_row, files_of, with_name, with_stop, submission_of}
use cd.Submission.Submit.Evidence.{submission_of-Built, fresh_row-IsFresh}

-- The files of a manifest that the stored overrides keep lie exactly as listed under one directory
-- within the local root.
pub record KeptOnDisk (e : Lookups) (hash : GoString) (disk : Disk) (root : GoString)
    (files : List DownloadFile) : Type 0 where
  pub overrides : List FileOverride
  pub stored : overrides_of e hash ≡ some overrides
  pub some_kept : is_nil (kept_files overrides files) ≡ false
  pub arrived :
      Arrived disk root (kept_files overrides files) (pos (sum_sizes (kept_files overrides files)))

kept_files-Sized :
    (os : List FileOverride) (files : List DownloadFile)
    → Int64Sizes files
    → Sized (kept_files os files)
unfolding kept_files
kept_files-Sized os [] h = tt
kept_files-Sized os (f ∷ fs) h =
    let o = override_of f.index os in
    let rest : Sized (kept_files os fs) = kept_files-Sized os fs h.1 in
    let more : Sized
        (record { relative_path = override_path f o; size = f.size } ∷ kept_files os fs) =
      (h.0, rest) in
    if_elim Sized (is_excluded o) rest more

-- What a torrent's disk is expected to hold is what its manifest keeps.
record Expects (e : Lookups) (hash : GoString) (files : List DownloadFile) (x : ExpectedContent)
    : Type 0 where
  overrides : List FileOverride
  stored : overrides_of e hash ≡ some overrides
  listed : x.files ≡ kept_files overrides files
  some_kept : is_nil x.files ≡ false

expected_of-Expects :
    (e : Lookups) (existing d : Download) (files : List DownloadFile) (name : GoString)
    (x : ExpectedContent)
    → d.source_kind ≡ torrent
    → expected_of e existing d files name ≡ some x
    → Expects e d.hash files x
unfolding expected_of
expected_of-Expects e existing d files name x kind h = elim (Option-cases (overrides_of e d.hash)) [
  | inl failed ↦ ground arith
  | inr (os, stored) ↦ record {
    overrides = os;
    stored = stored;
    listed = ground arith;
    some_kept = ground arith;
  }
]

total-Arrived :
    (disk : Disk) (root : GoString) (files : List ExpectedFile) (size : ℤ)
    → Arrived disk root files size
    → Arrived disk root files (pos (sum_sizes files))
total-Arrived disk root files size a = subst (Arrived disk root files) a.total a

module _ (e : Service) (result : Result) (destination : Destination) (halt : Bool)
    (options : Options) (disk : Disk) (root : GoString) where
  TakenOver-KeptOnDisk :
      (d r : Download) (files : List DownloadFile)
      → e.lookups.verify ≡ verify disk root
      → d.source_kind ≡ torrent
      → Int64Sizes files
      → TakenOver e.lookups d files r
      → KeptOnDisk e.lookups d.hash disk root files
  TakenOver-KeptOnDisk d r files same kind sized t =
      let x =
        expected_of-Expects e.lookups t.existing d files t.candidate t.expected kind t.asked in
      let checked : verify disk root (content_root t.existing) t.expected ≡ found t.content =
        ap (λ v. v (content_root t.existing) t.expected) (sym same) ∙ t.verified in
      let arrived : Arrived disk root t.expected.files t.content.size =
        verify-Arrived disk root (content_root t.existing) t.expected t.content x.some_kept
          (subst Sized (sym x.listed) (kept_files-Sized x.overrides files sized)) checked in
      record {
        overrides = x.overrides;
        stored = x.stored;
        some_kept = subst (λ fs. is_nil fs ≡ false) x.listed x.some_kept;
        arrived =
            total-Arrived disk root (kept_files x.overrides files) t.content.size
              (subst (λ fs. Arrived disk root fs t.content.size) x.listed arrived);
      }

  started_verifying :
      (name : Option GoString) (d : Download)
      → (with_stop halt (with_name name d)).state ≡ verifying_local
      → d.state ≡ verifying_local
  started_verifying name d h = ground arith

  -- Let submissions be checked on a disk, and the listed sizes be int64s. Only if the files of a torrent
  -- that the stored overrides keep lie on the disk with their exact sizes, at least one of them, does
  -- its submission start in VERIFYING_LOCAL, past the cloud.
  pub submission_of-KeptOnDisk :
      (s : Submission)
      → e.lookups.verify ≡ verify disk root
      → Int64Sizes s.files
      → submission_of e result torrent destination halt options ≡ done s
      → s.download.state ≡ verifying_local
      → KeptOnDisk e.lookups result.hash disk root s.files
  unfolding fresh_row
  submission_of-KeptOnDisk s same sized h verifying =
      let b = submission_of-Built e result torrent destination halt options s h in
      let d = fresh_row e result torrent destination b.uri b.root options b.tags in
      let files = files_of torrent result in
      let fresh = fresh_row-IsFresh e result torrent destination halt options b.uri b.root b.tags in
      let prepared = prepare_retained_content e.lookups d files in
      let started : prepared.state ≡ verifying_local =
        started_verifying b.name prepared
          (ap (λ (r : Download). r.state) (sym b.row) ∙ verifying) in
      subst (KeptOnDisk e.lookups result.hash disk root) (sym b.listed) (
        TakenOver-KeptOnDisk d prepared files same refl (subst Int64Sizes b.listed sized)
          (prepare_retained_content-TakenOver e.lookups d files fresh started))
