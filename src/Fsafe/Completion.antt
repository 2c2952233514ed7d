-- ===== src/Fsafe/Completion.antt =====
-- The workflow of internal/reconcile on the disk of internal/fsafe: what lies there when a torrent's
-- row is completed.
use cd.Prelude.{
  ◌≤◌, ℤ, pos, ◌≡◌, refl, true, false, some, List, [], ◌∷◌, is_nil, All, arith, max_int64, pos_part,
  is_some, Bool-cases, inl, inr, if◌then◌else◌, ap, sym, ◌∙◌, subst,
}
use cd.Go.Text.{GoString}
use cd.Domain.State.{verifying_local, completed}
use cd.Domain.Model.{Download, DownloadFile}
use cd.Reconcile.World.{
  Filesystem, FsReply, found, ExpectedContent, ExpectedFile, VerifiedContent, Env, Outcome,
}
use cd.Reconcile.Manifest.{is_magnet, workspace_root}
use cd.Reconcile.Verify.{expected_content}
use cd.Reconcile.Verify.Selection.{effective_files, verify_and_record-Selected}
use cd.Reconcile.Decide.{decide, decide_in}
use cd.Fsafe.Disk.{Disk, bind_found, or_error-found}
use cd.Fsafe.Confine.{within_or_equal, strictly_within}
use cd.Fsafe.Roots.{resolve_existing_root}
use cd.Fsafe.Candidate.{Candidate, candidate_of, resolve_candidate, tree_size}
use cd.Fsafe.Verify.{verify, verify_one_file, verify_multi, verify_manifest}
use cd.Fsafe.Verify.Exact.{Holds, Sized, sum_sizes, verify_manifest-exact}
use cd.Fsafe.Interface.{on_disk}
use cd.Reconcile.Arrival.Completing.{decide_verifying-completed}
use cd.Reconcile.Arrival.{decide_verifying}

-- The files lie exactly as listed under some directory within the local root.
pub record Arrived (disk : Disk) (root : GoString) (files : List ExpectedFile) (size : ℤ)
    : Type 0 where
  pub base : GoString
  pub inside : within_or_equal root base ≡ true
  pub holds : Holds disk base files
  pub total : size ≡ pos (sum_sizes files)

some_injective {ℓ} : {A : Type ℓ} (a b : A) → some a ≡ some b → a ≡ b
some_injective a b p = cc

-- The sizes of a manifest's rows are int64s.
abbrev pub Int64Sizes : List DownloadFile → Type 0
Int64Sizes files = All (λ (f : DownloadFile). pos_part f.size ≤ max_int64) files

module _ (disk : Disk) (root : GoString) where
  resolved_inside :
      (save base : GoString)
      → resolve_existing_root disk root save ≡ found base
      → within_or_equal root base ≡ true
  unfolding resolve_existing_root
  resolved_inside save base h = ground arith

  strict_inside :
      (path : GoString) → strictly_within root path ≡ true → within_or_equal root path ≡ true
  unfolding strictly_within within_or_equal
  strict_inside path h = ground arith

  candidate_inside :
      (save name : GoString) (c : Candidate)
      → candidate_of disk root save name ≡ found c
      → within_or_equal root c.resolved ≡ true
  unfolding candidate_of resolve_candidate
  candidate_inside save name c h = strict_inside c.resolved (ground arith)

  listed-Arrived :
      (save : GoString) (files : List ExpectedFile) (c : VerifiedContent)
      → Sized files
      → verify_one_file disk root save files ≡ found c
      → Arrived disk root files c.size
  unfolding verify_one_file
  listed-Arrived save [] c sized h = cc
  listed-Arrived save (f ∷ g ∷ fs) c sized h = cc
  listed-Arrived save (f ∷ []) c sized h =
      let (base, at, rest) = bind_found _ _ c h in
      let (size, sum, same) = bind_found (verify_manifest disk base (f ∷ [])) _ c rest in
      let (holds, total) = (verify_manifest-exact disk base (f ∷ []) size sized).0 sum in
      record {
        base = base;
        inside = resolved_inside save base (or_error-found _ _ base at);
        holds = holds;
        total = ground (arith, total);
      }

  multi-Arrived :
      (k : Candidate) (files : List ExpectedFile) (c : VerifiedContent)
      → within_or_equal root k.resolved ≡ true
      → is_nil files ≡ false
      → Sized files
      → verify_multi disk k files ≡ found c
      → Arrived disk root files c.size
  unfolding verify_multi
  multi-Arrived k files c inside left sized h =
      let measured : FsReply ℤ =
        if is_nil files then tree_size disk k.resolved else verify_manifest disk k.resolved files in
      let (size, sum, same) =
        bind_found measured (λ n. found (record { path = k.path; size = n })) c (ground arith) in
      let (holds, total) =
        (verify_manifest-exact disk k.resolved files size sized).0 (ground (arith, sum)) in
      record { base = k.resolved; inside = inside; holds = holds; total = ground (arith, total) }

  -- A check of listed files that succeeds found them all under one directory within the local root.
  pub verify-Arrived :
      (save : GoString) (x : ExpectedContent) (c : VerifiedContent)
      → is_nil x.files ≡ false
      → Sized x.files
      → verify disk root save x ≡ found c
      → Arrived disk root x.files c.size
  unfolding verify
  verify-Arrived save x c left sized h = elim (Bool-cases x.multi_file) [
    | inl multi ↦
        let (k, at, rest) =
          bind_found (candidate_of disk root save x.candidate_name) _ c (rw multi at h) in
        multi-Arrived k x.files c (candidate_inside save x.candidate_name k at) left sized rest
    | inr single ↦ listed-Arrived save x.files c sized (rw (single, left) at h)
  ]

  expected-Sized :
      (e : Env) (d : Download) (files : List DownloadFile)
      → Int64Sizes files
      → Sized (expected_content d files).files
  expected-Sized e d [] h = tt
  expected-Sized e d (f ∷ fs) h = (h.0, expected-Sized e d fs h.1)

  expected-left :
      (d : Download) (files : List DownloadFile)
      → is_nil files ≡ false
      → is_nil (expected_content d files).files ≡ false
  expected-left d [] h = h
  expected-left d (f ∷ fs) h = refl

  -- Let the workflow run on this disk. When a step takes a torrent's row of known layout from the local
  -- check to COMPLETED, and its files, as the operator's overrides leave them, have int64 sizes, then
  -- these files lie with their exact sizes under one directory within the local root, and the row's
  -- total is their sum.
  pub decide-completed :
      (e : Env) (d : Download) (rest : Filesystem) (files : List DownloadFile)
      → e.files ≡ on_disk disk root rest
      → d.state ≡ verifying_local
      → is_magnet d.source_kind ≡ false
      → is_some d.is_multi_file ≡ true
      → effective_files e d ≡ some files
      → Int64Sizes files
      → (decide e d).next.state ≡ completed
      → Arrived disk root (expected_content d files).files (decide e d).next.total_size
  unfolding decide decide_in
  decide-completed e d rest files same at listed known chosen sized done =
      let verifying : decide e d ≡ decide_verifying e d = ap (λ s. decide_in s e d) at in
      let (v, recording, total) =
        decide_verifying-completed e d at
          (ap (λ (o : Outcome). o.next.state) (sym verifying) ∙ done) in
      let s = verify_and_record-Selected e d v listed known recording in
      let picked : s.files ≡ files = some_injective s.files files (sym s.chosen ∙ chosen) in
      let check : verify disk root (workspace_root d) (expected_content d s.files)
          ≡ found s.checked.content =
        ap (λ (fs : Filesystem). fs.verify (workspace_root d) (expected_content d s.files))
          (sym same)
        ∙ s.checked.accepted in
      let arrived : Arrived disk root (expected_content d s.files).files s.checked.content.size =
        verify-Arrived (workspace_root d) (expected_content d s.files) s.checked.content
          (expected-left d s.files s.some_left)
          (expected-Sized e d s.files (subst Int64Sizes (sym picked) sized)) check in
      let size : (decide e d).next.total_size ≡ s.checked.content.size =
        ap (λ (o : Outcome). o.next.total_size) verifying
        ∙ total
        ∙ ap (λ (r : Download). r.total_size) s.checked.row in
      subst (λ n. Arrived disk root (expected_content d files).files n) (sym size)
        (subst (λ fs. Arrived disk root (expected_content d fs).files s.checked.content.size) picked
          arrived)
