-- ===== src/Fsafe/Interface.antt =====
-- internal/fsafe/fsafe.go as the Filesystem interface of internal/reconcile/reconcile.go.

use cd.Prelude.{◌≡◌, false, List, [], ◌∷◌, is_nil, arith, Bool-cases, inl, inr, not, ◌&&◌}
use cd.Go.Text.{GoString}
use cd.Go.Paths.{clean}
use cd.Go.Paths.Clean.{clean-nonempty, join-nonempty}
use cd.Reconcile.World.{
  Filesystem, found, ExpectedContent, ExpectedFile, VerifiedContent, UnknownContent,
}
use cd.Reconcile.Verify.Content.{NamesContent}
use cd.Fsafe.Disk.{Disk, bind_found}
use cd.Fsafe.Candidate.{
  Candidate, candidate_of, resolve_candidate, verify_unknown_type, inspect_candidate,
}
use cd.Fsafe.Verify.{verify, verify_one_file, verify_multi}

-- The three checks of the Verifier with the given local root; the other methods are those of `rest`.
abbrev pub on_disk : Disk → GoString → Filesystem → Filesystem
on_disk disk root rest = record rest {
  verify = verify disk root;
  verify_unknown_type = verify_unknown_type disk root;
  inspect_candidate = inspect_candidate disk root;
}

module _ (disk : Disk) (root : GoString) where
  candidate_of-named :
      (save name : GoString) (c : Candidate)
      → candidate_of disk root save name ≡ found c
      → is_nil c.path ≡ false
  unfolding candidate_of resolve_candidate
  candidate_of-named save name c h =
      ground (arith, join-nonempty (clean save) (name ∷ []) (clean-nonempty save))

  -- A check that succeeds names the join of the save path and a name.
  listed-named :
      (save : GoString) (files : List ExpectedFile) (c : VerifiedContent)
      → verify_one_file disk root save files ≡ found c
      → is_nil c.path ≡ false
  unfolding verify_one_file
  listed-named save [] c h = cc
  listed-named save (f ∷ []) c h =
      ground (arith, join-nonempty (clean save) (f.relative_path ∷ []) (clean-nonempty save))
  listed-named save (f ∷ g ∷ fs) c h = cc

  verify-named :
      (save : GoString) (x : ExpectedContent) (c : VerifiedContent)
      → verify disk root save x ≡ found c
      → is_nil c.path ≡ false
  unfolding verify verify_multi
  verify-named save x c h = elim (Bool-cases (not x.multi_file && not (is_nil x.files))) [
    | inl one ↦ listed-named save x.files c (rw one at h)
    | inr other ↦
        let (k, at, rest) =
          bind_found (candidate_of disk root save x.candidate_name) _ c (rw other at h) in
        ground (arith, candidate_of-named save x.candidate_name k at)
  ]

  unknown-named :
      (save name : GoString) (c : UnknownContent)
      → verify_unknown_type disk root save name ≡ found c
      → is_nil c.path ≡ false
  unfolding verify_unknown_type
  unknown-named save name c h =
      let (k, at, rest) = bind_found (candidate_of disk root save name) _ c h in
      ground (arith, candidate_of-named save name k at)

  -- The path of the content that a check finds is not empty.
  on_disk-NamesContent : (rest : Filesystem) → NamesContent (on_disk disk root rest)
  on_disk-NamesContent rest = record { verified = verify-named; unknown = unknown-named }
