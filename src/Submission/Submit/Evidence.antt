-- ===== src/Submission/Submit/Evidence.antt =====
-- The rows that a submission may hand to the repository.
use cd.Prelude.{
  ◌≡◌, refl, Bool, true, false, Option, none, some, arith, Option-cases, inl, inr, if◌then◌else◌,
  subst, sym,
}
use cd.Go.Text.{GoString}
use cd.Domain.State.{state_eq}
use cd.Domain.Model.{SourceKind, Download, Submission}
use cd.Domain.Validate.{
  first_failure, evidence_tests, completion_tests, requires_cloud_result, requires_copy_source,
}
use cd.Reconcile.Evidence.{HasEvidence}
use cd.Reconcile.Manifest.{workspace_path_of}
use cd.Torrent.Parse.{Result}
use cd.Submission.Retained.{prepare_retained_content}
use cd.Submission.Retained.Evidence.{
  IsFresh, prepare_retained_content-HasEvidence, prepare_retained_content-completed_at,
}
use cd.Submission.Service.{
  Service, Options, Destination, Answer, done, refused, SubmitError, ◌>>=◌, invalid_options,
}
use cd.Submission.Choices.{magnet_with_preferences, renamed, tagged, save_root, wants_auto_tmm}
use cd.Submission.Submit.{fresh_row, files_of, with_name, with_stop, submission_of}

bind_done {ℓ κ} :
    {A : Type ℓ} {B : Type κ} (r : Answer A) (f : A → Answer B) (b : B)
    → (r >>= f) ≡ done b
    → (a : A) × (r ≡ done a) × (f a ≡ done b)
bind_done (done a) f b p = (a, refl, p)
bind_done (refused e) f b p = cc

else_done {ℓ} :
    {A : Type ℓ} (b : Bool) (e : SubmitError) (r : Answer A) (a : A)
    → (if b then refused e else r) ≡ done a
    → r ≡ done a
else_done true e r a p = cc
else_done false e r a p = p

done_injective {ℓ} : {A : Type ℓ} (a b : A) → done a ≡ done b → a ≡ b
done_injective a b p = cc

module _ (e : Service) (result : Result) (source : SourceKind) (destination : Destination)
    (halt : Bool) (options : Options) where
  -- How a submission was made.
  pub record Built (s : Submission) : Type 0 where
    pub uri : GoString
    pub name : Option GoString
    pub tags : Option GoString
    pub root : GoString
    pub workspace : GoString
    pub derived : workspace_path_of root result.hash ≡ some workspace
    pub listed : s.files ≡ files_of source result
    pub row :
        s.download
        ≡ with_stop halt (
            with_name name (
              prepare_retained_content e.lookups
                (fresh_row e result source destination uri root options tags)
                (files_of source result)))

  pub submission_of-Built :
      (s : Submission) → submission_of e result source destination halt options ≡ done s → Built s
  unfolding submission_of
  submission_of-Built s h =
      let (uri, _, h1) = bind_done (magnet_with_preferences e result.magnet_uri) _ s h in
      let h2 = else_done (wants_auto_tmm options.auto_tmm) invalid_options _ s h1 in
      let (name, _, h3) = bind_done (renamed options.rename) _ s h2 in
      let (tags, _, h4) = bind_done (tagged options.tags) _ s h3 in
      let (root, _, h5) = bind_done (save_root e destination.2 options.save_path) _ s h4 in
      elim (Option-cases (workspace_path_of root result.hash)) [
        | inl bad ↦ ground arith
        | inr (workspace, at) ↦ record {
          uri = uri;
          name = name;
          tags = tags;
          root = root;
          workspace = workspace;
          derived = at;
          listed = ground arith;
          row = ground arith;
        }
      ]

  pub fresh_row-IsFresh :
      (uri root : GoString) (tags : Option GoString)
      → IsFresh (fresh_row e result source destination uri root options tags)
  unfolding fresh_row
  fresh_row-IsFresh uri root tags = record {
    at_start = refl;
    unowned = refl;
    unleased = refl;
    uncompleted = refl;
  }

  finished-HasEvidence :
      (name : Option GoString) (d : Download)
      → d.completed_at ≡ none
      → HasEvidence d
      → HasEvidence (with_stop halt (with_name name d))
  unfolding first_failure evidence_tests completion_tests state_eq requires_cloud_result
      requires_copy_source
  finished-HasEvidence name d uncompleted h =
      let required = h.required in
      let completion = h.completion in record { required = ground arith; completion = ground arith }

  -- Every row that a submission hands to the repository, fresh or with content taken over, renamed or
  -- stopped, holds what its state requires of the cloud result, the copy source, the content, the
  -- lease and the completion time.
  pub submission_of-HasEvidence :
      (s : Submission)
      → submission_of e result source destination halt options ≡ done s
      → HasEvidence s.download
  submission_of-HasEvidence s h =
      let b = submission_of-Built s h in
      let fresh = fresh_row-IsFresh b.uri b.root b.tags in
      subst HasEvidence (sym b.row) (
        finished-HasEvidence b.name _
          (prepare_retained_content-completed_at e.lookups _ (files_of source result) fresh)
          (prepare_retained_content-HasEvidence e.lookups _ (files_of source result) fresh))
