-- ===== src/Store/Create/Kept.antt =====
-- What a submission may change in the table of downloads.
use cd.Prelude.{
  ◌≡◌, Bool, true, false, Option, none, some, List, [], ◌∷◌, ◌++◌, arith, Option-cases, inl, inr,
  ◌⊎◌, sym, ap, ◌∙◌,
}
use cd.Go.Text.{GoString, str_eq_refl}
use cd.Domain.State.{deleted, state_eq}
use cd.Domain.Model.{Download, Submission}
use cd.Domain.Validate.{FloatOps}
use cd.Store.Create.{
  Tables, find_download, revive_download, revived_row, inserted_row, added, create_submission,
  create_over, read_back, delete_files,
}

-- A row that is not deleted is found as before.
revive-kept :
    (new : Download) (h : GoString) (ds : List Download) (row : Download)
    → find_download h ds ≡ some row
    → state_eq row.state deleted ≡ false
    → find_download h (revive_download new ds) ≡ some row
unfolding find_download revive_download
revive-kept new h [] row at live = cc
revive-kept new h (d ∷ ds) row at live = ground (arith, revive-kept new h ds row)

insert-kept :
    (new : Download) (h : GoString) (ds : List Download) (row : Download)
    → find_download h ds ≡ some row
    → find_download h (ds ++ (new ∷ [])) ≡ some row
unfolding find_download
insert-kept new h [] row at = cc
insert-kept new h (d ∷ ds) row at = ground (arith, insert-kept new h ds row)

-- The deleted row is found revived.
revive-found :
    (new : Download) (ds : List Download) (row : Download)
    → find_download new.hash ds ≡ some row
    → state_eq row.state deleted ≡ true
    → find_download new.hash (revive_download new ds) ≡ some (revived_row row new)
unfolding find_download revive_download
revive-found new [] row at gone = cc
revive-found new (d ∷ ds) row at gone = ground (arith, revive-found new ds row)

insert-found :
    (new : Download) (ds : List Download)
    → find_download new.hash ds ≡ none
    → find_download new.hash (ds ++ (new ∷ [])) ≡ some new
unfolding find_download
insert-found new [] at = ground (arith, str_eq_refl new.hash)
insert-found new (d ∷ ds) at = ground (arith, insert-found new ds)

some_injective {ℓ} : {A : Type ℓ} (a b : A) → some a ≡ some b → a ≡ b
some_injective a b p = cc

-- What a submission that is accepted as new does to the table: every row that is not deleted stays,
-- and the row of its hash, which was missing or deleted, is now the submitted one.
pub record IsCreated (s : Submission) (before after : Tables) (row : Download) : Type 0 where
  pub was_free :
      (find_download s.download.hash before.downloads ≡ none)
      ⊎ ((old : Download) × (find_download s.download.hash before.downloads ≡ some old)
          × (state_eq old.state deleted ≡ true)
          × (row ≡ revived_row old s.download))
  pub stored : find_download s.download.hash after.downloads ≡ some row
  pub submitted : (row.state ≡ s.download.state) × (row.content_path ≡ s.download.content_path)
  pub kept :
      (h : GoString) (live : Download)
      → find_download h before.downloads ≡ some live
      → state_eq live.state deleted ≡ false
      → find_download h after.downloads ≡ some live

module _ (fl : FloatOps) (refuses : List Download → Download → Bool) (s : Submission)
    (t : Tables) where
  read_back-added :
      (previous : Option _) (u after : Tables) (row : Download)
      → read_back s previous u ≡ added row after
      → (find_download s.download.hash u.downloads ≡ some row) × (after.downloads ≡ u.downloads)
  unfolding read_back
  read_back-added previous u after row h = (ground arith, ground arith)

  -- A submission that CreateSubmission reports as new found no row of its hash or a deleted one, the
  -- row that it reports is now the stored one, and every row that was not deleted is still there as
  -- it was: a submission never overwrites a download that is still alive.
  pub create_submission-IsCreated :
      (row : Download) (after : Tables)
      → create_submission fl refuses s t ≡ added row after
      → IsCreated s t after row
  unfolding create_submission create_over
  create_submission-IsCreated row after h =
      elim (Option-cases (find_download s.download.hash t.downloads)) [
        | inl free ↦
            let u : Tables = record t {
              downloads = t.downloads ++ (inserted_row s.download ∷ []);
            } in
            let back = read_back-added none u after row (ground arith) in
            let put = insert-found (inserted_row s.download) t.downloads free in
            record {
              was_free = inl free;
              stored = ground (arith, back.0, back.1);
              submitted = (ground (arith, back.0, put), ground (arith, back.0, put));
              kept = λ h live at alive.
                  ground
                    (arith, back.1, insert-kept (inserted_row s.download) h t.downloads live at);
            }
        | inr (old, there) ↦
            let gone : state_eq old.state deleted ≡ true = ground arith in
            let u : Tables = record t {
              downloads = revive_download s.download t.downloads;
              files = delete_files s.download.hash t.files;
            } in
            let back = read_back-added (some old.state) u after row (ground arith) in
            let put = revive-found s.download t.downloads old there gone in
            let same : row ≡ revived_row old s.download = some_injective _ _ (sym back.0 ∙ put) in
            record {
              was_free = inr (old, there, gone, same);
              stored = ground (arith, back.0, back.1);
              submitted =
                  (ap (λ (r : Download). r.state) same, ap (λ (r : Download). r.content_path) same);
              kept = λ h live at alive.
                  ground (arith, back.1, revive-kept s.download h t.downloads live at alive);
            }
      ]
