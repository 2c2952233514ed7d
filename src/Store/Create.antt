-- ===== src/Store/Create.antt =====
-- internal/store/repository.go, CreateSubmission, with the statements ReviveDownload, InsertDownload,
-- InsertDownloadFile and DeleteDownloadFiles of internal/store/sqlc/downloads.sql.go: a submission
-- against the table of downloads. A database that fails is left out: the transaction is rolled back.
-- What a unique index or a trigger of the schema refuses is a parameter.
pub mod Kept
use cd.Prelude.{
  ℕ, ◌+◌, pos, Bool, true, false, ◌&&◌, ◌||◌, not, Option, none, some, List, [], ◌∷◌, ◌++◌,
  if◌then◌else◌, is_nil, is_some, is_neg, eqb_ℤ, inc_ℤ,
}
use cd.Go.Text.{GoString, str_eq}
use cd.Domain.State.{State, accepted, stopped, verifying_local, deleted, state_eq}
use cd.Domain.Problem.{no_code}
use cd.Domain.Model.{Download, DownloadFile, Submission}
use cd.Domain.Validate.{FloatOps, validate_download}

-- The event that a new submission emits: the state before, if any, and the row.
pub record CreatedEvent : Type 0 where
  pub previous : Option State
  pub after : Download

-- The tables downloads and download_files, and the events emitted so far.
pub record Tables : Type 0 where
  pub downloads : List Download
  pub files : List DownloadFile
  pub events : List CreatedEvent

-- GetDownload
unfoldable pub find_download : GoString → List Download → Option Download
find_download h [] = none
find_download h (d ∷ ds) = let rest = find_download h ds in if str_eq d.hash h then some d else rest

-- The loop of `validateSubmission` over the files, from the given index on.
unfoldable pub valid_files : GoString → ℕ → List DownloadFile → Bool
valid_files h n [] = true
valid_files h n (f ∷ fs) =
    str_eq f.download_hash h
    && eqb_ℤ f.index (pos n)
    && not (is_neg f.size)
    && valid_files h (n + 1) fs

-- `validateSubmission`; true where it returns nil.
unfoldable pub valid_submission : FloatOps → Submission → Bool
unfolding valid_files
valid_submission fl s =
    not (is_some (validate_download fl s.download))
    && (state_eq s.download.state accepted
        || state_eq s.download.state stopped
        || state_eq s.download.state verifying_local)
    && is_nil s.download.lease_owner
    && not (is_some s.download.lease_until)
    && valid_files s.download.hash 0 s.files

-- The columns of ReviveDownload.
abbrev pub revived_row : Download → Download → Download
revived_row old new = record new {
  hash = old.hash;
  last_error = [];
  last_error_code = no_code;
  lease_until = none;
  lease_owner = [];
  attempt_count = pos 0;
  delete_files_requested = false;
  pause_requested = false;
  completed_at = none;
  removed_at = none;
  row_version = inc_ℤ old.row_version;
}

-- UPDATE ... WHERE hash = ? AND state = 'DELETED'
unfoldable pub revive_download : Download → List Download → List Download
revive_download new [] = []
revive_download new (d ∷ ds) =
    (if str_eq d.hash new.hash && state_eq d.state deleted then revived_row d new else d)
    ∷ revive_download new ds

-- The columns of InsertDownload; the others take their defaults.
abbrev pub inserted_row : Download → Download
inserted_row new = record new { pause_requested = false }

-- DeleteDownloadFiles
unfoldable pub delete_files : GoString → List DownloadFile → List DownloadFile
delete_files h [] = []
delete_files h (f ∷ fs) =
    let rest = delete_files h fs in if str_eq f.download_hash h then rest else f ∷ rest

-- The answer: the row that was there, the new or revived row with the tables, or an error.
pub data Creation : Type 0 where
  duplicate : Download → Creation
  added : Download → Tables → Creation
  destination_conflict invalid_submission row_lost : Creation

-- Reading the row back, and its event.
read_back : Submission → Option State → Tables → Creation
read_back s previous t = elim (find_download s.download.hash t.downloads) [
  | none ↦ row_lost
  | some row ↦ added row (record t {
    files = t.files ++ s.files;
    events = t.events ++ (record { previous = previous; after = row } ∷ []);
  })
]

create_over : (List Download → Download → Bool) → Submission → Tables → Option Download → Creation
unfolding read_back
create_over refuses s t (some row) =
    if not (state_eq row.state deleted)
    then duplicate row
    else if refuses t.downloads (revived_row row s.download)
    then destination_conflict
    else read_back s (some row.state) (record t {
      downloads = revive_download s.download t.downloads;
      files = delete_files s.download.hash t.files;
    })
create_over refuses s t none =
    if refuses t.downloads (inserted_row s.download)
    then destination_conflict
    else read_back s none (record t { downloads = t.downloads ++ (inserted_row s.download ∷ []) })

-- `CreateSubmission`. Where an insertion fails, the source looks for a row that appeared since: within
-- one transaction there is none.
unfoldable pub create_submission :
    FloatOps → (List Download → Download → Bool) → Submission → Tables → Creation
unfolding create_over find_download valid_submission
create_submission fl refuses s t =
    if not (valid_submission fl s)
    then invalid_submission
    else create_over refuses s t (find_download s.download.hash t.downloads)
