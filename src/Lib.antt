-- ===== src/Lib.antt =====
-- cd211 takes torrent downloads through CloudDrive2: it submits a magnet or torrent to the cloud as an
-- offline task, waits for it, copies the result into a staging directory, checks what arrived, and
-- cleans up in the cloud and on disk when a download is cancelled, paused or deleted. Each download
-- is one durable row. A worker of internal/reconcile claims a due row under a lease, makes one step
-- outside any transaction, and hands the new row to the repository, which commits it only against the
-- claimed version.
--
-- Parts and files:
--   Prelude    shared names, Boolean tests, lists over the native numbers, int64 integers.
--   Go         the parts of the standard library that the source calls: strings as lists of bytes
--              (Go.Text), UTF-8 and control characters (Go.Utf8), filepath (Go.Paths).
--   Domain     internal/domain: the states and CanTransition (Domain.State, state.go), the problem
--              catalogue (Domain.Problem, problem.go), the row (Domain.Model, model.go), CanPause,
--              CanRetry and RetryTarget (Domain.Retry, state.go), ValidateDownload (Domain.Validate,
--              projection.go), Project (Domain.Project, projection.go), the redaction of error texts
--              (Domain.Redact, errors.go).
--   Reconcile  internal/reconcile/reconcile.go: what surrounds a step (World), the status markers
--              (Status), the failure policy (Failure), the source and the manifest (Manifest), the local
--              check (Verify), the phases of `decide` (Offline, Copy, Arrival), `cancel`, `pause` and
--              `delete` (Cleanup), the dispatch (Decide) and the row that `Step` proposes (Step).
--              Licence, Schedule, Evidence and Deadline say what a step may do outside, when a row runs
--              again, what its state requires and which problems a missed deadline leaves, each without
--              the control flow of `decide`.
--   Store      internal/store/repository.go: what `CommitClaim` checks of a row before it writes it
--              (Commit); the statements of internal/store/sqlc/claims.sql.go and downloads.sql.go on one
--              row (Rows), with what the schema refuses of a commit as a parameter, and those that edit or
--              revive it, with internal/store/sqlc/qbt_compat.sql.go (Edits); the histories that they all
--              make (History); CreateSubmission on the table (Create).
--   Webhook    internal/webhook and internal/outbox/payload.go: the outcome of one attempt to deliver
--              an event (Webhook), the attempts of a delivery that keeps failing (Attempts), the
--              sleep of an idle worker (Idle); internal/store/repository_outbox.go with
--              internal/store/sqlc/outbox.sql.go: the table of deliveries (Queue, Queue.Outcome).
--   Session    internal/session/store.go: AuthorizeLogin and its table of attempts (Logins), newToken and
--              validSID (Tokens), Create, Get and Revoke (Access); internal/store/repository_session.go
--              with internal/store/sqlc/sessions.sql.go: the table of sessions (Rows).
--   Torrent    internal/torrentmeta/torrentmeta.go: limits, names and paths (Names), the v1 hash (Hash),
--              tracker URLs (Trackers), files (Files), ParseMagnet and ParseTorrent (Parse); what
--              internal/submission/service.go stores of them (Files.Manifest, Parse.Row).
--   Fsafe      internal/fsafe/fsafe.go: the disk and the classification of errors (Disk), the tests that
--              keep a path under a root (Confine), the save roots (Roots), InspectCandidate and
--              VerifyUnknownType (Candidate), Verify (Verify), Delete (Delete, with the look at each
--              component that it shares with plan.go in Components), ListDirectory (Listing); the
--              checks as the workflow's filesystem (Interface), and the workflow on them (Completion).
--   Submission internal/submission/service.go: categories, tags and names (Options), the take-over of
--              retained content (Retained), the service around the pipeline (Service), its choices of
--              destination, magnet, name, tags and save root (Choices), the row and the pipeline
--              (Submit); the pipeline on the disk of Fsafe (Revival).
--   Examples   concrete rows and surroundings.
--
-- A step is a function from its surroundings and the claimed row to an outcome: the label of the
-- operation, the row, an error that prevents the commit, and the list of outside effects in their
-- order. The answers of the cloud (internal/clouddrive/client.go), the filesystem
-- (internal/fsafe/fsafe.go) and the repository are functions of the request, in the record Env; Fsafe
-- fills in the checks of the filesystem, over a disk that does not change during one check. The
-- arithmetic of float64 is the record FloatOps, a parameter too; a float is its bit pattern. Times are
-- nanoseconds after the zero time. The attempt counter wraps around like an int64. Every loop is
-- structural recursion, so no definition takes fuel. A string constant type of the source is a data type
-- with one more constructor for all other strings.
--
-- Not modelled: ApplyFilePlan, the preparation of save roots and workspaces and DeleteWorkspace of
-- internal/fsafe, the worker loop and its wake-ups, the choice among several due rows, what the
-- qBittorrent surface checks before it edits a row, migrations, webhook endpoints, the HTTP surfaces, start-up, secrets, logging,
-- generated code other than the statements above. SHA-256, url.Parse, url.ParseQuery, the editing of a
-- magnet's URL, strings.ToLower, the package metainfo and the constraints of the schema are parameters
-- of the definitions that use them.
pub mod Prelude
pub mod Go
pub mod Fsafe
pub mod Domain
pub mod Reconcile
pub mod Store
pub mod Session
pub mod Torrent
pub mod Submission
pub mod Webhook
pub mod Examples
