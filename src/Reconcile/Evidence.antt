-- ===== src/Reconcile/Evidence.antt =====
-- The evidence that `ValidateDownload` requires of a state: a cloud result, a copy source, a content
-- path, and a completion time where and only where it belongs.
pub mod Offline
pub mod Arrival
pub mod Cleanup
use cd.Prelude.{◌≡◌, Bool, false, none, ◌≢◌, is_nil}
use cd.Go.Text.{GoString}
use cd.Domain.Model.{Download}
use cd.Domain.Validate.{first_failure, evidence_tests, completion_tests}
use cd.Reconcile.World.{Filesystem, ExpectedContent, VerifiedContent, UnknownContent, found}

-- The two groups of tests that relate the state to the rest of the row.
pub record HasEvidence (d : Download) : Type 0 where
  pub required : first_failure (evidence_tests d) ≡ none
  pub completion : first_failure (completion_tests d) ≡ none
