-- ===== src/Submission/Service.antt =====
-- internal/submission/service.go: the service, what surrounds it, and the answers of its steps.
use cd.Prelude.{Bool, ◌&&◌, Option, List}
use cd.Go.Text.{GoString, str_eq}
use cd.Go.Paths.{is_abs, clean}
use cd.Domain.Model.{Time, Download, Submission}
use cd.Reconcile.World.{FsReply}
use cd.Torrent.Names.{Limits, valid_limits}
use cd.Torrent.Parse.{Parsers}
use cd.Submission.Retained.{Lookups}

pub record Options : Type 0 where
  pub rename : Option GoString
  pub tags : Option GoString
  pub auto_tmm : Option Bool
  pub save_path : Option GoString

pub record Category : Type 0 where
  pub cloud_path : GoString
  pub save_path : GoString
  pub enabled : Bool

-- GetCategory: a category, ErrNotFound, or another error.
pub data CategoryReply : Type 0 where
  category_found : Category → CategoryReply
  category_missing category_failed : CategoryReply

-- The optional ResolveSaveRoot and PrepareSaveRoot of the filesystem.
pub record Resolver : Type 0 where
  pub resolve_save_root : GoString → FsReply (GoString × Bool)
  pub prepare_save_root : GoString → FsReply GoString

-- What net/url makes of a magnet: its `tr` values, and the magnet with others in their place.
pub record MagnetUrl : Type 0 where
  pub trackers : GoString → List GoString
  pub with_trackers : GoString → List GoString → GoString

-- The configuration, the repository, the filesystem, the clock, and the parsers. A setting that is
-- not stored is empty; CreateSubmission returns the row, and whether it is new.
pub record Service : Type 0 where
  pub cloud_root : GoString
  pub local_root : GoString
  pub limits : Limits
  pub parsers : Parsers
  pub magnet_url : MagnetUrl
  pub to_lower : GoString → GoString
  pub lookups : Lookups
  pub get_category : GoString → CategoryReply
  pub list_settings : Option (Option (GoString → GoString))
  pub resolver : Option Resolver
  pub create_submission : Submission → Option (Download × Bool)
  pub now : Time

pub data SubmitError : Type 0 where
  invalid_source category_invalid invalid_options internal_error : SubmitError

pub data Answer {ℓ} (A : Type ℓ) : Type ℓ where
  done : A → Answer A
  refused : SubmitError → Answer A

infixl 20 ◌>>=◌
abbrev pub ◌>>=◌ {ℓ κ} : {A : Type ℓ} {B : Type κ} → Answer A → (A → Answer B) → Answer B
done a >>= f = f a
refused e >>= f = refused e

-- The category, the cloud folder and the save path.
abbrev pub Destination : Type 0
Destination = GoString × GoString × GoString

-- The checks of `New`, with `validCloudRoot` and `validLimits`.
unfoldable pub valid_config : Service → Bool
valid_config e =
    is_abs e.cloud_root
    && str_eq (clean e.cloud_root) e.cloud_root
    && is_abs e.local_root
    && str_eq (clean e.local_root) e.local_root
    && valid_limits e.limits
