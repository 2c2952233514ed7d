-- ===== src/Reconcile/Verify/Content.antt =====
-- A recorded row names the content that was found.
use cd.Prelude.{◌≡◌, false, List, arith, is_nil}
use cd.Go.Text.{GoString}
use cd.Domain.Model.{Download, DownloadFile}
use cd.Reconcile.World.{Env, Filesystem, ExpectedContent, VerifiedContent, UnknownContent, found}
use cd.Reconcile.Verify.{
  Verified, recorded, Planned, verify_expected, verify_files, verify_planned, verify_listed,
  verify_torrent, verify_unknown, verify_and_record,
}

-- What the filesystem promises of a check that succeeds: it names the content.
pub record NamesContent (fs : Filesystem) : Type 0 where
  pub verified :
      (root : GoString) (x : ExpectedContent) (c : VerifiedContent)
      → fs.verify root x ≡ found c
      → is_nil c.path ≡ false
  pub unknown :
      (root name : GoString) (c : UnknownContent)
      → fs.verify_unknown_type root name ≡ found c
      → is_nil c.path ≡ false

-- The row that a check records, if any, has a content path.
pub record NamesRow (r : Verified) : Type 0 where
  pub named : (v : Download) → r ≡ recorded v → is_nil v.content_path ≡ false

module _ (e : Env) (d : Download) (names : NamesContent e.files) where
  expected_named : (files : List DownloadFile) → NamesRow (verify_expected e d files)
  unfolding verify_expected
  expected_named files = record { named = λ v h. grind (arith, names.verified) }

  files_named : (files : List DownloadFile) → NamesRow (verify_files e d files)
  unfolding verify_files
  files_named files = record { named = λ v h. ground (arith, (expected_named files).named v) }

  planned_named : (p : Planned) → NamesRow (verify_planned e d p).0
  unfolding verify_planned
  planned_named p = record { named = λ v h. ground (arith, (files_named p.effective).named v) }

  listed_named : (files : List DownloadFile) → NamesRow (verify_listed e d files).0
  unfolding verify_listed
  listed_named files = record { named = λ v h. grind (arith, planned_named) }

  torrent_named : NamesRow (verify_torrent e d).0
  unfolding verify_torrent
  torrent_named = record { named = λ v h. grind (arith, listed_named) }

  unknown_named : NamesRow (verify_unknown e d).0
  unfolding verify_unknown
  unknown_named = record { named = λ v h. grind (arith, names.unknown) }

  pub verify_and_record_named : NamesRow (verify_and_record e d).0
  unfolding verify_and_record
  verify_and_record_named = record {
    named = λ v h. ground (arith, torrent_named.named v, unknown_named.named v);
  }
