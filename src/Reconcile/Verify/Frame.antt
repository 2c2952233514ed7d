-- ===== src/Reconcile/Verify/Frame.antt =====
-- What a successful check of the local content may change in the row.
use cd.Prelude.{◌≡◌, List, arith}
use cd.Domain.Model.{Download, DownloadFile}
use cd.Reconcile.World.{Env}
use cd.Reconcile.Verify.{
  Verified, recorded, Planned, verify_expected, verify_files, verify_planned, verify_listed,
  verify_torrent, verify_unknown, verify_and_record,
}

-- Nothing but the layout, the content path and the size is new in a recorded row.
pub record Framed (d : Download) (r : Verified) : Type 0 where
  pub frame :
      (v : Download)
      → r ≡ recorded v
      → v ≡ record d {
        is_multi_file = v.is_multi_file;
        content_path = v.content_path;
        total_size = v.total_size;
      }

module _ (e : Env) (d : Download) where
  verify_expected_frame : (files : List DownloadFile) → Framed d (verify_expected e d files)
  unfolding verify_expected
  verify_expected_frame files = record { frame = λ v h. ground arith }

  verify_files_frame : (files : List DownloadFile) → Framed d (verify_files e d files)
  unfolding verify_files
  verify_files_frame files = record {
    frame = λ v h. ground (arith, (verify_expected_frame files).frame v);
  }

  verify_planned_frame : (p : Planned) → Framed d (verify_planned e d p).0
  unfolding verify_planned
  verify_planned_frame p = record {
    frame = λ v h. ground (arith, (verify_files_frame p.effective).frame v);
  }

  verify_listed_frame : (files : List DownloadFile) → Framed d (verify_listed e d files).0
  unfolding verify_listed
  verify_listed_frame files = record { frame = λ v h. grind (arith, verify_planned_frame) }

  verify_torrent_frame : Framed d (verify_torrent e d).0
  unfolding verify_torrent
  verify_torrent_frame = record { frame = λ v h. grind (arith, verify_listed_frame) }

  verify_unknown_frame : Framed d (verify_unknown e d).0
  unfolding verify_unknown
  verify_unknown_frame = record { frame = λ v h. ground arith }

  -- A recorded row differs from the one that was checked in its layout, content path and size only.
  pub verify_and_record_frame : Framed d (verify_and_record e d).0
  unfolding verify_and_record
  verify_and_record_frame = record {
    frame = λ v h. ground (arith, verify_torrent_frame.frame v, verify_unknown_frame.frame v);
  }
