-- ===== src/Examples/Rows.antt =====
-- A cloud, a filesystem and a repository that answer every request, and rows of a small download.
use cd.Prelude.{ltb, leb, true, false, none, some, [], pos}
use cd.Go.Text.{GoString, bytes}
use cd.Domain.State.{submitting_copy, waiting_copy, verifying_local, failed, delete_requested}
use cd.Domain.Problem.{no_code, copy_task_failed}
use cd.Domain.Model.{Download, magnet}
use cd.Domain.Validate.{FloatOps}
use cd.Reconcile.World.{downloading, copied, directory, CloudDrive, Filesystem, Env, answer, found}
use cd.Reconcile.Status.{destination_clear}

-- Bit patterns of non-negative floats are ordered like the floats, which is all that the rows need.
abbrev pub sample_floats : FloatOps
sample_floats = record {
  is_nan = λ x. false;
  is_inf = λ x. false;
  le = λ x y. leb x y;
  lt = λ x y. ltb x y;
  add = λ x y. y;
  mul = λ x y. y;
  div = λ x y. x;
  min = λ x y. x;
  max = λ x y. y;
  round = λ x. x;
  of_int = λ z. 0;
  to_int = λ x. pos 0;
}

abbrev pub sample_hash : GoString
sample_hash = bytes "0123456789abcdef0123456789abcdef01234567"

abbrev pub sample_root : GoString
sample_root = bytes "/downloads/.cd211/0123456789abcdef0123456789abcdef01234567"

abbrev pub sample_cloud : CloudDrive
sample_cloud = record {
  ensure_offline = λ uri folder hash. answer (record {
    name = bytes "film";
    info_hash = sample_hash;
    source_path = bytes "/cloud/film";
    state = downloading;
    progress = 0;
    size = pos 700;
  });
  inspect_offline = λ folder hash. answer none;
  inspect_content = λ path. answer (record { path = path; kind = directory; size = pos 700 });
  cancel_offline = λ folder hash. none;
  ensure_copy = λ source destination. answer (record {
    source_path = source;
    destination_path = destination;
    state = copied;
    progress = 0;
  });
  inspect_copy = λ source destination. answer none;
  remove_copy = λ source destination. none;
}

abbrev pub sample_files : Filesystem
sample_files = record {
  verify = λ root x. found (record { path = bytes "/downloads/film"; size = pos 700 });
  verify_unknown_type = λ root name.
      found (record { path = bytes "/downloads/film"; size = pos 700; multi_file = true });
  inspect_candidate = λ root name. found false;
  delete = λ path root. none;
  prepare_workspace = λ save hash. found sample_root;
  delete_workspace = λ save hash. none;
  apply_file_plan = none;
}

abbrev pub sample_env : Env
sample_env = record {
  config = record {
    poll_interval = 5000000000;
    offline_timeout = 600000000000;
    copy_timeout = 600000000000;
    verify_timeout = 600000000000;
  };
  floats = sample_floats;
  cloud = sample_cloud;
  files = sample_files;
  repo = record { list_download_files = λ hash. some []; list_overrides = none };
  now = 2000000000000;
  started = 2000000000000;
  retry_at = 2000000000000;
}

-- The row is in time: its phase started a second ago.
abbrev pub sample_row : Download
sample_row = record {
  hash = sample_hash;
  name = bytes "film";
  name_overridden = false;
  source_kind = magnet;
  submission_uri = bytes "magnet:?xt=urn:btih:0123456789abcdef0123456789abcdef01234567";
  category = [];
  tags = [];
  auto_tmm = false;
  cloud_folder = bytes "/cloud";
  save_path = bytes "/downloads";
  workspace_path = sample_root;
  destination_name = bytes "film";
  cloud_task_name = bytes "film";
  cloud_result_path = bytes "/cloud/film";
  copy_source_path = bytes "/cloud/film";
  content_path = [];
  is_multi_file = none;
  private = none;
  total_size = pos 700;
  state = submitting_copy;
  offline_progress = 0;
  copy_progress = 0;
  qbit_progress = 0;
  last_upstream_status = destination_clear;
  last_error = [];
  last_error_code = no_code;
  phase_started_at = 1999000000000;
  offline_started_at = some 1000000000000;
  copy_completed_at = none;
  next_run_at = some 2000000000000;
  lease_until = some 2300000000000;
  lease_owner = bytes "worker";
  attempt_count = pos 0;
  delete_files_requested = false;
  pause_requested = false;
  created_at = 1000000000000;
  updated_at = 1999000000000;
  completed_at = none;
  removed_at = none;
  row_version = pos 7;
}

-- The same download while its content is checked.
abbrev pub arrived_row : Download
arrived_row = record sample_row { state = verifying_local }

-- The phase began long before its deadline.
abbrev pub late_row : Download
late_row = record sample_row { state = waiting_copy; phase_started_at = 1000000000000 }

-- A legacy row whose deletion with files was asked for: no workspace and no destination name.
abbrev pub legacy_row : Download
legacy_row = record sample_row {
  state = delete_requested;
  delete_files_requested = true;
  workspace_path = [];
  destination_name = [];
}

-- The copy failed.
abbrev pub failed_row : Download
failed_row = record sample_row {
  state = failed;
  last_upstream_status = bytes "copy:FAILED";
  last_error_code = copy_task_failed;
  next_run_at = none;
}
