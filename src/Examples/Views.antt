-- ===== src/Examples/Views.antt =====
-- The view of a row and the text of its error, and the theorems at them.
use cd.Prelude.{◌≡◌, true, ◌&&◌, ◌||◌, not, is_some, leb, length, map, ◌⊎◌}
use cd.Go.Text.{bytes}
use cd.Domain.State.{is_visible}
use cd.Domain.Model.{Download}
use cd.Domain.Validate.{validate_download}
use cd.Domain.Project.{project, is_cleanup_failure}
use cd.Domain.Project.Bounds.{is_some-project}
use cd.Domain.Redact.{sanitize_download_error, redacted_error_text}
use cd.Domain.Redact.Clean.{hides_paths, sanitize_download_error-hides}
use cd.Torrent.Hash.{lower}
use cd.Examples.Rows.{sample_floats, sample_row}

is_some-project_example : is_some (project sample_floats sample_row) ≡ (
    not (is_some (validate_download sample_floats sample_row))
    && (is_visible sample_row.state || is_cleanup_failure sample_row))
is_some-project_example = is_some-project sample_floats sample_row

abbrev failed_row : Download
failed_row = record sample_row { last_error = bytes " disk full " }

sanitize_download_error-hides_example :
    (leb (length (sanitize_download_error (map lower) failed_row)) 1024 ≡ true)
    × ((sanitize_download_error (map lower) failed_row ≡ redacted_error_text)
        ⊎ (hides_paths failed_row (sanitize_download_error (map lower) failed_row) ≡ true))
sanitize_download_error-hides_example = sanitize_download_error-hides (map lower) failed_row
