-- ===== src/Domain/Project.antt =====
-- internal/domain/projection.go, `Project`: the view of a row that qBittorrent clients get.
pub mod Bounds
use cd.Prelude.{
  ℕ, ◌+◌, ◌-◌, ◌*◌, ℤ, pos, negsuc, Bool, true, false, ◌&&◌, ◌||◌, not, Option, none, some, List,
  [], ◌∷◌, ◌++◌, ltb, leb, ◌==◌, if◌then◌else◌, is_nil, is_some, ltb_ℤ,
}
use Prim.Native.Nat.{◌/◌}
use mathlib.Core.List.{reverse}
use cd.Go.Text.{GoString, bytes, has_prefix}
use cd.Go.Paths.{slash, clean}
use cd.Domain.State.{
  State, accepted, stopped, submitting_offline, waiting_offline, submitting_copy, waiting_copy,
  verifying_local, completed, failed, cancel_requested, cancelled, delete_requested, is_visible,
  state_eq,
}
use cd.Domain.Model.{Download, Time, Float64}
use cd.Domain.Validate.{
  FloatOps, validate_download, float_zero, float_one, float_0_9, float_0_09, float_0_99,
  float_million,
}

-- -1 as a bit pattern.
abbrev minus_one_float : Float64
minus_one_float = 0xBFF0000000000000

-- The strings of qBittorrent's states.
pub data DisplayState : Type 0 where
  queued_dl stopped_dl meta_dl downloading moving stopped_up error : DisplayState

pub record Projection : Type 0 where
  pub hash : GoString
  pub name : GoString
  pub size : ℤ
  pub completed_size : ℤ
  pub progress : Float64
  pub eta : ℕ
  pub display_state : DisplayState
  pub category : GoString
  pub tags : GoString
  pub save_path : GoString
  pub content_path : GoString
  pub ratio : Float64
  pub ratio_limit : Float64
  pub seeding_time : ℤ
  pub seeding_time_limit : ℤ
  pub inactive_seeding_time_limit : ℤ
  pub last_activity : ℤ

abbrev pub unknown_eta : ℕ
unknown_eta = 8640000

-- The seconds from the zero time to 1970.
abbrev unix_epoch : ℕ
unix_epoch = 62135596800

-- `Time.Unix` of a time in nanoseconds after the zero time.
unfoldable pub unix_seconds : Time → ℤ
unix_seconds t =
    let seconds = t / 1000000000 in
    if leb unix_epoch seconds then pos (seconds - unix_epoch) else negsuc (unix_epoch - seconds - 1)

unfoldable pub clamp : FloatOps → Float64 → Float64
clamp fl v = fl.max float_zero (fl.min float_one v)

unfoldable pub rounded_progress : FloatOps → Float64 → Float64
unfolding clamp
rounded_progress fl v = fl.div (fl.round (fl.mul (clamp fl v) float_million)) float_million

unfoldable pub trailing_separator : GoString → GoString
trailing_separator path =
    if has_prefix (reverse (clean path)) slash then clean path else clean path ++ slash

abbrev pub within : ℤ → ℤ → ℤ
within size count = if ltb_ℤ count (pos 0) then pos 0 else if ltb_ℤ size count then size else count

unfoldable pub completed_bytes : FloatOps → ℤ → Float64 → ℤ
unfolding clamp
completed_bytes fl size progress =
    if not (ltb_ℤ (pos 0) size)
    then pos 0
    else within size (fl.to_int (fl.mul (fl.of_int size) (clamp fl progress)))

-- What the switch sets: the state, the progress, the ETA and the content path.
pub record Shown : Type 0 where
  pub shown_state : DisplayState
  pub shown_progress : Float64
  pub shown_eta : ℕ
  pub shown_content : GoString

abbrev shows : DisplayState → Float64 → Option Shown
shows s v =
    some
      (record { shown_state = s; shown_progress = v; shown_eta = unknown_eta; shown_content = [] })

unfoldable pub shown : FloatOps → Download → State → Option Shown
unfolding rounded_progress
shown fl d accepted = shows queued_dl float_zero
shown fl d stopped = shows stopped_dl float_zero
shown fl d submitting_offline = shows meta_dl float_zero
shown fl d waiting_offline =
    shows downloading (rounded_progress fl (fl.mul float_0_9 d.offline_progress))
shown fl d submitting_copy = shows moving float_0_9
shown fl d waiting_copy =
    shows moving (rounded_progress fl (fl.add float_0_9 (fl.mul float_0_09 d.copy_progress)))
shown fl d verifying_local = shows moving float_0_99
shown fl d completed = some (record {
  shown_state = stopped_up;
  shown_progress = float_one;
  shown_eta = 0;
  shown_content = d.content_path;
})
shown fl d failed = shows error (rounded_progress fl d.qbit_progress)
shown fl d cancel_requested =
    shows (if is_nil d.last_error then stopped_dl else error) (rounded_progress fl d.qbit_progress)
shown fl d cancelled = shows stopped_dl (rounded_progress fl d.qbit_progress)
shown fl d delete_requested = shows error (rounded_progress fl d.qbit_progress)
shown fl d _ = none

unfoldable pub is_cleanup_failure : Download → Bool
is_cleanup_failure d = state_eq d.state delete_requested && not (is_nil d.last_error)

abbrev pub projected : FloatOps → Download → Option Shown → Option Projection
projected fl d none = none
projected fl d (some s) = some (record {
  hash = d.hash;
  name = d.name;
  size = d.total_size;
  completed_size = completed_bytes fl d.total_size s.shown_progress;
  progress = s.shown_progress;
  eta = s.shown_eta;
  display_state = s.shown_state;
  category = d.category;
  tags = d.tags;
  save_path = trailing_separator d.save_path;
  content_path = s.shown_content;
  ratio = float_zero;
  ratio_limit = minus_one_float;
  seeding_time = pos 0;
  seeding_time_limit = negsuc 0;
  inactive_seeding_time_limit = negsuc 0;
  last_activity = unix_seconds d.updated_at;
})

-- `Project`; `none` is an error.
unfoldable pub project : FloatOps → Download → Option Projection
unfolding shown is_cleanup_failure completed_bytes trailing_separator unix_seconds
project fl d =
    if is_some (validate_download fl d)
    then none
    else if not (is_visible d.state) && not (is_cleanup_failure d)
    then none
    else projected fl d (shown fl d d.state)
