-- ===== src/Submission/Choices.antt =====
-- internal/submission/service.go: the destination, the magnet, the name, the tags and the save root of a
-- submission, with internal/torrentmeta/torrentmeta.go, AddTrackers.
use cd.Prelude.{
  Bool, true, false, ◌&&◌, ◌||◌, not, Option, none, some, List, [], ◌∷◌, ◌++◌, if◌then◌else◌,
  is_nil, map,
}
use cd.Go.Text.{GoString, bytes, str_eq, split_on}
use cd.Go.Paths.{is_abs, clean}
use cd.Domain.Redact.{trim_space}
use cd.Reconcile.World.{FsReply, found, failure}
use cd.Torrent.Names.{Checked, ok, err, invalid_magnet}
use cd.Torrent.Hash.{lower}
use cd.Torrent.Trackers.{Url, normalize_trackers}
use cd.Submission.Options.{canonical_category, canonical_tags, safe_retained_name}
use cd.Submission.Service.{
  CategoryReply, category_found, category_missing, category_failed, Resolver, Service,
  invalid_source, category_invalid, invalid_options, internal_error, Answer, done, refused,
  Destination,
}

configured : GoString → CategoryReply → Answer Destination
configured name category_missing = refused category_invalid
configured name category_failed = refused internal_error
configured name (category_found c) =
    if not c.enabled then refused category_invalid else done (name, c.cloud_path, c.save_path)

-- `submissionPaths`
unfoldable pub submission_paths : Service → GoString → Answer Destination
unfolding configured canonical_category
submission_paths e raw = elim (canonical_category e.to_lower raw true) [
  | none ↦ refused category_invalid
  | some name ↦
      if is_nil name
      then done (name, e.cloud_root, e.local_root)
      else configured name (e.get_category name)
]

magnet_only : Service → GoString → Option Url → Checked GoString
magnet_only e raw none = err invalid_magnet
magnet_only e raw (some u) =
    if str_eq (map lower u.scheme) (bytes "magnet") then ok raw else err invalid_magnet

-- `AddTrackers`
unfoldable pub add_trackers : Service → GoString → List GoString → Checked GoString
unfolding magnet_only
add_trackers e raw additional = elim (magnet_only e raw (e.parsers.parse_url raw)) [
  | err x ↦ err x
  | ok m ↦
      elim (normalize_trackers e.parsers.parse_url e.limits
        (e.magnet_url.trackers m ++ additional)) [
          | err x ↦ err x
          | ok trackers ↦ ok (e.magnet_url.with_trackers m trackers)
        ]
]

-- The lines of the preference, trimmed; `none` where one is empty.
unfoldable pub tracker_lines : List GoString → Option (List GoString)
tracker_lines [] = some []
tracker_lines (raw ∷ lines) = elim (is_nil (trim_space raw)) [
  | true ↦ none
  | false ↦ elim (tracker_lines lines) [
    | none ↦ none
    | some trackers ↦ some (trim_space raw ∷ trackers)
  ]
]

merge_trackers : Service → GoString → Option (List GoString) → Answer GoString
unfolding add_trackers
merge_trackers e uri none = refused invalid_source
merge_trackers e uri (some trackers) =
    elim (normalize_trackers e.parsers.parse_url e.limits trackers) [
      | err x ↦ refused invalid_source
      | ok normal ↦ elim (add_trackers e uri trackers) [
        | err x ↦ refused invalid_source
        | ok merged ↦ done merged
      ]
    ]

-- The magnet under the preference of additional trackers.
unfoldable pub magnet_with_preferences : Service → GoString → Answer GoString
unfolding merge_trackers tracker_lines
magnet_with_preferences e uri = elim e.list_settings [
  | none ↦ done uri
  | some none ↦ refused internal_error
  | some (some setting) ↦
      if str_eq (setting (bytes "qbt.add_trackers_enabled")) (bytes "true")
        && not (is_nil (trim_space (setting (bytes "qbt.add_trackers"))))
      then merge_trackers e uri (tracker_lines (split_on 0x0A (setting (bytes "qbt.add_trackers"))))
      else done uri
]

-- The name, or the retained one, of the option `rename`.
unfoldable pub renamed : Option GoString → Answer (Option GoString)
renamed none = done none
renamed (some name) =
    if not (safe_retained_name (trim_space name))
    then refused invalid_options
    else done (some (trim_space name))

unfoldable pub tagged : Option GoString → Answer (Option GoString)
tagged none = done none
tagged (some raw) = elim (canonical_tags raw false) [
  | none ↦ refused invalid_options
  | some tags ↦ done (some tags)
]

-- PrepareSaveRoot of a resolved save root.
prepared : Resolver → FsReply (GoString × Bool) → Answer GoString
prepared r (failure x) = refused invalid_options
prepared r (found (root, there)) = elim (r.prepare_save_root root) [
  | failure x ↦ refused internal_error
  | found p ↦ done root
]

-- The save path of the option, or the one of the category.
unfoldable pub save_root : Service → GoString → Option GoString → Answer GoString
unfolding prepared
save_root e default none = done default
save_root e default (some path) =
    if not (is_abs path) || not (str_eq (clean path) path)
    then refused invalid_options
    else elim e.resolver [
      | none ↦ refused invalid_options
      | some r ↦ prepared r (r.resolve_save_root path)
    ]

abbrev pub wants_auto_tmm : Option Bool → Bool
wants_auto_tmm (some true) = true
wants_auto_tmm _ = false
