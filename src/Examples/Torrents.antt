-- ===== src/Examples/Torrents.antt =====
-- Magnets and torrents, and the theorems at them.
use cd.Prelude.{◌≡◌, refl, pos, true, false, [], ◌∷◌, some, none, if◌then◌else◌}
use cd.Go.Text.{GoString, bytes, str_eq, has_prefix, cut_prefix, contains_byte, join_with}
use cd.Go.Utf8.{valid_string, contains_control, scan, after_byte, lead}
use cd.Domain.Validate
use cd.Domain.Validate.{valid_hash, is_hash_byte}
use cd.Reconcile.Manifest.{valid_manifest}
use cd.Torrent.Names.{
  Limits, ok, valid_limits, validate_name, safe_component, validate_relative_path, path_length,
}
use cd.Torrent.Hash.{
  decode_v1_hash, magnet_v1_hash, lower, from_hex, hex_decode, hex_encode, hex_value, hex_digit,
}
use cd.Torrent.Hash.Canonical.{decode_v1_hash-fixed}
use cd.Torrent.Trackers.{Url, normalize_trackers, tracker_loop, check_tracker}
use cd.Torrent.Trackers.Accepted.{AllTrackers, contained, distinct, normalize_trackers-accepted}
use cd.Torrent.Files.{Info, multi_files, multi_loop}
use cd.Torrent.Files.Manifest.{manifest}
use cd.Torrent.Parse.{
  Result, Parsers, parse_torrent, parse_magnet, canonical_magnet, with_metainfo, with_info,
  torrent_result, torrent_files, magnet_query, magnet_result, magnet_name, one_name, query_values,
}
use cd.Torrent.Parse.Row.{described, parse_torrent-manifest, parse_magnet-row}
use cd.Examples.Rows.{sample_row}

abbrev pub limits : Limits
limits = record {
  max_input_bytes = 1000;
  max_info_bytes = 1000;
  max_files = 10;
  max_name_bytes = 100;
  max_path_bytes = 100;
  max_component_bytes = 100;
  max_tracker_count = 3;
  max_tracker_bytes = 100;
  max_total_size = 1000;
}

abbrev hash : GoString
hash = bytes "0123456789abcdef0123456789abcdef01234567"

abbrev tracker : GoString
tracker = bytes "udp://t"

abbrev tracker_url : Url
tracker_url = record {
  scheme = bytes "UDP";
  raw_query = [];
  is_absolute = true;
  hostname = bytes "t";
  has_user = false;
  fragment = [];
}

abbrev magnet_url : Url
magnet_url = record tracker_url { scheme = bytes "magnet"; raw_query = bytes "q" }

abbrev info : Info
info = record {
  total_length = pos 0;
  piece_length = pos 16;
  private = none;
  info_files = some (
      record { file_length = pos 3; best_path = bytes "a" ∷ bytes "b" ∷ [] }
      ∷ record { file_length = pos 4; best_path = bytes "c" ∷ [] }
      ∷ []);
  has_v1 = true;
  best_name = bytes "n";
  upverted_v1_files =
      record { file_length = pos 3; best_path = bytes "a" ∷ bytes "b" ∷ [] }
      ∷ record { file_length = pos 4; best_path = bytes "c" ∷ [] }
      ∷ [];
}

abbrev pub parsers : Parsers
parsers = record {
  parse_url = λ s. if str_eq s tracker then some tracker_url else some magnet_url;
  parse_query = λ s. some (
      (bytes "xt", (bytes "URN:btih:0123456789ABCDEF0123456789abcdef01234567") ∷ [])
      ∷ (bytes "tr", tracker ∷ tracker ∷ [])
      ∷ []);
  load = λ s. some (record {
    info_bytes = 100;
    info_hash = hash;
    announce_list = (tracker ∷ []) ∷ [];
    info = some info;
  });
}

abbrev torrent_metadata : Result
torrent_metadata = record {
  hash = hash;
  name = bytes "n";
  magnet_uri = canonical_magnet hash (bytes "n") (tracker ∷ []);
  total_size = pos 7;
  multi_file = true;
  private = some false;
  files =
      record { index = pos 0; relative_path = bytes "a/b"; size = pos 3 }
      ∷ record { index = pos 1; relative_path = bytes "c"; size = pos 4 }
      ∷ [];
}

torrent_parses : parse_torrent parsers (bytes "d") limits ≡ ok torrent_metadata
unfolding bytes parse_torrent valid_limits with_metainfo with_info torrent_result validate_name
    safe_component valid_string scan after_byte lead contains_control contains_byte has_prefix
    cut_prefix str_eq normalize_trackers tracker_loop check_tracker lower torrent_files multi_files
    multi_loop validate_relative_path path_length join_with
torrent_parses = refl

parse_torrent-manifest_example :
    valid_manifest (described sample_row torrent_metadata) (manifest hash torrent_metadata.files)
    ≡ true
parse_torrent-manifest_example =
    parse_torrent-manifest parsers (bytes "d") limits torrent_metadata sample_row torrent_parses

abbrev magnet_metadata : Result
magnet_metadata = record {
  hash = hash;
  name = hash;
  magnet_uri = canonical_magnet hash hash (tracker ∷ []);
  total_size = pos 0;
  multi_file = false;
  private = none;
  files = [];
}

magnet_parses : parse_magnet parsers (bytes "magnet:?q") limits ≡ ok magnet_metadata
unfolding bytes parse_magnet valid_limits magnet_query magnet_result magnet_v1_hash decode_v1_hash
    from_hex hex_decode hex_value hex_encode hex_digit lower query_values magnet_name one_name
    validate_name safe_component valid_string scan after_byte lead contains_control contains_byte
    has_prefix cut_prefix str_eq normalize_trackers tracker_loop check_tracker
magnet_parses = refl

parse_magnet-row_example :
    (valid_hash magnet_metadata.hash ≡ true) × (Validate.safe_component magnet_metadata.name ≡ true)
parse_magnet-row_example =
    parse_magnet-row parsers (bytes "magnet:?q") limits magnet_metadata magnet_parses

decode_v1_hash-fixed_example : decode_v1_hash hash ≡ ok hash
unfolding valid_hash is_hash_byte bytes
decode_v1_hash-fixed_example = decode_v1_hash-fixed hash refl

trackers_normalize :
    normalize_trackers parsers.parse_url limits (tracker ∷ tracker ∷ []) ≡ ok (tracker ∷ [])
unfolding normalize_trackers tracker_loop check_tracker lower valid_string scan after_byte lead
    str_eq bytes
trackers_normalize = refl

normalize_trackers-accepted_example :
    AllTrackers parsers.parse_url limits (tracker ∷ tracker ∷ [])
    × (contained (tracker ∷ tracker ∷ []) (tracker ∷ []) ≡ true)
    × (contained (tracker ∷ []) (tracker ∷ tracker ∷ []) ≡ true)
    × (distinct [] (tracker ∷ []) ≡ true)
    × (normalize_trackers parsers.parse_url limits (tracker ∷ []) ≡ ok (tracker ∷ []))
normalize_trackers-accepted_example =
    normalize_trackers-accepted parsers.parse_url limits (tracker ∷ tracker ∷ []) (tracker ∷ [])
      trackers_normalize
