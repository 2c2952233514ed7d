-- ===== src/Torrent/Parse.antt =====
-- ParseMagnet and ParseTorrent.
pub mod Row
use cd.Prelude.{
  ℕ, ◌+◌, ℤ, pos, negsuc, Bool, true, false, ◌&&◌, ◌||◌, not, Option, none, some, List, [], ◌∷◌,
  ◌++◌, ltb, leb, ◌==◌, if◌then◌else◌, is_nil, length, map, all, is_neg, is_some,
}
use cd.Go.Text.{GoString, bytes, str_eq, join_with}
use Prim.Native.Nat.{◌/◌, ◌%◌}
use cd.Go.Utf8.{valid_string}
use cd.Torrent.Names.{
  Limits, MetaError, Checked, ok, err, invalid_limits, invalid_magnet, unsupported, invalid_torrent,
  resource_limit, invalid_contents, ◌>>=◌, valid_limits, validate_name,
}
use cd.Torrent.Hash.{lower, magnet_v1_hash}
use cd.Torrent.Trackers.{Url, UrlParse, normalize_trackers}
use cd.Torrent.Files.{File, FileInfo, Info, single_file, multi_files, file_count}

pub record Result : Type 0 where
  pub hash : GoString
  pub name : GoString
  pub magnet_uri : GoString
  pub total_size : ℤ
  pub multi_file : Bool
  pub private : Option Bool
  pub files : List File

-- url.Values
abbrev pub Query : Type 0
Query = List (GoString × List GoString)

-- What net/url makes of a string, and what metainfo makes of a torrent's bytes.
pub record MetaInfo : Type 0 where
  pub info_bytes : ℕ
  pub info_hash : GoString
  pub announce_list : List (List GoString)
  pub info : Option Info

pub record Parsers : Type 0 where
  pub parse_url : UrlParse
  pub parse_query : GoString → Option Query
  pub load : GoString → Option MetaInfo

-- `query[key]`
unfoldable pub query_values : GoString → Query → List GoString
query_values key [] = []
query_values key ((k, vs) ∷ q) = let rest = query_values key q in if str_eq key k then vs else rest

abbrev valid_query : Query → Bool
valid_query q = all (λ entry. valid_string entry.0 && all valid_string entry.1) q

abbrev pub or_fallback : GoString → GoString → GoString
or_fallback name fallback = if is_nil name then fallback else name

-- The loop of `magnetName`.
unfoldable pub one_name : GoString → List GoString → Checked GoString
one_name name [] = ok name
one_name name (v ∷ vs) =
    let skipped = one_name name vs in
    let taken = one_name v vs in
    if is_nil v
    then skipped
    else if not (is_nil name) && not (str_eq name v)
    then err invalid_magnet
    else taken

unfoldable pub magnet_name : List GoString → GoString → Limits → Checked GoString
unfolding one_name validate_name
magnet_name values fallback l = do
  name ← one_name [] values
  validate_name (or_fallback name fallback) l

-- The digit of package url, in upper case.
abbrev upper_hex : ℕ → ℕ
upper_hex n = if ltb n 10 then 48 + n else 55 + n

abbrev is_unreserved : ℕ → Bool
is_unreserved c =
    leb 97 c && leb c 122
    || leb 65 c && leb c 90
    || leb 48 c && leb c 57
    || c == 45
    || c == 95
    || c == 46
    || c == 126

-- url.QueryEscape
unfoldable pub query_escape : GoString → GoString
query_escape [] = []
query_escape (c ∷ s) =
    let rest = query_escape s in
    if is_unreserved c
    then c ∷ rest
    else if c == 32
    then b'+' ∷ rest
    else b'%' ∷ upper_hex (c / 16) ∷ upper_hex (c % 16) ∷ rest

unfoldable pub canonical_magnet : GoString → GoString → List GoString → GoString
unfolding query_escape
canonical_magnet hash name trackers =
    bytes "magnet:?"
    ++ join_with (bytes "&") (
        (bytes "xt=" ++ query_escape (bytes "urn:btih:" ++ hash))
        ∷ (bytes "dn=" ++ query_escape name)
        ∷ map (λ t. bytes "tr=" ++ query_escape t) trackers)

-- What ParseMagnet makes of the parsed query.
unfoldable pub magnet_result : Parsers → Limits → Query → Checked Result
unfolding magnet_v1_hash magnet_name normalize_trackers canonical_magnet
magnet_result p l q = do
  hash ← magnet_v1_hash [] (query_values (bytes "xt") q)
  if is_nil hash then err unsupported else do
    name ← magnet_name (query_values (bytes "dn") q) hash l
    trackers ← normalize_trackers p.parse_url l (query_values (bytes "tr") q)
    ok (record {
      hash = hash;
      name = name;
      magnet_uri = canonical_magnet hash name trackers;
      total_size = pos 0;
      multi_file = false;
      private = none;
      files = [];
    })

unfoldable pub magnet_query : Parsers → Option Url → Checked Query
magnet_query p none = err invalid_magnet
magnet_query p (some u) =
    if not (str_eq (map lower u.scheme) (bytes "magnet"))
    then err invalid_magnet
    else elim (p.parse_query u.raw_query) [
      | none ↦ err invalid_magnet
      | some q ↦ if valid_query q then ok q else err invalid_magnet
    ]

-- `ParseMagnet`
unfoldable pub parse_magnet : Parsers → GoString → Limits → Checked Result
unfolding magnet_query magnet_result
parse_magnet p raw l =
    if not (valid_limits l)
    then err invalid_limits
    else if ltb l.max_input_bytes (length raw)
    then err resource_limit
    else magnet_query p (p.parse_url raw) >>= magnet_result p l

abbrev known_private : Option Bool → Bool
known_private none = false
known_private (some b) = b

abbrev pub flatten : List (List GoString) → List GoString
flatten [] = []
flatten (tier ∷ tiers) = tier ++ flatten tiers

abbrev pub no_files : Option (List FileInfo) → Bool
no_files (some []) = true
no_files _ = false

abbrev pub as_one : File × ℕ → Checked (List File × ℕ × Bool)
as_one (f, total) = ok (f ∷ [], total, false)

abbrev pub as_many : List File × ℕ → Checked (List File × ℕ × Bool)
as_many (fs, total) = ok (fs, total, true)

-- The files, their total and whether there are several: one file where the info lists none.
unfoldable pub torrent_files : Info → GoString → Limits → Checked (List File × ℕ × Bool)
unfolding single_file multi_files
torrent_files info name l =
    if no_files info.info_files
    then err invalid_contents
    else if file_count info.info_files == 0
    then single_file info name l >>= as_one
    else multi_files info l >>= as_many

-- What ParseTorrent makes of the decoded info.
unfoldable pub torrent_result : Parsers → Limits → MetaInfo → Info → Checked Result
unfolding validate_name normalize_trackers torrent_files canonical_magnet
torrent_result p l mi info =
    if not info.has_v1
    then err unsupported
    else if is_neg info.piece_length
    then err invalid_contents
    else do
      name ← validate_name info.best_name l
      trackers ← normalize_trackers p.parse_url l (flatten mi.announce_list)
      (files, total, multi) ← torrent_files info name l
      ok (record {
        hash = mi.info_hash;
        name = name;
        magnet_uri = canonical_magnet mi.info_hash name trackers;
        total_size = pos total;
        multi_file = multi;
        private = some (known_private info.private);
        files = files;
      })

-- The answers of metainfo.Load and UnmarshalInfo.
unfoldable pub with_info : Parsers → Limits → MetaInfo → Option Info → Checked Result
unfolding torrent_result
with_info p l mi none = err invalid_torrent
with_info p l mi (some info) = torrent_result p l mi info

unfoldable pub with_metainfo : Parsers → Limits → Option MetaInfo → Checked Result
unfolding with_info
with_metainfo p l none = err invalid_torrent
with_metainfo p l (some mi) =
    if mi.info_bytes == 0
    then err invalid_torrent
    else if ltb l.max_info_bytes mi.info_bytes
    then err resource_limit
    else with_info p l mi mi.info

-- `ParseTorrent`
unfoldable pub parse_torrent : Parsers → GoString → Limits → Checked Result
unfolding with_metainfo
parse_torrent p content l =
    if not (valid_limits l)
    then err invalid_limits
    else if ltb l.max_input_bytes (length content)
    then err resource_limit
    else with_metainfo p l (p.load content)
