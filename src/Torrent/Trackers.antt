-- ===== src/Torrent/Trackers.antt =====
-- The tracker URLs of a magnet or a torrent.
pub mod Normal
pub mod Accepted
use cd.Prelude.{
  ℕ, Bool, true, false, ◌&&◌, ◌||◌, not, Option, none, some, List, [], ◌∷◌, ltb, if◌then◌else◌,
  is_nil, length, any, map,
}
use cd.Go.Text.{GoString, bytes, str_eq}
use cd.Go.Utf8.{valid_string}
use cd.Torrent.Names.{Limits, Checked, ok, err, resource_limit, invalid_tracker, ◌>>=◌}
use cd.Torrent.Hash.{lower}

-- What the source reads of a url.URL.
pub record Url : Type 0 where
  pub scheme : GoString
  pub raw_query : GoString
  pub is_absolute : Bool
  pub hostname : GoString
  pub has_user : Bool
  pub fragment : GoString

-- url.Parse, `none` where it fails.
abbrev pub UrlParse : Type 0
UrlParse = GoString → Option Url

-- The schemes of trackers, in lower case; strings.ToLower makes no other string one of these.
abbrev is_tracker_scheme : GoString → Bool
is_tracker_scheme s =
    str_eq s (bytes "http")
    || str_eq s (bytes "https")
    || str_eq s (bytes "udp")
    || str_eq s (bytes "ws")
    || str_eq s (bytes "wss")

abbrev is_tracker_url : Option Url → Bool
is_tracker_url none = false
is_tracker_url (some u) =
    u.is_absolute
    && not (is_nil u.hostname)
    && not u.has_user
    && is_nil u.fragment
    && is_tracker_scheme (map lower u.scheme)

-- The tests of one tracker, in their order.
unfoldable pub check_tracker : UrlParse → Limits → GoString → Checked Bool
unfolding lower
check_tracker parse l t =
    if not (valid_string t) || is_nil t
    then err invalid_tracker
    else if ltb l.max_tracker_bytes (length t)
    then err resource_limit
    else if is_tracker_url (parse t)
    then ok true
    else err invalid_tracker

abbrev pub prepend : GoString → List GoString → Checked (List GoString)
prepend t ts = ok (t ∷ ts)

-- The loop of `normalizeTrackers`.
unfoldable pub tracker_loop :
    UrlParse → Limits → List GoString → List GoString → Checked (List GoString)
tracker_loop parse l seen [] = ok []
tracker_loop parse l seen (t ∷ ts) =
    let again = tracker_loop parse l seen ts in
    let onward = tracker_loop parse l (t ∷ seen) ts >>= prepend t in
    check_tracker parse l t >>= λ _. if any (str_eq t) seen then again else onward

unfoldable pub normalize_trackers : UrlParse → Limits → List GoString → Checked (List GoString)
unfolding tracker_loop
normalize_trackers parse l raw =
    if ltb l.max_tracker_count (length raw) then err resource_limit else tracker_loop parse l [] raw
