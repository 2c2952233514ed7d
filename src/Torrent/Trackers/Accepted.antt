-- ===== src/Torrent/Trackers/Accepted.antt =====
-- What the URL tests of the trackers let through.
use cd.Prelude.{
  ◌≡◌, refl, Bool, true, false, ◌&&◌, ◌||◌, not, some, List, [], ◌∷◌, ltb, leb, is_nil, length, any,
  map, arith, inl, inr, Option-cases, subst, ◌∙◌, sym,
}
use cd.Go.Text.{GoString, bytes, str_eq, str_eq_refl}
use cd.Go.Utf8.{valid_string}
use cd.Torrent.Hash.{lower}
use cd.Torrent.Names.{Limits, ok, resource_limit, ◌>>=◌, bind_ok, else_ok, ok_injective}
use cd.Torrent.Trackers.{UrlParse, Url, check_tracker, prepend, tracker_loop, normalize_trackers}
use cd.Torrent.Trackers.Normal.{
  Normal, tracker_loop-Bounded, take_or_skip, normalize_trackers-normal,
}

abbrev tracker_schemes : List GoString
tracker_schemes = bytes "http" ∷ bytes "https" ∷ bytes "udp" ∷ bytes "ws" ∷ bytes "wss" ∷ []

-- A tracker URL.
pub record IsTracker (parse : UrlParse) (l : Limits) (t : GoString) : Type 0 where
  pub url : Url
  pub parsed : parse t ≡ some url
  pub absolute : url.is_absolute ≡ true
  pub host : is_nil url.hostname ≡ false
  pub no_user : url.has_user ≡ false
  pub no_fragment : url.fragment ≡ []
  pub scheme : any (str_eq (map lower url.scheme)) tracker_schemes ≡ true
  pub utf8 : valid_string t ≡ true
  pub fits : leb (length t) l.max_tracker_bytes ≡ true

unfoldable pub AllTrackers : UrlParse → Limits → List GoString → Type 0
AllTrackers parse l [] = Unit
AllTrackers parse l (t ∷ ts) = IsTracker parse l t × AllTrackers parse l ts

-- No element equals one before it or one of `seen`.
unfoldable pub distinct : List GoString → List GoString → Bool
distinct seen [] = true
distinct seen (t ∷ ts) = not (any (str_eq t) seen) && distinct (t ∷ seen) ts

unfoldable pub contained : List GoString → List GoString → Bool
contained [] us = true
contained (t ∷ ts) us = any (str_eq t) us && contained ts us

check_tracker-IsTracker :
    (parse : UrlParse) (l : Limits) (t : GoString) (b : Bool)
    → check_tracker parse l t ≡ ok b
    → IsTracker parse l t
unfolding check_tracker
check_tracker-IsTracker parse l t b h = elim (Option-cases (parse t)) [
  | inl p ↦ ground arith
  | inr (u, p) ↦ record {
    url = u;
    parsed = p;
    absolute = ground arith;
    host = ground arith;
    no_user = ground arith;
    no_fragment = ground arith;
    scheme = ground arith;
    utf8 = ground arith;
    fits = ground arith;
  }
]

tracker_loop-AllTrackers :
    (parse : UrlParse) (l : Limits) (seen raw ts : List GoString)
    → tracker_loop parse l seen raw ≡ ok ts
    → AllTrackers parse l raw
unfolding tracker_loop AllTrackers
tracker_loop-AllTrackers parse l seen [] ts h = tt
tracker_loop-AllTrackers parse l seen (t ∷ raw) ts h =
    let checked = bind_ok (check_tracker parse l t) _ ts h in
    let one = check_tracker-IsTracker parse l t checked.0 checked.1 in
    elim (take_or_skip parse l seen t (any (str_eq t) seen) (tracker_loop parse l seen raw)
      (tracker_loop parse l (t ∷ seen) raw >>= prepend t) ts checked.2) [
        | inl p ↦ (one, tracker_loop-AllTrackers parse l seen raw ts p.0)
        | inr q ↦
            let rest = bind_ok (tracker_loop parse l (t ∷ seen) raw) (prepend t) ts q.0 in
            (one, tracker_loop-AllTrackers parse l (t ∷ seen) raw rest.0 rest.1)
      ]

Normal-distinct :
    (parse : UrlParse) (l : Limits) (seen ts : List GoString)
    → Normal parse l seen ts
    → distinct seen ts ≡ true
unfolding distinct Normal
Normal-distinct parse l seen [] n = refl
Normal-distinct parse l seen (t ∷ ts) n =
    ground (arith, n.1, Normal-distinct parse l (t ∷ seen) ts n.2)

contained_more :
    (ts us : List GoString) (u : GoString) → contained ts us ≡ true → contained ts (u ∷ us) ≡ true
unfolding contained
contained_more [] us u h = refl
contained_more (t ∷ ts) us u h = ground (arith, contained_more ts us u)

-- What is left out of the result has been seen.
kept_or_seen : List GoString → List GoString → List GoString → Bool
kept_or_seen seen [] ts = true
kept_or_seen seen (r ∷ raw) ts =
    (any (str_eq r) seen || any (str_eq r) ts) && kept_or_seen seen raw ts

kept_or_seen_move :
    (seen raw ts : List GoString) (t : GoString)
    → kept_or_seen (t ∷ seen) raw ts ≡ true
    → kept_or_seen seen raw (t ∷ ts) ≡ true
unfolding kept_or_seen
kept_or_seen_move seen [] ts t h = refl
kept_or_seen_move seen (r ∷ raw) ts t h = ground (arith, kept_or_seen_move seen raw ts t)

kept_or_seen_none : (raw ts : List GoString) → kept_or_seen [] raw ts ≡ contained raw ts
unfolding kept_or_seen contained
kept_or_seen_none [] ts = refl
kept_or_seen_none (r ∷ raw) ts = ground (arith, kept_or_seen_none raw ts)

tracker_loop-same :
    (parse : UrlParse) (l : Limits) (seen raw ts : List GoString)
    → tracker_loop parse l seen raw ≡ ok ts
    → (contained ts raw ≡ true) × (kept_or_seen seen raw ts ≡ true)
unfolding tracker_loop contained kept_or_seen
tracker_loop-same parse l seen [] ts h =
    subst (λ us. (contained us [] ≡ true) × (kept_or_seen seen [] us ≡ true)) (ok_injective [] ts h)
      (refl, refl)
tracker_loop-same parse l seen (t ∷ raw) ts h =
    let checked = bind_ok (check_tracker parse l t) _ ts h in
    elim (take_or_skip parse l seen t (any (str_eq t) seen) (tracker_loop parse l seen raw)
      (tracker_loop parse l (t ∷ seen) raw >>= prepend t) ts checked.2) [
        | inl p ↦
            let r = tracker_loop-same parse l seen raw ts p.0 in
            (contained_more ts raw t r.0, ground (arith, r.1, p.1))
        | inr q ↦
            let rest = bind_ok (tracker_loop parse l (t ∷ seen) raw) (prepend t) ts q.0 in
            let r = tracker_loop-same parse l (t ∷ seen) raw rest.0 rest.1 in
            subst (λ us. (contained us (t ∷ raw) ≡ true) × (kept_or_seen seen (t ∷ raw) us ≡ true))
              (ok_injective (t ∷ rest.0) ts rest.2)
              (
                ground (arith, str_eq_refl t, contained_more rest.0 raw t r.0),
                ground (arith, str_eq_refl t, kept_or_seen_move seen raw rest.0 t r.1),
              )
      ]

-- Where NormalizeTrackers succeeds, each tracker of its input is valid UTF-8 within the length limit
-- and parses as an absolute URL with a host, without user and fragment, whose scheme is one of http,
-- https, udp, ws and wss; the result holds the same trackers, none of them twice; and normalizing it
-- once more returns it as it is.
pub normalize_trackers-accepted :
    (parse : UrlParse) (l : Limits) (raw ts : List GoString)
    → normalize_trackers parse l raw ≡ ok ts
    → AllTrackers parse l raw
      × (contained raw ts ≡ true)
      × (contained ts raw ≡ true)
      × (distinct [] ts ≡ true)
      × (normalize_trackers parse l ts ≡ ok ts)
unfolding normalize_trackers
normalize_trackers-accepted parse l raw ts h =
    let few = else_ok (ltb l.max_tracker_count (length raw)) resource_limit _ ts h in
    let same = tracker_loop-same parse l [] raw ts few.1 in
    (
      tracker_loop-AllTrackers parse l [] raw ts few.1,
      sym (kept_or_seen_none raw ts) ∙ same.1,
      same.0,
      Normal-distinct parse l [] ts (tracker_loop-Bounded parse l [] raw ts few.1).0,
      normalize_trackers-normal parse l raw ts h,
    )
