-- ===== src/Torrent/Parse/Row.antt =====
-- A parsed magnet or torrent as the row and the manifest of a submission.
use cd.Prelude.{
  ℕ, ◌≡◌, refl, subst, pos, Bool, true, false, ◌||◌, not, Option, some, none, List, [], ◌∷◌, ltb,
  ◌==◌, is_nil, length, arith, is_neg, inl, inr, if_cases,
}
use cd.Go.Text.{GoString, bytes, contains_byte}
use cd.Domain.Model.{Download, DownloadFile}
use cd.Domain.Validate
use cd.Domain.Validate.{valid_hash}
use cd.Reconcile.Manifest.{manifest_total, bad_relative_path, valid_manifest, count_fits}
use cd.Torrent.Names.{
  Limits, ok, resource_limit, invalid_contents, invalid_limits, unsupported, ◌>>=◌, bind_ok,
  else_ok, ok_injective, validate_name, valid_limits, safe_component, invalid_torrent,
}
use cd.Torrent.Names.Relative.{validate_name-accepted, contains-weaken, is_unsafe}
use cd.Torrent.Hash.{magnet_v1_hash}
use cd.Torrent.Hash.Canonical.{magnet_v1_hash-valid}
use cd.Torrent.Trackers.{normalize_trackers}
use cd.Torrent.Files.{File, Info, single_file, multi_files, file_count}
use cd.Torrent.Files.Manifest.{manifest, SumsUp, multi_files-manifest, single_file-manifest}
use cd.Torrent.Parse.{
  Result, Parsers, MetaInfo, torrent_files, torrent_result, parse_torrent, as_one, as_many,
  no_files, flatten, magnet_query, magnet_result, parse_magnet, magnet_name, one_name, or_fallback,
  query_values, with_info, with_metainfo,
}
use cd.Go.Paths.{is_abs}

-- The files and their total against the reconciler's check of the layout.
abbrev Fits : GoString → List File × ℕ × Bool → Type 0
Fits hash r = SumsUp hash 0 [] 0 (r.0, r.1) × (count_fits r.2 (manifest hash r.0) ≡ true)

one_fits : (hash : GoString) (f : File) → count_fits false (manifest hash (f ∷ [])) ≡ true
unfolding count_fits manifest
one_fits hash f = refl

many_fit :
    (hash : GoString) (fs : List File)
    → is_nil fs ≡ false
    → count_fits true (manifest hash fs) ≡ true
unfolding count_fits manifest
many_fit hash [] h = cc
many_fit hash (f ∷ fs) h = refl

torrent_files-Fits :
    (info : Info) (name : GoString) (l : Limits) (hash : GoString) (r : List File × ℕ × Bool)
    → bad_relative_path name ≡ false
    → torrent_files info name l ≡ ok r
    → Fits hash r
unfolding torrent_files
torrent_files-Fits info name l hash r good h =
    let listed = else_ok (no_files info.info_files) invalid_contents _ r h in
    elim (if_cases (file_count info.info_files == 0) (single_file info name l >>= as_one)
      (multi_files info l >>= as_many) (ok r) listed.1) [
        | inl p ↦
            let s = bind_ok (single_file info name l) as_one r p in
            subst (Fits hash) (ok_injective _ r s.2)
              (single_file-manifest info name l hash s.0 good s.1, one_fits hash s.0.0)
        | inr q ↦
            let s = bind_ok (multi_files info l) as_many r q in
            let m = multi_files-manifest info l hash s.0 s.1 in
            subst (Fits hash) (ok_injective _ r s.2) (m.0, many_fit hash s.0.0 m.1)
      ]

valid_manifest-fits :
    (d : Download) (files : List DownloadFile) (multi : Bool) (total : ℕ)
    → d.is_multi_file ≡ some multi
    → d.total_size ≡ pos total
    → manifest_total d.hash 0 [] 0 files ≡ some total
    → count_fits multi files ≡ true
    → valid_manifest d files ≡ true
unfolding valid_manifest
valid_manifest-fits d files multi total layout size sums count = ground arith

-- internal/submission/service.go, `submit`: what it takes from the result into the row of a torrent.
abbrev pub described : Download → Result → Download
described d r = record d {
  hash = r.hash;
  name = r.name;
  submission_uri = r.magnet_uri;
  private = r.private;
  total_size = r.total_size;
  is_multi_file = some r.multi_file;
}

torrent_result-manifest :
    (p : Parsers) (l : Limits) (mi : MetaInfo) (info : Info) (r : Result) (d : Download)
    → torrent_result p l mi info ≡ ok r
    → valid_manifest (described d r) (manifest r.hash r.files) ≡ true
unfolding torrent_result
torrent_result-manifest p l mi info r d h =
    let v1 = else_ok (not info.has_v1) unsupported _ r h in
    let pieces = else_ok (is_neg info.piece_length) invalid_contents _ r v1.1 in
    let named = bind_ok (validate_name info.best_name l) _ r pieces.1 in
    let tracked =
      bind_ok (normalize_trackers p.parse_url l (flatten mi.announce_list)) _ r named.2 in
    let listed = bind_ok (torrent_files info named.0 l) _ r tracked.2 in
    let good = (validate_name-accepted info.best_name named.0 l named.1).2 in
    let fit = torrent_files-Fits info named.0 l mi.info_hash listed.0 good listed.1 in
    subst (λ (r : Result). valid_manifest (described d r) (manifest r.hash r.files) ≡ true)
      (ok_injective _ r listed.2)
      (valid_manifest-fits _ (manifest mi.info_hash listed.0.0) listed.0.2 listed.0.1 refl refl
        fit.0 fit.1)

with_info-manifest :
    (p : Parsers) (l : Limits) (mi : MetaInfo) (info : Option Info) (r : Result) (d : Download)
    → with_info p l mi info ≡ ok r
    → valid_manifest (described d r) (manifest r.hash r.files) ≡ true
unfolding with_info
with_info-manifest p l mi none r d h = cc
with_info-manifest p l mi (some info) r d h = torrent_result-manifest p l mi info r d h

with_metainfo-manifest :
    (p : Parsers) (l : Limits) (mi : Option MetaInfo) (r : Result) (d : Download)
    → with_metainfo p l mi ≡ ok r
    → valid_manifest (described d r) (manifest r.hash r.files) ≡ true
unfolding with_metainfo
with_metainfo-manifest p l none r d h = cc
with_metainfo-manifest p l (some mi) r d h =
    let full = else_ok (mi.info_bytes == 0) invalid_torrent _ r h in
    let small = else_ok (ltb l.max_info_bytes mi.info_bytes) resource_limit _ r full.1 in
    with_info-manifest p l mi mi.info r d small.1

-- The manifest of every torrent that ParseTorrent accepts passes validateManifest on the row that
-- takes its hash, layout and size from the result: a submitted torrent never fails the layout check of
-- the reconciler because of its manifest.
pub parse_torrent-manifest :
    (p : Parsers) (content : GoString) (l : Limits) (r : Result) (d : Download)
    → parse_torrent p content l ≡ ok r
    → valid_manifest (described d r) (manifest r.hash r.files) ≡ true
unfolding parse_torrent
parse_torrent-manifest p content l r d h =
    let limits = else_ok (not (valid_limits l)) invalid_limits _ r h in
    let small = else_ok (ltb l.max_input_bytes (length content)) resource_limit _ r limits.1 in
    with_metainfo-manifest p l (p.load content) r d small.1

-- The name of a component is one that ValidateDownload takes.
safe_component-not_abs : (s : GoString) → contains_byte is_unsafe s ≡ false → is_abs s ≡ false
unfolding contains_byte is_abs
safe_component-not_abs [] h = refl
safe_component-not_abs (c ∷ s) h = ground arith

domain-safe_component : (s : GoString) → safe_component s ≡ true → Validate.safe_component s ≡ true
unfolding safe_component Validate.safe_component
domain-safe_component s h =
    let none_unsafe : contains_byte is_unsafe s ≡ false = ground arith in
    ground (
      arith,
      safe_component-not_abs s none_unsafe,
      contains-weaken (λ c. c == b'/' || c == 0x5C) is_unsafe s (λ c e. ground arith) none_unsafe,
    )

-- Every magnet that ParseMagnet accepts has a hash and a name that ValidateDownload takes.
pub parse_magnet-row :
    (p : Parsers) (raw : GoString) (l : Limits) (r : Result)
    → parse_magnet p raw l ≡ ok r
    → (valid_hash r.hash ≡ true) × (Validate.safe_component r.name ≡ true)
unfolding parse_magnet magnet_result magnet_name
parse_magnet-row p raw l r h =
    let limits = else_ok (not (valid_limits l)) invalid_limits _ r h in
    let small = else_ok (ltb l.max_input_bytes (length raw)) resource_limit _ r limits.1 in
    let q = bind_ok (magnet_query p (p.parse_url raw)) (magnet_result p l) r small.1 in
    let hashed = bind_ok (magnet_v1_hash [] (query_values (bytes "xt") q.0)) _ r q.2 in
    let present = else_ok (is_nil hashed.0) unsupported _ r hashed.2 in
    let named = bind_ok (magnet_name (query_values (bytes "dn") q.0) hashed.0 l) _ r present.1 in
    let one = bind_ok (one_name [] (query_values (bytes "dn") q.0)) _ named.0 named.1 in
    let safe = validate_name-accepted (or_fallback one.0 hashed.0) named.0 l one.2 in
    let tracked =
      bind_ok (normalize_trackers p.parse_url l (query_values (bytes "tr") q.0)) _ r named.2 in
    let canonical =
      magnet_v1_hash-valid [] (query_values (bytes "xt") q.0) hashed.0 refl hashed.1 in
    subst (λ (r : Result). (valid_hash r.hash ≡ true) × (Validate.safe_component r.name ≡ true))
      (ok_injective _ r tracked.2)
      (ground (arith, canonical, present.0), domain-safe_component named.0 safe.1)
