-- ===== src/Torrent/Files/Manifest.antt =====
-- The manifest that a submission stores for a torrent, against the check of the reconciler.
use cd.Prelude.{
  ℕ, ◌+◌, ◌-◌, ◌≡◌, refl, ap, ◌∙◌, ℤ, pos, negsuc, false, ◌||◌, not, some, List, [], ◌∷◌, ltb, leb,
  ◌==◌, is_nil, length, any, max_int64, arith, subst,
}
use cd.Go.Text.{GoString, str_eq, str_eq_refl}
use cd.Domain.Model.{DownloadFile}
use cd.Reconcile.Manifest.{manifest_total, bad_relative_path}
use cd.Torrent.Names.{
  Limits, Checked, ok, resource_limit, invalid_contents, invalid_path, validate_relative_path,
  bind_ok, else_ok, ok_injective,
}
use cd.Torrent.Names.Relative.{validate_relative_path-accepted}
use cd.Torrent.Files.{
  File, FileInfo, Info, single_file, multi_loop, multi_files, add_file, with_length, file_count,
}

-- internal/submission/service.go, `submit`: the row of a file.
abbrev pub download_file : GoString → File → DownloadFile
download_file hash f = record {
  download_hash = hash;
  index = f.index;
  relative_path = f.relative_path;
  size = f.size;
  priority = pos 0;
}

unfoldable pub manifest : GoString → List File → List DownloadFile
manifest hash [] = []
manifest hash (f ∷ fs) = download_file hash f ∷ manifest hash fs

manifest_total-∷ :
    (hash : GoString) (count : ℕ) (seen : List GoString) (total n : ℕ) (path : GoString)
    (fs : List DownloadFile)
    → bad_relative_path path ≡ false
    → any (str_eq path) seen ≡ false
    → ltb (max_int64 - n) total ≡ false
    → manifest_total hash count seen total
        (download_file hash (record { index = pos count; relative_path = path; size = pos n }) ∷ fs)
      ≡ manifest_total hash (count + 1) (path ∷ seen) (total + n) fs
unfolding manifest_total
manifest_total-∷ hash count seen total n path fs good fresh fits = ground (arith, str_eq_refl hash)

with_length_ok {ℓ} :
    {A : Type ℓ} (z : ℤ) (k : ℕ → Checked A) (a : A)
    → with_length z k ≡ ok a
    → (n : ℕ) × (z ≡ pos n) × (k n ≡ ok a)
with_length_ok (pos n) k a h = (n, refl, h)
with_length_ok (negsuc n) k a h = cc

-- The manifest of the files, from the given count on, sums up to the total.
abbrev pub SumsUp : GoString → ℕ → List GoString → ℕ → List File × ℕ → Type 0
SumsUp hash count seen total r = manifest_total hash count seen total (manifest hash r.0) ≡ some r.1

-- What the loop accepts, the reconciler sums up to the same total.
multi_loop-manifest :
    (l : Limits) (hash : GoString) (count : ℕ) (seen : List GoString) (total : ℕ)
    (infos : List FileInfo) (r : List File × ℕ)
    → multi_loop l count seen total infos ≡ ok r
    → SumsUp hash count seen total r
unfolding multi_loop manifest manifest_total
multi_loop-manifest l hash count seen total [] r h =
    subst (SumsUp hash count seen total) (ok_injective ([], total) r h) refl
multi_loop-manifest l hash count seen total (f ∷ fs) r h =
    let room = else_ok (leb l.max_files count) resource_limit _ r h in
    let sized = with_length_ok f.file_length _ r room.1 in
    let n = sized.0 in
    let named = bind_ok (validate_relative_path f.best_path l) _ r sized.2 in
    let path = named.0 in
    let fresh = else_ok (any (str_eq path) seen) invalid_path _ r named.2 in
    let fits = else_ok (ltb (max_int64 - n) total) resource_limit _ r fresh.1 in
    let small = else_ok (ltb l.max_total_size (total + n)) resource_limit _ r fits.1 in
    let rest =
      bind_ok (multi_loop l (count + 1) (path ∷ seen) (total + n) fs) (add_file count path n) r
        small.1 in
    let good = validate_relative_path-accepted f.best_path l path named.1 in
    subst (SumsUp hash count seen total) (ok_injective _ r rest.2) (
      manifest_total-∷ hash count seen total n path (manifest hash rest.0.0) good fresh.0 fits.0
      ∙ multi_loop-manifest l hash (count + 1) (path ∷ seen) (total + n) fs rest.0 rest.1)

-- The manifest of the files of a torrent sums up to its total.
pub multi_files-manifest :
    (info : Info) (l : Limits) (hash : GoString) (r : List File × ℕ)
    → multi_files info l ≡ ok r
    → SumsUp hash 0 [] 0 r × (is_nil r.0 ≡ false)
unfolding multi_files
multi_files-manifest info l hash r h =
    let room = else_ok (ltb l.max_files (file_count info.info_files)) resource_limit _ r h in
    let looped = bind_ok (multi_loop l 0 [] 0 info.upverted_v1_files) _ r room.1 in
    let all_there =
      else_ok (not (length looped.0.0 == file_count info.info_files) || is_nil looped.0.0)
        invalid_contents (ok looped.0) r looped.2 in
    let same = ok_injective looped.0 r all_there.1 in
    (
      subst (SumsUp hash 0 [] 0) same
          (multi_loop-manifest l hash 0 [] 0 info.upverted_v1_files looped.0 looped.1),
      subst (λ (r : List File × ℕ). is_nil r.0 ≡ false) same (ground (arith, all_there.0)),
    )

pub single_file-manifest :
    (info : Info) (name : GoString) (l : Limits) (hash : GoString) (r : File × ℕ)
    → bad_relative_path name ≡ false
    → single_file info name l ≡ ok r
    → SumsUp hash 0 [] 0 (r.0 ∷ [], r.1)
unfolding single_file manifest manifest_total
single_file-manifest info name l hash r good h =
    let sized = with_length_ok info.total_length _ r h in
    let n = sized.0 in
    let small = else_ok (ltb l.max_total_size n) resource_limit (ok _) r sized.2 in
    let alone : 0 + n ≡ n = omega arith in
    subst (λ (r : File × ℕ). SumsUp hash 0 [] 0 (r.0 ∷ [], r.1)) (ok_injective _ r small.1)
      (manifest_total-∷ hash 0 [] 0 n name [] good refl (ground arith) ∙ ap some alone)
