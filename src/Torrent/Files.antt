-- ===== src/Torrent/Files.antt =====
-- The files of a torrent: singleFile and multiFiles.
pub mod Manifest
use cd.Prelude.{
  ℕ, ◌+◌, ◌-◌, ℤ, pos, negsuc, Bool, true, false, ◌||◌, not, List, [], ◌∷◌, ltb, leb, ◌==◌,
  if◌then◌else◌, is_nil, length, any, max_int64, Option, some, none,
}
use cd.Go.Text.{GoString, str_eq}
use cd.Torrent.Names.{
  Limits, Checked, ok, err, resource_limit, invalid_contents, invalid_path, ◌>>=◌,
  validate_relative_path,
}

pub record File : Type 0 where
  pub index : ℤ
  pub relative_path : GoString
  pub size : ℤ

-- What the source reads of a metainfo.FileInfo.
pub record FileInfo : Type 0 where
  pub file_length : ℤ
  pub best_path : List GoString

-- What the source reads of a metainfo.Info: its fields, and the answers of HasV1, BestName and
-- UpvertedV1Files. A nil list of files is `none`.
pub record Info : Type 0 where
  pub total_length : ℤ
  pub piece_length : ℤ
  pub private : Option Bool
  pub info_files : Option (List FileInfo)
  pub has_v1 : Bool
  pub best_name : GoString
  pub upverted_v1_files : List FileInfo

-- A negative length is refused.
abbrev pub with_length {ℓ} : {A : Type ℓ} → ℤ → (ℕ → Checked A) → Checked A
with_length (negsuc n) k = err invalid_contents
with_length (pos n) k = k n

unfoldable pub single_file : Info → GoString → Limits → Checked (File × ℕ)
single_file info name l = with_length info.total_length (λ n.
    if ltb l.max_total_size n
    then err resource_limit
    else ok (record { index = pos 0; relative_path = name; size = pos n }, n))

abbrev pub add_file : ℕ → GoString → ℕ → List File × ℕ → Checked (List File × ℕ)
add_file count path n (files, total) =
    ok (record { index = pos count; relative_path = path; size = pos n } ∷ files, total)

-- The loop of `multiFiles`: the files from the given count on, and the total.
unfoldable pub multi_loop : Limits → ℕ → List GoString → ℕ → List FileInfo → Checked (List File × ℕ)
unfolding validate_relative_path
multi_loop l count seen total [] = ok ([], total)
multi_loop l count seen total (f ∷ fs) =
    if leb l.max_files count
    then err resource_limit
    else with_length f.file_length (λ n. validate_relative_path f.best_path l >>= λ path.
        if any (str_eq path) seen
        then err invalid_path
        else if ltb (max_int64 - n) total
        then err resource_limit
        else if ltb l.max_total_size (total + n)
        then err resource_limit
        else multi_loop l (count + 1) (path ∷ seen) (total + n) fs >>= add_file count path n)

-- `len(info.Files)`
abbrev pub file_count : Option (List FileInfo) → ℕ
file_count none = 0
file_count (some fs) = length fs

abbrev pub complete : ℕ → List File × ℕ → Checked (List File × ℕ)
complete declared (files, total) =
    if not (length files == declared) || is_nil files
    then err invalid_contents
    else ok (files, total)

unfoldable pub multi_files : Info → Limits → Checked (List File × ℕ)
unfolding multi_loop
multi_files info l =
    if ltb l.max_files (file_count info.info_files)
    then err resource_limit
    else multi_loop l 0 [] 0 info.upverted_v1_files >>= complete (file_count info.info_files)
