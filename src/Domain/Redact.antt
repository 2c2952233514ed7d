-- ===== src/Domain/Redact.antt =====
-- internal/domain/errors.go: what of an error's text leaves the process. `to_lower` is strings.ToLower.
pub mod Clean
use cd.Prelude.{
  ℕ, zero, suc, Bool, true, false, ◌&&◌, ◌||◌, not, List, [], ◌∷◌, leb, ltb, if◌then◌else◌, is_nil,
  length, any, take,
}
use cd.Go.Text.{GoString, bytes, has_prefix}
use cd.Go.Utf8.{valid_string, is_blank, ascii_space, space_of_two, space_of_three}
use cd.Domain.Model.{Download}

-- strings.Contains, the string first
unfoldable pub contains : GoString → GoString → Bool
contains [] m = is_nil m
contains (c ∷ s) m = has_prefix (c ∷ s) m || contains s m

-- The two halves of strings.TrimSpace.
unfoldable pub trim_right : GoString → GoString
trim_right [] = []
trim_right (c ∷ s) = let rest = trim_right s in if is_blank (c ∷ s) then [] else c ∷ rest

unfoldable pub trim_left : GoString → GoString
trim_left [] = []
trim_left (a ∷ []) = if ascii_space a then [] else a ∷ []
trim_left (a ∷ b ∷ []) =
    let one = trim_left (b ∷ []) in
    if ascii_space a then one else if space_of_two a b then [] else a ∷ b ∷ []
trim_left (a ∷ b ∷ c ∷ s) =
    let one = trim_left (b ∷ c ∷ s) in
    let two = trim_left (c ∷ s) in
    let three = trim_left s in
    if ascii_space a
    then one
    else if space_of_two a b
    then two
    else if space_of_three a b c
    then three
    else a ∷ b ∷ c ∷ s

unfoldable pub trim_space : GoString → GoString
unfolding trim_left trim_right
trim_space s = trim_right (trim_left s)

abbrev pub redacted_error_text : GoString
redacted_error_text = bytes "error details redacted"

abbrev pub max_error_text_bytes : ℕ
max_error_text_bytes = 1024

abbrev pub sensitive_error_markers : List GoString
sensitive_error_markers =
    bytes "magnet:"
    ∷ bytes "tracker"
    ∷ bytes "passkey"
    ∷ bytes "token"
    ∷ bytes "sid="
    ∷ bytes "authorization"
    ∷ bytes "bearer"
    ∷ bytes "cookie"
    ∷ bytes "secret"
    ∷ bytes "password"
    ∷ []

-- The tests of a trimmed text.
unfoldable pub has_sensitive : (GoString → GoString) → GoString → GoString → Bool
unfolding contains
has_sensitive to_lower text uri =
    (not (is_nil uri) && contains text uri)
    || any (contains (to_lower text)) sensitive_error_markers

unfoldable pub is_sensitive_error : (GoString → GoString) → GoString → GoString → Bool
unfolding trim_space has_sensitive
is_sensitive_error to_lower text uri =
    not (is_nil (trim_space text)) && has_sensitive to_lower (trim_space text) uri

-- The loop that shortens the cut text to valid UTF-8, by its length.
unfoldable pub cut_valid : ℕ → GoString → GoString
cut_valid zero s = []
cut_valid (suc n) s =
    let shorter = cut_valid n s in if valid_string (take (suc n) s) then take (suc n) s else shorter

unfoldable pub sanitize_error_text : (GoString → GoString) → GoString → GoString → GoString
unfolding trim_space is_sensitive_error cut_valid
sanitize_error_text to_lower text uri =
    if is_nil (trim_space text)
    then []
    else if is_sensitive_error to_lower (trim_space text) uri
    then redacted_error_text
    else if leb (length (trim_space text)) max_error_text_bytes
    then trim_space text
    else cut_valid max_error_text_bytes (trim_space text)

abbrev pub frozen_paths : Download → List GoString
frozen_paths d =
    d.cloud_folder ∷ d.save_path ∷ d.cloud_result_path ∷ d.copy_source_path ∷ d.content_path ∷ []

abbrev pub names_path : GoString → GoString → Bool
names_path text path = not (is_nil (trim_space path)) && contains text (trim_space path)

unfoldable pub sanitize_download_error : (GoString → GoString) → Download → GoString
unfolding sanitize_error_text
sanitize_download_error to_lower d =
    if any (names_path (trim_space d.last_error)) (frozen_paths d)
    then redacted_error_text
    else sanitize_error_text to_lower (trim_space d.last_error) d.submission_uri
