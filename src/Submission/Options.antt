-- ===== src/Submission/Options.antt =====
-- internal/submission/service.go: categories, tags, names and the line of a magnet.
use cd.Prelude.{
  ℕ, Bool, true, false, ◌&&◌, ◌||◌, not, Option, none, some, List, [], ◌∷◌, ltb, ◌==◌,
  if◌then◌else◌, is_nil, any,
}
use cd.Go.Text.{GoString, bytes, str_eq, contains_byte, split_on, join_with}
use cd.Go.Utf8.{valid_string}
use cd.Domain.Redact.{trim_space}

-- A control character of ASCII. In a Go string a byte below 0x80 is a rune of its own.
abbrev pub is_ascii_control : ℕ → Bool
is_ascii_control c = ltb c 0x20 || c == 0x7F

-- `CanonicalCategory`; `lower` is strings.ToLower.
unfoldable pub canonical_category : (GoString → GoString) → GoString → Bool → Option GoString
canonical_category lower raw allow_empty =
    if not (valid_string raw)
    then none
    else if is_nil name
    then (if allow_empty then some [] else none)
    else if str_eq name (bytes ".")
        || str_eq name (bytes "..")
        || contains_byte (λ c. c == b'/' || c == 0x5C) name
    then none
    else if contains_byte is_ascii_control name
    then none
    else some name
  where
    name : GoString
    name = lower (trim_space raw)

-- `safeRetainedName`
unfoldable pub safe_retained_name : GoString → Bool
safe_retained_name name =
    not (
      is_nil name
      || str_eq name (bytes ".")
      || str_eq name (bytes "..")
      || not (valid_string name)
      || contains_byte (λ c. c == b'/' || c == 0x5C || c == 0) name)
    && not (contains_byte is_ascii_control name)

-- strings.ReplaceAll(value, "\r\n", "\n")
unfoldable pub unix_lines : GoString → GoString
unix_lines [] = []
unix_lines (a ∷ []) = a ∷ []
unix_lines (a ∷ b ∷ s) =
    let one = unix_lines (b ∷ s) in
    let two = unix_lines s in if a == 0x0D && b == 0x0A then b ∷ two else a ∷ one

-- `oneMagnetLine`
unfoldable pub one_magnet_line : GoString → Option GoString
unfolding unix_lines
one_magnet_line value = only (split_on 0x0A (unix_lines value))
  where
    only : List GoString → Option GoString
    only (line ∷ []) = if is_nil (trim_space line) then none else some (trim_space line)
    only lines = none

-- The loop of `canonicalTags`: the tags that are kept, or `none` at the first bad one.
unfoldable pub tag_loop : List GoString → List GoString → Option (List GoString)
tag_loop seen [] = some []
tag_loop seen (raw ∷ parts) = elim (is_nil part) [
  | true ↦ tag_loop seen parts
  | false ↦
      elim (contains_byte (λ c. c == b',' || c == 0) part || contains_byte is_ascii_control part) [
        | true ↦ none
        | false ↦ elim (any (str_eq part) seen) [
          | true ↦ tag_loop seen parts
          | false ↦ kept (tag_loop (part ∷ seen) parts)
        ]
      ]
]
  where
    part : GoString
    part = trim_space raw

    kept : Option (List GoString) → Option (List GoString)
    kept none = none
    kept (some tags) = some (part ∷ tags)

-- `canonicalTags`
unfoldable pub canonical_tags : GoString → Bool → Option GoString
unfolding tag_loop
canonical_tags raw required = elim (tag_loop [] (split_on b',' raw)) [
  | none ↦ none
  | some tags ↦ if required && is_nil tags then none else some (join_with (b',' ∷ []) tags)
]
