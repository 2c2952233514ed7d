-- ===== src/Fsafe/Confine.antt =====
-- internal/fsafe/fsafe.go: names, reserved components, and the tests that keep a path under a root.
pub mod Relative
pub mod Prefix
use cd.Prelude.{
  Bool, true, false, ◌&&◌, ◌||◌, not, Option, none, some, List, [], ◌∷◌, ◌==◌, if◌then◌else◌,
  is_nil, any,
}
use cd.Go.Text.{GoString, bytes, str_eq, has_prefix, contains_byte, split_on, join_with}
use cd.Go.Utf8.{valid_string, contains_control}
use cd.Go.Paths.{slash, is_abs, clean, without_empty}

-- The elements of a clean absolute path; the root has none.
unfoldable pub elements : GoString → List GoString
unfolding without_empty split_on
elements p = without_empty (split_on b'/' p)

-- The clean absolute path with the given elements.
abbrev pub abs_of : List GoString → GoString
abs_of es = b'/' ∷ join_with slash es

-- A step out of each element of the base that is left, then the elements of the target.
unfoldable pub steps_out : List GoString → List GoString → List GoString
steps_out [] target = target
steps_out (b ∷ base) target = bytes ".." ∷ steps_out base target

-- Past the common elements; a base that climbs has no relative path.
unfoldable pub climb : List GoString → List GoString → Option (List GoString)
unfolding steps_out
climb [] target = some target
climb (b ∷ base) target = elim (str_eq b (bytes "..")) [
  | true ↦ none
  | false ↦ some (steps_out (b ∷ base) target)
]

-- The elements of the target, seen from the base.
unfoldable pub rel_elements : List GoString → List GoString → Option (List GoString)
unfolding climb
rel_elements (b ∷ base) (t ∷ target) = elim (str_eq b t) [
  | true ↦ rel_elements base target
  | false ↦ climb (b ∷ base) (t ∷ target)
]
rel_elements base target = climb base target

-- filepath.Rel of absolute paths; of others it is not called.
unfoldable pub rel : GoString → GoString → Option GoString
rel base target =
    if not (is_abs base && is_abs target)
    then none
    else if str_eq (clean target) (clean base)
    then some (bytes ".")
    else joined (rel_elements (elements (clean base)) (elements (clean target)))
  where
    joined : Option (List GoString) → Option GoString
    joined none = none
    joined (some es) = some (join_with slash es)

-- `outsideRoot`
unfoldable pub outside_root : GoString → Bool
outside_root relative = str_eq relative (bytes "..") || has_prefix relative (bytes "../")

-- `withinOrEqual`
unfoldable pub within_or_equal : GoString → GoString → Bool
unfolding rel
within_or_equal root path = elim (rel root path) [
  | none ↦ false
  | some relative ↦ not (outside_root relative)
]

-- `strictlyWithin`
unfoldable pub strictly_within : GoString → GoString → Bool
unfolding rel
strictly_within root path = elim (rel root path) [
  | none ↦ false
  | some relative ↦ not (str_eq relative (bytes ".")) && not (outside_root relative)
]

-- `rejectReservedComponent`; true where it returns an error.
unfoldable pub has_reserved : GoString → Bool
has_reserved path = any (str_eq (bytes ".cd211")) (split_on b'/' (clean path))

-- `validateName`; true where it returns nil.
unfoldable pub valid_name : GoString → Bool
valid_name name =
    not (is_nil name || str_eq name (bytes ".") || str_eq name (bytes ".."))
    && valid_string name
    && not (contains_byte (λ c. c == b'/' || c == 0x5C) name)
    && not (contains_control name)
