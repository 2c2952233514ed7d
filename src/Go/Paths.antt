-- ===== src/Go/Paths.antt =====
-- Packages path and path/filepath on a Unix system: Clean, Base, Join, IsAbs.
pub mod Clean
use mathlib.Core.List.{reverse}
use cd.Prelude.{Bool, false, ◌||◌, List, [], ◌∷◌, ◌==◌, if◌then◌else◌, is_nil}
use cd.Go.Text.{GoString, str_eq, split_on, join_with}

abbrev pub slash : GoString
slash = b'/' ∷ []

unfoldable pub is_abs : GoString → Bool
is_abs [] = false
is_abs (c ∷ s) = c == b'/'

-- One element of the path against the elements kept so far, the last of them first.
unfoldable pub clean_element : Bool → List GoString → GoString → List GoString
unfolding str_eq
clean_element rooted kept part =
    if is_nil part || str_eq part (b'.' ∷ [])
    then kept
    else if str_eq part (b'.' ∷ b'.' ∷ [])
    then leave kept
    else part ∷ kept
  where
    leave : List GoString → List GoString
    leave [] = if rooted then [] else part ∷ []
    leave (top ∷ rest) = if str_eq top (b'.' ∷ b'.' ∷ []) then part ∷ top ∷ rest else rest

unfoldable pub clean_elements : Bool → List GoString → List GoString → List GoString
unfolding clean_element
clean_elements rooted kept [] = kept
clean_elements rooted kept (part ∷ parts) =
    clean_elements rooted (clean_element rooted kept part) parts

-- path.Clean; filepath.Clean is the same function on Unix
unfoldable pub clean : GoString → GoString
unfolding clean_elements split_on join_with is_abs
clean p =
    let body = join_with slash (reverse (clean_elements (is_abs p) [] (split_on b'/' p))) in
    if is_abs p then b'/' ∷ body else if is_nil body then b'.' ∷ [] else body

drop_slashes : GoString → GoString
drop_slashes [] = []
drop_slashes (c ∷ s) = let rest = drop_slashes s in if c == b'/' then rest else c ∷ s

until_slash : GoString → GoString
until_slash [] = []
until_slash (c ∷ s) = if c == b'/' then [] else c ∷ until_slash s

-- path.Base, on the reversed path
unfoldable pub base : GoString → GoString
unfolding drop_slashes until_slash
base [] = b'.' ∷ []
base (c ∷ s) =
    let name = reverse (until_slash (drop_slashes (reverse (c ∷ s)))) in
    if is_nil name then slash else name

-- The parts that are not empty.
unfoldable pub without_empty : List GoString → List GoString
without_empty [] = []
without_empty (p ∷ ps) = let rest = without_empty ps in if is_nil p then rest else p ∷ rest

-- filepath.Join and path.Join
unfoldable pub join : List GoString → GoString
unfolding without_empty clean
join parts =
    if is_nil (without_empty parts) then [] else clean (join_with slash (without_empty parts))

-- From the last slash on, in the reversed path.
from_slash : GoString → GoString
from_slash [] = []
from_slash (c ∷ s) = let rest = from_slash s in if c == b'/' then c ∷ s else rest

-- filepath.Dir
unfoldable pub dir : GoString → GoString
unfolding from_slash clean
dir p = clean (reverse (from_slash (reverse p)))
