-- ===== src/Go/Paths/Clean.antt =====
-- Paths that Clean leaves as they are.
use mathlib.Core.List.{reverse, reverse_aux, reverse_aux-reverse_aux-nil}
use cd.Prelude.{
  ◌≡◌, refl, ap, ◌∙◌, Bool, true, false, ◌||◌, List, [], ◌∷◌, ◌==◌, arith, not, all, is_nil,
}
use cd.Go.Text.{GoString, str_eq, split_on, join_with, contains_byte, bytes, has_prefix, cut_prefix}
use cd.Go.Text.Split.{split_on-join_with}
use cd.Go.Paths.{slash, is_abs, clean, clean_element, clean_elements, join}

-- A part that Clean keeps.
abbrev pub is_plain : GoString → Bool
is_plain s = not (
    is_nil s
    || str_eq s (b'.' ∷ [])
    || str_eq s (b'.' ∷ b'.' ∷ [])
    || contains_byte (λ c. c == b'/') s)

pub clean_elements-plain :
    (rooted : Bool) (kept parts : List GoString)
    → all is_plain parts ≡ true
    → clean_elements rooted kept parts ≡ reverse_aux parts kept
unfolding clean_elements clean_element
clean_elements-plain rooted kept [] h = refl
clean_elements-plain rooted kept (p ∷ ps) h =
    ground (arith, clean_elements-plain rooted (p ∷ kept) ps)

pub plain-relative :
    (part : GoString) (parts : List GoString)
    → is_plain part ≡ true
    → is_abs (join_with slash (part ∷ parts)) ≡ false
unfolding is_abs join_with contains_byte
plain-relative [] parts h = ground arith
plain-relative (c ∷ s) [] h = ground arith
plain-relative (c ∷ s) (q ∷ qs) h = ground arith

pub plain-nonempty :
    (part : GoString) (parts : List GoString)
    → is_plain part ≡ true
    → is_nil (join_with slash (part ∷ parts)) ≡ false
unfolding join_with
plain-nonempty [] parts h = ground arith
plain-nonempty (c ∷ s) [] h = refl
plain-nonempty (c ∷ s) (q ∷ qs) h = refl

pub split-plain :
    (part : GoString) (parts : List GoString)
    → all is_plain (part ∷ parts) ≡ true
    → split_on b'/' (join_with slash (part ∷ parts)) ≡ part ∷ parts
split-plain part parts h = split_on-join_with b'/' part parts (no_slash (part ∷ parts) h)
  where
    no_slash :
        (ps : List GoString)
        → all is_plain ps ≡ true
        → all (λ s. not (contains_byte (λ c. c == b'/') s)) ps ≡ true
    no_slash [] h = refl
    no_slash (p ∷ ps) h = ground (arith, no_slash ps)

-- Plain parts joined are a clean path.
pub clean-join_with :
    (part : GoString) (parts : List GoString)
    → all is_plain (part ∷ parts) ≡ true
    → clean (join_with slash (part ∷ parts)) ≡ join_with slash (part ∷ parts)
unfolding clean
clean-join_with part parts h =
    let path = join_with slash (part ∷ parts) in
    let kept : reverse (clean_elements false [] (split_on b'/' path)) ≡ part ∷ parts =
      ap (λ ps. reverse (clean_elements false [] ps)) (split-plain part parts h)
      ∙ ap reverse (clean_elements-plain false [] (part ∷ parts) h)
      ∙ reverse_aux-reverse_aux-nil (part ∷ parts) [] in
    rw (plain-relative part parts (ground arith), kept, plain-nonempty part parts (ground arith))

pub clean-nonempty : (p : GoString) → is_nil (clean p) ≡ false
unfolding clean
clean-nonempty p = ground arith

-- What is joined to a path that is not empty is not empty.
pub join-nonempty :
    (p : GoString) (ps : List GoString) → is_nil p ≡ false → is_nil (join (p ∷ ps)) ≡ false
unfolding join
join-nonempty p ps h = ground (arith, clean-nonempty (join_with slash (p ∷ ps)))

-- A path of plain parts is neither a dot path nor one that climbs.
pub plain-no_dots :
    (part : GoString) (parts : List GoString)
    → is_plain part ≡ true
    → (str_eq (join_with slash (part ∷ parts)) (bytes ".") ≡ false)
      × (str_eq (join_with slash (part ∷ parts)) (bytes "..") ≡ false)
unfolding join_with str_eq bytes
plain-no_dots part [] h = (ground arith, ground arith)
plain-no_dots [] (q ∷ qs) h = ground arith
plain-no_dots (c ∷ []) (q ∷ qs) h = (ground arith, ground arith)
plain-no_dots (c ∷ d ∷ []) (q ∷ qs) h = (ground arith, ground arith)
plain-no_dots (c ∷ d ∷ e ∷ s) (q ∷ qs) h = (ground arith, ground arith)

pub plain-inside :
    (part : GoString) (parts : List GoString)
    → is_plain part ≡ true
    → has_prefix (join_with slash (part ∷ parts)) (bytes "../") ≡ false
unfolding join_with str_eq bytes has_prefix cut_prefix contains_byte
plain-inside [] parts h = ground arith
plain-inside (c ∷ []) [] h = ground arith
plain-inside (c ∷ d ∷ []) [] h = ground arith
plain-inside (c ∷ d ∷ e ∷ s) [] h = ground arith
plain-inside (c ∷ []) (q ∷ qs) h = ground arith
plain-inside (c ∷ d ∷ []) (q ∷ qs) h = ground arith
plain-inside (c ∷ d ∷ e ∷ s) (q ∷ qs) h = ground arith
