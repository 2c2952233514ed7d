-- ===== src/Fsafe/Confine/Relative.antt =====
-- The elements of a relative path, seen from a base of plain elements.
use mathlib.Core.List.{reverse, reverse_aux-reverse_aux-nil}
use cd.Prelude.{
  ◌≡◌, refl, ap, ◌∙◌, Bool, true, false, ◌&&◌, some, List, [], ◌∷◌, arith, all, Bool-cases, inl,
  inr,
}
use cd.Go.Text.{GoString, bytes, str_eq, has_prefix, cut_prefix, split_on, join_with, str_eq_refl}
use cd.Go.Paths.{without_empty, slash, is_abs, clean, clean_element, clean_elements}
use cd.Go.Paths.Clean.{is_plain, clean_elements-plain, split-plain, plain-no_dots, plain-inside}
use cd.Fsafe.Confine.{elements, abs_of, climb, rel_elements, outside_root, steps_out}

-- The first path's elements begin the second's.
abbrev pub is_prefix : List GoString → List GoString → Bool
is_prefix [] target = true
is_prefix (b ∷ base) [] = false
is_prefix (b ∷ base) (t ∷ target) = str_eq b t && is_prefix base target

pub is_prefix_refl : (es : List GoString) → is_prefix es es ≡ true
is_prefix_refl [] = refl
is_prefix_refl (e ∷ es) = ground (arith, str_eq_refl e, is_prefix_refl es)

pub clean-abs_of : (es : List GoString) → all is_plain es ≡ true → clean (abs_of es) ≡ abs_of es
unfolding clean clean_elements clean_element split_on is_abs join_with str_eq
clean-abs_of [] h = refl
clean-abs_of (e ∷ es) h =
    let path = join_with slash (e ∷ es) in
    let kept : reverse (clean_elements true [] (split_on b'/' path)) ≡ e ∷ es =
      ap (λ ps. reverse (clean_elements true [] ps)) (split-plain e es h)
      ∙ ap reverse (clean_elements-plain true [] (e ∷ es) h)
      ∙ reverse_aux-reverse_aux-nil (e ∷ es) [] in
    ap (λ ps. b'/' ∷ join_with slash ps) kept

without_empty-plain : (es : List GoString) → all is_plain es ≡ true → without_empty es ≡ es
unfolding without_empty
without_empty-plain [] h = refl
without_empty-plain (e ∷ es) h = ground (arith, without_empty-plain es)

pub elements-abs_of : (es : List GoString) → all is_plain es ≡ true → elements (abs_of es) ≡ es
unfolding elements split_on join_with without_empty
elements-abs_of [] h = refl
elements-abs_of (e ∷ es) h = ap without_empty (split-plain e es h) ∙ without_empty-plain (e ∷ es) h

-- Seen from a base of plain elements, the target's elements lead out of it unless it is a prefix.
climb-out :
    (b : GoString) (base target : List GoString)
    → is_plain b ≡ true
    → (es : List GoString) × (climb (b ∷ base) target ≡ some (bytes ".." ∷ es))
unfolding climb steps_out bytes
climb-out b base target h = (steps_out base target, ground arith)

pub rel_elements-prefix :
    (base target : List GoString)
    → all is_plain base ≡ true
    → all is_plain target ≡ true
    → is_prefix base target ≡ true
    → (es : List GoString) × (rel_elements base target ≡ some es) × (all is_plain es ≡ true)
unfolding rel_elements climb
rel_elements-prefix [] target hb ht h = (target, refl, ht)
rel_elements-prefix (b ∷ base) [] hb ht h = cc
rel_elements-prefix (b ∷ base) (t ∷ target) hb ht h =
    let (es, at, plain) =
      rel_elements-prefix base target (ground arith) (ground arith) (ground arith) in
    (es, ground (arith, at), plain)

pub rel_elements-outside :
    (base target : List GoString)
    → all is_plain base ≡ true
    → is_prefix base target ≡ false
    → (es : List GoString) × (rel_elements base target ≡ some (bytes ".." ∷ es))
unfolding rel_elements
rel_elements-outside [] target hb h = cc
rel_elements-outside (b ∷ base) [] hb h = climb-out b base [] (ground arith)
rel_elements-outside (b ∷ base) (t ∷ target) hb h = elim (Bool-cases (str_eq b t)) [
  | inl same ↦
      let (es, at) = rel_elements-outside base target (ground arith) (ground arith) in
      (es, ground (arith, at))
  | inr other ↦
      let (es, at) = climb-out b base (t ∷ target) (ground arith) in (es, ground (arith, at))
]

-- A relative path stays inside where its elements are plain, and leaves where it begins with a climb.
pub join-inside :
    (es : List GoString) → all is_plain es ≡ true → outside_root (join_with slash es) ≡ false
unfolding outside_root join_with str_eq has_prefix cut_prefix bytes
join-inside [] h = refl
join-inside (e ∷ es) h =
    ground (arith, plain-no_dots e es (ground arith), plain-inside e es (ground arith))

pub join-not_dot :
    (es : List GoString) → all is_plain es ≡ true → str_eq (join_with slash es) (bytes ".") ≡ false
unfolding join_with str_eq bytes
join-not_dot [] h = refl
join-not_dot (e ∷ es) h = ground (arith, plain-no_dots e es (ground arith))

pub join-outside : (es : List GoString) → outside_root (join_with slash (bytes ".." ∷ es)) ≡ true
unfolding outside_root join_with str_eq has_prefix cut_prefix bytes
join-outside [] = refl
join-outside (e ∷ es) = refl
