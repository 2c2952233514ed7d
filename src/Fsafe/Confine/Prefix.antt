-- ===== src/Fsafe/Confine/Prefix.antt =====
-- The confinement test of paths against a comparison of their elements.

use cd.Prelude.{
  ◌≡◌, refl, ap, sym, ◌∙◌, true, false, ◌&&◌, not, some, List, [], ◌∷◌, arith, all, Bool-cases, inl,
  inr, subst,
}
use cd.Go.Text.{
  GoString, bytes, str_eq, has_prefix, cut_prefix, join_with, str_eq_refl, eq_of_str_eq,
}
use cd.Go.Paths.{slash, is_abs}
use cd.Go.Paths.Clean.{is_plain}
use cd.Fsafe.Confine.{elements, abs_of, rel, outside_root, within_or_equal, strictly_within}
use cd.Fsafe.Confine.Relative.{
  is_prefix_refl, clean-abs_of, elements-abs_of, rel_elements-prefix, rel_elements-outside,
  join-inside, join-not_dot, join-outside, is_prefix,
}

module _ (base target : List GoString) (base_plain : all is_plain base ≡ true)
    (target_plain : all is_plain target ≡ true) where
  rel-prefix :
      is_prefix base target ≡ true
      → str_eq (abs_of target) (abs_of base) ≡ false
      → (es : List GoString) × (rel (abs_of base) (abs_of target) ≡ some (join_with slash es))
        × (all is_plain es ≡ true)
  unfolding rel is_abs
  rel-prefix h other =
      let (es, at, plain) = rel_elements-prefix base target base_plain target_plain h in
      (
        es,
        rw
            (
              clean-abs_of base base_plain,
              clean-abs_of target target_plain,
              other,
              elements-abs_of base base_plain,
              elements-abs_of target target_plain,
              at,
            )
            refl,
        plain,
      )

  rel-outside :
      is_prefix base target ≡ false
      → str_eq (abs_of target) (abs_of base) ≡ false
      → (es : List GoString) × (rel (abs_of base) (abs_of target)
          ≡ some (join_with slash (bytes ".." ∷ es)))
  unfolding rel is_abs
  rel-outside h other =
      let (es, at) = rel_elements-outside base target base_plain h in
      (
        es,
        rw
            (
              clean-abs_of base base_plain,
              clean-abs_of target target_plain,
              other,
              elements-abs_of base base_plain,
              elements-abs_of target target_plain,
              at,
            )
            refl,
      )

  rel_same :
      str_eq (abs_of target) (abs_of base) ≡ true
      → rel (abs_of base) (abs_of target) ≡ some (bytes ".")
  unfolding rel is_abs
  rel_same h = rw (clean-abs_of base base_plain, clean-abs_of target target_plain, h) refl

  same_elements : str_eq (abs_of target) (abs_of base) ≡ true → target ≡ base
  same_elements h =
      sym (elements-abs_of target target_plain)
      ∙ ap elements (eq_of_str_eq (abs_of target) (abs_of base) h)
      ∙ elements-abs_of base base_plain

  is_prefix_antisym : (b t : List GoString) → is_prefix b t ≡ true → is_prefix t b ≡ true → t ≡ b
  is_prefix_antisym [] [] h k = refl
  is_prefix_antisym [] (t ∷ ts) h k = cc
  is_prefix_antisym (b ∷ bs) [] h k = cc
  is_prefix_antisym (b ∷ bs) (t ∷ ts) h k =
      ground (arith, is_prefix_antisym bs ts, eq_of_str_eq b t)

  not_both :
      is_prefix base target ≡ true
      → str_eq (abs_of target) (abs_of base) ≡ false
      → is_prefix target base ≡ false
  not_both under other = elim (Bool-cases (is_prefix target base)) [
    | inl back ↦
        let same : str_eq (abs_of target) (abs_of base) ≡ true =
          subst (λ t. str_eq (abs_of t) (abs_of base) ≡ true)
            (sym (is_prefix_antisym base target under back)) (str_eq_refl (abs_of base)) in
        ground arith
    | inr h ↦ h
  ]

  -- What both tests yield, by what is left of the target.
  within_same :
      str_eq (abs_of target) (abs_of base) ≡ true
      → (within_or_equal (abs_of base) (abs_of target) ≡ true)
        × (strictly_within (abs_of base) (abs_of target) ≡ false)
  unfolding within_or_equal strictly_within outside_root str_eq bytes has_prefix cut_prefix
  within_same same =
      (rw (rel_same same, within_or_equal) refl, rw (rel_same same, strictly_within) refl)

  within_under :
      is_prefix base target ≡ true
      → str_eq (abs_of target) (abs_of base) ≡ false
      → (within_or_equal (abs_of base) (abs_of target) ≡ true)
        × (strictly_within (abs_of base) (abs_of target) ≡ true)
  unfolding within_or_equal strictly_within
  within_under under other =
      let (es, at, plain) = rel-prefix under other in
      (
        rw (at, join-inside es plain, within_or_equal) refl,
        rw (at, join-not_dot es plain, join-inside es plain, strictly_within) refl,
      )

  within_outside :
      is_prefix base target ≡ false
      → str_eq (abs_of target) (abs_of base) ≡ false
      → (within_or_equal (abs_of base) (abs_of target) ≡ false)
        × (strictly_within (abs_of base) (abs_of target) ≡ false)
  unfolding within_or_equal strictly_within
  within_outside outside other =
      let (es, at) = rel-outside outside other in
      (
        rw (at, join-outside es, within_or_equal) refl,
        rw (at, join-outside es, strictly_within) (ground arith),
      )

  -- The test of confinement compares whole elements: the absolute path of plain elements passes
  -- withinOrEqual exactly if the elements of the root, plain too, are the first of its own, and
  -- strictlyWithin exactly if it has more. A plain element is not empty, no dot element and without a
  -- slash.
  pub within-is_prefix :
      (within_or_equal (abs_of base) (abs_of target) ≡ is_prefix base target)
      × (strictly_within (abs_of base) (abs_of target)
          ≡ (is_prefix base target && not (is_prefix target base)))
  within-is_prefix = elim (Bool-cases (str_eq (abs_of target) (abs_of base))) [
    | inl same ↦
        let (wide, strict) = within_same same in
        let reflexive : (is_prefix base target ≡ true) × (is_prefix target base ≡ true) =
          subst (λ t. (is_prefix base t ≡ true) × (is_prefix t base ≡ true))
            (sym (same_elements same)) (is_prefix_refl base, is_prefix_refl base) in
        (ground (arith, wide, reflexive), ground (arith, strict, reflexive))
    | inr other ↦ elim (Bool-cases (is_prefix base target)) [
      | inl under ↦
          let (wide, strict) = within_under under other in
          (ground (arith, wide), ground (arith, strict, not_both under other))
      | inr outside ↦
          let (wide, strict) = within_outside outside other in
          (ground (arith, wide), ground (arith, strict))
    ]
  ]
