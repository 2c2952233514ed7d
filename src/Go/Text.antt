-- ===== src/Go/Text.antt =====
-- Go strings as lists of bytes, with the functions of package strings that the program calls.
pub mod Split
use Prim.Native.Char.{code}
use cd.Prelude.{
  ℕ, String, ◌≡◌, refl, Bool, true, false, ◌&&◌, ◌||◌, Option, none, some, List, [], ◌∷◌, ◌++◌,
  arith, ◌==◌, if◌then◌else◌, is_some, ltb,
}

abbrev pub GoString : Type 0
GoString = List ℕ

-- An ASCII literal.
unfoldable pub bytes : String → GoString
bytes String.[] = []
bytes (String.◌∷◌ c s) = code c ∷ bytes s

unfoldable pub str_eq : GoString → GoString → Bool
str_eq [] [] = true
str_eq (a ∷ s) (b ∷ t) = a == b && str_eq s t
str_eq _ _ = false

-- strings.CutPrefix
unfoldable pub cut_prefix : GoString → GoString → Option GoString
cut_prefix [] s = some s
cut_prefix (p ∷ ps) [] = none
cut_prefix (p ∷ ps) (c ∷ s) = let rest = cut_prefix ps s in if p == c then rest else none

-- strings.HasPrefix, the string first
unfoldable pub has_prefix : GoString → GoString → Bool
unfolding cut_prefix
has_prefix s p = is_some (cut_prefix p s)

-- strings.TrimPrefix, the string first
unfoldable pub trim_prefix : GoString → GoString → GoString
unfolding cut_prefix
trim_prefix s p = elim (cut_prefix p s) [ some rest ↦ rest | none ↦ s ]

-- strings.ContainsAny for a set of ASCII bytes, given as a test
unfoldable pub contains_byte : (ℕ → Bool) → GoString → Bool
contains_byte p [] = false
contains_byte p (c ∷ s) = p c || contains_byte p s

-- strings.Split on one byte; never empty
unfoldable pub split_on : ℕ → GoString → List GoString
split_on sep [] = [] ∷ []
split_on sep (c ∷ s) = push_byte (c == sep) c (split_on sep s)
  where
    push_byte : Bool → ℕ → List GoString → List GoString
    push_byte true c parts = [] ∷ parts
    push_byte false c [] = (c ∷ []) ∷ []
    push_byte false c (p ∷ ps) = (c ∷ p) ∷ ps

-- strings.Join
unfoldable pub join_with : GoString → List GoString → GoString
join_with sep [] = []
join_with sep (p ∷ []) = p
join_with sep (p ∷ q ∷ ps) = p ++ (sep ++ join_with sep (q ∷ ps))

-- Comparison decides equality.
pub str_eq_refl : (s : GoString) → str_eq s s ≡ true
unfolding str_eq
str_eq_refl [] = refl
str_eq_refl (a ∷ s) = ground (arith, str_eq_refl s)

pub eq_of_str_eq : (s t : GoString) → str_eq s t ≡ true → s ≡ t
unfolding str_eq
eq_of_str_eq [] [] h = refl
eq_of_str_eq (a ∷ s) (b ∷ t) h = ground (arith, eq_of_str_eq s t)
eq_of_str_eq [] (b ∷ t) h = cc
eq_of_str_eq (a ∷ s) [] h = cc

pub str_eq_sym : (s t : GoString) → str_eq s t ≡ str_eq t s
unfolding str_eq
str_eq_sym [] [] = refl
str_eq_sym [] (b ∷ t) = refl
str_eq_sym (a ∷ s) [] = refl
str_eq_sym (a ∷ s) (b ∷ t) = ground (arith, str_eq_sym s t)

cut_prefix-append : (p s : GoString) → cut_prefix p (p ++ s) ≡ some s
unfolding cut_prefix
cut_prefix-append [] s = refl
cut_prefix-append (a ∷ p) s = ground (arith, cut_prefix-append p s)

pub trim_prefix-append : (p s : GoString) → trim_prefix (p ++ s) p ≡ s
unfolding trim_prefix
trim_prefix-append p s = rw (cut_prefix-append p s, trim_prefix)

pub has_prefix-append : (p s : GoString) → has_prefix (p ++ s) p ≡ true
unfolding has_prefix
has_prefix-append p s = rw (cut_prefix-append p s, has_prefix)

-- `s < t` on strings: bytewise, a proper prefix first.
unfoldable pub str_lt : GoString → GoString → Bool
str_lt [] [] = false
str_lt [] (b ∷ t) = true
str_lt (a ∷ s) [] = false
str_lt (a ∷ s) (b ∷ t) = let rest = str_lt s t in if a == b then rest else ltb a b
