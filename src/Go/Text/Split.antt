-- ===== src/Go/Text/Split.antt =====
-- Splitting what was joined, and bytes of the whole.
use cd.Prelude.{ℕ, ◌≡◌, refl, Bool, true, false, ◌||◌, List, [], ◌∷◌, ◌++◌, ◌==◌, arith, not, all}
use cd.Go.Text.{GoString, split_on, join_with, contains_byte}

pub contains_byte-append :
    (p : ℕ → Bool) (s t : GoString)
    → contains_byte p (s ++ t) ≡ (contains_byte p s || contains_byte p t)
unfolding contains_byte
contains_byte-append p [] t = refl
contains_byte-append p (c ∷ s) t = ground (arith, contains_byte-append p s t)

split_on-free :
    (sep : ℕ) (s : GoString) → contains_byte (λ c. c == sep) s ≡ false → split_on sep s ≡ s ∷ []
unfolding split_on contains_byte
split_on-free sep [] h = refl
split_on-free sep (c ∷ s) h = ground (arith, split_on-free sep s)

split_on-append :
    (sep : ℕ) (s t : GoString)
    → contains_byte (λ c. c == sep) s ≡ false
    → split_on sep (s ++ sep ∷ t) ≡ s ∷ split_on sep t
unfolding split_on contains_byte
split_on-append sep [] t h = ground arith
split_on-append sep (c ∷ s) t h = ground (arith, split_on-append sep s t)

-- What is joined with a byte that no part has splits into the parts again.
pub split_on-join_with :
    (sep : ℕ) (part : GoString) (parts : List GoString)
    → all (λ s. not (contains_byte (λ c. c == sep) s)) (part ∷ parts) ≡ true
    → split_on sep (join_with (sep ∷ []) (part ∷ parts)) ≡ part ∷ parts
unfolding join_with
split_on-join_with sep part [] h = split_on-free sep part (ground arith)
split_on-join_with sep part (q ∷ qs) h = ground (
  arith,
  split_on-append sep part (join_with (sep ∷ []) (q ∷ qs)) (ground arith),
  split_on-join_with sep q qs (ground arith),
)
