-- ===== src/Go/Utf8/Append.antt =====
-- Valid strings joined, and control characters in the whole.
use cd.Prelude.{◌≡◌, refl, true, ◌||◌, [], ◌∷◌, ◌++◌, ◌==◌, arith, Option-cases, inl, inr}
use cd.Go.Text.{GoString}
use cd.Go.Utf8.{Expect, boundary, scan, after_byte, valid_string, contains_control}

-- Where no continuation byte is due, the range of the next one does not matter.
scan-boundary : (e : Expect) (t : GoString) → (e.need == 0) ≡ true → scan e t ≡ scan boundary t
unfolding scan after_byte
scan-boundary e [] h = ground arith
scan-boundary e (b ∷ t) h = ground arith

scan-append : (e : Expect) (s t : GoString) → scan e s ≡ true → scan e (s ++ t) ≡ scan boundary t
unfolding scan
scan-append e [] t h = scan-boundary e t h
scan-append e (b ∷ s) t h = elim (Option-cases (after_byte e b)) [
  | inl p ↦ ground arith
  | inr (e', p) ↦ ground (arith, scan-append e' s t)
]

pub valid_string-append :
    (s t : GoString) → valid_string s ≡ true → valid_string (s ++ t) ≡ valid_string t
unfolding valid_string
valid_string-append s t h = scan-append boundary s t h

-- A slash neither starts nor ends a control character.
pub contains_control-slash :
    (s t : GoString) → contains_control (s ++ b'/' ∷ t) ≡ (contains_control s || contains_control t)
unfolding contains_control
contains_control-slash [] [] = refl
contains_control-slash [] (b ∷ t) = ground arith
contains_control-slash (a ∷ []) [] = ground arith
contains_control-slash (a ∷ []) (b ∷ t) = ground arith
contains_control-slash (a ∷ b ∷ s) t = ground (arith, contains_control-slash (b ∷ s) t)
