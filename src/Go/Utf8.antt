-- ===== src/Go/Utf8.antt =====
-- unicode/utf8.ValidString and unicode.IsControl over the bytes of a string.
pub mod Append
use cd.Prelude.{
  ℕ, Bool, true, false, ◌&&◌, ◌||◌, Option, none, some, [], ◌∷◌, ◌-◌, ◌==◌, leb, ltb, if◌then◌else◌,
}
use cd.Go.Text.{GoString}

-- How many continuation bytes are still due, and the range of the next one.
pub record Expect : Type 0 where
  pub need : ℕ
  pub lo : ℕ
  pub hi : ℕ

abbrev pub boundary : Expect
boundary = record { need = 0; lo = 0; hi = 0 }

abbrev in_range : ℕ → ℕ → ℕ → Bool
in_range lo hi b = leb lo b && leb b hi

-- The first byte of a rune, by the table of RFC 3629.
unfoldable pub lead : ℕ → Option Expect
lead b =
    if ltb b 0x80
    then some boundary
    else if in_range 0xC2 0xDF b
    then some (record { need = 1; lo = 0x80; hi = 0xBF })
    else if b == 0xE0
    then some (record { need = 2; lo = 0xA0; hi = 0xBF })
    else if b == 0xED
    then some (record { need = 2; lo = 0x80; hi = 0x9F })
    else if in_range 0xE1 0xEF b
    then some (record { need = 2; lo = 0x80; hi = 0xBF })
    else if b == 0xF0
    then some (record { need = 3; lo = 0x90; hi = 0xBF })
    else if in_range 0xF1 0xF3 b
    then some (record { need = 3; lo = 0x80; hi = 0xBF })
    else if b == 0xF4
    then some (record { need = 3; lo = 0x80; hi = 0x8F })
    else none

unfoldable pub after_byte : Expect → ℕ → Option Expect
unfolding lead
after_byte e b =
    if e.need == 0
    then lead b
    else if in_range e.lo e.hi b
    then some (record { need = e.need - 1; lo = 0x80; hi = 0xBF })
    else none

unfoldable pub scan : Expect → GoString → Bool
unfolding after_byte
scan e [] = e.need == 0
scan e (b ∷ s) = elim (after_byte e b) [ none ↦ false | some e' ↦ scan e' s ]

unfoldable pub valid_string : GoString → Bool
unfolding scan
valid_string s = scan boundary s

-- strings.ContainsFunc(s, unicode.IsControl): the ASCII controls, and U+0080 to U+009F, which are
-- the byte 0xC2 and one of 0x80 to 0x9F. A byte 0xC2 continues no rune, so pairs can be looked for.
unfoldable pub contains_control : GoString → Bool
contains_control [] = false
contains_control (b ∷ []) = ltb b 0x20 || b == 0x7F
contains_control (b ∷ c ∷ s) =
    ltb b 0x20 || b == 0x7F || (b == 0xC2 && in_range 0x80 0x9F c) || contains_control (c ∷ s)

-- The code points of `unicode.IsSpace`, by the length of their encoding.
unfoldable pub ascii_space : ℕ → Bool
ascii_space a = a == 32 || (leb 9 a && leb a 13)

unfoldable pub space_of_two : ℕ → ℕ → Bool
space_of_two a b = a == 194 && (b == 133 || b == 160)

unfoldable pub space_of_three : ℕ → ℕ → ℕ → Bool
space_of_three a b c =
    (a == 225 && b == 154 && c == 128)
    || (a == 226 && b == 128 && (leb 128 c && leb c 138 || c == 168 || c == 169 || c == 175))
    || (a == 226 && b == 129 && c == 159)
    || (a == 227 && b == 128 && c == 128)

-- `strings.TrimSpace(s) == ""`
unfoldable pub is_blank : GoString → Bool
unfolding ascii_space space_of_two space_of_three
is_blank [] = true
is_blank (a ∷ []) = ascii_space a
is_blank (a ∷ b ∷ []) = (ascii_space a && ascii_space b) || space_of_two a b
is_blank (a ∷ b ∷ c ∷ r) =
    (ascii_space a && is_blank (b ∷ c ∷ r))
    || (space_of_two a b && is_blank (c ∷ r))
    || (space_of_three a b c && is_blank r)
