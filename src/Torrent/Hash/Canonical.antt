-- ===== src/Torrent/Hash/Canonical.antt =====
-- The hash that comes out is canonical.
use cd.Prelude.{
  ℕ, ◌+◌, ◌-◌, ◌*◌, ◌≡◌, refl, Bool, true, ◌&&◌, ◌||◌, none, some, List, [], ◌∷◌, arith, ltb, leb,
  ◌==◌, if◌then◌else◌, is_nil, length, all, map, Bool-cases, inl, inr, Option-cases, subst, sym, ap,
  ◌∙◌, if_cases,
}
use Prim.Native.Nat.{◌/◌, ◌%◌}
use cd.Go.Text.{GoString}
use cd.Domain.Validate.{valid_hash, is_hash_byte}
use cd.Torrent.Names.{ok, err, invalid_magnet, Checked-cases, if_ok}
use cd.Torrent.Hash.{
  hex_digit, hex_value, hex_encode, hex_decode, base32_decode, base32_value, is_base32,
  decode_v1_hash, magnet_v1_hash, from_hex, from_base32, is_btih, drop_bytes, hex_form,
}

abbrev are_bytes : List ℕ → Bool
are_bytes bs = all (λ b. ltb b 256) bs

hex_digit-is_hash_byte : (n : ℕ) → ltb n 16 ≡ true → is_hash_byte (hex_digit n) ≡ true
unfolding hex_digit is_hash_byte
hex_digit-is_hash_byte n h = ground arith

all-hex_encode : (bs : List ℕ) → are_bytes bs ≡ true → all is_hash_byte (hex_encode bs) ≡ true
unfolding hex_encode
all-hex_encode [] h = refl
all-hex_encode (b ∷ bs) h = ground (
  arith,
  all-hex_encode bs (ground arith),
  hex_digit-is_hash_byte (b / 16) (ground arith),
  hex_digit-is_hash_byte (b % 16) (ground arith),
)

length-hex_encode : (bs : List ℕ) → length (hex_encode bs) ≡ 2 * length bs
unfolding hex_encode
length-hex_encode [] = refl
length-hex_encode (b ∷ bs) = ground (arith, length-hex_encode bs)

hex_encode-valid_hash :
    (bs : List ℕ) → are_bytes bs ≡ true → length bs ≡ 20 → valid_hash (hex_encode bs) ≡ true
unfolding valid_hash
hex_encode-valid_hash bs h n = ground (arith, all-hex_encode bs h, length-hex_encode bs)

hex_decode-are_bytes : (s bs : List ℕ) → hex_decode s ≡ some bs → are_bytes bs ≡ true
unfolding hex_decode
hex_decode-are_bytes [] bs h = ground arith
hex_decode-are_bytes (a ∷ []) bs h = ground arith
hex_decode-are_bytes (a ∷ b ∷ s) bs h = elim (Option-cases (hex_decode s)) [
  | inl p ↦ ground arith
  | inr q ↦ ground (arith, hex_decode-are_bytes s q.0 q.1)
]

base32_decode-are_bytes : (vs : List ℕ) → are_bytes (base32_decode vs) ≡ true
unfolding base32_decode
base32_decode-are_bytes (a ∷ b ∷ c ∷ d ∷ e ∷ f ∷ g ∷ h ∷ rest) =
    ground (arith, base32_decode-are_bytes rest)
base32_decode-are_bytes _ = refl

-- The value of a lower-case digit.
abbrev digit_value : ℕ → ℕ
digit_value c = if leb 48 c && leb c 57 then c - 48 else c - 87

hex_value-digit :
    (c : ℕ)
    → is_hash_byte c ≡ true
    → (hex_value c ≡ some (digit_value c))
      × (ltb (digit_value c) 16 ≡ true)
      × (hex_digit (digit_value c) ≡ c)
unfolding hex_value hex_digit is_hash_byte
hex_value-digit c h = (ground arith, ground arith, ground arith)

-- Two digits make a byte, and the byte makes the two digits.
hex_encode-∷ :
    (m n : ℕ) (bs : List ℕ)
    → ltb m 16 ≡ true
    → ltb n 16 ≡ true
    → hex_encode ((m * 16 + n) % 256 ∷ bs) ≡ hex_digit m ∷ hex_digit n ∷ hex_encode bs
unfolding hex_encode
hex_encode-∷ m n bs hm hn =
    let high : (m * 16 + n) % 256 / 16 ≡ m = ground arith in
    let low : (m * 16 + n) % 256 % 16 ≡ n = ground arith in rw (high, low)

-- The bytes that an even number of lower-case digits stand for.
record Decoded (s : GoString) : Type 0 where
  pub content : List ℕ
  pub decodes : hex_decode s ≡ some content
  pub encodes : hex_encode content ≡ s
  pub length_eq : length s ≡ 2 * length content

decoded : (n : ℕ) (s : GoString) → length s ≡ 2 * n → all is_hash_byte s ≡ true → Decoded s
unfolding hex_decode hex_encode
decoded n [] even h = record { content = []; decodes = refl; encodes = refl; length_eq = refl }
decoded n (a ∷ []) even h = ground arith
decoded n (a ∷ b ∷ s) even h =
    let d = decoded (n - 1) s (ground arith) (ground arith) in
    let va = hex_value-digit a (ground arith) in
    let vb = hex_value-digit b (ground arith) in
    record {
      content = (digit_value a * 16 + digit_value b) % 256 ∷ d.content;
      decodes = ground (arith, va.0, vb.0, d.decodes);
      encodes = ground (
        arith,
        hex_encode-∷ (digit_value a) (digit_value b) d.content va.1 vb.1,
        va.2,
        vb.2,
        d.encodes,
      );
      length_eq = ground (arith, d.length_eq);
    }

length-valid_hash :
    (h : GoString) → valid_hash h ≡ true → (length h ≡ 40) × (all is_hash_byte h ≡ true)
unfolding valid_hash
length-valid_hash h valid = ground arith

from_hex-fixed : (h : GoString) → valid_hash h ≡ true → from_hex h ≡ ok h
unfolding from_hex
from_hex-fixed h valid =
    let v = length-valid_hash h valid in
    let d = decoded 20 h (omega (arith, v.0)) v.1 in
    let size : length d.content ≡ 20 = omega (arith, d.length_eq, v.0) in
    rw (d.decodes, size, d.encodes)

-- A hash in canonical form stands for itself.
pub decode_v1_hash-fixed : (h : GoString) → valid_hash h ≡ true → decode_v1_hash h ≡ ok h
unfolding decode_v1_hash
decode_v1_hash-fixed h valid = ground (arith, from_hex-fixed h valid, length-valid_hash h valid)

hex_form-valid :
    (bs : List ℕ) (h : GoString)
    → are_bytes bs ≡ true
    → hex_form (some bs) ≡ ok h
    → valid_hash h ≡ true
hex_form-valid bs h small e =
    let c = if_ok (length bs == 20) (hex_encode bs) h invalid_magnet e in
    subst (λ x. valid_hash x ≡ true) c.1 (hex_encode-valid_hash bs small (ground (arith, c.0)))

from_hex-valid : (value h : GoString) → from_hex value ≡ ok h → valid_hash h ≡ true
unfolding from_hex
from_hex-valid value h e = elim (Option-cases (hex_decode value)) [
  | inl p ↦ let bad : hex_form none ≡ ok h = ap hex_form (sym p) ∙ e in cc
  | inr q ↦ hex_form-valid q.0 h (hex_decode-are_bytes value q.0 q.1) (ap hex_form (sym q.1) ∙ e)
]

from_base32-valid : (value h : GoString) → from_base32 value ≡ ok h → valid_hash h ≡ true
unfolding from_base32
from_base32-valid value h e =
    hex_form-valid (base32_decode (map base32_value value)) h
      (base32_decode-are_bytes (map base32_value value)) e

-- What is decoded is canonical.
pub decode_v1_hash-valid : (value h : GoString) → decode_v1_hash value ≡ ok h → valid_hash h ≡ true
unfolding decode_v1_hash
decode_v1_hash-valid value h e =
    let base32 =
      if length value == 32 && all is_base32 value then from_base32 value else err invalid_magnet in
    elim (if_cases (length value == 40) (from_hex value) base32 (ok h) e) [
      | inl p ↦ from_hex-valid value h p
      | inr q ↦
          elim (if_cases (length value == 32 && all is_base32 value) (from_base32 value)
            (err invalid_magnet) (ok h) q) [ inl p ↦ from_base32-valid value h p | inr n ↦ cc ]
    ]

-- The hash of a magnet is in the form that ValidateDownload asks of a row's hash, unless the magnet has
-- none.
pub magnet_v1_hash-valid :
    (seen : GoString) (values : List GoString) (h : GoString)
    → (is_nil seen || valid_hash seen) ≡ true
    → magnet_v1_hash seen values ≡ ok h
    → (is_nil h || valid_hash h) ≡ true
unfolding magnet_v1_hash
magnet_v1_hash-valid seen [] h start e = ground arith
magnet_v1_hash-valid seen (value ∷ values) h start e = elim (Bool-cases (is_btih value)) [
  | inl p ↦ elim (Checked-cases (decode_v1_hash (drop_bytes 9 value))) [
    | inl (d, q) ↦
        let sound = decode_v1_hash-valid (drop_bytes 9 value) d q in
        ground (arith, magnet_v1_hash-valid d values h (ground arith))
    | inr (x, q) ↦ ground arith
  ]
  | inr n ↦ magnet_v1_hash-valid seen values h start (ground arith)
]
