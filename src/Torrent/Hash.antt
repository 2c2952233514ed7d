-- ===== src/Torrent/Hash.antt =====
-- The v1 info hash of a magnet, and its canonical form: 40 lower-case hexadecimal digits.
pub mod Canonical
use cd.Prelude.{
  ℕ, ◌+◌, ◌-◌, ◌*◌, Bool, true, false, ◌&&◌, ◌||◌, not, Option, none, some, List, [], ◌∷◌, ◌++◌,
  ltb, leb, ◌==◌, if◌then◌else◌, is_nil, length, all, map, take,
}
use Prim.Native.Nat.{◌/◌, ◌%◌, zero, suc}
use cd.Go.Text.{GoString, bytes, str_eq}
use cd.Torrent.Names.{Checked, ok, err, invalid_magnet, ◌>>=◌}

-- The digit of package hex, and its value.
unfoldable pub hex_digit : ℕ → ℕ
hex_digit n = if ltb n 10 then 48 + n else 87 + n

unfoldable pub hex_value : ℕ → Option ℕ
hex_value c =
    if leb 48 c && leb c 57
    then some (c - 48)
    else if leb 97 c && leb c 102
    then some (c - 87)
    else if leb 65 c && leb c 70
    then some (c - 55)
    else none

-- hex.EncodeToString
unfoldable pub hex_encode : List ℕ → GoString
unfolding hex_digit
hex_encode [] = []
hex_encode (b ∷ bs) = hex_digit (b / 16) ∷ hex_digit (b % 16) ∷ hex_encode bs

abbrev pub push_byte : Option ℕ → Option ℕ → Option (List ℕ) → Option (List ℕ)
push_byte (some a) (some b) (some bs) = some ((a * 16 + b) % 256 ∷ bs)
push_byte _ _ _ = none

-- hex.DecodeString
unfoldable pub hex_decode : GoString → Option (List ℕ)
unfolding hex_value
hex_decode [] = some []
hex_decode (a ∷ []) = none
hex_decode (a ∷ b ∷ s) = let rest = hex_decode s in push_byte (hex_value a) (hex_value b) rest

-- The letters and digits of base32.
abbrev pub is_base32 : ℕ → Bool
is_base32 c = leb 97 c && leb c 122 || leb 65 c && leb c 90 || leb 50 c && leb c 55

-- strings.ToUpper on such a byte, and the value of the byte in the alphabet of package base32.
unfoldable pub base32_value : ℕ → ℕ
base32_value c =
    if leb 97 c && leb c 122 then c - 97 else if leb 65 c && leb c 90 then c - 65 else c - 24

-- Eight digits are five bytes; the strings that come here are 32 digits.
unfoldable pub base32_decode : List ℕ → List ℕ
base32_decode (a ∷ b ∷ c ∷ d ∷ e ∷ f ∷ g ∷ h ∷ rest) =
    (a * 8 + b / 4) % 256
    ∷ (b * 64 + c * 2 + d / 16) % 256
    ∷ (d * 16 + e / 2) % 256
    ∷ (e * 128 + f * 4 + g / 8) % 256
    ∷ (g * 32 + h) % 256
    ∷ base32_decode rest
base32_decode _ = []

abbrev pub hex_form : Option (List ℕ) → Checked GoString
hex_form none = err invalid_magnet
hex_form (some bs) = if length bs == 20 then ok (hex_encode bs) else err invalid_magnet

-- The two forms of a hash, the bytes of which are written in hexadecimal.
unfoldable pub from_hex : GoString → Checked GoString
unfolding hex_decode hex_encode
from_hex value = hex_form (hex_decode value)

unfoldable pub from_base32 : GoString → Checked GoString
unfolding base32_decode base32_value hex_encode
from_base32 value = hex_form (some (base32_decode (map base32_value value)))

-- `decodeV1Hash`; no string has both lengths.
unfoldable pub decode_v1_hash : GoString → Checked GoString
unfolding from_hex from_base32
decode_v1_hash value =
    if length value == 40
    then from_hex value
    else if length value == 32 && all is_base32 value
    then from_base32 value
    else err invalid_magnet

-- strings.EqualFold with `urn:btih:`, of whose letters none folds to one outside ASCII.
unfoldable pub lower : ℕ → ℕ
lower c = if leb 65 c && leb c 90 then c + 32 else c

abbrev pub btih : GoString
btih = bytes "urn:btih:"

abbrev pub drop_bytes : ℕ → GoString → GoString
drop_bytes zero s = s
drop_bytes (suc n) [] = []
drop_bytes (suc n) (c ∷ s) = drop_bytes n s

abbrev pub is_btih : GoString → Bool
is_btih value = leb 9 (length value) && str_eq (map lower (take 9 value)) btih

abbrev agree : GoString → GoString → Checked GoString → Checked GoString
agree hash decoded rest =
    if not (is_nil hash) && not (str_eq hash decoded) then err invalid_magnet else rest

-- The loop of `magnetV1Hash`; the empty hash where no value is one.
unfoldable pub magnet_v1_hash : GoString → List GoString → Checked GoString
unfolding decode_v1_hash lower
magnet_v1_hash hash [] = ok hash
magnet_v1_hash hash (value ∷ values) =
    let skipped = magnet_v1_hash hash values in
    if not (is_btih value) then skipped else do
      decoded ← decode_v1_hash (drop_bytes 9 value)
      agree hash decoded (magnet_v1_hash decoded values)
