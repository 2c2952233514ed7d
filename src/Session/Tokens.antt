-- ===== src/Session/Tokens.antt =====
-- newToken, validSID: session identifiers as unpadded URL-safe base64 of 32 random bytes.
pub mod Format
use cd.Prelude.{
  ℕ, zero, suc, ◌+◌, ◌-◌, ◌*◌, ◌≡◌, refl, Bool, true, false, ◌&&◌, ◌||◌, Option, none, some, List,
  [], ◌∷◌, ◌++◌, arith, ltb, leb, ◌==◌, if◌then◌else◌, length, ◌>>=◌,
}
use cd.Go.Text.{GoString}
use Prim.Native.Nat.{◌/◌, ◌%◌}

abbrev pub token_bytes : ℕ
token_bytes = 32

-- The URL-safe alphabet of package base64, in bytes.
unfoldable pub symbol : ℕ → ℕ
symbol i =
    if ltb i 26
    then 65 + i
    else if ltb i 52
    then 97 + (i - 26)
    else if ltb i 62
    then 48 + (i - 52)
    else if i == 62
    then 45
    else 95

-- base64.RawURLEncoding.EncodeToString
unfoldable pub encode : List ℕ → GoString
encode [] = []
encode (a ∷ []) = symbol (a / 4) ∷ symbol ((a % 4) * 16) ∷ []
encode (a ∷ b ∷ []) = symbol (a / 4) ∷ symbol ((a % 4) * 16 + b / 16) ∷ symbol ((b % 16) * 4) ∷ []
encode (a ∷ b ∷ c ∷ rest) =
    symbol (a / 4)
    ∷ symbol ((a % 4) * 16 + b / 16)
    ∷ symbol ((b % 16) * 4 + c / 64)
    ∷ symbol (c % 64)
    ∷ encode rest

-- `io.ReadFull` of the given number of bytes, from the bytes that the source has left.
unfoldable pub read_full : ℕ → List ℕ → Option (List ℕ × List ℕ)
read_full zero bytes = some ([], bytes)
read_full (suc n) [] = none
read_full (suc n) (b ∷ bytes) = do (token, rest) ← read_full n bytes; some (b ∷ token, rest)

unfoldable pub new_token : List ℕ → Option (GoString × List ℕ)
new_token random = do (token, rest) ← read_full token_bytes random; some (encode token, rest)

-- `isRawURLBase64Character`
abbrev pub is_raw_url_base64_character : ℕ → Bool
is_raw_url_base64_character char =
    leb 65 char && leb char 90
    || leb 97 char && leb char 122
    || leb 48 char && leb char 57
    || char == 45
    || char == 95

-- `isFinalTokenCharacter`: A E I M Q U Y, c g k o s w, 0 4 8
abbrev pub is_final_token_character : ℕ → Bool
is_final_token_character char =
    char == 65
    || char == 69
    || char == 73
    || char == 77
    || char == 81
    || char == 85
    || char == 89
    || char == 99
    || char == 103
    || char == 107
    || char == 111
    || char == 115
    || char == 119
    || char == 48
    || char == 52
    || char == 56

-- The loop of `validSID` over all bytes but the last, and its test of the last.
unfoldable pub valid_characters : GoString → Bool
valid_characters [] = false
valid_characters (c ∷ []) = is_final_token_character c
valid_characters (c ∷ d ∷ s) = is_raw_url_base64_character c && valid_characters (d ∷ s)

unfoldable pub valid_sid : GoString → Bool
unfolding valid_characters
valid_sid sid = length sid == 43 && valid_characters sid
