-- ===== src/Session/Tokens/Format.antt =====
-- What newToken writes, validSID accepts.
use cd.Prelude.{
  ℕ, zero, suc, ◌*◌, ◌≡◌, refl, Bool, true, some, List, [], ◌∷◌, arith, ltb, leb, ◌==◌, length,
  ◌&&◌, Bool-cases, inl, inr, subst, sym, ◌-◌, ◌+◌, Option-cases,
}
use cd.Go.Text.{GoString}
use cd.Session.Tokens.{
  token_bytes, symbol, encode, read_full, new_token, is_raw_url_base64_character,
  is_final_token_character, valid_characters, valid_sid,
}
use Prim.Native.Nat.{◌%◌}

symbol-is_raw : (i : ℕ) → is_raw_url_base64_character (symbol i) ≡ true
unfolding symbol
symbol-is_raw i = ground arith

eq_of_== : (i n : ℕ) → (i == n) ≡ true → i ≡ n
eq_of_== i n h = ground arith

-- A test that holds of all the numbers below a bound.
all_below : (ℕ → Bool) → ℕ → Bool
all_below p zero = true
all_below p (suc n) = p n && all_below p n

all_below_sound : (p : ℕ → Bool) (n i : ℕ) → all_below p n ≡ true → ltb i n ≡ true → p i ≡ true
unfolding all_below
all_below_sound p zero i h b = ground arith
all_below_sound p (suc n) i h b = elim (Bool-cases (i == n)) [
  | inl same ↦ subst (λ j. p j ≡ true) (sym (eq_of_== i n same)) (ground arith)
  | inr differ ↦ all_below_sound p n i (ground arith) (ground arith)
]

symbol-is_final : (k : ℕ) → is_final_token_character (symbol ((k % 16) * 4)) ≡ true
unfolding symbol all_below
symbol-is_final k =
    all_below_sound (λ i. is_final_token_character (symbol (i * 4))) 16 (k % 16) refl (ground arith)

-- The length of an encoding where two bytes follow whole groups of three.
length-encode : (n : ℕ) (bs : List ℕ) → length bs ≡ 3 * n + 2 → length (encode bs) ≡ 4 * n + 3
unfolding encode
length-encode n [] h = ground arith
length-encode n (a ∷ []) h = ground arith
length-encode n (a ∷ b ∷ []) h = ground arith
length-encode n (a ∷ b ∷ c ∷ rest) h = ground (arith, length-encode (n - 1) rest (ground arith))

valid-∷ :
    (c : ℕ) (s : GoString)
    → is_raw_url_base64_character c ≡ true
    → valid_characters s ≡ true
    → valid_characters (c ∷ s) ≡ true
unfolding valid_characters
valid-∷ c [] raw h = cc
valid-∷ c (d ∷ s) raw h = rw (raw, h)

raw-∷ : (i : ℕ) (s : GoString) → valid_characters s ≡ true → valid_characters (symbol i ∷ s) ≡ true
raw-∷ i s h = valid-∷ (symbol i) s (symbol-is_raw i) h

symbol-is_final_alone : (b : ℕ) → valid_characters (symbol ((b % 16) * 4) ∷ []) ≡ true
unfolding valid_characters
symbol-is_final_alone b = symbol-is_final b

encode-valid : (n : ℕ) (bs : List ℕ) → length bs ≡ 3 * n + 2 → valid_characters (encode bs) ≡ true
unfolding encode
encode-valid n [] h = ground arith
encode-valid n (a ∷ []) h = ground arith
encode-valid n (a ∷ b ∷ []) h = raw-∷ _ _ (raw-∷ _ _ (symbol-is_final_alone b))
encode-valid n (a ∷ b ∷ c ∷ rest) h =
    raw-∷ _ _ (raw-∷ _ _ (raw-∷ _ _ (raw-∷ _ _ (encode-valid (n - 1) rest (ground arith)))))

length-read_full :
    (n : ℕ) (bs token rest : List ℕ)
    → read_full n bs ≡ some (token, rest)
    → (length token ≡ n) × (length bs ≡ n + length rest)
unfolding read_full
length-read_full zero bs token rest h = ground arith
length-read_full (suc n) [] token rest h = ground arith
length-read_full (suc n) (b ∷ bs) token rest h = elim (Option-cases (read_full n bs)) [
  | inl p ↦ ground arith
  | inr q ↦ ground (arith, length-read_full n bs q.0.0 q.0.1 q.1)
]

-- The random source has the bytes of a token left.
read_full-enough :
    (n : ℕ) (bs : List ℕ)
    → leb n (length bs) ≡ true
    → (r : List ℕ × List ℕ) × (read_full n bs ≡ some r)
unfolding read_full
read_full-enough zero bs h = (([], bs), refl)
read_full-enough (suc n) [] h = ground arith
read_full-enough (suc n) (b ∷ bs) h =
    let r = read_full-enough n bs (ground arith) in ((b ∷ r.0.0, r.0.1), rw (r.1))

encode-valid_sid : (token : List ℕ) → length token ≡ 32 → valid_sid (encode token) ≡ true
unfolding valid_sid
encode-valid_sid token h = ground (arith, length-encode 10 token h, encode-valid 10 token h)

-- What newToken makes, validSID accepts, whatever bytes the random source yields.
pub new_token-valid :
    (random sid rest : List ℕ) → new_token random ≡ some (sid, rest) → valid_sid sid ≡ true
unfolding new_token
new_token-valid random sid rest h = elim (Option-cases (read_full token_bytes random)) [
  | inl p ↦ ground arith
  | inr q ↦
      ground (arith, encode-valid_sid q.0.0 (length-read_full token_bytes random q.0.0 q.0.1 q.1).0)
]

-- While the random source yields at least 32 bytes, newToken succeeds, and what it makes is an
-- identifier that validSID accepts.
pub new_token-total :
    (random : List ℕ)
    → leb token_bytes (length random) ≡ true
    → (r : GoString × List ℕ) × (new_token random ≡ some r) × (valid_sid r.0 ≡ true)
unfolding new_token
new_token-total random h =
    let r = read_full-enough token_bytes random h in
    (
      (encode r.0.0, r.0.1),
      rw (r.1),
      encode-valid_sid r.0.0 (length-read_full token_bytes random r.0.0 r.0.1 r.1).0,
    )
