-- ===== src/Torrent/Names.antt =====
-- The limits, the errors, and the checks of names and relative paths.
pub mod Relative
use cd.Prelude.{
  ℕ, ◌+◌, Bool, true, false, ◌&&◌, ◌||◌, not, List, [], ◌∷◌, ltb, ◌==◌, if◌then◌else◌, is_nil,
  length, ◌≡◌, refl, ◌⊎◌, inl, inr,
}
use cd.Go.Text.{GoString, bytes, str_eq, has_prefix, contains_byte, join_with}
use cd.Go.Utf8.{valid_string, contains_control}
use cd.Go.Paths.{slash}

-- A limit that is not positive is 0 here, and refused.
pub record Limits : Type 0 where
  pub max_input_bytes : ℕ
  pub max_info_bytes : ℕ
  pub max_files : ℕ
  pub max_name_bytes : ℕ
  pub max_path_bytes : ℕ
  pub max_component_bytes : ℕ
  pub max_tracker_count : ℕ
  pub max_tracker_bytes : ℕ
  pub max_total_size : ℕ

pub data MetaError : Type 0 where
  invalid_limits invalid_magnet unsupported invalid_torrent invalid_name invalid_path : MetaError
  invalid_tracker resource_limit invalid_contents : MetaError

-- A value or an error.
pub data Checked {ℓ} (A : Type ℓ) : Type ℓ where
  ok : A → Checked A
  err : MetaError → Checked A

pub Checked-cases {ℓ} :
    {A : Type ℓ} (c : Checked A) → ((a : A) × (c ≡ ok a)) ⊎ ((e : MetaError) × (c ≡ err e))
Checked-cases (ok a) = inl (a, refl)
Checked-cases (err e) = inr (e, refl)

-- Where a test lets a value through.
pub if_ok {ℓ} :
    {A : Type ℓ} (b : Bool) (x a : A) (e : MetaError)
    → (if b then ok x else err e) ≡ ok a
    → (b ≡ true) × (x ≡ a)
if_ok true x a e p = (refl, cc)
if_ok false x a e p = cc

infixl 20 ◌>>=◌
abbrev pub ◌>>=◌ {ℓ κ} : {A : Type ℓ} {B : Type κ} → Checked A → (A → Checked B) → Checked B
ok a >>= f = f a
err e >>= f = err e

pub ok_injective {ℓ} : {A : Type ℓ} (a b : A) → ok a ≡ ok b → a ≡ b
ok_injective a b p = cc

-- A chain succeeds through its first step.
pub bind_ok {ℓ κ} :
    {A : Type ℓ} {B : Type κ} (c : Checked A) (f : A → Checked B) (b : B)
    → (c >>= f) ≡ ok b
    → (a : A) × (c ≡ ok a) × (f a ≡ ok b)
bind_ok (ok a) f b p = (a, refl, p)
bind_ok (err e) f b p = cc

-- A test that fails lets the rest decide.
pub else_ok {ℓ} :
    {A : Type ℓ} (b : Bool) (e : MetaError) (x : Checked A) (a : A)
    → (if b then err e else x) ≡ ok a
    → (b ≡ false) × (x ≡ ok a)
else_ok true e x a p = cc
else_ok false e x a p = (refl, p)

-- A test that passes lets the rest decide.
pub then_ok {ℓ} :
    {A : Type ℓ} (b : Bool) (e : MetaError) (x : Checked A) (a : A)
    → (if b then x else err e) ≡ ok a
    → (b ≡ true) × (x ≡ ok a)
then_ok true e x a p = (refl, p)
then_ok false e x a p = cc

unfoldable pub valid_limits : Limits → Bool
valid_limits l = not (
    l.max_input_bytes == 0
    || l.max_info_bytes == 0
    || l.max_files == 0
    || l.max_name_bytes == 0
    || l.max_path_bytes == 0
    || l.max_component_bytes == 0
    || l.max_tracker_count == 0
    || l.max_tracker_bytes == 0
    || l.max_total_size == 0)

unfoldable pub safe_component : GoString → Bool
safe_component v =
    not (
      is_nil v
      || str_eq v (bytes ".")
      || str_eq v (bytes "..")
      || not (valid_string v)
      || has_prefix v (bytes "/")
      || has_prefix v (bytes "\\")
      || contains_byte (λ c. c == b'/' || c == 0x5C || c == 0) v)
    && not (contains_control v)

-- `validateName`
unfoldable pub validate_name : GoString → Limits → Checked GoString
unfolding safe_component
validate_name name l =
    if ltb l.max_name_bytes (length name)
      || ltb l.max_component_bytes (length name)
      || ltb l.max_path_bytes (length name)
    then err resource_limit
    else if safe_component name
    then ok name
    else err invalid_name

-- The loop of `validateRelativePath`: the bytes of the path, or the error of the first bad part.
unfoldable pub path_length : Limits → Bool → ℕ → List GoString → Checked ℕ
unfolding safe_component
path_length l first total [] = ok total
path_length l first total (part ∷ parts) =
    let rest = path_length l false (total + length part + (if first then 0 else 1)) parts in
    if ltb l.max_component_bytes (length part)
    then err resource_limit
    else if safe_component part
    then rest
    else err invalid_path

unfoldable pub validate_relative_path : List GoString → Limits → Checked GoString
unfolding path_length
validate_relative_path [] l = err invalid_path
validate_relative_path (part ∷ parts) l = do
  total ← path_length l true 0 (part ∷ parts)
  if ltb l.max_path_bytes total then err resource_limit else ok (join_with slash (part ∷ parts))
