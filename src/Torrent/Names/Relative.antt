-- ===== src/Torrent/Names/Relative.antt =====
-- A path that validateRelativePath or validateName lets through is one that the reconciler takes.
use cd.Prelude.{
  ℕ, ◌+◌, ◌≡◌, refl, ap, ◌∙◌, Bool, true, false, ◌||◌, List, [], ◌∷◌, ◌==◌, arith, if◌then◌else◌,
  all, length, subst, ltb, All,
}
use cd.Go.Text.{GoString, str_eq, join_with, contains_byte, bytes, str_eq_refl}
use cd.Go.Text.Split.{contains_byte-append}
use cd.Go.Utf8.{valid_string, contains_control}
use cd.Go.Utf8.Append.{valid_string-append, contains_control-slash}
use cd.Go.Paths.{slash, clean}
use cd.Go.Paths.Clean.{
  is_plain, clean-join_with, plain-relative, plain-nonempty, plain-no_dots, plain-inside,
}
use cd.Reconcile.Manifest.{bad_relative_path, is_forbidden}
use cd.Torrent.Names.{
  Limits, ok, err, resource_limit, invalid_path, invalid_name, safe_component, path_length,
  validate_relative_path, validate_name, bind_ok, else_ok, then_ok, ok_injective,
}

-- What is kept of the tests of a part.
record Part (s : GoString) : Type 0 where
  pub plain : is_plain s ≡ true
  pub valid : valid_string s ≡ true
  pub allowed : contains_byte is_forbidden s ≡ false
  pub no_control : contains_control s ≡ false

pub contains-weaken :
    (p q : ℕ → Bool) (s : GoString)
    → ((c : ℕ) → p c ≡ true → q c ≡ true)
    → contains_byte q s ≡ false
    → contains_byte p s ≡ false
unfolding contains_byte
contains-weaken p q [] imp h = refl
contains-weaken p q (c ∷ s) imp h = ground (arith, contains-weaken p q s imp, imp c)

abbrev pub is_unsafe : ℕ → Bool
is_unsafe c = c == b'/' || c == 0x5C || c == 0

safe_component-Part : (s : GoString) → safe_component s ≡ true → Part s
unfolding safe_component bytes
safe_component-Part s h =
    let none_unsafe : contains_byte is_unsafe s ≡ false = ground arith in
    record {
      plain =
          ground
            (arith, contains-weaken (λ c. c == b'/') is_unsafe s (λ c e. ground arith) none_unsafe);
      valid = ground arith;
      allowed = contains-weaken is_forbidden is_unsafe s (λ c e. ground arith) none_unsafe;
      no_control = ground arith;
    }

path-valid :
    (part : GoString) (parts : List GoString)
    → All Part (part ∷ parts)
    → valid_string (join_with slash (part ∷ parts)) ≡ true
unfolding join_with valid_string
path-valid part [] ps = ps.0.valid
path-valid part (q ∷ qs) ps =
    valid_string-append part (b'/' ∷ join_with slash (q ∷ qs)) ps.0.valid
    ∙ valid_string-append slash (join_with slash (q ∷ qs)) refl
    ∙ path-valid q qs ps.1

path-allowed :
    (part : GoString) (parts : List GoString)
    → All Part (part ∷ parts)
    → contains_byte is_forbidden (join_with slash (part ∷ parts)) ≡ false
unfolding join_with contains_byte
path-allowed part [] ps = ps.0.allowed
path-allowed part (q ∷ qs) ps = ground (
  arith,
  contains_byte-append is_forbidden part (b'/' ∷ join_with slash (q ∷ qs)),
  ps.0.allowed,
  path-allowed q qs ps.1,
)

path-no_control :
    (part : GoString) (parts : List GoString)
    → All Part (part ∷ parts)
    → contains_control (join_with slash (part ∷ parts)) ≡ false
unfolding join_with
path-no_control part [] ps = ps.0.no_control
path-no_control part (q ∷ qs) ps = ground (
  arith,
  contains_control-slash part (join_with slash (q ∷ qs)),
  ps.0.no_control,
  path-no_control q qs ps.1,
)

all-plain : (ps : List GoString) → All Part ps → all is_plain ps ≡ true
all-plain [] h = refl
all-plain (p ∷ ps) h = ground (arith, h.0.plain, all-plain ps h.1)

-- Safe parts make a path that the reconciler takes.
path-accepted :
    (part : GoString) (parts : List GoString)
    → All Part (part ∷ parts)
    → bad_relative_path (join_with slash (part ∷ parts)) ≡ false
unfolding bad_relative_path
path-accepted part parts ps =
    let dots = plain-no_dots part parts ps.0.plain in
    let path = join_with slash (part ∷ parts) in
    let same : str_eq (clean path) path ≡ true =
      ap (λ p. str_eq p path) (clean-join_with part parts (all-plain (part ∷ parts) ps))
      ∙ str_eq_refl path in
    rw (
      plain-nonempty part parts ps.0.plain,
      plain-relative part parts ps.0.plain,
      same,
      dots.0,
      dots.1,
      plain-inside part parts ps.0.plain,
      path-allowed part parts ps,
      path-valid part parts ps,
      path-no_control part parts ps,
    )

path_length-Parts :
    (l : Limits) (first : Bool) (total n : ℕ) (ps : List GoString)
    → path_length l first total ps ≡ ok n
    → All Part ps
unfolding path_length
path_length-Parts l first total n [] h = tt
path_length-Parts l first total n (p ∷ ps) h =
    let rest = path_length l false (total + length p + (if first then 0 else 1)) ps in
    let short = else_ok _ _ (if safe_component p then rest else err invalid_path) n h in
    let safe = then_ok (safe_component p) invalid_path rest n short.1 in
    (
      safe_component-Part p safe.0,
      path_length-Parts l false (total + length p + (if first then 0 else 1)) n ps safe.1,
    )

pub validate_relative_path-accepted :
    (parts : List GoString) (l : Limits) (p : GoString)
    → validate_relative_path parts l ≡ ok p
    → bad_relative_path p ≡ false
unfolding validate_relative_path
validate_relative_path-accepted [] l p h = cc
validate_relative_path-accepted (part ∷ parts) l p h =
    let r = bind_ok (path_length l true 0 (part ∷ parts)) _ p h in
    let path = join_with slash (part ∷ parts) in
    let s = else_ok (ltb l.max_path_bytes r.0) resource_limit (ok path) p r.2 in
    subst (λ x. bad_relative_path x ≡ false) (ok_injective path p s.1)
      (path-accepted part parts (path_length-Parts l true 0 r.0 (part ∷ parts) r.1))

pub validate_name-accepted :
    (name p : GoString) (l : Limits)
    → validate_name name l ≡ ok p
    → (name ≡ p) × (safe_component p ≡ true) × (bad_relative_path p ≡ false)
unfolding validate_name join_with
validate_name-accepted name p l h =
    let short = else_ok _ _ (if safe_component name then ok name else err invalid_name) p h in
    let safe = then_ok (safe_component name) invalid_name (ok name) p short.1 in
    let same = ok_injective name p safe.1 in
    (
      same,
      subst (λ x. safe_component x ≡ true) same safe.0,
      subst (λ x. bad_relative_path x ≡ false) same
          (path-accepted name [] (safe_component-Part name safe.0, tt)),
    )
