-- ===== src/Domain/Redact/Clean.antt =====
-- What a sanitized text can show.
use cd.Prelude.{
  ℕ, zero, suc, ◌≡◌, refl, ap, sym, Bool, true, false, not, List, [], ◌∷◌, leb, if◌then◌else◌,
  is_nil, length, any, take, arith, Bool-cases, inl, inr, ◌⊎◌, if_elim, subst,
}
use cd.Go.Text.{GoString, bytes, has_prefix, cut_prefix}
use cd.Go.Utf8.{valid_string, is_blank, ascii_space, space_of_two, space_of_three}
use cd.Domain.Model.{Download}
use cd.Domain.Redact.{
  contains, trim_space, redacted_error_text, is_sensitive_error, cut_valid, sanitize_error_text,
  sanitize_download_error, trim_left, trim_right, names_path, frozen_paths,
}

has_prefix-take : (n : ℕ) (s p : GoString) → has_prefix (take n s) p ≡ true → has_prefix s p ≡ true
unfolding has_prefix cut_prefix
has_prefix-take n s [] h = refl
has_prefix-take zero s (c ∷ p) h = ground arith
has_prefix-take (suc n) [] (c ∷ p) h = ground arith
has_prefix-take (suc n) (b ∷ s) (c ∷ p) h = ground (arith, has_prefix-take n s p)

contains-nil : (s : GoString) → contains s [] ≡ true
unfolding contains has_prefix cut_prefix
contains-nil [] = refl
contains-nil (c ∷ s) = refl

-- Every string that the first text contains, the second contains.
Inside : GoString → GoString → Type 0
Inside s t = (m : GoString) → contains s m ≡ true → contains t m ≡ true

empty-Inside : (t : GoString) → Inside [] t
unfolding Inside contains
empty-Inside t [] h = contains-nil t
empty-Inside t (x ∷ m) h = ground arith

tail-Inside : (c : ℕ) (s t : GoString) → Inside s t → Inside s (c ∷ t)
unfolding Inside contains
tail-Inside c s t i m h = ground (arith, i m h)

-- A text that starts like another one and goes on inside of it.
prefix-Inside :
    (c : ℕ) (s t : GoString)
    → ((p : GoString) → has_prefix (c ∷ s) p ≡ true → has_prefix (c ∷ t) p ≡ true)
    → Inside s t
    → Inside (c ∷ s) (c ∷ t)
unfolding Inside contains
prefix-Inside c s t same i m h = ground (arith, same m, i m)

take-Inside : (n : ℕ) (s : GoString) → Inside (take n s) s
take-Inside zero s = empty-Inside s
take-Inside (suc n) [] = empty-Inside []
take-Inside (suc n) (c ∷ s) =
    prefix-Inside c (take n s) s (λ p. has_prefix-take (suc n) (c ∷ s) p) (take-Inside n s)

has_prefix-trim_right :
    (s p : GoString) → has_prefix (trim_right s) p ≡ true → has_prefix s p ≡ true
unfolding has_prefix cut_prefix trim_right
has_prefix-trim_right s [] h = refl
has_prefix-trim_right [] (x ∷ p) h = h
has_prefix-trim_right (c ∷ s) (x ∷ p) h = ground (arith, has_prefix-trim_right s p)

trim_right-Inside : (s : GoString) → Inside (trim_right s) s
unfolding trim_right
trim_right-Inside [] = empty-Inside []
trim_right-Inside (c ∷ s) = elim (Bool-cases (is_blank (c ∷ s))) [
  | inl y ↦
      subst (λ b. Inside (if b then [] else c ∷ trim_right s) (c ∷ s)) (sym y)
        (empty-Inside (c ∷ s))
  | inr n ↦
      subst (λ b. Inside (if b then [] else c ∷ trim_right s) (c ∷ s)) (sym n)
        (prefix-Inside c (trim_right s) s
          (λ p h.
            has_prefix-trim_right (c ∷ s) p
              (subst (λ b. has_prefix (if b then [] else c ∷ trim_right s) p ≡ true) (sym n) h))
          (trim_right-Inside s))
]

Inside-refl : (s : GoString) → Inside s s
unfolding Inside
Inside-refl s m h = h

trim_left-Inside : (s : GoString) → Inside (trim_left s) s
unfolding trim_left
trim_left-Inside [] = empty-Inside []
trim_left-Inside (a ∷ []) =
    if_elim (λ x. Inside x (a ∷ [])) (ascii_space a) (empty-Inside (a ∷ [])) (Inside-refl (a ∷ []))
trim_left-Inside (a ∷ b ∷ []) =
    if_elim (λ x. Inside x (a ∷ b ∷ [])) (ascii_space a)
      (tail-Inside a _ (b ∷ []) (trim_left-Inside (b ∷ [])))
      (if_elim (λ x. Inside x (a ∷ b ∷ [])) (space_of_two a b) (empty-Inside (a ∷ b ∷ []))
        (Inside-refl (a ∷ b ∷ [])))
trim_left-Inside (a ∷ b ∷ c ∷ s) =
    if_elim (λ x. Inside x (a ∷ b ∷ c ∷ s)) (ascii_space a)
      (tail-Inside a _ (b ∷ c ∷ s) (trim_left-Inside (b ∷ c ∷ s)))
      (if_elim (λ x. Inside x (a ∷ b ∷ c ∷ s)) (space_of_two a b)
        (tail-Inside a _ (b ∷ c ∷ s) (tail-Inside b _ (c ∷ s) (trim_left-Inside (c ∷ s))))
        (if_elim (λ x. Inside x (a ∷ b ∷ c ∷ s)) (space_of_three a b c)
          (tail-Inside a _ (b ∷ c ∷ s)
            (tail-Inside b _ (c ∷ s) (tail-Inside c _ s (trim_left-Inside s))))
          (Inside-refl (a ∷ b ∷ c ∷ s))))

trim_space-Inside : (s : GoString) → Inside (trim_space s) s
unfolding trim_space Inside
trim_space-Inside s m h = trim_left-Inside s m (trim_right-Inside (trim_left s) m h)

length-take : (n : ℕ) (s : GoString) → leb (length (take n s)) n ≡ true
length-take zero s = refl
length-take (suc n) [] = ground arith
length-take (suc n) (c ∷ s) = ground (arith, length-take n s)

cut_valid-Inside :
    (n : ℕ) (s : GoString) → Inside (cut_valid n s) s × (leb (length (cut_valid n s)) n ≡ true)
unfolding cut_valid
cut_valid-Inside zero s = (empty-Inside s, refl)
cut_valid-Inside (suc n) s =
    let shorter = cut_valid-Inside n s in
    if_elim (λ x. Inside x s × (leb (length x) (suc n) ≡ true)) (valid_string (take (suc n) s))
      (take-Inside (suc n) s, length-take (suc n) s) (shorter.0, ground (arith, shorter.1))

-- The text is the fixed one, or part of the given one; it is short in both cases.
abbrev Safe : GoString → GoString → Type 0
Safe text out = ((out ≡ redacted_error_text) ⊎ Inside out text) × (leb (length out) 1024 ≡ true)

-- A text that is short enough, or cut.
kept-Safe :
    (text t : GoString) (short : Bool)
    → Inside t text
    → leb (length t) 1024 ≡ short
    → Safe text (if short then t else cut_valid 1024 t)
unfolding Inside
kept-Safe text t true i h = (inr i, h)
kept-Safe text t false i h = let c = cut_valid-Inside 1024 t in (inr (λ m p. i m (c.0 m p)), c.1)

sanitize_error_text-Safe :
    (to_lower : GoString → GoString) (text uri : GoString)
    → Safe text (sanitize_error_text to_lower text uri)
unfolding sanitize_error_text bytes
sanitize_error_text-Safe to_lower text uri =
    if_elim (Safe text) (is_nil (trim_space text)) (inr (empty-Inside text), refl)
      (if_elim (Safe text) (is_sensitive_error to_lower (trim_space text) uri) (inl refl, refl)
        (kept-Safe text (trim_space text) (leb (length (trim_space text)) 1024)
          (trim_space-Inside text) refl))

-- No frozen path of the row stands in the text.
abbrev pub hides_paths : Download → GoString → Bool
hides_paths d out = not (any (names_path out) (frozen_paths d))

hidden_part :
    (out text : GoString) (ps : List GoString)
    → Inside out text
    → any (names_path text) ps ≡ false
    → any (names_path out) ps ≡ false
unfolding Inside
hidden_part out text [] i h = refl
hidden_part out text (p ∷ ps) i h =
    ground (arith, hidden_part out text ps i (ground arith), i (trim_space p))

-- What an external sink gets of a row's error is at most 1024 bytes long, and it is the fixed text or
-- names none of the frozen paths of the row.
pub sanitize_download_error-hides :
    (to_lower : GoString → GoString) (d : Download)
    → (leb (length (sanitize_download_error to_lower d)) 1024 ≡ true)
      × ((sanitize_download_error to_lower d ≡ redacted_error_text)
          ⊎ (hides_paths d (sanitize_download_error to_lower d) ≡ true))
unfolding sanitize_download_error bytes
sanitize_download_error-hides to_lower d =
    elim (Bool-cases (any (names_path (trim_space d.last_error)) (frozen_paths d))) [
      | inl y ↦ rw (y, sanitize_download_error) (refl, inl refl)
      | inr n ↦
          let safe = sanitize_error_text-Safe to_lower (trim_space d.last_error) d.submission_uri in
          rw (n, sanitize_download_error)
            (
              safe.1,
              elim safe.0 [
                | inl same ↦ inl same
                | inr i ↦
                    inr (ap not (hidden_part _ (trim_space d.last_error) (frozen_paths d) i n))
              ],
            )
    ]
