-- ===== src/Fsafe/Verify/Parts.antt =====
-- The loop over the parts of one path against what lies on the disk.
use cd.Prelude.{
  ℤ, ◌≡◌, refl, Bool, true, false, none, List, [], ◌∷◌, arith, eqb_ℤ, Bool-cases, inl, inr, ◌==◌,
  ◌&&◌,
}
use cd.Go.Text.{GoString, split_on}
use cd.Go.Paths.{join}
use cd.Reconcile.World.{FsReply, found, failure}
use cd.Fsafe.Disk.{Disk, NodeInfo, is_regular, is_dir}
use cd.Fsafe.Verify.{part_failure}

abbrev pub is_folder : FsReply NodeInfo → Bool
is_folder (failure err) = false
is_folder (found info) = is_dir info.kind

abbrev pub is_exact : ℤ → FsReply NodeInfo → Bool
is_exact size (failure err) = false
is_exact size (found info) = is_regular info.kind && eqb_ℤ info.size size

-- From `current` down, every part but the last is a directory, and the last a file of the size.
abbrev pub Reaches : Disk → GoString → ℤ → List GoString → Type 0
Reaches disk current size [] = ⊥
Reaches disk current size (part ∷ []) =
    is_exact size (disk.lstat (join (current ∷ part ∷ []))) ≡ true
Reaches disk current size (part ∷ q ∷ parts) =
    (is_folder (disk.lstat (join (current ∷ part ∷ []))) ≡ true)
    × Reaches disk (join (current ∷ part ∷ [])) size (q ∷ parts)

eq_of_eqb_ℤ : (a b : ℤ) → eqb_ℤ a b ≡ true → a ≡ b
eq_of_eqb_ℤ a b h = ground arith

eqb_ℤ_refl : (a : ℤ) → eqb_ℤ a a ≡ true
eqb_ℤ_refl a = ground arith

pub part_failure-Reaches :
    (disk : Disk) (current : GoString) (size : ℤ) (part : GoString) (parts : List GoString)
    → part_failure disk current size (part ∷ parts) ≡ none
    → Reaches disk current size (part ∷ parts)
unfolding part_failure
part_failure-Reaches disk current size part [] h = grind (arith, eq_of_eqb_ℤ)
part_failure-Reaches disk current size part (q ∷ parts) h =
    ground (arith, part_failure-Reaches disk (join (current ∷ part ∷ [])) size q parts)

pub Reaches-part_failure :
    (disk : Disk) (current : GoString) (size : ℤ) (parts : List GoString)
    → Reaches disk current size parts
    → part_failure disk current size parts ≡ none
unfolding part_failure
Reaches-part_failure disk current size [] h = elim h [ ]
Reaches-part_failure disk current size (part ∷ []) h = ground arith
Reaches-part_failure disk current size (part ∷ q ∷ parts) h =
    ground (arith, Reaches-part_failure disk (join (current ∷ part ∷ [])) size (q ∷ parts) h.1)

pub part_of :
    (p : GoString) → (part : GoString) × (parts : List GoString) × (split_on b'/' p ≡ part ∷ parts)
unfolding split_on
part_of [] = ([], [], refl)
part_of (c ∷ p) =
    let (part, parts, eq) = part_of p in
    elim (Bool-cases (c == b'/')) [
      | inl slash ↦ ([], part ∷ parts, rw (slash, eq) refl)
      | inr other ↦ (c ∷ part, parts, rw (other, eq) refl)
    ]
