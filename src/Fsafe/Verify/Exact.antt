-- ===== src/Fsafe/Verify/Exact.antt =====
-- What a manifest that passes the check says of the disk, and that nothing else makes it fail.
use cd.Prelude.{
  ℕ, ◌+◌, ◌≤◌, ℤ, pos, ◌≡◌, refl, false, none, List, [], ◌∷◌, ◌↔◌, any, All, arith, max_int64,
  pos_part, subst, sym,
}
use cd.Go.Text.{GoString, str_eq, split_on}
use cd.Reconcile.World.{ExpectedFile, found, failure}
use cd.Reconcile.Manifest.{bad_relative_path}
use cd.Fsafe.Disk.{Disk}
use cd.Fsafe.Verify.{part_failure, check_file, verify_each, verify_manifest}
use cd.Fsafe.Verify.Parts.{Reaches, part_failure-Reaches, Reaches-part_failure, part_of}

-- A listed file that is on the disk as listed.
pub record Present (disk : Disk) (root : GoString) (f : ExpectedFile) : Type 0 where
  pub safe : bad_relative_path f.relative_path ≡ false
  pub counted : f.size ≡ pos (pos_part f.size)
  pub reached : Reaches disk root f.size (split_on b'/' f.relative_path)

-- No path of the files is among the given ones.
abbrev pub Apart : List GoString → List ExpectedFile → Type 0
Apart seen files = All (λ (f : ExpectedFile). any (str_eq f.relative_path) seen ≡ false) files

abbrev pub Distinct : List ExpectedFile → Type 0
Distinct [] = Unit
Distinct (f ∷ fs) = Apart (f.relative_path ∷ []) fs × Distinct fs

abbrev pub sum_sizes : List ExpectedFile → ℕ
sum_sizes [] = 0
sum_sizes (f ∷ fs) = pos_part f.size + sum_sizes fs

-- The disk holds the manifest under the root.
pub record Holds (disk : Disk) (root : GoString) (files : List ExpectedFile) : Type 0 where
  pub present : All (Present disk root) files
  pub distinct : Distinct files
  pub bounded : sum_sizes files ≤ max_int64

-- The sizes are int64s.
abbrev pub Sized : List ExpectedFile → Type 0
Sized files = All (λ (f : ExpectedFile). pos_part f.size ≤ max_int64) files

Apart-split :
    (p : GoString) (seen : List GoString) (files : List ExpectedFile)
    → Apart (p ∷ seen) files
    → Apart (p ∷ []) files × Apart seen files
Apart-split p seen [] h = (tt, tt)
Apart-split p seen (f ∷ fs) h =
    let rest = Apart-split p seen fs h.1 in ((ground arith, rest.0), (ground (arith, h.0), rest.1))

Apart-join :
    (p : GoString) (seen : List GoString) (files : List ExpectedFile)
    → Apart (p ∷ []) files
    → Apart seen files
    → Apart (p ∷ seen) files
Apart-join p seen [] h k = tt
Apart-join p seen (f ∷ fs) h k = (ground (arith, h.0, k.0), Apart-join p seen fs h.1 k.1)

Apart-nil : (files : List ExpectedFile) → Apart [] files
Apart-nil [] = tt
Apart-nil (f ∷ fs) = (refl, Apart-nil fs)

module _ (disk : Disk) (root : GoString) where
  check_file-Present :
      (seen : List GoString) (total : ℕ) (f : ExpectedFile) (n : ℕ)
      → pos_part f.size ≤ max_int64
      → check_file disk root seen total f ≡ found n
      → Present disk root f
        × (any (str_eq f.relative_path) seen ≡ false)
        × (n ≡ pos_part f.size)
        × (total + n ≤ max_int64)
  unfolding check_file
  check_file-Present seen total f n fits h =
      let (part, parts, eq) = part_of f.relative_path in
      let clear : part_failure disk root f.size (split_on b'/' f.relative_path) ≡ none =
        ground arith in
      (
        record {
          safe = ground arith;
          counted = ground arith;
          reached = subst (Reaches disk root f.size) (sym eq) (
              part_failure-Reaches disk root f.size part parts
                (subst (λ ps. part_failure disk root f.size ps ≡ none) eq clear));
        },
        ground arith,
        ground arith,
        ground arith,
      )

  Present-check_file :
      (seen : List GoString) (total : ℕ) (f : ExpectedFile)
      → Present disk root f
      → any (str_eq f.relative_path) seen ≡ false
      → total + pos_part f.size ≤ max_int64
      → check_file disk root seen total f ≡ found (pos_part f.size)
  unfolding check_file
  Present-check_file seen total f here fresh fits = ground (
    arith,
    here.safe,
    here.counted,
    Reaches-part_failure disk root f.size (split_on b'/' f.relative_path) here.reached,
  )

  -- What the loop finds out about the files that are left.
  record Found (seen : List GoString) (total : ℕ) (files : List ExpectedFile) (size : ℤ)
      : Type 0 where
    holds_present : All (Present disk root) files
    apart : Apart seen files
    holds_distinct : Distinct files
    sums : size ≡ pos (total + sum_sizes files)
    fits : total + sum_sizes files ≤ max_int64

  verify_each-Found :
      (seen : List GoString) (total : ℕ) (files : List ExpectedFile) (size : ℤ)
      → Sized files
      → total ≤ max_int64
      → verify_each disk root seen total files ≡ found size
      → Found seen total files size
  unfolding verify_each
  verify_each-Found seen total [] size sized room h = record {
    holds_present = tt;
    apart = tt;
    holds_distinct = tt;
    sums = ground arith;
    fits = omega (arith, room);
  }
  verify_each-Found seen total (f ∷ fs) size sized room h =
      elim (check_file disk root seen total f)
          as (λ c. check_file disk root seen total f ≡ c → Found seen total (f ∷ fs) size) [
            | failure err ↦ λ eq. ground arith
            | found n ↦ λ eq.
                let (here, fresh, same, fit) = check_file-Present seen total f n sized.0 eq in
                let rest =
                  verify_each-Found (f.relative_path ∷ seen) (total + n) fs size sized.1 fit
                    (ground arith) in
                let apart = Apart-split f.relative_path seen fs rest.apart in
                record {
                  holds_present = (here, rest.holds_present);
                  apart = (fresh, apart.1);
                  holds_distinct = (apart.0, rest.holds_distinct);
                  sums = ground (arith, rest.sums, same);
                  fits = omega (arith, rest.fits, same);
                }
          ]
        refl

  Holds-verify_each :
      (seen : List GoString) (total : ℕ) (files : List ExpectedFile)
      → All (Present disk root) files
      → Apart seen files
      → Distinct files
      → total + sum_sizes files ≤ max_int64
      → verify_each disk root seen total files ≡ found (pos (total + sum_sizes files))
  unfolding verify_each
  Holds-verify_each seen total [] here apart distinct fits = ground arith
  Holds-verify_each seen total (f ∷ fs) here apart distinct fits =
      rw (Present-check_file seen total f here.0 apart.0 (omega (arith, fits)), verify_each)
        (ground (
          arith,
          Holds-verify_each (f.relative_path ∷ seen) (total + pos_part f.size) fs here.1
              (Apart-join f.relative_path seen fs distinct.0 apart.1) distinct.1
              (omega (arith, fits)),
        ))

  verify_manifest-Holds :
      (files : List ExpectedFile) (size : ℤ)
      → Sized files
      → verify_manifest disk root files ≡ found size
      → Holds disk root files × (size ≡ pos (sum_sizes files))
  unfolding verify_manifest
  verify_manifest-Holds files size sized h =
      let r = verify_each-Found [] 0 files size sized (omega arith) h in
      (
        record {
          present = r.holds_present;
          distinct = r.holds_distinct;
          bounded = omega (arith, r.fits);
        },
        ground (arith, r.sums),
      )

  -- The check of a manifest of int64 sizes succeeds exactly where every listed path is safe and listed
  -- once, every part of it but the last is a directory and the last a regular file of the listed size,
  -- none of them a link, and the sizes add up within an int64; it then gives their sum.
  pub verify_manifest-exact :
      (files : List ExpectedFile) (size : ℤ)
      → Sized files
      → (verify_manifest disk root files ≡ found size)
        ↔ (Holds disk root files × (size ≡ pos (sum_sizes files)))
  unfolding verify_manifest
  verify_manifest-exact files size sized = (
    verify_manifest-Holds files size sized,
    λ h. ground (
      arith,
      h.1,
      Holds-verify_each [] 0 files h.0.present (Apart-nil files) h.0.distinct
          (omega (arith, h.0.bounded)),
    ),
  )
