-- ===== src/Prelude/Int.antt =====
-- Signed integers over the native numbers: Go's int64, its bounds and its wrapping increment.
use Prim.Native.Nat.{ℕ, zero, suc, ◌+◌, ◌-◌, ◌^◌, ◌%◌}
use mathlib.Core.Bool.{Bool, true, false}
use cd.Prelude.Tests.{ltb, ◌==◌, if◌then◌else◌}

-- `negsuc n` is -(n + 1).
pub data ℤ : Type 0 where
  pos : ℕ → ℤ
  negsuc : ℕ → ℤ

abbrev pub pos_part : ℤ → ℕ
pos_part (pos n) = n
pos_part (negsuc n) = 0

abbrev pub neg_part : ℤ → ℕ
neg_part (pos n) = 0
neg_part (negsuc n) = suc n

abbrev pub is_neg : ℤ → Bool
is_neg (pos n) = false
is_neg (negsuc n) = true

abbrev pub ltb_ℤ : ℤ → ℤ → Bool
ltb_ℤ a b = ltb (pos_part a + neg_part b) (pos_part b + neg_part a)

abbrev pub eqb_ℤ : ℤ → ℤ → Bool
eqb_ℤ (pos a) (pos b) = a == b
eqb_ℤ (negsuc a) (negsuc b) = a == b
eqb_ℤ _ _ = false

-- math.MaxInt64
abbrev pub max_int64 : ℕ
max_int64 = 2 ^ 63 - 1

-- math.MaxUint64
abbrev max_uint64 : ℕ
max_uint64 = 2 ^ 64 - 1

-- `x++` on an int64.
abbrev pub inc64 : ℤ → ℤ
inc64 (pos n) = if n == max_int64 then negsuc max_int64 else pos (n + 1)
inc64 (negsuc zero) = pos 0
inc64 (negsuc (suc n)) = negsuc n

-- `x + 1` where no bound is near.
abbrev pub inc_ℤ : ℤ → ℤ
inc_ℤ (pos n) = pos (n + 1)
inc_ℤ (negsuc zero) = pos 0
inc_ℤ (negsuc (suc n)) = negsuc n

-- The bits of an int64, read as a number below 2^64, and back.
abbrev bits64 : ℤ → ℕ
bits64 (pos n) = n % 2 ^ 64
bits64 (negsuc n) = max_uint64 - n % 2 ^ 64

abbrev of_bits64 : ℕ → ℤ
of_bits64 n = if ltb n (2 ^ 63) then pos n else negsuc (max_uint64 - n)

-- `a + b` on int64.
unfoldable pub add64 : ℤ → ℤ → ℤ
add64 a b = of_bits64 ((bits64 a + bits64 b) % 2 ^ 64)
