-- ===== src/Base/Numbers.antt =====
-- Python numbers as the program's checks see them.
--
-- Every finite float is a whole multiple of 2 ^ -1074 (seconds, where it is a time), so a finite
-- float is that multiple, a signed number of ticks; `nan` and the infinities are one constructor,
-- because the program only asks `math.isfinite`. Sums of floats are exact but for the
-- total of a histogram: rounding is not
-- modelled.
use Prim.Native.Nat.{ℕ, zero, suc, ◌-◌, ◌^◌}
use mathlib.Core.Bool.{Bool, false}
use tesserix_mcp_runtime.Base.Tests.{leb}

-- `negsuc n` is -(n + 1).
pub data ℤ : Type 0 where
  pos : ℕ → ℤ
  negsuc : ℕ → ℤ

-- `n + 1` and `n - 1`
abbrev pub next : ℤ → ℤ
next (pos n) = pos (suc n)
next (negsuc zero) = pos 0
next (negsuc (suc n)) = negsuc n

abbrev pub previous : ℤ → ℤ
previous (pos zero) = negsuc 0
previous (pos (suc n)) = pos n
previous (negsuc n) = negsuc (suc n)

-- `n >= limit`
abbrev pub reaches : ℤ → ℕ → Bool
reaches (pos n) limit = leb limit n
reaches (negsuc n) limit = false

pub data Number : Type 0 where
  boolean : Bool → Number
  integer : ℤ → Number
  finite : ℤ → Number
  not_finite : Number
  -- a value of any other type
  not_number : Number

-- the ticks of one unit
unfoldable pub unit : ℕ
unit = 2 ^ 1074

-- `math.isfinite` raises OverflowError for an `int` that no float is near to.
unfoldable pub is_huge : ℤ → Bool
is_huge (pos n) = leb (2 ^ 1024 - 2 ^ 970) n
is_huge (negsuc n) = leb (2 ^ 1024 - 2 ^ 970) (suc n)
