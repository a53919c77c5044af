-- ===== src/Common/Ints.antt =====
-- Signed integers over the native numbers, and the conversions between C++ integer types.
use Prim.Native.Nat.{ℕ, ◌-◌, ◌%◌, ◌^◌}
use mathlib.Core.Bool.{Bool}
use mqttraffic_warden.Common.Tests.{ltb, leb, if◌then◌else◌}

-- `negsuc n` is -(n + 1).
pub data ℤ : Type 0 where
  pos : ℕ → ℤ
  negsuc : ℕ → ℤ

-- -n, as an integer.
abbrev pub neg : ℕ → ℤ
neg n = if leb n 0 then pos 0 else negsuc (n - 1)

abbrev pub signed : Bool → ℕ → ℤ
signed negative n = if negative then neg n else pos n

-- The value of a bit pattern of `w` bits as a signed integer of that width.
abbrev pub of_pattern : ℕ → ℕ → ℤ
of_pattern w m = if ltb m (2 ^ (w - 1)) then pos m else negsuc (2 ^ w - 1 - m)

-- The bit pattern of `w` bits of an integer: a cast to an unsigned type of that width.
abbrev pub pattern_of : ℕ → ℤ → ℕ
pattern_of w (pos n) = n % 2 ^ w
pattern_of w (negsuc n) = 2 ^ w - 1 - n % 2 ^ w

-- `static_cast` of an integer to a signed type of `w` bits.
abbrev pub to_signed : ℕ → ℤ → ℤ
to_signed w i = of_pattern w (pattern_of w i)
