-- ===== src/Casts.antt =====
-- The `lexical_cast` of the types that are no integers of the native width (src/cast.cpp,
-- include/cast.h). Those of the other integers are in Numbers, that of `bool` in Booleans.
use mqttraffic_warden.Common.{ℕ, ◌==◌, [], ◌∷◌, Text, if◌then◌else◌, ℤ}
use mqttraffic_warden.Numbers.{strtol, strtoul}
use mqttraffic_warden.Json.{FloatOps}

-- A `std::string` of a `const char*` ends before the first zero byte.
abbrev pub until_zero : Text → Text
until_zero [] = []
until_zero (c ∷ s) = if c == 0 then [] else c ∷ until_zero s

unfoldable pub lexical_cast_string : Text → Text
lexical_cast_string str = until_zero str

-- `strtoll` and `strtoull`: a `long long` has 64 bits, as a `long` has.
unfoldable pub lexical_cast_long_long : Text → ℤ
unfolding strtol
lexical_cast_long_long str = strtol str

unfoldable pub lexical_cast_unsigned_long_long : Text → ℕ
unfolding strtoul
lexical_cast_unsigned_long_long str = strtoul str

abbrev pub lexical_cast_float : {F D : Type 0} → FloatOps F D → Text → F
lexical_cast_float floats str = floats.strtof str

abbrev pub lexical_cast_double : {F D : Type 0} → FloatOps F D → Text → D
lexical_cast_double floats str = floats.strtod str

-- `strtold` is a parameter, like `strtof` and `strtod`.
abbrev pub lexical_cast_long_double : {L : Type 0} → (Text → L) → Text → L
lexical_cast_long_double strtold str = strtold str
