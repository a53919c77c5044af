-- ===== src/Numbers.antt =====
-- Reading integers: `isInt` (src/utilities.cpp) and the `lexical_cast` of the integer types
-- (src/cast.cpp), with the parts of the C++ standard library that they use: the extraction of an
-- `int` from a stream, and `strtol` and `strtoul` with base 0.
pub mod Laws
pub mod Casts
use mqttraffic_warden.Common.{
  ℕ, zero, suc, ◌+◌, ◌-◌, ◌*◌, ◌%◌, ◌^◌, Bool, true, false, not, ◌&&◌, ◌||◌, Option, none, some,
  List, [], ◌∷◌, Text, ltb, leb, ◌==◌, if◌then◌else◌, is_empty, ℤ, pos, negsuc, signed, pattern_of,
  to_signed,
}

-- The state of a stream after one extraction.
pub record Stream : Type 0 where
  pub eof : Bool
  pub fail : Bool

-- `iss.eof() && !iss.fail()`
abbrev pub consumed : Stream → Bool
consumed iss = iss.eof && not iss.fail

-- The value of a digit or a letter as a digit; 36 for any other byte.
abbrev pub digit_value : ℕ → ℕ
digit_value c =
    if leb b'0' c && leb c b'9'
    then c - b'0'
    else if leb b'a' c && leb c b'z'
    then c - 87
    else if leb b'A' c && leb c b'Z'
    then c - 55
    else 36

abbrev pub is_digit : ℕ → ℕ → Bool
is_digit base c = ltb (digit_value c) base

-- The number that the digits at the head of the text spell behind `acc`.
unfoldable pub read_digits : ℕ → ℕ → Text → ℕ
read_digits base acc [] = acc
read_digits base acc (c ∷ s) =
    let more = read_digits base (acc * base + digit_value c) s in
    if is_digit base c then more else acc

-- What stands behind those digits.
unfoldable pub skip_digits : ℕ → Text → Text
skip_digits base [] = []
skip_digits base (c ∷ s) = let more = skip_digits base s in if is_digit base c then more else c ∷ s

abbrev pub starts_with_digit : ℕ → Text → Bool
starts_with_digit base [] = false
starts_with_digit base (c ∷ s) = is_digit base c

abbrev pub is_minus : Text → Bool
is_minus [] = false
is_minus (c ∷ s) = c == b'-'

-- The text behind an optional sign.
abbrev pub skip_sign : Text → Text
skip_sign [] = []
skip_sign (c ∷ s) = if c == b'-' || c == b'+' then s else c ∷ s

-- Whether a magnitude fits a signed type of `w` bits.
abbrev pub fits_signed : ℕ → Bool → ℕ → Bool
fits_signed w negative n = if negative then leb n (2 ^ (w - 1)) else ltb n (2 ^ (w - 1))

-- `iss >> std::noskipws >> n` for an `int n`: an optional sign and decimal digits. It fails with no
-- digit or a value out of range, and meets the end of the text if nothing stands behind the digits.
unfoldable pub extract_int : Text → Stream
unfolding read_digits skip_digits
extract_int s = record {
  eof = is_empty (skip_digits 10 (skip_sign s));
  fail =
      not (starts_with_digit 10 (skip_sign s))
      || not (fits_signed 32 (is_minus s) (read_digits 10 0 (skip_sign s)));
}

unfoldable pub is_int : Text → Bool
unfolding extract_int
is_int my_string = consumed (extract_int my_string)

abbrev pub is_space : ℕ → Bool
is_space c = c == b' ' || leb 9 c && leb c 13

unfoldable pub skip_spaces : Text → Text
skip_spaces [] = []
skip_spaces (c ∷ s) = let more = skip_spaces s in if is_space c then more else c ∷ s

-- The magnitude that `strtol` with base 0 reads: "0x" and a hexadecimal digit, or "0", or neither.
unfoldable pub read_magnitude : Text → ℕ
unfolding read_digits
read_magnitude [] = 0
read_magnitude (c ∷ []) = read_digits 10 0 (c ∷ [])
read_magnitude (c ∷ x ∷ s) =
    if c == b'0'
    then (if (x == b'x' || x == b'X') && starts_with_digit 16 s
        then read_digits 16 0 s
        else read_digits 8 0 (x ∷ s))
    else read_digits 10 0 (c ∷ x ∷ s)

-- A `long` has 64 bits; a magnitude that it does not hold gives LONG_MAX or LONG_MIN.
abbrev pub clamp_long : Bool → ℕ → ℤ
clamp_long negative n =
    if fits_signed 64 negative n
    then signed negative n
    else if negative
    then negsuc (2 ^ 63 - 1)
    else pos (2 ^ 63 - 1)

unfoldable pub strtol : Text → ℤ
unfolding skip_spaces read_magnitude
strtol s = let t = skip_spaces s in clamp_long (is_minus t) (read_magnitude (skip_sign t))

-- An `unsigned long` has 64 bits: a magnitude out of range gives ULONG_MAX, a minus sign negates.
unfoldable pub strtoul : Text → ℕ
unfolding skip_spaces read_magnitude
strtoul s =
    let t = skip_spaces s in
    let n = read_magnitude (skip_sign t) in
    if leb (2 ^ 64) n then 2 ^ 64 - 1 else if is_minus t then (2 ^ 64 - n) % 2 ^ 64 else n

-- The `lexical_cast` of each integer type; `long long` is `long`, and `unsigned long long` is
-- `unsigned long`.
unfoldable pub lexical_cast_long : Text → ℤ
unfolding strtol
lexical_cast_long str = strtol str

unfoldable pub lexical_cast_unsigned_long : Text → ℕ
unfolding strtoul
lexical_cast_unsigned_long str = strtoul str

-- "conversions that need to be truncated"
unfoldable pub lexical_cast_short : Text → ℤ
unfolding lexical_cast_long
lexical_cast_short str = to_signed 16 (lexical_cast_long str)

unfoldable pub lexical_cast_int : Text → ℤ
unfolding lexical_cast_long
lexical_cast_int str = to_signed 32 (lexical_cast_long str)

unfoldable pub lexical_cast_unsigned_short : Text → ℕ
unfolding lexical_cast_unsigned_long
lexical_cast_unsigned_short str = lexical_cast_unsigned_long str % 2 ^ 16

unfoldable pub lexical_cast_unsigned_int : Text → ℕ
unfolding lexical_cast_unsigned_long
lexical_cast_unsigned_int str = lexical_cast_unsigned_long str % 2 ^ 32
