-- ===== src/Numbers/Laws.antt =====
-- What the integer casts make of a text that `isInt` accepts.
use mqttraffic_warden.Common.{
  ℕ, ◌+◌, ◌-◌, ◌*◌, ◌≤◌, ◌^◌, ◌≡◌, refl, ◌∙◌, Bool, true, false, [], ◌∷◌, Text, codes, ◌==◌,
  if◌then◌else◌, is_empty, pos, negsuc, signed, arith,
}
use mqttraffic_warden.Numbers.{
  digit_value, read_digits, skip_digits, starts_with_digit, is_minus, skip_sign, fits_signed,
  is_int, skip_spaces, read_magnitude, clamp_long, strtol, lexical_cast_long,
}

tests :
    (is_int (codes "-2147483648") ≡ true)
    × (is_int (codes "2147483648") ≡ false)
    × (is_int (codes "08") ≡ true)
    × (is_int (codes " 5") ≡ false)
    × (is_int [] ≡ false)
    × (is_int (codes "0x10") ≡ false)
    × (lexical_cast_long (codes "010") ≡ pos 8)
    × (lexical_cast_long (codes "0x10") ≡ pos 16)
    × (lexical_cast_long (codes "  -5") ≡ negsuc 4)
    × (lexical_cast_long (codes "-9999999999999999999") ≡ negsuc (2 ^ 63 - 1))
unfolding is_int lexical_cast_long
tests = (refl, refl, refl, refl, refl, refl, refl, refl, refl, refl)

-- The number that decimal digits spell behind `acc`, each counted as a digit.
abbrev pub decimal : ℕ → Text → ℕ
decimal acc [] = acc
decimal acc (c ∷ s) = decimal (acc * 10 + (c - b'0')) s

abbrev pub starts_with_zero : Text → Bool
starts_with_zero [] = false
starts_with_zero (c ∷ s) = c == b'0'

pub read_digits-decimal :
    (acc : ℕ) (s : Text) → is_empty (skip_digits 10 s) ≡ true → read_digits 10 acc s ≡ decimal acc s
unfolding read_digits skip_digits
read_digits-decimal acc [] h = refl
read_digits-decimal acc (c ∷ s) h = ground (arith, read_digits-decimal (acc * 10 + (c - b'0')) s)

le-read_digits : (acc : ℕ) (s : Text) → acc ≤ read_digits 10 acc s
unfolding read_digits
le-read_digits acc [] = omega arith
le-read_digits acc (c ∷ s) = ground (arith, le-read_digits (acc * 10 + digit_value c) s)

octal-le-decimal : (a b : ℕ) (s : Text) → a ≤ b → read_digits 8 a s ≤ read_digits 10 b s
unfolding read_digits
octal-le-decimal a b [] h = h
octal-le-decimal a b (c ∷ s) h = ground (
  arith,
  octal-le-decimal (a * 8 + digit_value c) (b * 10 + digit_value c) s,
  le-read_digits (b * 10 + digit_value c) s,
)

skip_spaces_of_number : (s : Text) → starts_with_digit 10 (skip_sign s) ≡ true → skip_spaces s ≡ s
unfolding skip_spaces
skip_spaces_of_number [] h = refl
skip_spaces_of_number (c ∷ s) h = ground arith

-- Base 0 on a text that starts with a decimal digit and holds nothing else.
read_magnitude_of_digits :
    (s : Text)
    → starts_with_digit 10 s ≡ true
    → is_empty (skip_digits 10 s) ≡ true
    → read_magnitude s ≡ (if starts_with_zero s then read_digits 8 0 s else read_digits 10 0 s)
unfolding read_magnitude read_digits skip_digits
read_magnitude_of_digits [] h k = ground arith
read_magnitude_of_digits (c ∷ []) h k = ground arith
read_magnitude_of_digits (c ∷ x ∷ s) h k = ground arith

pub magnitude-le :
    (s : Text)
    → (if starts_with_zero s then read_digits 8 0 s else read_digits 10 0 s) ≤ read_digits 10 0 s
magnitude-le s = ground (arith, octal-le-decimal 0 0 s)

pub record IsNumeral (s : Text) : Type 0 where
  pub digit : starts_with_digit 10 (skip_sign s) ≡ true
  pub whole : is_empty (skip_digits 10 (skip_sign s)) ≡ true
  pub fits : fits_signed 32 (is_minus s) (read_digits 10 0 (skip_sign s)) ≡ true

pub IsNumeral-of_is_int : (s : Text) → is_int s ≡ true → IsNumeral s
unfolding is_int
IsNumeral-of_is_int s h = record { digit = ground arith; whole = ground arith; fits = ground arith }

clamp_long_of_fits :
    (b : Bool) (m n : ℕ) → m ≤ n → fits_signed 32 b n ≡ true → clamp_long b m ≡ signed b m
clamp_long_of_fits true m n h k = ground arith
clamp_long_of_fits false m n h k = ground arith

-- For every text that `isInt` accepts, `lexical_cast<long>` gives the decimal number that the text
-- spells, unless its digits start with a zero: then it gives the number that the digits up to the
-- first 8 or 9 spell in octal.
pub lexical_cast_long_of_is_int :
    (s : Text)
    → is_int s ≡ true
    → lexical_cast_long s
      ≡ signed (is_minus s) (
          if starts_with_zero (skip_sign s)
          then read_digits 8 0 (skip_sign s)
          else decimal 0 (skip_sign s))
unfolding lexical_cast_long strtol
lexical_cast_long_of_is_int s h =
    let v = IsNumeral-of_is_int s h in
    rw
      (
        skip_spaces_of_number s v.digit,
        read_magnitude_of_digits (skip_sign s) v.digit v.whole,
        ← read_digits-decimal 0 (skip_sign s) v.whole,
      )
      (clamp_long_of_fits (is_minus s) _ _ (magnitude-le (skip_sign s)) v.fits)

-- A text of digits that starts with a zero and then an 8 or a 9, such as "08" or "0951", is an
-- integer for `isInt`, and is cast to 0.
pub lexical_cast_long_of_zero_eight :
    (d : ℕ) (s : Text)
    → b'8' ≤ d
    → d ≤ b'9'
    → is_int (b'0' ∷ d ∷ s) ≡ true
    → lexical_cast_long (b'0' ∷ d ∷ s) ≡ pos 0
unfolding read_digits
lexical_cast_long_of_zero_eight d s h k e =
    lexical_cast_long_of_is_int (b'0' ∷ d ∷ s) e ∙ ground arith
