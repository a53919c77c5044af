-- ===== src/Numbers/Casts.antt =====
-- The casts that truncate (src/cast.cpp).
use mqttraffic_warden.Common.{
  ℕ, ◌≤◌, ◌≡◌, refl, Bool, true, false, Text, if◌then◌else◌, signed, to_signed, arith, ◌∙◌, ap, sym,
}
use mqttraffic_warden.Numbers.{
  is_int, is_minus, skip_sign, read_digits, fits_signed, lexical_cast_long, lexical_cast_int,
}
use mqttraffic_warden.Numbers.Laws.{
  decimal, starts_with_zero, lexical_cast_long_of_is_int, IsNumeral-of_is_int, magnitude-le,
  read_digits-decimal,
}

to_signed_of_fits :
    (b : Bool) (n : ℕ) → fits_signed 32 b n ≡ true → to_signed 32 (signed b n) ≡ signed b n
to_signed_of_fits true n h = ground arith
to_signed_of_fits false n h = ground arith

fits_below : (b : Bool) (m n : ℕ) → m ≤ n → fits_signed 32 b n ≡ true → fits_signed 32 b m ≡ true
fits_below true m n l h = ground arith
fits_below false m n l h = ground arith

lexical_cast_int_lem : (str : Text) → lexical_cast_int str ≡ to_signed 32 (lexical_cast_long str)
unfolding lexical_cast_int
lexical_cast_int_lem str = refl

-- For every text that `isInt` accepts, `lexical_cast<int>` loses nothing: it gives what
-- `lexical_cast<long>` gives.
pub lexical_cast_int_of_is_int :
    (str : Text) → is_int str ≡ true → lexical_cast_int str ≡ lexical_cast_long str
lexical_cast_int_of_is_int str h =
    let t : Text = skip_sign str in
    let v = IsNumeral-of_is_int str h in
    let m = if starts_with_zero t then read_digits 8 0 t else decimal 0 t in
    let e : lexical_cast_long str ≡ signed (is_minus str) m = lexical_cast_long_of_is_int str h in
    let small : m ≤ read_digits 10 0 t = rw (← read_digits-decimal 0 t v.whole) (magnitude-le t) in
    lexical_cast_int_lem str
    ∙ ap (to_signed 32) e
    ∙ to_signed_of_fits (is_minus str) m (fits_below (is_minus str) m _ small v.fits)
    ∙ sym e
