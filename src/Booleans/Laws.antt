-- ===== src/Booleans/Laws.antt =====
-- No text is a boolean for `isBool`, and no word is true for `lexical_cast<bool>`.
use mqttraffic_warden.Common.{
  ℕ, ◌≡◌, refl, Bool, true, false, Option, none, some, [], ◌∷◌, map, Text, codes, arith,
}
use mqttraffic_warden.Numbers.{consumed, skip_spaces, skip_sign, starts_with_digit, read_digits}
use mqttraffic_warden.Booleans.{tolower, match_names, is_bool, lexical_cast_bool}

tests :
    (is_bool (codes "true") ≡ false)
    × (lexical_cast_bool false (codes "true") ≡ false)
    × (lexical_cast_bool false (codes " 1") ≡ true)
    × (lexical_cast_bool true (codes "0") ≡ false)
unfolding is_bool lexical_cast_bool
tests = (refl, refl, refl, refl)

false_name_only : (s : Text) (o : Option Text) → consumed (match_names s o none) ≡ false
unfolding match_names
false_name_only [] none = refl
false_name_only [] (some []) = refl
false_name_only [] (some (d ∷ name)) = refl
false_name_only (c ∷ s) none = refl
false_name_only (c ∷ s) (some []) = refl
false_name_only (c ∷ s) (some (d ∷ name)) =
    ground (arith, false_name_only s (some name), false_name_only s none)

true_name_only : (s : Text) (o : Option Text) → consumed (match_names s none o) ≡ false
unfolding match_names
true_name_only [] none = refl
true_name_only [] (some []) = refl
true_name_only [] (some (d ∷ name)) = refl
true_name_only (c ∷ s) none = refl
true_name_only (c ∷ s) (some []) = refl
true_name_only (c ∷ s) (some (d ∷ name)) =
    ground (arith, true_name_only s (some name), true_name_only s none)

match_names_lem :
    (s : Text) → consumed (match_names s (some (codes "false")) (some (codes "true"))) ≡ false
unfolding match_names
match_names_lem [] = refl
match_names_lem (c ∷ s) = ground (
  arith,
  false_name_only s (some (codes "alse")),
  true_name_only s (some (codes "rue")),
  false_name_only s none,
)

-- `isBool` accepts no text at all, "true" and "false" included: when a name has matched, no further
-- character is asked for, and the stream is not at its end.
pub is_bool-false : (s : Text) → is_bool s ≡ false
unfolding is_bool
is_bool-false s = match_names_lem (skip_spaces (map tolower s))

read_digits_of_no_digit : (s : Text) → starts_with_digit 10 s ≡ false → read_digits 10 0 s ≡ 0
unfolding read_digits
read_digits_of_no_digit [] h = refl
read_digits_of_no_digit (c ∷ s) h = ground arith

-- A text that is not blank and whose first character behind spaces and a sign is no digit, such as
-- "true" or "TRUE", is cast to false.
pub lexical_cast_bool_of_word :
    (value : Bool) (s : Text) (c : ℕ) (t : Text)
    → skip_spaces s ≡ c ∷ t
    → starts_with_digit 10 (skip_sign (c ∷ t)) ≡ false
    → lexical_cast_bool value s ≡ false
unfolding lexical_cast_bool
lexical_cast_bool_of_word value s c t e h =
    rw (e, lexical_cast_bool) (rw (read_digits_of_no_digit (skip_sign (c ∷ t)) h))
