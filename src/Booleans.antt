-- ===== src/Booleans.antt =====
-- Reading booleans: `isBool` (src/utilities.cpp) and `lexical_cast<bool>` (include/cast.h), with
-- the extraction of a `bool` from a stream, with and without `std::boolalpha`.
pub mod Laws
use mqttraffic_warden.Common.{
  ℕ, ◌+◌, Bool, true, false, not, ◌&&◌, ◌||◌, Option, none, some, List, [], ◌∷◌, map, Text, codes,
  ltb, leb, ◌==◌, if◌then◌else◌,
}
use mqttraffic_warden.Numbers.{
  Stream, consumed, skip_spaces, skip_sign, starts_with_digit, read_digits,
}

-- `::tolower` in the "C" locale.
abbrev pub tolower : ℕ → ℕ
tolower c = if leb b'A' c && leb c b'Z' then c + 32 else c

-- What is left to match of one of the two names; `none` once a character differs.
abbrev pub advance : ℕ → Option Text → Option Text
advance c none = none
advance c (some []) = some []
advance c (some (d ∷ name)) = if c == d then some name else none

abbrev pub is_matched : Option Text → Bool
is_matched (some []) = true
is_matched (some (d ∷ name)) = false
is_matched none = false

abbrev pub is_settled : Option Text → Bool
is_settled (some (d ∷ name)) = false
is_settled _ = true

abbrev pub settle : Bool → Option Text → Option Text → Stream
settle at_end false_name true_name = record {
  eof = at_end;
  fail = not (is_matched false_name || is_matched true_name);
}

-- `num_get::do_get` for `bool` with `boolalpha`: characters are obtained only as far as they are
-- needed to tell the names apart, and `eofbit` is set only when one more is needed and there is none.
unfoldable pub match_names : Text → Option Text → Option Text → Stream
match_names [] false_name true_name =
    settle (not (is_settled false_name && is_settled true_name)) false_name true_name
match_names (c ∷ s) false_name true_name =
    let more = match_names s (advance c false_name) (advance c true_name) in
    if is_settled false_name && is_settled true_name
    then settle false false_name true_name
    else more

unfoldable pub is_bool : Text → Bool
unfolding match_names skip_spaces
is_bool my_string =
    consumed (
      match_names (skip_spaces (map tolower my_string)) (some (codes "false"))
        (some (codes "true")))

-- `T value; ss >> value;` for a `bool`, with no `boolalpha`: 0 is false and any other number true;
-- no number stores false. On a blank text nothing is stored, and `value` is what it was.
unfoldable pub lexical_cast_bool : Bool → Text → Bool
unfolding skip_spaces read_digits
lexical_cast_bool value str = elim (skip_spaces str) [
  | [] ↦ value
  | c ∷ s ↦ not (read_digits 10 0 (skip_sign (c ∷ s)) == 0)
]
