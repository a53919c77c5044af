-- ===== src/Tests/Texts.antt =====
-- src/utilities.cpp and src/cast.cpp at concrete texts.
use mqttraffic_warden.Common.{
  pos, negsuc, ◌-◌, ◌^◌, ◌≡◌, ◌≢◌, ◌↔◌, ◌⊎◌, refl, true, false, some, List, [], ◌∷◌, ◌++◌, Text,
  codes, signed, if◌then◌else◌, take, drop,
}
use mqttraffic_warden.Strings.{split_string, join_strings}
use mqttraffic_warden.Strings.Find.{join-split}
use mqttraffic_warden.Strings.Ends.{Stops, split_loop-Stops_iff}
use mqttraffic_warden.Strings.Fields.{fields, loop_fields, split_string-fields}
use mqttraffic_warden.Strings.RoundTrip.{split-join}
use mqttraffic_warden.Address.{is_valid_ip}
use mqttraffic_warden.Address.Parts.{IsOctet, IsHexGroup}
use mqttraffic_warden.Address.Separated.{IsJoined}
use mqttraffic_warden.Address.Laws.{is_valid_ip_iff}
use mqttraffic_warden.Topic.{slash, split_topic, place_sub_topic}
use mqttraffic_warden.Topic.Laws.{split_topic-place_sub_topic}
use mqttraffic_warden.Numbers.{is_int, is_minus, skip_sign, read_digits, lexical_cast_long}
use mqttraffic_warden.Numbers.Laws.{decimal, starts_with_zero, lexical_cast_long_of_is_int}
use mqttraffic_warden.Booleans.{is_bool, lexical_cast_bool}
use mqttraffic_warden.Casts.{
  lexical_cast_string, lexical_cast_long_long, lexical_cast_unsigned_long_long,
}
use mqttraffic_warden.Numbers.{lexical_cast_short}

splits :
    (split_string (codes "food/fat/pizza") slash
      ≡ some (codes "food" ∷ codes "fat" ∷ codes "pizza" ∷ []))
    × (split_string (codes "a/") slash ≡ some (codes "a" ∷ [] ∷ []))
    × (split_string [] slash ≡ some [])
    × (join_strings (codes "a" ∷ [] ∷ codes "b" ∷ []) slash ≡ codes "a//b")
unfolding split_string join_strings
splits = (refl, refl, refl, refl)

join-split_example :
    (ps : List Text) × (split_string (codes "a::b:") (codes "::") ≡ some ps)
    × (join_strings ps (codes "::") ≡ codes "a::b:")
join-split_example = join-split (codes "a::b:") (codes "::") (λ e. cc)

split_loop-Stops_iff_example :
    Stops (codes "::") (codes "a::b") [] ↔ ((codes "::" ≢ []) ⊎ (codes "a::b" ≡ []))
split_loop-Stops_iff_example = split_loop-Stops_iff (codes "::") (codes "a::b") []

split_string-fields_example :
    split_string (codes "a//b") slash ≡ some (loop_fields b'/' (codes "a//b"))
split_string-fields_example = split_string-fields b'/' (codes "a//b")

split_topic-place_sub_topic_example :
    split_topic (place_sub_topic 1 (codes "x/y") (codes "a/b"))
    ≡ take 1 (split_topic (codes "a/b"))
      ++ (fields b'/' (codes "x/y") ++ drop 1 (split_topic (codes "a/b")))
split_topic-place_sub_topic_example =
    split_topic-place_sub_topic 1 (codes "x/y") (codes "a/b") (λ e. cc)

seven_is_int : is_int (codes "-017") ≡ true
unfolding is_int
seven_is_int = refl

lexical_cast_long_of_is_int_example :
    lexical_cast_long (codes "-017")
    ≡ signed (is_minus (codes "-017")) (
        if starts_with_zero (skip_sign (codes "-017"))
        then read_digits 8 0 (skip_sign (codes "-017"))
        else decimal 0 (skip_sign (codes "-017")))
lexical_cast_long_of_is_int_example = lexical_cast_long_of_is_int (codes "-017") seven_is_int

-- The word is not read as a boolean, and its conversion is false.
no_bool : (is_bool (codes "true") ≡ false) × (lexical_cast_bool true (codes " true") ≡ false)
unfolding is_bool lexical_cast_bool
no_bool = (refl, refl)

cast_tests :
    (lexical_cast_string (codes "a b") ≡ codes "a b")
    × (lexical_cast_string (b'a' ∷ 0 ∷ b'b' ∷ []) ≡ codes "a")
    × (lexical_cast_long_long (codes "-0x10") ≡ negsuc 15)
    × (lexical_cast_unsigned_long_long (codes "-1") ≡ 2 ^ 64 - 1)
    × (lexical_cast_short (codes "65537") ≡ pos 1)
unfolding lexical_cast_string lexical_cast_long_long lexical_cast_unsigned_long_long
    lexical_cast_short
cast_tests = (refl, refl, refl, refl, refl)

split-join_example :
    split_string (join_strings (codes "a" ∷ [] ∷ codes "b" ∷ []) slash) slash
    ≡ some (codes "a" ∷ [] ∷ codes "b" ∷ [])
split-join_example =
    split-join b'/' (codes "a" ∷ [] ∷ codes "b" ∷ []) (λ e. cc) (λ e. cc)
      ((λ e. cc, tt), (tt, ((λ e. cc, tt), tt)))

is_valid_ip_iff_example :
    (is_valid_ip (codes "10.0.0.7") ≡ true)
    ↔ (IsJoined IsOctet 4 b'.' (codes "10.0.0.7") ⊎ IsJoined IsHexGroup 8 b':' (codes "10.0.0.7"))
is_valid_ip_iff_example = is_valid_ip_iff (codes "10.0.0.7")
