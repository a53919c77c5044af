-- ===== src/Json/Utilities.antt =====
-- src/json_utilities.cpp, and the float tests of src/utilities.cpp.
use mqttraffic_warden.Common.{
  ℕ, ◌%◌, Bool, Option, none, some, [], ◌∷◌, Text, if◌then◌else◌, Result, ok, throw, ◌>>=◌,
  pattern_of,
}
use mqttraffic_warden.Numbers.{consumed}
use mqttraffic_warden.Json.{JsonOps, FloatOps}

-- `std::string = n` for an integer `n` assigns the one character that `n` converts to.
abbrev pub assign_char : ℕ → Text
assign_char n = n % 256 ∷ []

module _ {J F D : Type 0} (json : JsonOps J F D) (floats : FloatOps F D) where
  unfoldable pub dump_json : J → Text
  dump_json j = elim (json.dump j) [ ok result ↦ result | throw e ↦ [] ]

  -- `none` is the result false, with nothing assigned to `p_string`.
  unfoldable pub json_to_string : J → Result (Option Text)
  json_to_string j =
      if json.is_string j
      then (do s ← json.get_string j; ok (some s))
      else if json.is_boolean j
      then (do b ← json.get_bool j; ok (some (assign_char (if b then 1 else 0))))
      else if json.is_number_unsigned j
      then (do n ← json.get_unsigned_long j; ok (some (assign_char n)))
      else if json.is_number_integer j
      then (do i ← json.get_long j; ok (some (assign_char (pattern_of 8 i))))
      else if json.is_number_float j
      then (do d ← json.get_double j; ok (some (assign_char (floats.to_char d))))
      else ok none

  unfoldable pub is_float : Text → Bool
  is_float my_string = consumed (floats.extract_float my_string)

  unfoldable pub is_double : Text → Bool
  is_double my_string = consumed (floats.extract_double my_string)
