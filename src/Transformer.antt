-- ===== src/Transformer.antt =====
-- What the four stream transformers share: include/stream_transformer.h, the choice of the type
-- of a value that two of them convert to, and the conversion to a number.
pub mod Index
pub mod TopicToTopic
pub mod PayloadToTopic
pub mod TopicToPayload
pub mod PayloadToPayload
pub mod Dispatch
pub mod Errors
pub mod Booleans
use mqttraffic_warden.Common.{
  ℕ, ◌-◌, ◌^◌, Bool, true, false, List, [], ◌∷◌, Text, codes, str_eq, if◌then◌else◌, Result, ok,
  throw, ◌>>=◌, init_failed, setup_failed, execution_failed, out_of_range, json_error, mqtt_error,
  ℤ, pattern_of,
}
use mqttraffic_warden.Numbers.{is_int, lexical_cast_long}
use mqttraffic_warden.Casts.{lexical_cast_float, lexical_cast_double}
use mqttraffic_warden.Booleans.{is_bool, lexical_cast_bool}
use mqttraffic_warden.Json.{JsonOps, FloatOps}
use mqttraffic_warden.Json.Utilities.{is_float, is_double}

pub data JsonType : Type 0 where
  number string boolean object array null json_type_unknown : JsonType

abbrev pub k_from : Text
k_from = codes "from"

abbrev pub k_to : Text
k_to = codes "to"

abbrev pub k_as : Text
k_as = codes "as"

abbrev pub k_keep : Text
k_keep = codes "keep"

abbrev pub k_type_number : Text
k_type_number = codes "number"

abbrev pub k_type_string : Text
k_type_string = codes "string"

abbrev pub k_type_boolean : Text
k_type_boolean = codes "boolean"

abbrev pub k_types : List Text
k_types = k_type_number ∷ k_type_string ∷ k_type_boolean ∷ []

-- `int` to `unsigned long`, as `fromTopic` and `toTopic` are assigned.
abbrev pub to_unsigned_long : ℤ → ℕ
to_unsigned_long = pattern_of 64

-- A setup ends well or with a setup exception.
abbrev pub SetupOnly {ℓ} : {A : Type ℓ} → Result A → Type 0
SetupOnly (ok a) = Unit
SetupOnly (throw setup_failed) = Unit
SetupOnly (throw init_failed) = ⊥
SetupOnly (throw execution_failed) = ⊥
SetupOnly (throw out_of_range) = ⊥
SetupOnly (throw json_error) = ⊥
SetupOnly (throw mqtt_error) = ⊥

-- The chain of comparisons that chooses `asType` in `setup`.
unfoldable pub json_type_of : Text → Result JsonType
json_type_of s =
    if str_eq k_type_number s
    then ok number
    else if str_eq k_type_string s
    then ok string
    else if str_eq k_type_boolean s
    then ok boolean
    else throw setup_failed

module _ {J F D : Type 0} (json : JsonOps J F D) (floats : FloatOps F D) where
  -- The case `JsonType::Number` of `execute`: the value that is assigned.
  unfoldable pub to_number : Text → Result J
  unfolding is_float is_double
  to_number s =
      if is_int s
      then ok (json.of_long (lexical_cast_long s))
      else if is_float json floats s
      then ok (json.of_float (lexical_cast_float floats s))
      else if is_double json floats s
      then ok (json.of_double (lexical_cast_double floats s))
      else throw execution_failed
