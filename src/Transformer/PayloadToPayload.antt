-- ===== src/Transformer/PayloadToPayload.antt =====
-- src/stream_transformer_payload_to_payload.cpp
pub mod Laws
pub mod Setup
use mqttraffic_warden.Common.{
  ℕ, Bool, true, false, not, ◌&&◌, ◌||◌, List, [], ◌∷◌, Text, str_eq, if◌then◌else◌, Result, ok,
  throw, ◌>>=◌, setup_failed, execution_failed,
}
use mqttraffic_warden.Booleans.{is_bool, lexical_cast_bool}
use mqttraffic_warden.Json.{JsonOps, FloatOps}
use mqttraffic_warden.Json.Utilities.{dump_json}
use mqttraffic_warden.Transformer.{
  JsonType, number, string, boolean, json_type_unknown, k_types, k_from, k_to, k_as, k_keep,
  to_number,
}
use mqttraffic_warden.Transformer.TopicToPayload.{as_type_of}
use mqttraffic_warden.Transformer.PayloadToTopic.{keep_of}

pub record PayloadToPayloadTransformation : Type 0 where
  pub from_payload : Text
  pub to_payload : Text
  pub as_type : JsonType
  pub keep : Bool

-- `std::none_of` over the texts that are compared with the value.
abbrev pub none_equal : Text → List Text → Bool
none_equal s [] = true
none_equal s (t ∷ ts) = not (str_eq t s) && none_equal s ts

module _ {J F D : Type 0} (json : JsonOps J F D) where
  -- The tests behind the mandatory fields: 'keep' is tested only where there is no 'as'.
  unfoldable pub is_valid_optional : J → Result Bool
  is_valid_optional j =
      if json.contains j k_as
      then (if not (json.is_string (json.index j k_as)) then ok false else do
        value ← json.at j k_as
        s ← json.get_string value
        ok (not (none_equal s k_types)))
      else if json.contains j k_keep && not (json.is_boolean (json.index j k_keep))
      then ok false
      else ok true

  unfoldable pub is_valid_setup : J → Result Bool
  is_valid_setup j =
      if not (json.is_object j)
      then ok false
      else if not (json.contains j k_from)
      then ok false
      else if not (json.is_string (json.index j k_from))
      then ok false
      else if not (json.contains j k_to)
      then ok false
      else if not (json.is_string (json.index j k_to))
      then ok false
      else is_valid_optional j

  unfoldable pub setup : J → Result PayloadToPayloadTransformation
  setup j = do
    valid ← is_valid_setup j
    from ← if valid then json.get_string (json.index j k_from) else throw setup_failed
    to ← json.get_string (json.index j k_to)
    as_type ← as_type_of json j
    keep ← keep_of json j
    ok (record { from_payload = from; to_payload = to; as_type = as_type; keep = keep })

  module _ (floats : FloatOps F D) where
    -- The text that the conversions read: a string as it is, any other value dumped.
    unfoldable pub input_text : J → Text → Result Text
    unfolding dump_json
    input_text input_payload from_payload = do
      tested ← json.at input_payload from_payload
      value ← json.at input_payload from_payload
      if json.is_string tested then json.get_string value else ok (dump_json json floats value)

    -- The cases of `execute` over `asType`.
    unfoldable pub convert : JsonType → Text → Result J
    unfolding to_number
    convert number text = to_number json floats text
    convert string text = ok (json.of_string text)
    convert boolean text =
        if is_bool text
        then ok (json.of_bool (lexical_cast_bool floats.uninitialised text))
        else throw execution_failed
    convert _ text = throw execution_failed

    -- The value that is assigned to the key 'to'.
    unfoldable pub new_value : PayloadToPayloadTransformation → J → Result J
    unfolding input_text convert
    new_value m input_payload = elim m.as_type [
      | json_type_unknown ↦ json.at input_payload m.from_payload
      | known ↦ do text ← input_text input_payload m.from_payload; convert known text
    ]

    -- The new output payload; this transformer leaves the output topic as it is.
    unfoldable pub execute : PayloadToPayloadTransformation → J → J → Result J
    unfolding new_value
    execute m input_payload output_payload = do
      value ← new_value m input_payload
      assigned ← json.set output_payload m.to_payload value
      if not m.keep then json.erase assigned m.from_payload else ok assigned
