-- ===== src/Transformer/TopicToPayload.antt =====
-- src/stream_transformer_topic_to_payload.cpp
pub mod Laws
pub mod Setup
use mqttraffic_warden.Common.{
  ℕ, Bool, true, false, not, ◌&&◌, Text, leb, if◌then◌else◌, length, Result, ok, throw, ◌>>=◌,
  setup_failed, execution_failed,
}
use mqttraffic_warden.Booleans.{is_bool, lexical_cast_bool}
use mqttraffic_warden.Json.{JsonOps, FloatOps}
use mqttraffic_warden.Topic.{split_topic, vector_at}
use mqttraffic_warden.Transformer.{
  JsonType, number, string, boolean, json_type_unknown, json_type_of, k_from, k_to, k_as,
  to_unsigned_long, to_number,
}

pub record TopicToPayloadTransformation : Type 0 where
  pub from_topic : ℕ
  pub to_payload : Text
  pub as_type : JsonType

-- `catch (std::exception) { throw StreamTransformerSetupException(); }`
abbrev pub catch_setup {ℓ} : {A : Type ℓ} → Result A → Result A
catch_setup (ok a) = ok a
catch_setup (throw e) = throw setup_failed

module _ {J F D : Type 0} (json : JsonOps J F D) where
  unfoldable pub is_valid_setup : J → Bool
  is_valid_setup j =
      if not (json.is_object j)
      then false
      else if not (json.contains j k_from)
      then false
      else if not (json.is_number_unsigned (json.index j k_from))
      then false
      else if not (json.contains j k_to)
      then false
      else if not (json.is_string (json.index j k_to))
      then false
      else if json.contains j k_as && not (json.is_string (json.index j k_as))
      then false
      else true

  -- The optional key 'as' of two transformers.
  unfoldable pub as_type_of : J → Result JsonType
  as_type_of j =
      if json.contains j k_as
      then (do s ← json.get_string (json.index j k_as); json_type_of s)
      else ok json_type_unknown

  unfoldable pub setup : J → Result TopicToPayloadTransformation
  unfolding is_valid_setup as_type_of
  setup j = catch_setup (
      if not (is_valid_setup j) then throw setup_failed else do
        from ← json.get_int (json.index j k_from)
        to ← json.get_string (json.index j k_to)
        as_type ← as_type_of j
        ok (record { from_topic = to_unsigned_long from; to_payload = to; as_type = as_type }))

  module _ (floats : FloatOps F D) where
    -- The cases of `execute` over `asType`; a text that is no boolean is ignored.
    unfoldable pub assign : JsonType → Text → Text → J → Result J
    unfolding to_number
    assign json_type_unknown to_payload sub_topic output_payload =
        json.set output_payload to_payload (json.of_string sub_topic)
    assign number to_payload sub_topic output_payload = do
      value ← to_number json floats sub_topic
      json.set output_payload to_payload value
    assign string to_payload sub_topic output_payload =
        json.set output_payload to_payload (json.of_string sub_topic)
    assign boolean to_payload sub_topic output_payload =
        if is_bool sub_topic
        then json.set output_payload to_payload
            (json.of_bool (lexical_cast_bool floats.uninitialised sub_topic))
        else ok output_payload
    assign _ to_payload sub_topic output_payload = throw execution_failed

    -- The new output payload; this transformer leaves the output topic as it is.
    unfoldable pub execute : TopicToPayloadTransformation → Text → J → Result J
    unfolding assign
    execute m input_topic output_payload =
        if leb (length (split_topic input_topic)) m.from_topic then throw execution_failed else do
          sub_topic ← vector_at (split_topic input_topic) m.from_topic
          assign m.as_type m.to_payload sub_topic output_payload
