-- ===== src/Transformer/Booleans.antt =====
-- Conversions to a boolean, in the two transformers that have them.
use mqttraffic_warden.Common.{
  ◌≡◌, ◌<◌, inl, inr, true, false, Text, leb, length, ok, throw, execution_failed, arith,
  Bool-cases,
}
use mqttraffic_warden.Booleans.Laws.{is_bool-false}
use mqttraffic_warden.Json.{JsonOps, FloatOps, JsonLaws}
use mqttraffic_warden.Json.Utilities.{dump_json}
use mqttraffic_warden.Topic.{split_topic}
use mqttraffic_warden.Topic.Laws.{vector_at_within}
use mqttraffic_warden.Transformer.{boolean}
use mqttraffic_warden.Transformer.TopicToPayload
use mqttraffic_warden.Transformer.TopicToPayload.{TopicToPayloadTransformation, assign}
use mqttraffic_warden.Transformer.PayloadToPayload
use mqttraffic_warden.Transformer.PayloadToPayload.{
  PayloadToPayloadTransformation, input_text, convert, new_value,
}

module _ {J F D : Type 0} (json : JsonOps J F D) (laws : JsonLaws json)
    (floats : FloatOps F D) where
  topic_unchanged :
      (m : TopicToPayloadTransformation) (i : Text) (o : J)
      → m.as_type ≡ boolean
      → m.from_topic < length (split_topic i)
      → TopicToPayload.execute json floats m i o ≡ ok o
  unfolding TopicToPayload.execute assign
  topic_unchanged m i o e h =
      let (sub, f, g) = vector_at_within (split_topic i) m.from_topic h in
      let within : leb (length (split_topic i)) m.from_topic ≡ false = ground arith in
      simp (TopicToPayload.execute, within, g, e, assign, is_bool-false)

  input_text_found :
      (ip : J) (k : Text)
      → json.contains ip k ≡ true
      → (text : Text) × (input_text json floats ip k ≡ ok text)
  unfolding input_text
  input_text_found ip k h = elim (Bool-cases (json.is_string (json.index ip k))) [
    | inl b ↦
        let (s, e) = laws.get_string_ok (json.index ip k) b in
        (s, simp (input_text, laws.at_contains ip k h, b, e))
    | inr b ↦
        (dump_json json floats (json.index ip k), simp (input_text, laws.at_contains ip k h, b))
  ]

  payload_refused :
      (m : PayloadToPayloadTransformation) (ip o : J)
      → m.as_type ≡ boolean
      → json.contains ip m.from_payload ≡ true
      → PayloadToPayload.execute json floats m ip o ≡ throw execution_failed
  unfolding PayloadToPayload.execute new_value convert
  payload_refused m ip o e h =
      let (text, f) = input_text_found ip m.from_payload h in
      simp (PayloadToPayload.execute, new_value, e, f, convert, is_bool-false)

  -- A conversion to a boolean converts nothing. A topic-to-payload transformer with it leaves the output
  -- payload as it is, whatever the sub-topic at its index is; a payload-to-payload transformer with it ends in
  -- an execution error, whatever the value at its key is, also for the value true itself.
  pub boolean_conversions :
      (m : TopicToPayloadTransformation) (n : PayloadToPayloadTransformation) (input_topic : Text)
      (input_payload output_payload : J)
      → m.as_type ≡ boolean
      → n.as_type ≡ boolean
      → m.from_topic < length (split_topic input_topic)
      → json.contains input_payload n.from_payload ≡ true
      → (TopicToPayload.execute json floats m input_topic output_payload ≡ ok output_payload)
        × (PayloadToPayload.execute json floats n input_payload output_payload
            ≡ throw execution_failed)
  boolean_conversions m n i ip o e f h c = (topic_unchanged m i o e h, payload_refused n ip o f c)
