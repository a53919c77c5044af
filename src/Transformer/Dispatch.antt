-- ===== src/Transformer/Dispatch.antt =====
-- The class hierarchy of include/stream_transformer.h: a virtual call is a dispatch by cases.
use mqttraffic_warden.Common.{Text, Result, ok, ◌>>=◌}
use mqttraffic_warden.Json.{JsonOps, FloatOps}
use mqttraffic_warden.Transformer.TopicToTopic
use mqttraffic_warden.Transformer.PayloadToTopic
use mqttraffic_warden.Transformer.TopicToPayload
use mqttraffic_warden.Transformer.PayloadToPayload
use mqttraffic_warden.Transformer.TopicToTopic.{TopicToTopicTransformation}
use mqttraffic_warden.Transformer.PayloadToTopic.{PayloadToTopicTransformation}
use mqttraffic_warden.Transformer.TopicToPayload.{TopicToPayloadTransformation}
use mqttraffic_warden.Transformer.PayloadToPayload.{PayloadToPayloadTransformation}

-- A transformer that has been set up: its `m_transformation`.
pub data StreamTransformer : Type 0 where
  topic_to_topic : TopicToTopicTransformation → StreamTransformer
  payload_to_topic : PayloadToTopicTransformation → StreamTransformer
  topic_to_payload : TopicToPayloadTransformation → StreamTransformer
  payload_to_payload : PayloadToPayloadTransformation → StreamTransformer

module _ {J F D : Type 0} (json : JsonOps J F D) (floats : FloatOps F D) where
  -- The output topic and the output payload that a call leaves.
  unfoldable pub execute : StreamTransformer → Text → J → Text → J → Result (Text × J)
  execute (topic_to_topic m) input_topic input_payload output_topic output_payload = do
    topic ← TopicToTopic.execute m input_topic output_topic
    ok (topic, output_payload)
  execute (payload_to_topic m) input_topic input_payload output_topic output_payload =
      PayloadToTopic.execute json floats m input_payload output_topic output_payload
  execute (topic_to_payload m) input_topic input_payload output_topic output_payload = do
    payload ← TopicToPayload.execute json floats m input_topic output_payload
    ok (output_topic, payload)
  execute (payload_to_payload m) input_topic input_payload output_topic output_payload = do
    payload ← PayloadToPayload.execute json floats m input_payload output_payload
    ok (output_topic, payload)
