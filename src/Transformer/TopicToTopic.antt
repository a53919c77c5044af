-- ===== src/Transformer/TopicToTopic.antt =====
-- src/stream_transformer_topic_to_topic.cpp
pub mod Laws
use mqttraffic_warden.Common.{
  ℕ, Bool, true, false, not, Option, none, some, Text, leb, if◌then◌else◌, length, get_elem?,
  Result, ok, throw, ◌>>=◌, setup_failed, execution_failed,
}
use mqttraffic_warden.Json.{JsonOps}
use mqttraffic_warden.Topic.{split_topic, vector_at, place_sub_topic}
use mqttraffic_warden.Transformer.{k_from, k_to, to_unsigned_long}

pub record TopicToTopicTransformation : Type 0 where
  pub from_topic : ℕ
  pub to_topic : ℕ

module _ {J F D : Type 0} (json : JsonOps J F D) where
  unfoldable pub is_valid_setup : J → Bool
  is_valid_setup j =
      if not (json.is_object j)
      then false
      else if not (json.contains j k_from)
      then false
      else if not (json.is_number_unsigned (json.index j k_from))
      then false
      else if not (json.contains j k_to)
      then false
      else if not (json.is_number_unsigned (json.index j k_to))
      then false
      else true

  unfoldable pub setup : J → Result TopicToTopicTransformation
  unfolding is_valid_setup
  setup j = if not (is_valid_setup j) then throw setup_failed else do
    from ← json.get_int (json.index j k_from)
    to ← json.get_int (json.index j k_to)
    ok (record { from_topic = to_unsigned_long from; to_topic = to_unsigned_long to })

-- The result is the output topic; this transformer leaves the output payload as it is.
unfoldable pub execute : TopicToTopicTransformation → Text → Text → Result Text
execute m input_topic output_topic =
    if leb (length (split_topic input_topic)) m.from_topic then throw execution_failed else do
      sub_topic ← vector_at (split_topic input_topic) m.from_topic
      ok (place_sub_topic m.to_topic sub_topic output_topic)
