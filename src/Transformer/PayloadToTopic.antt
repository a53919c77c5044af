-- ===== src/Transformer/PayloadToTopic.antt =====
-- src/stream_transformer_payload_to_topic.cpp
pub mod Laws
pub mod Texts
pub mod Setup
use mqttraffic_warden.Common.{
  ℕ, Bool, true, false, not, ◌&&◌, Option, none, some, Text, if◌then◌else◌, Result, ok, throw,
  ◌>>=◌, setup_failed, execution_failed,
}
use mqttraffic_warden.Json.{JsonOps, FloatOps}
use mqttraffic_warden.Json.Utilities.{json_to_string}
use mqttraffic_warden.Topic.{split_topic, place_sub_topic}
use mqttraffic_warden.Transformer.{k_from, k_to, k_keep, to_unsigned_long}

pub record PayloadToTopicTransformation : Type 0 where
  pub from_payload : Text
  pub to_topic : ℕ
  pub keep : Bool

module _ {J F D : Type 0} (json : JsonOps J F D) where
  unfoldable pub is_valid_setup : J → Bool
  is_valid_setup j =
      if not (json.is_object j)
      then false
      else if not (json.contains j k_from)
      then false
      else if not (json.is_string (json.index j k_from))
      then false
      else if not (json.contains j k_to)
      then false
      else if not (json.is_number_unsigned (json.index j k_to))
      then false
      else if json.contains j k_keep && not (json.is_boolean (json.index j k_keep))
      then false
      else true

  -- The optional key 'keep' of two transformers.
  abbrev pub keep_of : J → Result Bool
  keep_of j = if json.contains j k_keep then json.get_bool (json.index j k_keep) else ok false

  unfoldable pub setup : J → Result PayloadToTopicTransformation
  unfolding is_valid_setup
  setup j = if not (is_valid_setup j) then throw setup_failed else do
    from ← json.get_string (json.index j k_from)
    to ← json.get_int (json.index j k_to)
    keep ← keep_of j
    ok (record { from_payload = from; to_topic = to_unsigned_long to; keep = keep })

  -- "If 'keep' is false, the original payload key-value pair must be deleted"
  abbrev pub drop_payload : PayloadToTopicTransformation → J → Result J
  drop_payload m output_payload =
      if not m.keep && json.contains output_payload m.from_payload
      then json.erase output_payload m.from_payload
      else ok output_payload

  module _ (floats : FloatOps F D) where
    -- The text of the input value; both errors of the conversion are execution errors.
    unfoldable pub input_text : PayloadToTopicTransformation → J → Result Text
    input_text m input_payload =
        if not (json.contains input_payload m.from_payload) then throw execution_failed else do
          value ← json.at input_payload m.from_payload
          converted ← json_to_string json floats value
          elim converted [ none ↦ throw execution_failed | some text ↦ ok text ]

    -- The new output topic and output payload.
    unfoldable pub execute : PayloadToTopicTransformation → J → Text → J → Result (Text × J)
    unfolding input_text
    execute m input_payload output_topic output_payload = do
      text ← input_text m input_payload
      let placed = place_sub_topic m.to_topic text output_topic
      payload ← drop_payload m output_payload
      ok (placed, payload)
