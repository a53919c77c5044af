-- ===== src/Tests/Transformers.antt =====
-- The four transformers at concrete messages.
use mqttraffic_warden.Common.{
  ℕ, ◌<◌, arith, Bool, ◌≡◌, ◌⊎◌, ◌≤◌, refl, true, false, Option, none, some, ◌∷◌, ◌++◌, Text, codes,
  if◌then◌else◌, take, drop, length, get_elem?, str_eq, ok, throw, setup_failed, execution_failed,
  json_error,
}
use mqttraffic_warden.Json.{member}
use mqttraffic_warden.Strings.{split_string, join_strings}
use mqttraffic_warden.Strings.Fields.{fields}
use mqttraffic_warden.Json.Utilities.{json_to_string}
use mqttraffic_warden.Numbers.{is_int, lexical_cast_long}
use mqttraffic_warden.Topic.{split_topic, place_sub_topic}
use mqttraffic_warden.Transformer.{
  JsonType, json_type_of, number, string, boolean, to_number, k_from, k_to, k_as, k_keep,
}
use mqttraffic_warden.Transformer.Booleans.{boolean_conversions}
use mqttraffic_warden.Transformer.Index.{stored_index}
use mqttraffic_warden.Transformer.TopicToTopic
use mqttraffic_warden.Transformer.TopicToTopic.Laws.{execute_sub_topics, setup_indices}
use mqttraffic_warden.Transformer.PayloadToTopic
use mqttraffic_warden.Transformer.PayloadToTopic.Laws.{execute_effect}
use mqttraffic_warden.Transformer.PayloadToTopic.Texts.{
  kind_of, TextOf, or_failed, input_text_outcomes,
}
use mqttraffic_warden.Transformer.TopicToPayload
use mqttraffic_warden.Transformer.TopicToPayload.Laws.{converted, Leaves, execute-Leaves}
use mqttraffic_warden.Transformer.PayloadToPayload
use mqttraffic_warden.Transformer.PayloadToPayload.Laws.{execute_members}
use mqttraffic_warden.Transformer.PayloadToPayload.Setup.{setup_keys}
use mqttraffic_warden.Transformer.PayloadToTopic.Setup.{Keeps, setup_key_and_index}
use mqttraffic_warden.Transformer.TopicToPayload.Setup.{
  ConvertsTo, ConvertsToNone, setup_index_and_key,
}
use mqttraffic_warden.Sample.Value.{
  Value, unsigned, str, obj, end, field, sample_json, sample_floats,
}
use mqttraffic_warden.Sample.Laws.{sample_json-JsonLaws}

abbrev second_to_first : TopicToTopic.TopicToTopicTransformation
second_to_first = record { from_topic = 1; to_topic = 0 }

abbrev two_indices : Value
two_indices = obj (field k_from (unsigned 1) (field k_to (unsigned 4294967295) end))

topic_to_topic_tests :
    (TopicToTopic.execute second_to_first (codes "a/b") (codes "x/y") ≡ ok (codes "b/x/y"))
    × (TopicToTopic.execute second_to_first (codes "a") (codes "x") ≡ throw execution_failed)
    × (TopicToTopic.setup sample_json two_indices
        ≡ ok (record { from_topic = 1; to_topic = 18446744073709551615 }))
unfolding TopicToTopic.execute TopicToTopic.setup TopicToTopic.is_valid_setup split_topic
    place_sub_topic split_string join_strings
topic_to_topic_tests = (refl, refl, refl)

execute_sub_topics_example :
    ((length (split_topic (codes "a/b")) ≤ 1)
      × (TopicToTopic.execute second_to_first (codes "a/b") (codes "x/y") ≡ throw execution_failed))
    ⊎ ((sub_topic : Text) × (new_topic : Text) × (get_elem? (split_topic (codes "a/b")) 1
          ≡ some sub_topic)
        × (TopicToTopic.execute second_to_first (codes "a/b") (codes "x/y") ≡ ok new_topic)
        × (split_topic new_topic
            ≡ take 0 (split_topic (codes "x/y")) ++ sub_topic ∷ drop 0 (split_topic (codes "x/y"))))
execute_sub_topics_example =
    execute_sub_topics second_to_first (codes "a/b") (codes "x/y") (λ e. cc)

setup_indices_example :
    ((TopicToTopic.is_valid_setup sample_json two_indices ≡ false)
      × (TopicToTopic.setup sample_json two_indices ≡ throw setup_failed))
    ⊎ ((n : ℕ) × (k : ℕ) × (sample_json.get_unsigned_long (sample_json.index two_indices k_from)
          ≡ ok n)
        × (sample_json.get_unsigned_long (sample_json.index two_indices k_to) ≡ ok k)
        × (TopicToTopic.setup sample_json two_indices
            ≡ ok (record { from_topic = stored_index n; to_topic = stored_index k })))
setup_indices_example = setup_indices sample_json sample_json-JsonLaws two_indices

abbrev reading : Value
reading = obj (field (codes "room") (str (codes "k/1")) (field (codes "n") (unsigned 65) end))

abbrev room_to_topic : PayloadToTopic.PayloadToTopicTransformation
room_to_topic = record { from_payload = codes "room"; to_topic = 1; keep = false }

abbrev without_room : Value
without_room = obj (field (codes "n") (unsigned 65) end)

room_to_topic_run :
    PayloadToTopic.execute sample_json sample_floats room_to_topic reading (codes "a/b") reading
    ≡ ok (codes "a/k/1/b", without_room)
unfolding PayloadToTopic.execute PayloadToTopic.input_text json_to_string split_topic
    place_sub_topic split_string join_strings
room_to_topic_run = refl

execute_effect_example :
    (text : Text) × (PayloadToTopic.input_text sample_json sample_floats room_to_topic reading
      ≡ ok text)
    × (split_topic (codes "a/k/1/b")
        ≡ take 1 (split_topic (codes "a/b"))
          ++ (fields b'/' text ++ drop 1 (split_topic (codes "a/b"))))
    × ((i : Text)
        → member sample_json without_room i
          ≡ (if str_eq (codes "room") i then none else member sample_json reading i))
execute_effect_example =
    execute_effect sample_json sample_json-JsonLaws sample_floats room_to_topic reading
      (codes "a/b") (codes "a/k/1/b") reading without_room (λ e. cc) refl room_to_topic_run

abbrev n_to_first : PayloadToTopic.PayloadToTopicTransformation
n_to_first = record { from_payload = codes "n"; to_topic = 0; keep = true }

input_text_outcomes_example :
    ((sample_json.contains reading (codes "n") ≡ false)
      × (PayloadToTopic.input_text sample_json sample_floats n_to_first reading
          ≡ throw execution_failed))
    ⊎ ((sample_json.contains reading (codes "n") ≡ true)
        × (o : Option Text) × (PayloadToTopic.input_text sample_json sample_floats n_to_first
              reading
            ≡ or_failed sample_json sample_floats sample_json-JsonLaws o)
        × TextOf sample_json sample_floats
            (unsigned 65)
            (kind_of sample_json sample_floats (unsigned 65))
            o)
input_text_outcomes_example =
    input_text_outcomes sample_json sample_floats sample_json-JsonLaws n_to_first reading

abbrev second_to_id : TopicToPayload.TopicToPayloadTransformation
second_to_id = record { from_topic = 1; to_payload = codes "id"; as_type = number }

abbrev with_id : Value
with_id = obj (
    field (codes "room") (str (codes "k/1"))
      (field (codes "n") (unsigned 65) (field (codes "id") (unsigned 12) end)))

second_to_id_run :
    TopicToPayload.execute sample_json sample_floats second_to_id (codes "a/12") reading
    ≡ ok with_id
unfolding TopicToPayload.execute TopicToPayload.assign to_number is_int lexical_cast_long
    split_topic split_string
second_to_id_run = refl

execute-Leaves_example :
    (sub_topic : Text) × (get_elem? (split_topic (codes "a/12")) 1 ≡ some sub_topic)
    × Leaves sample_json sample_json-JsonLaws sample_floats
        (converted sample_json sample_json-JsonLaws sample_floats number sub_topic)
        (codes "id")
        reading
        with_id
execute-Leaves_example =
    execute-Leaves sample_json sample_json-JsonLaws sample_floats second_to_id (codes "a/12")
      reading with_id refl second_to_id_run

abbrev room_as_text : PayloadToPayload.PayloadToPayloadTransformation
room_as_text = record {
  from_payload = codes "room";
  to_payload = codes "place";
  as_type = string;
  keep = false;
}

abbrev with_place : Value
with_place = obj (field (codes "n") (unsigned 65) (field (codes "place") (str (codes "k/1")) end))

room_as_text_run :
    PayloadToPayload.execute sample_json sample_floats room_as_text reading reading ≡ ok with_place
unfolding PayloadToPayload.execute PayloadToPayload.new_value PayloadToPayload.input_text
    PayloadToPayload.convert json_to_string
room_as_text_run = refl

execute_members_example :
    (value : Value) × (PayloadToPayload.new_value sample_json sample_floats room_as_text reading
      ≡ ok value)
    × ((i : Text)
        → member sample_json with_place i ≡ (
            if str_eq (codes "room") i
            then none
            else if str_eq (codes "place") i
            then some value
            else member sample_json reading i))
execute_members_example =
    execute_members sample_json sample_json-JsonLaws sample_floats room_as_text reading reading
      with_place refl room_as_text_run

abbrev keep_in_words : Value
keep_in_words = obj (
    field k_from (str (codes "a")) (
      field k_to (str (codes "b"))
        (field k_as (str (codes "number")) (field k_keep (str (codes "yes")) end))))

keep_in_words_valid : PayloadToPayload.is_valid_setup sample_json keep_in_words ≡ ok true
unfolding PayloadToPayload.is_valid_setup PayloadToPayload.is_valid_optional
keep_in_words_valid = refl

setup_keys_example :
    ((PayloadToPayload.is_valid_setup sample_json keep_in_words ≡ ok false)
      × (PayloadToPayload.setup sample_json keep_in_words ≡ throw setup_failed))
    ⊎ (((PayloadToPayload.is_valid_setup sample_json keep_in_words ≡ ok true)
          × (sample_json.contains keep_in_words k_as ≡ true)
          × (sample_json.contains keep_in_words k_keep ≡ true)
          × (sample_json.is_boolean (sample_json.index keep_in_words k_keep) ≡ false)
          × (PayloadToPayload.setup sample_json keep_in_words ≡ throw json_error))
        ⊎ ((from : Text) × (to : Text) × (t : JsonType) × (keep : Bool) × (sample_json.get_string
                (sample_json.index keep_in_words k_from)
              ≡ ok from)
            × (sample_json.get_string (sample_json.index keep_in_words k_to) ≡ ok to)
            × ConvertsTo sample_json sample_json-JsonLaws keep_in_words t
            × Keeps sample_json sample_json-JsonLaws keep_in_words keep
            × (PayloadToPayload.setup sample_json keep_in_words
                ≡ ok (record { from_payload = from; to_payload = to; as_type = t; keep = keep }))))
setup_keys_example = setup_keys sample_json sample_json-JsonLaws keep_in_words

unchecked_keep : PayloadToPayload.setup sample_json keep_in_words ≡ throw json_error
unfolding PayloadToPayload.setup PayloadToPayload.is_valid_setup PayloadToPayload.is_valid_optional
    TopicToPayload.as_type_of json_type_of
unchecked_keep = refl

abbrev room_setup : Value
room_setup = obj (field k_from (str (codes "room")) (field k_to (unsigned 1) end))

setup_key_and_index_example :
    ((PayloadToTopic.is_valid_setup sample_json room_setup ≡ false)
      × (PayloadToTopic.setup sample_json room_setup ≡ throw setup_failed))
    ⊎ ((from : Text) × (n : ℕ) × (keep : Bool) × (sample_json.get_string
            (sample_json.index room_setup k_from)
          ≡ ok from)
        × (sample_json.get_unsigned_long (sample_json.index room_setup k_to) ≡ ok n)
        × Keeps sample_json sample_json-JsonLaws room_setup keep
        × (PayloadToTopic.setup sample_json room_setup
            ≡ ok (record { from_payload = from; to_topic = stored_index n; keep = keep })))
setup_key_and_index_example = setup_key_and_index sample_json sample_json-JsonLaws room_setup

abbrev id_setup : Value
id_setup = obj (
    field k_from (unsigned 1)
      (field k_to (str (codes "id")) (field k_as (str (codes "number")) end)))

setup_index_and_key_example :
    (((TopicToPayload.is_valid_setup sample_json id_setup ≡ false)
        ⊎ ConvertsToNone sample_json sample_json-JsonLaws id_setup)
      × (TopicToPayload.setup sample_json id_setup ≡ throw setup_failed))
    ⊎ ((n : ℕ) × (to : Text) × (t : JsonType) × (sample_json.get_unsigned_long
            (sample_json.index id_setup k_from)
          ≡ ok n)
        × (sample_json.get_string (sample_json.index id_setup k_to) ≡ ok to)
        × ConvertsTo sample_json sample_json-JsonLaws id_setup t
        × (TopicToPayload.setup sample_json id_setup
            ≡ ok (record { from_topic = stored_index n; to_payload = to; as_type = t })))
setup_index_and_key_example = setup_index_and_key sample_json sample_json-JsonLaws id_setup

abbrev second_as_boolean : TopicToPayload.TopicToPayloadTransformation
second_as_boolean = record { from_topic = 1; to_payload = codes "on"; as_type = boolean }

abbrev room_as_boolean : PayloadToPayload.PayloadToPayloadTransformation
room_as_boolean = record {
  from_payload = codes "room";
  to_payload = codes "on";
  as_type = boolean;
  keep = true;
}

two_sub_topics : 1 < length (split_topic (codes "a/true"))
unfolding split_topic split_string
two_sub_topics = omega arith

boolean_conversions_example :
    (TopicToPayload.execute sample_json sample_floats second_as_boolean (codes "a/true") reading
      ≡ ok reading)
    × (PayloadToPayload.execute sample_json sample_floats room_as_boolean reading reading
        ≡ throw execution_failed)
boolean_conversions_example =
    boolean_conversions sample_json sample_json-JsonLaws sample_floats second_as_boolean
      room_as_boolean (codes "a/true") reading reading refl refl two_sub_topics refl
