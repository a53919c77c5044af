-- ===== src/Warden/Routes.antt =====
-- `is_valid_route`, `is_valid_stream_transformer` and `retrieve_routes` (src/traffic_warden.cpp).
pub mod Grouping
pub mod Validity
pub mod Wildcards
pub mod Errors
use mqttraffic_warden.Common.{
  ℕ, Bool, true, false, not, ◌&&◌, Option, none, some, List, [], ◌∷◌, ◌++◌, Text, codes, str_eq,
  if◌then◌else◌, Result, ok, throw, ◌>>=◌, Exception, init_failed, setup_failed, execution_failed,
  out_of_range, json_error, mqtt_error,
}
use mqttraffic_warden.Json.{JsonOps}
use mqttraffic_warden.Transformer.TopicToTopic
use mqttraffic_warden.Transformer.PayloadToTopic
use mqttraffic_warden.Transformer.TopicToPayload
use mqttraffic_warden.Transformer.PayloadToPayload
use mqttraffic_warden.Transformer.Dispatch.{
  StreamTransformer, topic_to_topic, payload_to_topic, topic_to_payload, payload_to_payload,
}
use mqttraffic_warden.Warden.Topics.{is_valid_topic}

pub record RouteProperties : Type 0 where
  pub name : Text
  pub output_topic : Text
  pub stream_transformers : List StreamTransformer

-- `std::unordered_map<std::string, std::list<RouteProperties_t>>`, each key once, in no order that
-- the program relies on.
abbrev pub RouteConfigurations : Type 0
RouteConfigurations = List (Text × List RouteProperties)

abbrev pub k_route_name : Text
k_route_name = codes "name"

abbrev pub k_route_input_topic : Text
k_route_input_topic = codes "inputTopic"

abbrev pub k_route_output_topic : Text
k_route_output_topic = codes "outputTopic"

abbrev pub k_stream_transformers : Text
k_stream_transformers = codes "streamTransformers"

abbrev pub k_transformer_type : Text
k_transformer_type = codes "type"

abbrev pub k_topic_to_topic : Text
k_topic_to_topic = codes "topicToTopic"

abbrev pub k_topic_to_payload : Text
k_topic_to_payload = codes "topicToPayload"

abbrev pub k_payload_to_topic : Text
k_payload_to_topic = codes "payloadToTopic"

abbrev pub k_payload_to_payload : Text
k_payload_to_payload = codes "payloadToPayload"

-- `m_routes.find(topic)`
unfoldable pub find_route : Text → RouteConfigurations → Option (List RouteProperties)
find_route topic [] = none
find_route topic ((t, rs) ∷ m) = if str_eq t topic then some rs else find_route topic m

-- `push_back` on the list of the topic if the map has it, else a new entry.
unfoldable pub add_route : Text → RouteProperties → RouteConfigurations → RouteConfigurations
add_route topic r [] = (topic, r ∷ []) ∷ []
add_route topic r ((t, rs) ∷ m) =
    if str_eq t topic then (t, rs ++ r ∷ []) ∷ m else (t, rs) ∷ add_route topic r m

-- `catch (StreamTransformerSetupException&)`; no other exception is caught.
abbrev pub catch_setup_failed {ℓ} : {A : Type ℓ} → Result A → Result A
catch_setup_failed (ok a) = ok a
catch_setup_failed (throw setup_failed) = throw init_failed
catch_setup_failed (throw init_failed) = throw init_failed
catch_setup_failed (throw execution_failed) = throw execution_failed
catch_setup_failed (throw out_of_range) = throw out_of_range
catch_setup_failed (throw json_error) = throw json_error
catch_setup_failed (throw mqtt_error) = throw mqtt_error

module _ {J F D : Type 0} (json : JsonOps J F D) where
  -- The tests of `is_valid_route` for the input topic and for the output topic.
  unfoldable pub has_valid_topic : J → Text → Result Bool
  has_valid_topic p_route k = if not (json.contains p_route k) then ok false else do
    value ← json.at p_route k
    if not (json.is_string value)
        then ok false
        else (do topic ← json.get_string value; ok (is_valid_topic topic))

  unfoldable pub is_valid_route : J → Result Bool
  is_valid_route p_route = if not (json.contains p_route k_route_name) then ok false else do
    name ← json.at p_route k_route_name
    if not (json.is_string name) then ok false else do
      input_valid ← has_valid_topic p_route k_route_input_topic
      if not input_valid then ok false else has_valid_topic p_route k_route_output_topic

  unfoldable pub is_valid_stream_transformer : J → Result Bool
  is_valid_stream_transformer j =
      if not (json.contains j k_transformer_type)
      then ok false
      else do kind ← json.at j k_transformer_type; ok (json.is_string kind)

  -- The choice of the class by 'type', and its `setup`.
  unfoldable pub setup_transformer : J → Result StreamTransformer
  setup_transformer j = do
    kind ← json.at j k_transformer_type
    if json.equals_string k_topic_to_payload kind
        then (do m ← catch_setup_failed (TopicToPayload.setup json j); ok (topic_to_payload m))
        else if json.equals_string k_topic_to_topic kind
        then (do m ← catch_setup_failed (TopicToTopic.setup json j); ok (topic_to_topic m))
        else if json.equals_string k_payload_to_topic kind
        then (do m ← catch_setup_failed (PayloadToTopic.setup json j); ok (payload_to_topic m))
        else if json.equals_string k_payload_to_payload kind
        then (do m ← catch_setup_failed (PayloadToPayload.setup json j); ok (payload_to_payload m))
        else throw init_failed

  -- One round of the loop over the stream transformers, and the loop.
  unfoldable pub retrieve_transformer : J → Result StreamTransformer
  retrieve_transformer j = do
    valid ← is_valid_stream_transformer j
    if not valid then throw init_failed else setup_transformer j

  unfoldable pub retrieve_transformers : List J → Result (List StreamTransformer)
  retrieve_transformers [] = ok []
  retrieve_transformers (j ∷ js) = do
    t ← retrieve_transformer j
    ts ← retrieve_transformers js
    ok (t ∷ ts)

  unfoldable pub route_transformers : J → Result (List StreamTransformer)
  route_transformers j = if not (json.contains j k_stream_transformers) then ok [] else do
    tested ← json.at j k_stream_transformers
    if not (json.is_array tested)
        then throw init_failed
        else retrieve_transformers (json.elements tested)

  -- One round of the loop over the routes, up to the map: the input topic and the properties.
  unfoldable pub retrieve_route : J → Result (Text × RouteProperties)
  retrieve_route j = do
    valid ← is_valid_route j
    named ← if valid then json.at j k_route_name else throw init_failed
    name ← json.get_string named
    output ← json.at j k_route_output_topic
    output_topic ← json.get_string output
    input ← json.at j k_route_input_topic
    input_topic ← json.get_string input
    transformers ← route_transformers j
    ok (
      input_topic,
      record { name = name; output_topic = output_topic; stream_transformers = transformers },
    )

  unfoldable pub retrieve_loop : List J → RouteConfigurations → Result RouteConfigurations
  retrieve_loop [] m = ok m
  retrieve_loop (j ∷ js) m = do
    (topic, r) ← retrieve_route j
    retrieve_loop js (add_route topic r m)

  unfoldable pub retrieve_routes : J → Result RouteConfigurations
  retrieve_routes p_routes =
      if not (json.is_array p_routes)
      then throw init_failed
      else if json.is_empty p_routes
      then ok []
      else retrieve_loop (json.elements p_routes) []
