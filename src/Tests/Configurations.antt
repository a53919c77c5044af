-- ===== src/Tests/Configurations.antt =====
-- The configuration of the gateway at concrete files.
use mqttraffic_warden.Common.{
  ◌≡◌, ◌≢◌, refl, true, some, List, [], ◌∷◌, Text, codes, ok, throw, init_failed, All, pos,
}
use mqttraffic_warden.Address.{is_valid_ip}
use mqttraffic_warden.Transformer.{k_from, k_to}
use mqttraffic_warden.Transformer.TopicToTopic
use mqttraffic_warden.Transformer.Dispatch.{topic_to_topic}
use mqttraffic_warden.Warden.Topics.{is_valid_topic}
use mqttraffic_warden.Warden.Broker.{
  BrokerConfiguration, MqttClientArguments, retrieve_broker_infos, configure_mqtt_client,
  broker_address, mandatory_string, client_id, keep_alive_interval, ssl, stores, k_broker_address,
  k_broker_user, k_broker_password, k_keep_alive_interval, k_ssl, k_trust_store, k_key_store,
  k_private_key,
}
use mqttraffic_warden.Warden.Broker.Laws.{InitOnly, retrieve_broker_infos-InitOnly}
use mqttraffic_warden.Warden.Broker.Configured.{IsConfigured, configure_mqtt_client-IsConfigured}
use mqttraffic_warden.Warden.Routes.{
  RouteProperties, RouteConfigurations, find_route, add_route, has_valid_topic, is_valid_route,
  is_valid_stream_transformer, setup_transformer, retrieve_transformer, retrieve_transformers,
  route_transformers, retrieve_route, retrieve_loop, retrieve_routes, k_route_name,
  k_route_input_topic, k_route_output_topic, k_stream_transformers, k_transformer_type,
}
use mqttraffic_warden.Warden.Routes.Grouping.{Groups, all_routes, retrieve_routes-Groups}
use mqttraffic_warden.Warden.Routes.Validity.{retrieve_routes-valid}
use mqttraffic_warden.Sample.Value.{
  Value, unsigned, truth, str, arr, obj, nil, cons, end, field, sample_json,
}
use mqttraffic_warden.Sample.Laws.{sample_json-JsonLaws}

abbrev broker_file : Value
broker_file = obj (
    field k_broker_address (str (codes "10.0.0.7")) (
      field k_broker_user (str (codes "u")) (
        field k_broker_password (str (codes "p")) (
          field k_keep_alive_interval (unsigned 30) (
            field k_ssl (truth true) (
              field k_trust_store (str (codes "t")) (
                field k_key_store (str (codes "k"))
                  (field k_private_key (str (codes "q")) end))))))))

abbrev broker : BrokerConfiguration
broker = record {
  host = codes "10.0.0.7";
  user = codes "u";
  password = codes "p";
  client_id = [];
  keep_alive_interval = pos 30;
  trust_store = some (codes "t");
  key_store = some (codes "k");
  private_key = some (codes "q");
}

retrieve_broker : retrieve_broker_infos sample_json broker_file ≡ ok broker
unfolding retrieve_broker_infos broker_address mandatory_string client_id keep_alive_interval ssl
    stores is_valid_ip
retrieve_broker = refl

abbrev with_ssl : MqttClientArguments
with_ssl = record {
  address = codes "10.0.0.7";
  client_id = [];
  user = codes "u";
  password = codes "p";
  keep_alive_interval = pos 30;
  ssl_options =
      some (record { trust_store = codes "t"; key_store = codes "k"; private_key = codes "q" });
}

broker_client : configure_mqtt_client (λ host client. true) broker ≡ ok with_ssl
unfolding configure_mqtt_client
broker_client = refl

configure_mqtt_client-IsConfigured_example : IsConfigured sample_json broker_file with_ssl
configure_mqtt_client-IsConfigured_example =
    configure_mqtt_client-IsConfigured sample_json broker_file sample_json-JsonLaws
      (λ host client. true) broker with_ssl retrieve_broker broker_client

retrieve_broker_infos-InitOnly_example : InitOnly (retrieve_broker_infos sample_json broker_file)
retrieve_broker_infos-InitOnly_example =
    retrieve_broker_infos-InitOnly sample_json broker_file sample_json-JsonLaws

abbrev route : Text → Text → Text → Value
route name input output = obj (
    field k_route_name (str name) (
      field k_route_input_topic (str input) (
        field k_route_output_topic (str output) (
          field k_stream_transformers
            (arr (
              cons
                (obj (
                  field k_transformer_type (str (codes "topicToTopic"))
                    (field k_from (unsigned 0) (field k_to (unsigned 2) end))))
                nil))
            end))))

abbrev routes_file : Value
routes_file = arr (
    cons (route (codes "1") (codes "in") (codes "out/a")) (
      cons (route (codes "2") (codes "other") (codes "b"))
        (cons (route (codes "3") (codes "in") (codes "c")) nil)))

abbrev properties : Text → Text → RouteProperties
properties name output = record {
  name = name;
  output_topic = output;
  stream_transformers = topic_to_topic (record { from_topic = 0; to_topic = 2 }) ∷ [];
}

abbrev routes_in : List RouteProperties
routes_in = properties (codes "1") (codes "out/a") ∷ properties (codes "3") (codes "c") ∷ []

abbrev routes_map : RouteConfigurations
routes_map = (codes "in", routes_in) ∷ (codes "other", properties (codes "2") (codes "b") ∷ []) ∷ []

retrieve_three : retrieve_routes sample_json routes_file ≡ ok routes_map
unfolding retrieve_routes retrieve_loop add_route retrieve_route is_valid_route has_valid_topic
    is_valid_topic route_transformers retrieve_transformers retrieve_transformer
    is_valid_stream_transformer setup_transformer TopicToTopic.setup TopicToTopic.is_valid_setup
retrieve_three = refl

trailing_slash_refused :
    retrieve_routes sample_json (arr (cons (route (codes "1") (codes "in/") (codes "out")) nil))
    ≡ throw init_failed
unfolding retrieve_routes retrieve_loop retrieve_route is_valid_route has_valid_topic is_valid_topic
trailing_slash_refused = refl

retrieve_routes-Groups_example :
    Groups
      (all_routes sample_json (sample_json.elements routes_file))
      (retrieve_routes sample_json routes_file)
retrieve_routes-Groups_example =
    retrieve_routes-Groups sample_json sample_json-JsonLaws routes_file refl

found_in : find_route (codes "in") routes_map ≡ some routes_in
unfolding find_route
found_in = refl

retrieve_routes-valid_example :
    (routes_in ≢ []) × All (λ r. is_valid_topic r.output_topic ≡ true) routes_in
retrieve_routes-valid_example =
    retrieve_routes-valid sample_json sample_json-JsonLaws routes_file routes_map (codes "in")
      routes_in refl retrieve_three found_in
