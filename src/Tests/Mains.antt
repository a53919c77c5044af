-- ===== src/Tests/Mains.antt =====
-- The ends of `main` at concrete configurations.
use mqttraffic_warden.Common.{
  ℕ, str_eq, ◌≡◌, refl, true, false, none, some, List, [], ◌∷◌, Text, codes, if◌then◌else◌, ok,
  Result,
}
use mqttraffic_warden.Json.{JsonOps}
use mqttraffic_warden.Address.{is_valid_ip}
use mqttraffic_warden.Warden.Broker.{
  retrieve_broker_infos, configure_mqtt_client, broker_address, mandatory_string, client_id,
  keep_alive_interval, ssl, stores, k_broker_address, k_broker_user, k_broker_password, k_ssl,
}
use mqttraffic_warden.Warden.Topics.{is_valid_topic}
use mqttraffic_warden.Warden.Routes.{
  add_route, has_valid_topic, is_valid_route, route_transformers, retrieve_route, retrieve_loop,
  retrieve_routes,
}
use mqttraffic_warden.Warden.Pipeline.{
  State, Message, Work, message_arrived, ingest, hand_on, transform, publish, jobs_of, job_of,
}
use mqttraffic_warden.Warden.Pipeline.Schedule.{
  arrives, ingests, transforms, publishes, step, act, or_terminate,
}
use mqttraffic_warden.Warden.Routes.{find_route}
use mqttraffic_warden.Warden.Startup.{
  init, main, input_topics, wait_for_quit, join_threads, thread_turn, returned, aborted,
  exit_success, exit_failure, k_routes,
}
use mqttraffic_warden.Tests.Connections.{accepts_all, config_file}
use mqttraffic_warden.Sample.Value.{
  Value, truth, str, arr, obj, nil, end, field, parse, sample_json, sample_floats,
}
use mqttraffic_warden.Sample.Queues.{list_queue}

abbrev no_routes : Value
no_routes = obj (
    field k_broker_address (str (codes "10.0.0.7")) (
      field k_broker_user (str (codes "u")) (
        field k_broker_password (str (codes "p"))
          (field k_ssl (truth false) (field k_routes (arr nil) end)))))

-- "r" is a configuration with routes, and "n" is one without.
abbrev parse_file : Text → Result Value
parse_file t =
    if str_eq t (codes "r")
    then ok config_file
    else if str_eq t (codes "n")
    then ok no_routes
    else parse t

abbrev files : JsonOps Value ℕ ℕ
files = record sample_json { parse = parse_file }

abbrev at_rest : State Value (List (Message Value)) (List (Work Value))
at_rest = record {
  incoming = [];
  transforming = [];
  outgoing = [];
  ingested = [];
  transformed = none;
  published = [];
  terminated = false;
}

-- Without routes, the first "Q" ends the loop on the console.
ends_well :
    main files accepts_all sample_floats list_queue list_queue [] 3 at_rest
      (codes "n")
      (codes "aQb")
    ≡ some (returned exit_success)
unfolding main init input_topics retrieve_broker_infos configure_mqtt_client broker_address
    mandatory_string client_id keep_alive_interval ssl stores is_valid_ip retrieve_routes
    wait_for_quit
ends_well = refl

-- With routes, the "q" is not read.
goes_on :
    main files accepts_all sample_floats list_queue list_queue
      (arrives (codes "in") (codes "{}") ∷ ingests ∷ transforms ∷ publishes true ∷ [])
      3
      at_rest
      (codes "r")
      (codes "q")
    ≡ none
unfolding main init input_topics retrieve_broker_infos configure_mqtt_client broker_address
    mandatory_string client_id keep_alive_interval ssl stores is_valid_ip retrieve_routes
    retrieve_loop add_route retrieve_route is_valid_route has_valid_topic is_valid_topic
    route_transformers join_threads thread_turn step act or_terminate message_arrived ingest hand_on
    transform publish jobs_of job_of find_route
goes_on = refl

-- A message that is no JSON text ends the process.
is_aborted :
    main files accepts_all sample_floats list_queue list_queue
      (ingests ∷ arrives (codes "in") (codes "{") ∷ ingests ∷ [])
      3
      at_rest
      (codes "r")
      (codes "q")
    ≡ some aborted
unfolding main init input_topics retrieve_broker_infos configure_mqtt_client broker_address
    mandatory_string client_id keep_alive_interval ssl stores is_valid_ip retrieve_routes
    retrieve_loop add_route retrieve_route is_valid_route has_valid_topic is_valid_topic
    route_transformers join_threads thread_turn step act or_terminate message_arrived ingest hand_on
    transform publish jobs_of job_of find_route
is_aborted = refl

-- The Paho client refuses the address.
fails :
    main files
      (λ host client. false)
      sample_floats
      list_queue
      list_queue
      []
      0
      at_rest
      (codes "n")
      []
    ≡ some (returned exit_failure)
unfolding main init retrieve_broker_infos configure_mqtt_client broker_address mandatory_string
    client_id keep_alive_interval ssl stores is_valid_ip
fails = refl
