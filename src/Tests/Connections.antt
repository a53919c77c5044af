-- ===== src/Tests/Connections.antt =====
-- The connection of the client, and the topics that `init` hands to it, at concrete inputs.
use mqttraffic_warden.Common.{
  mqtt_error, Bool, ◌≢◌, ◌⊎◌, throw, Text, ◌≡◌, refl, true, OnlyThrows, false, none, some, List, [],
  ◌∷◌, codes, ok, pos,
}
use mqttraffic_warden.Address.{is_valid_ip}
use mqttraffic_warden.Client.{
  Client, down, connecting, up, init_callback, connect, subscribe_all, connected, connection_lost,
  disconnect, unsubscribe,
}
use mqttraffic_warden.Client.Connection.{
  Reports, finished, after, succeeded, lost, IsSubscribed, Reports-IsSubscribed,
}
use mqttraffic_warden.Client.Attempts.{last_accepted, last_accepted-phase}
use mqttraffic_warden.Warden.Broker.{
  retrieve_broker_infos, configure_mqtt_client, broker_address, mandatory_string, client_id,
  keep_alive_interval, ssl, stores, k_broker_address, k_broker_user, k_broker_password, k_ssl,
}
use mqttraffic_warden.Warden.Topics.{is_valid_topic}
use mqttraffic_warden.Warden.Routes.{
  find_route, add_route, has_valid_topic, is_valid_route, route_transformers, retrieve_route,
  retrieve_loop, retrieve_routes, k_route_name, k_route_input_topic, k_route_output_topic,
}
use mqttraffic_warden.Warden.Startup.{Initialised, input_topics, init, k_routes}
use mqttraffic_warden.Warden.Startup.Laws.{
  occurrences, one_if_found, or_no_topics, init-occurrences,
}
use mqttraffic_warden.Warden.Startup.Errors.{init-OnlyThrows}
use mqttraffic_warden.Json.Errors.{init_json_or_mqtt}
use mqttraffic_warden.Sample.Laws.{sample_json-JsonLaws}
use mqttraffic_warden.Sample.Value.{Value, truth, str, arr, obj, nil, cons, end, field, sample_json}

abbrev two_topics : List Text
two_topics = codes "a" ∷ codes "b/c" ∷ []

abbrev pub fresh : Client
fresh = record { topics_to_subscribe = []; phase = down; subscriptions = []; terminated = false }

abbrev pub trying : Client
trying = connect true (init_callback two_topics fresh)

abbrev pub session : Client
session = connected (λ t. true) (record trying { phase = up; subscriptions = [] })

session_subscriptions : session.subscriptions ≡ (codes "a", 2) ∷ (codes "b/c", 2) ∷ []
unfolding connect init_callback connected subscribe_all
session_subscriptions = refl

without_first : (unsubscribe true (codes "a") session).subscriptions ≡ (codes "b/c", 2) ∷ []
unfolding unsubscribe connect init_callback connected subscribe_all
without_first = refl

closed : (disconnect true session).phase ≡ down
unfolding disconnect connect init_callback connected subscribe_all
closed = refl

trying_phase : trying.phase ≡ connecting
unfolding connect init_callback
trying_phase = refl

trying_alive : trying.terminated ≡ false
unfolding connect init_callback
trying_alive = refl

first_report : Reports trying session
first_report = after finished (succeeded (λ t. true) trying_alive trying_phase)

Reports-IsSubscribed_example : IsSubscribed two_topics session
Reports-IsSubscribed_example = Reports-IsSubscribed two_topics true fresh refl first_report

abbrev refused : Client
refused = connection_lost false (record session { phase = down; subscriptions = [] })

session_phase : session.phase ≡ up
unfolding connect init_callback connected subscribe_all
session_phase = refl

session_alive : session.terminated ≡ false
unfolding connect init_callback connected subscribe_all
session_alive = refl

lost_report : Reports trying refused
lost_report = after first_report (lost false session_alive session_phase)

last_accepted-phase_example :
    ((last_accepted true lost_report ≡ true) × (refused.phase ≢ down))
    ⊎ ((last_accepted true lost_report ≡ false)
        × (refused.phase ≡ down)
        × ((e : Client) → Reports refused e → e ≡ refused))
last_accepted-phase_example = last_accepted-phase two_topics true fresh refl lost_report

abbrev pub plain_route : Text → Text → Value
plain_route input output = obj (
    field k_route_name (str (codes "r"))
      (field k_route_input_topic (str input) (field k_route_output_topic (str output) end)))

abbrev pub config_file : Value
config_file = obj (
    field k_broker_address (str (codes "10.0.0.7")) (
      field k_broker_user (str (codes "u")) (
        field k_broker_password (str (codes "p")) (
          field k_ssl (truth false) (
            field k_routes
              (arr (
                cons (plain_route (codes "in") (codes "out"))
                  (cons (plain_route (codes "in") (codes "log")) nil)))
              end)))))

abbrev pub initialised : Initialised
initialised = record {
  mqtt_client = record {
    address = codes "10.0.0.7";
    client_id = [];
    user = codes "u";
    password = codes "p";
    keep_alive_interval = pos 60;
    ssl_options = none;
  };
  routes =
      (
        codes "in",
        record { name = codes "r"; output_topic = codes "out"; stream_transformers = [] }
            ∷ record { name = codes "r"; output_topic = codes "log"; stream_transformers = [] }
            ∷ [],
      )
      ∷ [];
  subscribed = some (codes "in" ∷ []);
}

abbrev pub accepts_all : Text → Text → Bool
accepts_all host client = true

pub init_run : init sample_json accepts_all config_file ≡ ok initialised
unfolding init input_topics retrieve_broker_infos configure_mqtt_client broker_address
    mandatory_string client_id keep_alive_interval ssl stores is_valid_ip retrieve_routes
    retrieve_loop add_route retrieve_route is_valid_route has_valid_topic is_valid_topic
    route_transformers
init_run = refl

init-occurrences_example :
    occurrences (codes "in") (or_no_topics initialised.subscribed)
    ≡ one_if_found (find_route (codes "in") initialised.routes)
init-occurrences_example =
    init-occurrences sample_json accepts_all config_file initialised (codes "in") init_run

-- The Paho client refuses every address.
refused_client : init sample_json (λ host client. false) config_file ≡ throw mqtt_error
unfolding init retrieve_broker_infos configure_mqtt_client broker_address mandatory_string client_id
    keep_alive_interval ssl stores is_valid_ip
refused_client = refl

init-OnlyThrows_example :
    OnlyThrows init_json_or_mqtt (init sample_json (λ host client. false) config_file)
init-OnlyThrows_example =
    init-OnlyThrows sample_json sample_json-JsonLaws (λ host client. false) config_file
