-- ===== src/Warden/Startup/Errors.antt =====
-- The exceptions that leave `init`.
use mqttraffic_warden.Common.{
  refl, inl, inr, Bool, Text, Bool-cases, Result, ok, throw, init_failed, setup_failed,
  execution_failed, out_of_range, json_error, mqtt_error, OnlyThrows, >>=-OnlyThrows,
}
use mqttraffic_warden.Json.{JsonOps, JsonLaws}
use mqttraffic_warden.Json.Errors.{init_or_json, init_json_or_mqtt, at-OnlyThrows}
use mqttraffic_warden.Warden.Broker.{BrokerConfiguration, configure_mqtt_client}
use mqttraffic_warden.Warden.Broker.Laws.{InitOnly, retrieve_broker_infos-InitOnly}
use mqttraffic_warden.Warden.Routes.Errors.{retrieve_routes-OnlyThrows}
use mqttraffic_warden.Warden.Startup.{k_routes, init}

InitOnly-OnlyThrows {ℓ} : {A : Type ℓ} (r : Result A) → InitOnly r → OnlyThrows init_or_json r
InitOnly-OnlyThrows (ok a) h = tt
InitOnly-OnlyThrows (throw init_failed) h = refl
InitOnly-OnlyThrows (throw setup_failed) h = absurd h
InitOnly-OnlyThrows (throw execution_failed) h = absurd h
InitOnly-OnlyThrows (throw out_of_range) h = absurd h
InitOnly-OnlyThrows (throw json_error) h = absurd h
InitOnly-OnlyThrows (throw mqtt_error) h = absurd h

configure_mqtt_client-OnlyThrows :
    (accepts : Text → Text → Bool) (b : BrokerConfiguration)
    → OnlyThrows init_json_or_mqtt (configure_mqtt_client accepts b)
unfolding configure_mqtt_client
configure_mqtt_client-OnlyThrows accepts b = elim (Bool-cases (accepts b.host b.client_id)) [
  | inl a ↦ rw (configure_mqtt_client, a) tt
  | inr a ↦ rw (configure_mqtt_client, a) refl
]

OnlyThrows-mqtt {ℓ} :
    {A : Type ℓ} (r : Result A) → OnlyThrows init_or_json r → OnlyThrows init_json_or_mqtt r
OnlyThrows-mqtt (ok a) h = tt
OnlyThrows-mqtt (throw init_failed) h = refl
OnlyThrows-mqtt (throw json_error) h = refl
OnlyThrows-mqtt (throw setup_failed) h = h
OnlyThrows-mqtt (throw execution_failed) h = h
OnlyThrows-mqtt (throw out_of_range) h = h
OnlyThrows-mqtt (throw mqtt_error) h = refl

-- Whatever the configuration is, and whatever addresses and client ids the constructor of the Paho client refuses:
-- up to the start of the threads `init` ends well, or throws the initialisation exception, one of
-- nlohmann::json, or the `mqtt::exception` of that constructor. No setup exception, execution exception
-- or `std::out_of_range` gets out.
pub init-OnlyThrows :
    {J F D : Type 0} (json : JsonOps J F D) (laws : JsonLaws json) (accepts : Text → Text → Bool)
    (p : J)
    → OnlyThrows init_json_or_mqtt (init json accepts p)
unfolding init
init-OnlyThrows json laws accepts p =
    >>=-OnlyThrows init_json_or_mqtt _ _
      (OnlyThrows-mqtt _ (InitOnly-OnlyThrows _ (retrieve_broker_infos-InitOnly json p laws)))
      λ broker.
        >>=-OnlyThrows init_json_or_mqtt _ _ (configure_mqtt_client-OnlyThrows accepts broker)
          λ client.
            >>=-OnlyThrows init_json_or_mqtt _ _
              (OnlyThrows-mqtt _ (at-OnlyThrows init_or_json json laws refl p k_routes))
              λ value.
                >>=-OnlyThrows init_json_or_mqtt _ _
                  (OnlyThrows-mqtt _ (retrieve_routes-OnlyThrows json laws value)) λ routes. tt
