-- ===== src/Warden/Routes/Errors.antt =====
-- The exceptions that leave `retrieve_routes`.
use mqttraffic_warden.Common.{
  refl, Bool, not, List, [], ◌∷◌, Text, if◌then◌else◌, Result, ok, throw, ◌>>=◌, init_failed,
  setup_failed, execution_failed, out_of_range, json_error, mqtt_error, OnlyThrows, >>=-OnlyThrows,
}
use mqttraffic_warden.Json.{JsonOps, JsonLaws}
use mqttraffic_warden.Json.Errors.{
  init_or_json, setup_or_json, if-OnlyThrows, get_string-OnlyThrows, at-OnlyThrows,
}
use mqttraffic_warden.Transformer.{SetupOnly}
use mqttraffic_warden.Transformer.TopicToPayload.Laws.{setup-SetupOnly}
use mqttraffic_warden.Transformer.Errors.{
  topic_to_topic-OnlyThrows, payload_to_topic-OnlyThrows, payload_to_payload-OnlyThrows,
}
use mqttraffic_warden.Warden.Routes.{
  RouteConfigurations, add_route, catch_setup_failed, has_valid_topic, is_valid_route,
  is_valid_stream_transformer, setup_transformer, retrieve_transformer, retrieve_transformers,
  route_transformers, retrieve_route, retrieve_loop, retrieve_routes, k_route_name,
  k_route_input_topic, k_route_output_topic, k_stream_transformers, k_transformer_type,
  k_topic_to_topic, k_topic_to_payload, k_payload_to_topic, k_payload_to_payload,
}

abbrev Allowed {ℓ} : {A : Type ℓ} → Result A → Type 0
Allowed = OnlyThrows init_or_json

bind {ℓ κ} :
    {A : Type ℓ} {B : Type κ} (m : Result A) (next : A → Result B)
    → Allowed m
    → ((a : A) → Allowed (next a))
    → Allowed (m >>= next)
bind m next h k = >>=-OnlyThrows init_or_json m next h k

branch {ℓ} :
    {A : Type ℓ} (b : Bool) (r q : Result A) → Allowed r → Allowed q → Allowed (if b then r else q)
branch b r q h k = if-OnlyThrows init_or_json b r q h k

-- A setup exception becomes the initialisation exception.
catch_setup_failed-Allowed {ℓ} :
    {A : Type ℓ} (r : Result A) → OnlyThrows setup_or_json r → Allowed (catch_setup_failed r)
catch_setup_failed-Allowed (ok a) h = tt
catch_setup_failed-Allowed (throw setup_failed) h = refl
catch_setup_failed-Allowed (throw json_error) h = refl
catch_setup_failed-Allowed (throw init_failed) h = cc
catch_setup_failed-Allowed (throw execution_failed) h = cc
catch_setup_failed-Allowed (throw out_of_range) h = cc
catch_setup_failed-Allowed (throw mqtt_error) h = cc

SetupOnly-OnlyThrows {ℓ} : {A : Type ℓ} (r : Result A) → SetupOnly r → OnlyThrows setup_or_json r
SetupOnly-OnlyThrows (ok a) h = tt
SetupOnly-OnlyThrows (throw setup_failed) h = refl
SetupOnly-OnlyThrows (throw init_failed) h = absurd h
SetupOnly-OnlyThrows (throw execution_failed) h = absurd h
SetupOnly-OnlyThrows (throw out_of_range) h = absurd h
SetupOnly-OnlyThrows (throw json_error) h = absurd h
SetupOnly-OnlyThrows (throw mqtt_error) h = absurd h

module _ {J F D : Type 0} (json : JsonOps J F D) (laws : JsonLaws json) where
  at_key : (j : J) (k : Text) → Allowed (json.at j k)
  at_key j k = at-OnlyThrows init_or_json json laws refl j k

  string_at : (j : J) → Allowed (json.get_string j)
  string_at j = get_string-OnlyThrows init_or_json json laws refl j

  has_valid_topic-Allowed : (j : J) (k : Text) → Allowed (has_valid_topic json j k)
  unfolding has_valid_topic
  has_valid_topic-Allowed j k = branch (not (json.contains j k)) _ _ tt (
      bind _ _ (at_key j k) λ value.
        branch (not (json.is_string value)) _ _ tt (bind _ _ (string_at value) λ topic. tt))

  is_valid_route-Allowed : (j : J) → Allowed (is_valid_route json j)
  unfolding is_valid_route
  is_valid_route-Allowed j = branch (not (json.contains j k_route_name)) _ _ tt (
      bind _ _ (at_key j k_route_name) λ name. branch (not (json.is_string name)) _ _ tt (
        bind _ _ (has_valid_topic-Allowed j k_route_input_topic) λ input_valid.
          branch (not input_valid) _ _ tt (has_valid_topic-Allowed j k_route_output_topic)))

  set_up :
      {A B : Type 0} (r : Result A) (f : A → B)
      → OnlyThrows setup_or_json r
      → Allowed (catch_setup_failed r >>= λ m. ok (f m))
  set_up r f h = bind _ _ (catch_setup_failed-Allowed r h) λ m. tt

  setup_transformer-Allowed : (j : J) → Allowed (setup_transformer json j)
  unfolding setup_transformer
  setup_transformer-Allowed j = bind _ _ (at_key j k_transformer_type) λ kind.
      branch (json.equals_string k_topic_to_payload kind) _ _
        (set_up _ _ (SetupOnly-OnlyThrows _ (setup-SetupOnly json j)))
        (branch (json.equals_string k_topic_to_topic kind) _ _
          (set_up _ _ (topic_to_topic-OnlyThrows json laws j))
          (branch (json.equals_string k_payload_to_topic kind) _ _
            (set_up _ _ (payload_to_topic-OnlyThrows json laws j))
            (branch (json.equals_string k_payload_to_payload kind) _ _
              (set_up _ _ (payload_to_payload-OnlyThrows json laws j)) refl)))

  retrieve_transformer-Allowed : (j : J) → Allowed (retrieve_transformer json j)
  unfolding retrieve_transformer is_valid_stream_transformer
  retrieve_transformer-Allowed j =
      bind _ _
        (branch (not (json.contains j k_transformer_type)) _ _ tt
          (bind _ _ (at_key j k_transformer_type) λ kind. tt))
        λ valid. branch (not valid) _ _ refl (setup_transformer-Allowed j)

  retrieve_transformers-Allowed : (js : List J) → Allowed (retrieve_transformers json js)
  unfolding retrieve_transformers
  retrieve_transformers-Allowed [] = tt
  retrieve_transformers-Allowed (j ∷ js) =
      bind _ _ (retrieve_transformer-Allowed j)
        λ t. bind _ _ (retrieve_transformers-Allowed js) λ ts. tt

  route_transformers-Allowed : (j : J) → Allowed (route_transformers json j)
  unfolding route_transformers
  route_transformers-Allowed j = branch (not (json.contains j k_stream_transformers)) _ _ tt (
      bind _ _ (at_key j k_stream_transformers) λ tested.
        branch (not (json.is_array tested)) _ _ refl
          (retrieve_transformers-Allowed (json.elements tested)))

  retrieve_route-Allowed : (j : J) → Allowed (retrieve_route json j)
  unfolding retrieve_route
  retrieve_route-Allowed j = bind _ _ (is_valid_route-Allowed j) λ valid.
      bind _ _ (branch valid _ _ (at_key j k_route_name) refl) λ named.
        bind _ _ (string_at named) λ name. bind _ _ (at_key j k_route_output_topic) λ output.
          bind _ _ (string_at output) λ output_topic.
            bind _ _ (at_key j k_route_input_topic) λ input.
              bind _ _ (string_at input)
                λ input_topic. bind _ _ (route_transformers-Allowed j) λ transformers. tt

  retrieve_loop-Allowed :
      (js : List J) (m : RouteConfigurations) → Allowed (retrieve_loop json js m)
  unfolding retrieve_loop
  retrieve_loop-Allowed [] m = tt
  retrieve_loop-Allowed (j ∷ js) m =
      bind _ _ (retrieve_route-Allowed j)
        λ (topic, r). retrieve_loop-Allowed js (add_route topic r m)

  -- Whatever the JSON value is, `retrieve_routes` ends well, or throws the initialisation exception or one of
  -- nlohmann::json: a setup exception of a transformer does not get out.
  pub retrieve_routes-OnlyThrows : (p : J) → OnlyThrows init_or_json (retrieve_routes json p)
  unfolding retrieve_routes
  retrieve_routes-OnlyThrows p =
      branch (not (json.is_array p)) _ _ refl
        (branch (json.is_empty p) _ _ tt (retrieve_loop-Allowed (json.elements p) []))
