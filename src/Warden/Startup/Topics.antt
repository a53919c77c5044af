-- ===== src/Warden/Startup/Topics.antt =====
-- The output topics of the routes that `init` leaves.
use mqttraffic_warden.Common.{
  ◌≡◌, ◌≢◌, ap, Bool, ◌∙◌, Text, inl, inr, true, some, List, [], ◌∷◌, All, All-map, Bool-cases, ok,
  >>=-eq-ok,
}
use mqttraffic_warden.Json.{JsonOps, JsonLaws}
use mqttraffic_warden.Warden.Broker.{retrieve_broker_infos, configure_mqtt_client}
use mqttraffic_warden.Warden.Topics.{is_valid_topic}
use mqttraffic_warden.Warden.Routes.{
  RouteProperties, RouteConfigurations, find_route, retrieve_routes,
}
use mqttraffic_warden.Warden.Routes.Validity.{retrieve_routes-valid}
use mqttraffic_warden.Warden.Pipeline.Named.{AllTopics}
use mqttraffic_warden.Warden.Startup.{Initialised, init, k_routes}

valid-ne-nil : (t : _) → is_valid_topic t ≡ true → t ≢ []
unfolding is_valid_topic
valid-ne-nil [] h = cc
valid-ne-nil (c ∷ t) h = λ e. cc

module _ {J F D : Type 0} (json : JsonOps J F D) (laws : JsonLaws json)
    (accepts : Text → Text → Bool) where
  array_of_routes :
      (p : J) (m : RouteConfigurations) → retrieve_routes json p ≡ ok m → json.is_array p ≡ true
  unfolding retrieve_routes
  array_of_routes p m h = elim (Bool-cases (json.is_array p)) [
    | inl b ↦ b
    | inr b ↦ cc (rw (b, retrieve_routes) at h)
  ]

  retrieved_valid :
      (p : J) (m : RouteConfigurations) (topic : Text) (rs : List RouteProperties)
      → retrieve_routes json p ≡ ok m
      → find_route topic m ≡ some rs
      → (rs ≢ []) × All (λ r. is_valid_topic r.output_topic ≡ true) rs
  retrieved_valid p m topic rs h f =
      retrieve_routes-valid json laws p m topic rs (array_of_routes p m h) h f

  -- Where `init` ends well, its routes are those of an array.
  init_routes :
      (p : J) (s : Initialised)
      → init json accepts p ≡ ok s
      → (v : J) × (retrieve_routes json v ≡ ok s.routes)
  unfolding init
  init_routes p s h =
      let (b, eb, h1) = >>=-eq-ok (retrieve_broker_infos json p) _ h in
      let (c, ec, h2) = >>=-eq-ok (configure_mqtt_client accepts b) _ h1 in
      let (v, ev, h3) = >>=-eq-ok (json.at p k_routes) _ h2 in
      let (m, em, h4) = >>=-eq-ok (retrieve_routes json v) _ h3 in
      let same : m ≡ s.routes = cc h4 in (v, em ∙ ap ok same)

  -- Where `init` ends well, each route has an output topic.
  pub init-AllTopics : (p : J) (s : Initialised) → init json accepts p ≡ ok s → AllTopics s.routes
  init-AllTopics p s h topic rs f =
      let (v, e) = init_routes p s h in
      let (_, valid) = retrieved_valid v s.routes topic rs e f in
      All-map _ (λ r. r.output_topic ≢ []) rs (λ r v. valid-ne-nil r.output_topic v) valid

  -- Where `init` ends well, a topic that is found has a route.
  pub init-AllRoutes :
      (p : J) (s : Initialised)
      → init json accepts p ≡ ok s
      → (topic : Text) (rs : List RouteProperties) → find_route topic s.routes ≡ some rs
      → rs ≢ []
  init-AllRoutes p s h topic rs f =
      let (v, e) = init_routes p s h in
      let (some_route, _) = retrieved_valid v s.routes topic rs e f in some_route
