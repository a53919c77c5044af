-- ===== src/Warden/Startup/Laws.antt =====
-- The topics that `init` subscribes to.
use mqttraffic_warden.Common.{
  ℕ, ◌+◌, ◌-◌, ◌≡◌, refl, inl, inr, not, Option, none, some, List, [], ◌∷◌, Text, str_eq,
  str_eq_iff, str_eq_sound, is_empty, Bool, if◌then◌else◌, ok, >>=-eq-ok, Bool-cases, arith,
  Ensures, Ensures_elim, >>=-Ensures,
}
use mqttraffic_warden.Json.{JsonOps}
use mqttraffic_warden.Warden.Broker.{retrieve_broker_infos, configure_mqtt_client}
use mqttraffic_warden.Warden.Routes.{
  RouteProperties, RouteConfigurations, find_route, add_route, retrieve_route, retrieve_loop,
  retrieve_routes,
}
use mqttraffic_warden.Warden.Routes.Grouping.{find_route-add_route}
use mqttraffic_warden.Warden.Startup.{Initialised, input_topics, init, k_routes}

-- How often a topic is in a list.
abbrev pub occurrences : Text → List Text → ℕ
occurrences topic [] = 0
occurrences topic (t ∷ ts) =
    if str_eq t topic then 1 + occurrences topic ts else occurrences topic ts

abbrev pub one_if_found : Option (List RouteProperties) → ℕ
one_if_found none = 0
one_if_found (some rs) = 1

abbrev pub or_no_topics : Option (List Text) → List Text
or_no_topics none = []
or_no_topics (some ts) = ts

-- A map in which each key stands once.
abbrev IsMap : RouteConfigurations → Type 0
IsMap m = (topic : Text) → occurrences topic (input_topics m) ≡ one_if_found (find_route topic m)

occurrences-add_route :
    (t topic : Text) (r : RouteProperties) (m : RouteConfigurations)
    → occurrences topic (input_topics (add_route t r m)) ≡ (
        if str_eq t topic
        then occurrences topic (input_topics m) + (1 - one_if_found (find_route t m))
        else occurrences topic (input_topics m))
unfolding input_topics add_route find_route
occurrences-add_route t topic r [] = ground arith
occurrences-add_route t topic r ((u, rs) ∷ m) = ground (
  arith,
  str_eq_iff u t,
  str_eq_iff u topic,
  str_eq_iff t topic,
  occurrences-add_route t topic r m,
)

one_if_found_bound : (o : Option (List RouteProperties)) → one_if_found o + (1 - one_if_found o) ≡ 1
one_if_found_bound none = refl
one_if_found_bound (some rs) = refl

add_route-IsMap :
    (t : Text) (r : RouteProperties) (m : RouteConfigurations) → IsMap m → IsMap (add_route t r m)
add_route-IsMap t r m h = λ topic. elim (Bool-cases (str_eq t topic)) [
  | inl e ↦
      rw
        (
          occurrences-add_route t topic r m,
          find_route-add_route t topic r m,
          e,
          h topic,
          ← str_eq_sound t topic e,
        )
        (one_if_found_bound (find_route t m))
  | inr e ↦ rw (occurrences-add_route t topic r m, find_route-add_route t topic r m, e) (h topic)
]

module _ {J F D : Type 0} (json : JsonOps J F D) where
  retrieve_loop-IsMap :
      (js : List J) (m : RouteConfigurations) → IsMap m → Ensures IsMap (retrieve_loop json js m)
  unfolding retrieve_loop
  retrieve_loop-IsMap [] m h = h
  retrieve_loop-IsMap (j ∷ js) m h =
      >>=-Ensures IsMap (retrieve_route json j) _
        λ (t, r) e. retrieve_loop-IsMap js (add_route t r m) (add_route-IsMap t r m h)

  nil-IsMap : IsMap []
  unfolding input_topics find_route
  nil-IsMap = λ topic. refl

  retrieve_routes-IsMap : (p : J) → Ensures IsMap (retrieve_routes json p)
  unfolding retrieve_routes
  retrieve_routes-IsMap p = elim (Bool-cases (json.is_array p)) [
    | inr b ↦ rw b tt
    | inl b ↦ elim (Bool-cases (json.is_empty p)) [
      | inl e ↦ rw (b, e) nil-IsMap
      | inr e ↦ rw (b, e) (retrieve_loop-IsMap (json.elements p) [] nil-IsMap)
    ]
  ]

  subscribed_topics :
      (m : RouteConfigurations)
      → or_no_topics (if not (is_empty m) then some (input_topics m) else none) ≡ input_topics m
  unfolding input_topics
  subscribed_topics [] = refl
  subscribed_topics (e ∷ m) = refl

  -- Where `init` ends well, it has handed each topic that has routes to the subscription once, and no
  -- other topic.
  pub init-occurrences :
      (accepts : Text → Text → Bool) (p : J) (s : Initialised) (topic : Text)
      → init json accepts p ≡ ok s
      → occurrences topic (or_no_topics s.subscribed) ≡ one_if_found (find_route topic s.routes)
  unfolding init
  init-occurrences accepts p s topic h =
      let (b, eb, h1) = >>=-eq-ok (retrieve_broker_infos json p) _ h in
      let (c, ec, h2) = >>=-eq-ok (configure_mqtt_client accepts b) _ h1 in
      let (v, ev, h3) = >>=-eq-ok (json.at p k_routes) _ h2 in
      let (m, em, h4) = >>=-eq-ok (retrieve_routes json v) _ h3 in
      let P = λ (x : Initialised).
        occurrences topic (or_no_topics x.subscribed) ≡ one_if_found (find_route topic x.routes) in
      Ensures_elim P _ s
        (rw (subscribed_topics m) (Ensures_elim IsMap _ m (retrieve_routes-IsMap v) em topic)) h4
