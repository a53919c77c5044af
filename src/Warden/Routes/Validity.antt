-- ===== src/Warden/Routes/Validity.antt =====
-- The topics of the routes that `retrieve_routes` accepts.
use mqttraffic_warden.Common.{
  ◌≡◌, ◌≢◌, sym, ap, ◌∙◌, inl, inr, true, false, not, some, List, [], ◌∷◌, Text, str_eq, Result, ok,
  throw, ◌>>=◌, Bool-cases, Result-cases, Ensures, >>=-Ensures, Ensures_elim, All, if◌then◌else◌,
}
use mqttraffic_warden.Json.{JsonOps, JsonLaws}
use mqttraffic_warden.Warden.Topics.{is_valid_topic}
use mqttraffic_warden.Warden.Routes.{
  RouteProperties, RouteConfigurations, find_route, has_valid_topic, is_valid_route,
  route_transformers, retrieve_route, retrieve_routes, k_route_name, k_route_input_topic,
  k_route_output_topic,
}
use mqttraffic_warden.Warden.Routes.Grouping.{
  routes_for, nonempty_or_none, all_routes, Groups, retrieve_routes-Groups,
}

-- The two topics of a route are valid.
abbrev pub HasTopics : Text × RouteProperties → Type 0
HasTopics (topic, r) = (is_valid_topic topic ≡ true) × (is_valid_topic r.output_topic ≡ true)

module _ {J F D : Type 0} (json : JsonOps J F D) where
  valid_topic_text :
      (p : J) (k : Text) (v : J) (s : Text)
      → has_valid_topic json p k ≡ ok true
      → json.at p k ≡ ok v
      → json.get_string v ≡ ok s
      → is_valid_topic s ≡ true
  unfolding has_valid_topic
  valid_topic_text p k v s h a g = elim (Bool-cases (json.contains p k)) [
    | inr c ↦ cc (simp (has_valid_topic, c) at h)
    | inl c ↦ elim (Bool-cases (json.is_string v)) [
      | inr b ↦ cc (simp (has_valid_topic, c, a, b) at h)
      | inl b ↦ cc (simp (has_valid_topic, c, a, b, g) at h)
    ]
  ]

  valid_topics :
      (p : J)
      → (has_valid_topic json p k_route_input_topic >>= λ input_valid.
          if not input_valid then ok false else has_valid_topic json p k_route_output_topic)
        ≡ ok true
      → (has_valid_topic json p k_route_input_topic ≡ ok true)
        × (has_valid_topic json p k_route_output_topic ≡ ok true)
  valid_topics p h = elim (Result-cases (has_valid_topic json p k_route_input_topic)) [
    | inr (x, e) ↦ cc (rw e at h)
    | inl (valid, e) ↦ elim (Bool-cases valid) [
      | inl b ↦ (e ∙ ap ok b, simp (e, b) at h)
      | inr b ↦ cc (simp (e, b) at h)
    ]
  ]

  valid_route_topics :
      (p : J)
      → is_valid_route json p ≡ ok true
      → (has_valid_topic json p k_route_input_topic ≡ ok true)
        × (has_valid_topic json p k_route_output_topic ≡ ok true)
  unfolding is_valid_route
  valid_route_topics p h = elim (Bool-cases (json.contains p k_route_name)) [
    | inr c ↦ cc (simp (is_valid_route, c) at h)
    | inl c ↦ elim (Result-cases (json.at p k_route_name)) [
      | inr (x, e) ↦ cc (simp (is_valid_route, c, e) at h)
      | inl (name, e) ↦ elim (Bool-cases (json.is_string name)) [
        | inr b ↦ cc (simp (is_valid_route, c, e, b) at h)
        | inl b ↦ valid_topics p (simp (is_valid_route, c, e, b) at h)
      ]
    ]
  ]

  -- Every route that is accepted has valid topics.
  retrieve_route-HasTopics : (p : J) → Ensures HasTopics (retrieve_route json p)
  unfolding retrieve_route
  retrieve_route-HasTopics p = elim (Result-cases (is_valid_route json p)) [
    | inr (x, e) ↦ simp (retrieve_route, e) tt
    | inl (valid, e) ↦ elim (Bool-cases valid) [
      | inr b ↦ simp (retrieve_route, e, b) tt
      | inl b ↦
          let (input_valid, output_valid) = valid_route_topics p (e ∙ ap ok b) in
          simp (retrieve_route, e, b)
            (>>=-Ensures HasTopics (json.at p k_route_name) _ λ named e0.
              >>=-Ensures HasTopics (json.get_string named) _ λ name e1.
                >>=-Ensures HasTopics (json.at p k_route_output_topic) _ λ output e2.
                  >>=-Ensures HasTopics (json.get_string output) _ λ output_topic e3.
                    >>=-Ensures HasTopics (json.at p k_route_input_topic) _ λ input e4.
                      >>=-Ensures HasTopics (json.get_string input) _ λ input_topic e5.
                        >>=-Ensures HasTopics (route_transformers json p) _ λ ts e6. (
                          valid_topic_text p k_route_input_topic input input_topic input_valid e4
                              e5,
                          valid_topic_text p k_route_output_topic output output_topic output_valid
                              e2 e3,
                        ))
    ]
  ]

  all_routes-HasTopics : (js : List J) → Ensures (All HasTopics) (all_routes json js)
  unfolding all_routes
  all_routes-HasTopics [] = tt
  all_routes-HasTopics (j ∷ js) = >>=-Ensures (All HasTopics) (retrieve_route json j) _ λ r e.
      >>=-Ensures (All HasTopics) (all_routes json js) _ λ rs es. (
        Ensures_elim HasTopics _ r (retrieve_route-HasTopics j) e,
        Ensures_elim (All HasTopics) _ rs (all_routes-HasTopics js) es,
      )

routes_for-HasTopics :
    (topic : Text) (ps : List (Text × RouteProperties))
    → All HasTopics ps
    → All (λ r. is_valid_topic r.output_topic ≡ true) (routes_for topic ps)
routes_for-HasTopics topic [] h = tt
routes_for-HasTopics topic ((t, r) ∷ ps) (h, hs) = elim (Bool-cases (str_eq t topic)) [
  | inl e ↦ rw e (h.1, routes_for-HasTopics topic ps hs)
  | inr e ↦ rw e (routes_for-HasTopics topic ps hs)
]

some_routes : (l rs : List RouteProperties) → nonempty_or_none l ≡ some rs → (rs ≡ l) × (rs ≢ [])
some_routes [] rs h = cc
some_routes (r ∷ l) rs h = (cc, λ e. cc)

module _ {J F D : Type 0} (json : JsonOps J F D) (laws : JsonLaws json) where
  found_topics :
      (r : Result (List (Text × RouteProperties))) (m : RouteConfigurations) (topic : Text)
      (rs : List RouteProperties)
      → Ensures (All HasTopics) r
      → Groups r (ok m)
      → find_route topic m ≡ some rs
      → (rs ≢ []) × All (λ x. is_valid_topic x.output_topic ≡ true) rs
  unfolding Groups
  found_topics (throw e) m topic rs h g f = absurd g
  found_topics (ok ps) m topic rs h g f =
      let (same, some_route) = some_routes (routes_for topic ps) rs (sym (g topic) ∙ f) in
      (some_route, rw same (routes_for-HasTopics topic ps h))

  -- In the map that `retrieve_routes` gives for an array, a topic that is found has at least one route,
  -- and the output topic of each of its routes is valid.
  pub retrieve_routes-valid :
      (p : J) (m : RouteConfigurations) (topic : Text) (rs : List RouteProperties)
      → json.is_array p ≡ true
      → retrieve_routes json p ≡ ok m
      → find_route topic m ≡ some rs
      → (rs ≢ []) × All (λ r. is_valid_topic r.output_topic ≡ true) rs
  retrieve_routes-valid p m topic rs a e f =
      found_topics (all_routes json (json.elements p)) m topic rs
        (all_routes-HasTopics json (json.elements p))
        (rw e at (retrieve_routes-Groups json laws p a)) f
