-- ===== src/Warden/Gateway/Routed.antt =====
-- Which messages come in.
use mqttraffic_warden.Common.{
  ℕ, ◌≡◌, ◌≢◌, refl, inl, inr, Bool, true, false, none, List, [], ◌∷◌, map, Text, str_eq,
  str_eq_iff, All, Bool-cases,
}
use mqttraffic_warden.Json.{JsonOps, FloatOps}
use mqttraffic_warden.Queue.{QueueOps, QueueLaws}
use mqttraffic_warden.Client.{
  Client, Phase, down, connecting, up, is_connected, init_callback, connect,
}
use mqttraffic_warden.Client.Connection.{Reports, finished, after, with_qos, Reports-IsSubscribed}
use mqttraffic_warden.Warden.Routes.{RouteConfigurations, find_route}
use mqttraffic_warden.Warden.Routes.Wildcards.{has_wildcard}
use mqttraffic_warden.Warden.Startup.{input_topics}
use mqttraffic_warden.Warden.Pipeline.{State, Message, Work}
use mqttraffic_warden.Warden.Pipeline.Schedule.{arrives, ingests, transforms, publishes}
use mqttraffic_warden.Warden.Gateway.Incoming.{AllRouted, step-AllRouted}
use mqttraffic_warden.Warden.Gateway.{
  Gateway, is_subscribed, reported, delivered, ingested, transformed, published, Moves, at_start,
  further,
}

module _ {J F D M W : Type 0} (json : JsonOps J F D) (floats : FloatOps F D)
    (messages : QueueOps (Message J) M) (works : QueueOps (Work J) W)
    (matches : Text → Text → Bool) where
  -- A subscription without wildcards is for its own topic only.
  abbrev pub IsExact : Type 0
  IsExact =
      (filter topic : Text)
      → has_wildcard filter ≡ false
      → matches filter topic ≡ true
      → filter ≡ topic

  subscribed_found :
      (topic : Text) (all routes : RouteConfigurations)
      → IsExact
      → All (λ t. has_wildcard t ≡ false) (input_topics routes)
      → is_subscribed json floats messages works all matches topic
          (map with_qos (input_topics routes))
        ≡ true
      → find_route topic routes ≢ none
  unfolding input_topics find_route
  subscribed_found topic all [] exact plain h = cc
  subscribed_found topic all ((t, rs) ∷ routes) exact (p, ps) h =
      elim (Bool-cases (str_eq t topic)) [
        | inl e ↦ λ f. cc (simp (e, find_route) at f)
        | inr e ↦
            λ f. subscribed_found topic all routes exact ps (other e) (simp (e, find_route) at f)
      ]
    where
      other :
          str_eq t topic ≡ false
          → is_subscribed json floats messages works all matches topic
              (map with_qos (input_topics routes))
            ≡ true
      other e = elim (Bool-cases (matches t topic)) [
        | inl m ↦ let same : t ≡ topic = exact t topic p m in cc ((str_eq_iff t topic).1 same)
        | inr m ↦ simp m at h
      ]

  module _ (routes : RouteConfigurations) where
    -- The state when `init` has started the threads, set the callback and called `connect`.
    abbrev pub started : Bool → State J M W → Client → Gateway J M W
    started accepted s c = record {
      pipeline = s;
      client = connect accepted (init_callback (input_topics routes) c);
    }

    -- What the client has lived through in a run of the gateway.
    moved_client :
        {g h : Gateway J M W}
        → Moves json floats messages works routes matches g h
        → Reports g.client h.client
    moved_client at_start = finished
    moved_client (further ms (reported r)) = after (moved_client ms) r
    moved_client (further ms (delivered topic text a c h)) = moved_client ms
    moved_client (further ms (ingested a)) = moved_client ms
    moved_client (further ms (transformed a)) = moved_client ms
    moved_client (further ms (published a)) = moved_client ms

    connected_up : (p : Phase) → is_connected p ≡ true → p ≡ up
    connected_up up h = refl
    connected_up connecting h = cc
    connected_up down h = cc

    pub subscriptions_of :
        {g h : Gateway J M W} (accepted : Bool) (c : Client)
        → c.phase ≡ down
        → g.client ≡ connect accepted (init_callback (input_topics routes) c)
        → Moves json floats messages works routes matches g h
        → h.client.terminated ≡ false
        → is_connected h.client.phase ≡ true
        → h.client.subscriptions ≡ map with_qos (input_topics routes)
    subscriptions_of {g} {h} accepted c d q ms alive up_now =
        let lived : Reports (connect accepted (init_callback (input_topics routes) c)) h.client =
          rw q at (moved_client ms) in
        (Reports-IsSubscribed (input_topics routes) accepted c d lived).all_subscribed
          (connected_up _ up_now) alive

    pub arrival_found :
        {topic t : Text} {asked_for : List (Text × ℕ)}
        → IsExact
        → All (λ t. has_wildcard t ≡ false) (input_topics routes)
        → asked_for ≡ map with_qos (input_topics routes)
        → topic ≡ t
        → is_subscribed json floats messages works routes matches topic asked_for ≡ true
        → find_route t routes ≢ none
    arrival_found {topic} {t} exact plain q same asked =
        let asked_now : is_subscribed json floats messages works routes matches topic
              (map with_qos (input_topics routes))
            ≡ true =
          rw q at asked in
        let found : find_route topic routes ≢ none =
          subscribed_found topic routes routes exact plain asked_now in
        rw same at found

    Moves-AllRouted_from :
        {g h : Gateway J M W} (mlaws : QueueLaws messages) (accepted : Bool) (c : Client)
        → IsExact
        → All (λ t. has_wildcard t ≡ false) (input_topics routes)
        → c.phase ≡ down
        → g.client ≡ connect accepted (init_callback (input_topics routes) c)
        → AllRouted json floats messages works routes mlaws g.pipeline
        → Moves json floats messages works routes matches g h
        → AllRouted json floats messages works routes mlaws h.pipeline
    Moves-AllRouted_from mlaws accepted c exact plain d q r at_start = r
    Moves-AllRouted_from mlaws accepted c exact plain d q r (further ms (reported m)) =
        Moves-AllRouted_from mlaws accepted c exact plain d q r ms
    Moves-AllRouted_from mlaws accepted c exact plain d q r (further ms (ingested a)) =
        step-AllRouted json floats messages works routes mlaws ingests _ (λ topic text z. cc)
          (Moves-AllRouted_from mlaws accepted c exact plain d q r ms)
    Moves-AllRouted_from mlaws accepted c exact plain d q r (further ms (transformed a)) =
        step-AllRouted json floats messages works routes mlaws transforms _ (λ topic text z. cc)
          (Moves-AllRouted_from mlaws accepted c exact plain d q r ms)
    Moves-AllRouted_from mlaws accepted c exact plain d q r (further ms (published a)) =
        step-AllRouted json floats messages works routes mlaws (publishes _) _ (λ topic text z. cc)
          (Moves-AllRouted_from mlaws accepted c exact plain d q r ms)
    Moves-AllRouted_from mlaws accepted c exact plain d q r
          (further ms (delivered topic text alive up_now asked)) =
        step-AllRouted json floats messages works routes mlaws (arrives topic text) _
          (λ t u z.
            arrival_found exact plain (subscriptions_of accepted c d q ms alive up_now)
              (same_topic z) asked)
          (Moves-AllRouted_from mlaws accepted c exact plain d q r ms)
      where
        same_topic : {a b t u : Text} → arrives a t ≡ arrives b u → a ≡ b
        same_topic z = cc

    -- If a subscription without wildcards is for its own topic only and no input topic has a wildcard: from
    -- the gateway whose threads have been started, with no message in the incoming queue, initCallback and
    -- connect called on a client that is not connected, and whatever the Paho client reports, the broker
    -- delivers and the threads do, every message in the incoming queue has a route.
    pub Moves-AllRouted :
        (mlaws : QueueLaws messages) (accepted : Bool) (s : State J M W) (c : Client)
        (h : Gateway J M W)
        → IsExact
        → All (λ t. has_wildcard t ≡ false) (input_topics routes)
        → c.phase ≡ down
        → messages.contents s.incoming ≡ []
        → Moves json floats messages works routes matches (started accepted s c) h
        → AllRouted json floats messages works routes mlaws h.pipeline
    Moves-AllRouted mlaws accepted s c h exact plain d e ms =
        Moves-AllRouted_from mlaws accepted c exact plain d refl (rw e tt) ms
