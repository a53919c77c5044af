-- ===== src/Warden/Gateway/Arrivals.antt =====
-- What the broker delivers, and what becomes of it.
use mqttraffic_warden.Common.{
  ◌≡◌, ◌≢◌, refl, inl, inr, Bool, false, none, some, List, [], ◌∷◌, Text, Result, ok, throw, All,
  All-append, All-map, Option-cases,
}
use mqttraffic_warden.Json.{JsonOps, FloatOps, JsonLaws}
use mqttraffic_warden.Queue.{QueueOps}
use mqttraffic_warden.Client.{Client, down, init_callback, connect}
use mqttraffic_warden.Warden.Routes.{RouteProperties, RouteConfigurations, find_route}
use mqttraffic_warden.Warden.Routes.Wildcards.{has_wildcard}
use mqttraffic_warden.Warden.Startup.{Initialised, input_topics, init}
use mqttraffic_warden.Warden.Startup.Topics.{init-AllRoutes}
use mqttraffic_warden.Warden.Pipeline.{State, Message, Work, jobs_of}
use mqttraffic_warden.Warden.Pipeline.Schedule.{arrived}
use mqttraffic_warden.Warden.Gateway.{
  Gateway, reported, delivered, ingested, transformed, published, Moves, at_start, further,
}
use mqttraffic_warden.Warden.Gateway.Incoming.{IsRouted}
use mqttraffic_warden.Warden.Gateway.Runs.{arrived_in}
use mqttraffic_warden.Warden.Gateway.Routed.{IsExact, started, subscriptions_of, arrival_found}

arrived-IsRouted :
    {J : Type 0} (routes : RouteConfigurations) (topic : Text) (r : Result J)
    → find_route topic routes ≢ none
    → All (IsRouted routes) (arrived topic r)
arrived-IsRouted routes topic (ok payload) h = (h, tt)
arrived-IsRouted routes topic (throw e) h = tt

IsRouted-jobs :
    {J : Type 0} (routes : RouteConfigurations) (m : Message J)
    → ((topic : Text) (rs : List RouteProperties) → find_route topic routes ≡ some rs → rs ≢ [])
    → IsRouted routes m
    → jobs_of routes m ≢ []
unfolding jobs_of
IsRouted-jobs routes m some_route h = elim (Option-cases (find_route m.0 routes)) [
  | inl e ↦ absurd (h e)
  | inr ([], e) ↦ absurd (some_route m.0 [] e refl)
  | inr (r ∷ rs, e) ↦ λ q. cc (rw (jobs_of, e) at q)
]

module _ {J F D M W : Type 0} (json : JsonOps J F D) (floats : FloatOps F D)
    (messages : QueueOps (Message J) M) (works : QueueOps (Work J) W)
    (matches : Text → Text → Bool) where
  arrived_in-IsRouted :
      (routes : RouteConfigurations) {g h : Gateway J M W} (accepted : Bool) (c : Client)
      → IsExact json floats messages works matches
      → All (λ t. has_wildcard t ≡ false) (input_topics routes)
      → c.phase ≡ down
      → g.client ≡ connect accepted (init_callback (input_topics routes) c)
      → (ms : Moves json floats messages works routes matches g h)
      → All (IsRouted routes) (arrived_in json floats messages works routes matches ms)
  arrived_in-IsRouted routes accepted c exact plain d q at_start = tt
  arrived_in-IsRouted routes accepted c exact plain d q (further ms (reported r)) =
      arrived_in-IsRouted routes accepted c exact plain d q ms
  arrived_in-IsRouted routes accepted c exact plain d q (further ms (ingested a)) =
      arrived_in-IsRouted routes accepted c exact plain d q ms
  arrived_in-IsRouted routes accepted c exact plain d q (further ms (transformed a)) =
      arrived_in-IsRouted routes accepted c exact plain d q ms
  arrived_in-IsRouted routes accepted c exact plain d q (further ms (published a)) =
      arrived_in-IsRouted routes accepted c exact plain d q ms
  arrived_in-IsRouted routes accepted c exact plain d q
        (further ms (delivered topic text alive up_now asked)) =
      All-append (IsRouted routes) (arrived_in json floats messages works routes matches ms) _
        (arrived_in-IsRouted routes accepted c exact plain d q ms)
        (arrived-IsRouted routes topic (json.parse text) (
          arrival_found json floats messages works matches routes exact plain
            (subscriptions_of json floats messages works matches routes accepted c d q ms alive
              up_now)
            refl asked))

  -- If a subscription without wildcards is for its own topic only, and init ends well with a configuration
  -- none of whose input topics has a wildcard: from the gateway whose threads have been started, initCallback
  -- and connect called on a client that is not connected, and whatever the Paho client reports, the broker
  -- delivers and the threads do, no message that is a JSON text is ignored: each that has come in has a job
  -- for the threads.
  pub arrived_in-jobs :
      (laws : JsonLaws json) (accepts : Text → Text → Bool) (config : J) (i : Initialised)
      (accepted : Bool) (s : State J M W) (c : Client) (h : Gateway J M W)
      → IsExact json floats messages works matches
      → init json accepts config ≡ ok i
      → All (λ t. has_wildcard t ≡ false) (input_topics i.routes)
      → c.phase ≡ down
      → (ms : Moves json floats messages works i.routes matches
          (started json floats messages works matches i.routes accepted s c)
          h)
      → All
          (λ m. jobs_of i.routes m ≢ [])
          (arrived_in json floats messages works i.routes matches ms)
  arrived_in-jobs laws accepts config i accepted s c h exact e plain d ms =
      All-map (IsRouted i.routes) (λ m. jobs_of i.routes m ≢ []) _
        (λ m r. IsRouted-jobs i.routes m (init-AllRoutes json laws accepts config i e) r)
        (arrived_in-IsRouted i.routes accepted c exact plain d refl ms)
