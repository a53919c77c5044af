-- ===== src/Warden/Gateway/Named.antt =====
-- What every publication of the gateway has, at every moment.
use mqttraffic_warden.Common.{◌≡◌, ◌∙◌, Bool, [], Text, All, ok}
use mqttraffic_warden.Json.{JsonOps, FloatOps, JsonLaws}
use mqttraffic_warden.Queue.{QueueOps, QueueLaws}
use mqttraffic_warden.Warden.Startup.{Initialised, init}
use mqttraffic_warden.Warden.Startup.Topics.{init-AllTopics}
use mqttraffic_warden.Warden.Pipeline.{Message, Work}
use mqttraffic_warden.Warden.Pipeline.Schedule.{run}
use mqttraffic_warden.Warden.Pipeline.Owed.{owed, owed_of_idle, IsIdle}
use mqttraffic_warden.Warden.Pipeline.Named.{IsNamed, run-IsNamed}
use mqttraffic_warden.Warden.Gateway.{Gateway, Moves}
use mqttraffic_warden.Warden.Gateway.Runs.{schedule}

module _ {J F D M W : Type 0} (json : JsonOps J F D) (floats : FloatOps F D)
    (messages : QueueOps (Message J) M) (works : QueueOps (Work J) W) (matches : Text → Text → Bool)
    (laws : JsonLaws json) (mlaws : QueueLaws messages) (wlaws : QueueLaws works) where
  -- With the routes of a configuration for which `init` ends well, and from threads that are idle and
  -- have published nothing: whatever the Paho client reports, the broker delivers and the threads do, also
  -- if an exception ends the process, each publication so far has a topic that is not empty, the QoS 2, and
  -- is not retained.
  pub published-IsNamed :
      (accepts : Text → Text → Bool) (config : J) (s : Initialised) (g h : Gateway J M W)
      → init json accepts config ≡ ok s
      → IsIdle json floats s.routes messages works g.pipeline
      → g.pipeline.published ≡ []
      → Moves json floats messages works s.routes matches g h
      → All IsNamed h.pipeline.published
  published-IsNamed accepts config s g h e i none_yet ms =
      let plan = schedule json floats messages works s.routes matches ms in
      let nothing_owed : owed json floats s.routes messages works g.pipeline ≡ [] =
        owed_of_idle json floats s.routes messages works g.pipeline i ∙ none_yet in
      let named : All IsNamed
          (run json floats messages works s.routes plan.events g.pipeline).published =
        run-IsNamed json floats s.routes messages works mlaws wlaws plan.events g.pipeline
          (init-AllTopics json laws accepts config s e) (rw nothing_owed tt) in
      rw (plan.same_state) at named
